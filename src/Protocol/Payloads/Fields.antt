-- ===== src/Protocol/Payloads/Fields.antt =====
-- PERMISSION_REQ and AGENT_META of crates/vb-protocol/src/payloads.rs: two text fields in a frame.
use vibe_bridge.Base.{
  ℕ, ◌+◌, ◌-◌, ◌%◌, ◌^◌, ◌≤◌, ◌<◌, ◌≡◌, refl, ap, ◌∙◌, true, false, ◌&&◌, List, [], ◌∷◌, ◌++◌, none,
  some, Text, length, take, min, length-take, length-append, to_le_bytes, from_le_bytes-to_le_bytes,
  take-all, take-append, drop-append, is_utf8, is_char_boundary, arith, if◌then◌else◌,
  drop-append_add,
}
use vibe_bridge.Base.Utf8.{is_utf8-take}
use vibe_bridge.Protocol.Payloads.{
  encode_permission_request, decode_permission_request, encode_agent_meta, decode_agent_meta,
}

-- The parts of the two texts that a PERMISSION_REQ carries.
abbrev pub sent_tool : Text → Text
sent_tool tool = take (min (length tool) 24) tool

abbrev pub sent_args : Text → Text → Text
sent_args tool args = take (min (length args) (49 - length (sent_tool tool))) args

-- The parts that an AGENT_META carries; 16 bytes are kept for the branch if it is that long.
abbrev pub sent_cwd : Text → Text → Text
sent_cwd cwd branch = take (min (length cwd) (56 - min (length branch) 16)) cwd

abbrev pub sent_branch : Text → Text → Text
sent_branch cwd branch = take (min (length branch) (56 - length (sent_cwd cwd branch))) branch

encode_permission_request-layout :
    (req_id : ℕ) (tool args : Text)
    → encode_permission_request req_id tool args
      ≡ to_le_bytes 8 req_id ++ (length (sent_tool tool) ∷ (sent_tool tool ++ sent_args tool args))
unfolding encode_permission_request
encode_permission_request-layout req_id tool args =
    let n : ℕ = min (length tool) 24 in
    let cut : n % 256 ≡ length (take n tool) = omega (arith, length-take n tool) in
    let buf : List ℕ = to_le_bytes 8 req_id ++ (n % 256 ∷ take n tool) in
    let room : 58 - length buf ≡ 49 - length (take n tool) = omega arith in rw (room, cut)

decode_permission_request-layout :
    (req_id : ℕ) (t a : Text)
    → req_id < 2 ^ 64
    → decode_permission_request (to_le_bytes 8 req_id ++ (length t ∷ (t ++ a)))
      ≡ (if is_utf8 t && is_utf8 a then some (req_id, t, a) else none)
unfolding decode_permission_request
decode_permission_request-layout req_id t a h = ground (
  arith,
  from_le_bytes-to_le_bytes 8 req_id h,
  length-append t a,
  take-append (9 + length t - 9) t a (omega arith),
  drop-append_add (9 + length t) (length t) (to_le_bytes 8 req_id ++ (length t ∷ [])) (t ++ a),
  drop-append (length t) t a refl,
)

-- Any request fits a frame, and decodes to the request id with the first 24 bytes of the tool and
-- what fits of the arguments, if both cuts leave valid UTF-8, and to nothing otherwise.
pub decode-encode_permission_request :
    (req_id : ℕ) (tool args : Text)
    → req_id < 2 ^ 64
    → (length (encode_permission_request req_id tool args) ≤ 58)
      × (decode_permission_request (encode_permission_request req_id tool args) ≡ (
          if is_utf8 (sent_tool tool) && is_utf8 (sent_args tool args)
          then some (req_id, sent_tool tool, sent_args tool args)
          else none))
decode-encode_permission_request req_id tool args h =
    let n : ℕ = min (length tool) 24 in
    let m : ℕ = min (length args) (49 - length (take n tool)) in
    rw (encode_permission_request-layout req_id tool args) (
      omega (
        arith,
        length-append (sent_tool tool) (sent_args tool args),
        length-take n tool,
        length-take m args,
      ),
      decode_permission_request-layout req_id (sent_tool tool) (sent_args tool args) h,
    )

-- A request whose fields are valid UTF-8 and fit (24 bytes of tool, 49 bytes of both) is read back
-- whole.
pub permission_request_short :
    (req_id : ℕ) (tool args : Text)
    → req_id < 2 ^ 64
    → length tool ≤ 24
    → length tool + length args ≤ 49
    → is_utf8 tool ≡ true
    → is_utf8 args ≡ true
    → decode_permission_request (encode_permission_request req_id tool args)
      ≡ some (req_id, tool, args)
permission_request_short req_id tool args h short fits tool_ok args_ok =
    let tool_all : sent_tool tool ≡ tool = take-all _ tool (omega arith) in
    let args_all : sent_args tool args ≡ args =
      take-all _ args (omega (arith, ap length tool_all)) in
    rw (
      (decode-encode_permission_request req_id tool args h).1,
      args_all,
      tool_all,
      tool_ok,
      args_ok,
    )

-- A tool name in valid UTF-8 whose 24th and 25th byte belong to one character is cut within that
-- character, and the payload is then no request to `decode_permission_request`.
pub permission_request_broken :
    (req_id : ℕ) (tool args : Text)
    → req_id < 2 ^ 64
    → is_utf8 tool ≡ true
    → 24 < length tool
    → is_char_boundary 24 tool ≡ false
    → decode_permission_request (encode_permission_request req_id tool args) ≡ none
permission_request_broken req_id tool args h valid long inside =
    let n : min (length tool) 24 ≡ 24 = omega arith in
    let bad : is_utf8 (sent_tool tool) ≡ false =
      ap (λ k. is_utf8 (take k tool)) n ∙ is_utf8-take 24 tool (omega arith) valid ∙ inside in
    rw ((decode-encode_permission_request req_id tool args h).1, bad)

encode_agent_meta-layout :
    (kind : ℕ) (cwd branch : Text)
    → encode_agent_meta kind cwd branch
      ≡ kind ∷ length (sent_cwd cwd branch) ∷ (sent_cwd cwd branch ++ sent_branch cwd branch)
unfolding encode_agent_meta
encode_agent_meta-layout kind cwd branch =
    let n : ℕ = min (length cwd) (56 - min (length branch) 16) in
    let plain : min (min (length cwd) (58 - (2 + min (length branch) 16))) 255 ≡ n = omega arith in
    let cut : n % 256 ≡ length (take n cwd) = omega (arith, length-take n cwd) in
    let buf : List ℕ = kind ∷ n % 256 ∷ take n cwd in
    let room : 58 - length buf ≡ 56 - length (take n cwd) = omega arith in rw (plain, room, cut)

decode_agent_meta-layout :
    (kind : ℕ) (c b : Text)
    → decode_agent_meta (kind ∷ length c ∷ (c ++ b))
      ≡ (if is_utf8 c && is_utf8 b then some (kind, c, b) else none)
unfolding decode_agent_meta
decode_agent_meta-layout kind c b = ground (
  arith,
  length-append c b,
  take-append (2 + length c - 2) c b (omega arith),
  drop-append_add (2 + length c) (length c) (kind ∷ length c ∷ []) (c ++ b),
  drop-append (length c) c b refl,
)

-- Any metadata fits a frame, and decodes to the kind with the parts of directory and branch that
-- were sent, if both cuts leave valid UTF-8, and to nothing otherwise.
pub decode-encode_agent_meta :
    (kind : ℕ) (cwd branch : Text)
    → (length (encode_agent_meta kind cwd branch) ≤ 58)
      × (decode_agent_meta (encode_agent_meta kind cwd branch) ≡ (
          if is_utf8 (sent_cwd cwd branch) && is_utf8 (sent_branch cwd branch)
          then some (kind, sent_cwd cwd branch, sent_branch cwd branch)
          else none))
decode-encode_agent_meta kind cwd branch =
    let n : ℕ = min (length cwd) (56 - min (length branch) 16) in
    let m : ℕ = min (length branch) (56 - length (take n cwd)) in
    rw (encode_agent_meta-layout kind cwd branch) (
      omega (
        arith,
        length-append (sent_cwd cwd branch) (sent_branch cwd branch),
        length-take n cwd,
        length-take m branch,
      ),
      decode_agent_meta-layout kind (sent_cwd cwd branch) (sent_branch cwd branch),
    )
