-- ===== src/Protocol/Codec/RoundTrip.antt =====
-- The wire format behind `encode` and `decode` of crates/vb-protocol/src/codec.rs.
use vibe_bridge.Base.{
  ℕ, ◌+◌, ◌-◌, ◌/◌, ◌%◌, ◌^◌, ◌≤◌, ◌<◌, ◌≡◌, refl, ap, ◌∙◌, List, [], ◌∷◌, ◌++◌, some, length, take,
  drop, replicate, from_le_bytes, length-append, ltb→lt, Bool-cases, ◌⊎◌, inl, inr,
  length-replicate, take-append, drop-append_add, drop-replicate, take-append-drop, length-take,
  from_le_bytes-to_le_bytes, IsBytes, arith, ltb, Option-cases,
}
use vibe_bridge.Protocol.{Cmd, cmd_byte, from_u8, from_u8_iff}
use vibe_bridge.Protocol.Codec.{
  HidFrame, ok, err, payload_too_large, fill_report, encode, decode_body, decode,
}

-- The format: report id, command, session id and payload length, both little-endian, payload.
abbrev pub wire : HidFrame → List ℕ
wire f =
    f.report_id
    ∷ cmd_byte f.cmd
    ∷ (f.sid % 256)
    ∷ (f.sid / 256 % 256)
    ∷ (length f.payload % 256)
    ∷ (length f.payload / 256 % 256)
    ∷ f.payload

fill_tail :
    (a b c d e g : ℕ) (p : List ℕ)
    → drop (6 + length p) (a ∷ b ∷ c ∷ d ∷ e ∷ g ∷ replicate 58 0) ≡ replicate (58 - length p) 0
fill_tail a b c d e g p =
    drop-append_add (6 + length p) (length p) (a ∷ b ∷ c ∷ d ∷ e ∷ g ∷ []) (replicate 58 0)
      (omega arith)
    ∙ drop-replicate (length p) 58 0

fill_report-wire :
    (f : HidFrame)
    → length f.payload ≤ 58
    → fill_report f ≡ wire f ++ replicate (58 - length f.payload) 0
unfolding fill_report
fill_report-wire f fits =
    let small : length f.payload % 2 ^ 16 ≡ length f.payload = omega arith in
    rw small (
      ap
        (λ t.
          f.report_id
          ∷ cmd_byte f.cmd
          ∷ (f.sid % 256)
          ∷ (f.sid / 256 % 256)
          ∷ (length f.payload % 256)
          ∷ (length f.payload / 256 % 256)
          ∷ (f.payload ++ t))
        (fill_tail f.report_id (cmd_byte f.cmd) (f.sid % 256) (f.sid / 256 % 256)
          (length f.payload % 256) (length f.payload / 256 % 256) f.payload))

-- A payload that fits is written in the wire format, padded with zeros to the report's 64 bytes;
-- a longer one is refused.
pub encode_cases :
    (f : HidFrame)
    → ((length f.payload ≤ 58) × (encode f ≡ ok (wire f ++ replicate (58 - length f.payload) 0)))
      ⊎ ((58 < length f.payload) × (encode f ≡ err payload_too_large))
unfolding encode
encode_cases f = elim (Bool-cases (ltb 58 (length f.payload))) [
  | inl long ↦ inr (ltb→lt _ _ long, rw long)
  | inr short ↦
      let fits : length f.payload ≤ 58 = ground arith in
      inl (fits, rw short (ap ok (fill_report-wire f fits)))
]

-- `decode` reads a frame from the front of its wire format, and ignores what follows.
pub decode-wire :
    (f : HidFrame) (rest : List ℕ)
    → f.sid < 2 ^ 16
    → length f.payload < 2 ^ 16
    → decode (wire f ++ rest) ≡ ok f
unfolding decode decode_body
decode-wire f rest sid_ok len_ok = ground (
  arith,
  (from_u8_iff (cmd_byte f.cmd) f.cmd).1 refl,
  from_le_bytes-to_le_bytes 2 f.sid sid_ok,
  from_le_bytes-to_le_bytes 2 (length f.payload) len_ok,
  length-append f.payload rest,
  take-append (6 + length f.payload - 6) f.payload rest (omega arith),
)

-- A frame that fits is read back from its report.
pub decode-encode :
    (f : HidFrame) {report : List ℕ}
    → f.sid < 2 ^ 16
    → encode f ≡ ok report
    → (length report ≡ 64) × (decode report ≡ ok f)
decode-encode f {report} sid_ok e = elim (encode_cases f) [
  | inl (fits, written) ↦
      let zeros : ℕ = 0 in
      let same : report ≡ wire f ++ replicate (58 - length f.payload) 0 = cc in
      rw same (
        omega (
          arith,
          length-append (wire f) (replicate (58 - length f.payload) 0),
          length-replicate (58 - length f.payload) zeros,
        ),
        decode-wire f (replicate (58 - length f.payload) 0) sid_ok (omega arith),
      )
  | inr (_, refused) ↦ cc
]

-- The frame that `decode` makes of six bytes and the rest.
abbrev frame_of : ℕ → Cmd → ℕ → ℕ → ℕ → ℕ → List ℕ → HidFrame
frame_of a k s t l m r = record {
  report_id = a;
  cmd = k;
  sid = from_le_bytes (s ∷ t ∷ []);
  payload = take (from_le_bytes (l ∷ m ∷ [])) r;
}

decode_inv :
    (a c s t l m : ℕ) (r : List ℕ) (f : HidFrame)
    → decode (a ∷ c ∷ s ∷ t ∷ l ∷ m ∷ r) ≡ ok f
    → (k : Cmd) × (from_u8 c ≡ some k)
      × (from_le_bytes (l ∷ m ∷ []) ≤ length r)
      × (f ≡ frame_of a k s t l m r)
unfolding decode decode_body
decode_inv a c s t l m r f e = elim (Option-cases (from_u8 c)) [
  | inl unknown ↦ ground arith
  | inr (k, known) ↦
      let n : ℕ = from_le_bytes (l ∷ m ∷ []) in
      let same : 6 + n - 6 ≡ n = omega arith in
      (k, known, ground arith, ground (arith, ap (λ i. take i r) same))
]

frame_of-wire :
    (a c s t l m : ℕ) (r : List ℕ) (k : Cmd)
    → IsBytes (a ∷ c ∷ s ∷ t ∷ l ∷ m ∷ [])
    → c ≡ cmd_byte k
    → from_le_bytes (l ∷ m ∷ []) ≤ length r
    → a ∷ c ∷ s ∷ t ∷ l ∷ m ∷ r
      ≡ wire (frame_of a k s t l m r)
        ++ drop (6 + length (frame_of a k s t l m r).payload) (a ∷ c ∷ s ∷ t ∷ l ∷ m ∷ r)
frame_of-wire a c s t l m r k b known fits =
    let n : ℕ = from_le_bytes (l ∷ m ∷ []) in
    let taken : length (take n r) ≡ n = omega (arith, length-take n r) in
    let rest : drop (6 + length (take n r)) (a ∷ c ∷ s ∷ t ∷ l ∷ m ∷ r) ≡ drop n r =
      drop-append_add (6 + length (take n r)) n (a ∷ c ∷ s ∷ t ∷ l ∷ m ∷ []) r (omega arith) in
    let s_eq : from_le_bytes (s ∷ t ∷ []) % 256 ≡ s = omega arith in
    let t_eq : from_le_bytes (s ∷ t ∷ []) / 256 % 256 ≡ t = omega arith in
    let l_eq : length (take n r) % 256 ≡ l = omega arith in
    let m_eq : length (take n r) / 256 % 256 ≡ m = omega arith in
    cc (rest, s_eq, t_eq, l_eq, m_eq, take-append-drop n r)

-- The bytes that `decode` accepts are a frame in the wire format, perhaps with more behind it.
pub decode_sound :
    (bytes : List ℕ) (f : HidFrame)
    → IsBytes bytes
    → decode bytes ≡ ok f
    → (bytes ≡ wire f ++ drop (6 + length f.payload) bytes) × (f.sid < 2 ^ 16)
unfolding decode decode_body
decode_sound [] f b e = cc
decode_sound (a ∷ []) f b e = cc
decode_sound (a ∷ c ∷ []) f b e = cc
decode_sound (a ∷ c ∷ s ∷ []) f b e = cc
decode_sound (a ∷ c ∷ s ∷ t ∷ []) f b e = cc
decode_sound (a ∷ c ∷ s ∷ t ∷ l ∷ []) f b e = cc
decode_sound (a ∷ c ∷ s ∷ t ∷ l ∷ m ∷ r) f b e =
    let (k, known, fits, made) = decode_inv a c s t l m r f e in
    rw made
      (frame_of-wire a c s t l m r k (omega arith) ((from_u8_iff c k).0 known) fits, omega arith)
