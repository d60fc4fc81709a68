-- ===== src/Protocol/Split.antt =====
-- crates/vb-protocol/src/codec.rs: `split_host_to_board`, which cuts a long payload into frames.
pub mod Reassembly
use vibe_bridge.Base.{
  ℕ, zero, suc, List, [], ◌∷◌, ◌++◌, length, take, drop, map, if◌then◌else◌, is_empty,
}
use vibe_bridge.Protocol.{Cmd, hid_max_payload, report_id_device_bound}
use vibe_bridge.Protocol.Codec.{HidFrame}

-- `xs.chunks(n)`, where the fuel is the length of `xs`: a chunk takes an element at least.
chunks_fuel : ℕ → ℕ → List ℕ → List (List ℕ)
chunks_fuel fuel n [] = []
chunks_fuel zero n (x ∷ xs) = []
chunks_fuel (suc fuel) n (x ∷ xs) = take n (x ∷ xs) ∷ chunks_fuel fuel n (drop n (x ∷ xs))

unfoldable pub chunks : ℕ → List ℕ → List (List ℕ)
unfolding chunks_fuel
chunks n xs = chunks_fuel (length xs) n xs

abbrev pub frame_to_board : Cmd → ℕ → List ℕ → HidFrame
frame_to_board cmd sid chunk = record {
  report_id = report_id_device_bound;
  cmd = cmd;
  sid = sid;
  payload = chunk;
}

unfoldable pub split_host_to_board : Cmd → ℕ → List ℕ → List HidFrame
split_host_to_board cmd sid payload =
    if is_empty payload
    then frame_to_board cmd sid [] ∷ []
    else map (frame_to_board cmd sid) (chunks hid_max_payload payload)
