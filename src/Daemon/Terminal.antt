-- ===== src/Daemon/Terminal.antt =====
-- crates/vb-daemon/src/lib.rs: the VT100 buffer of an agent, the fields `terminal_buffer` and
-- `terminal_buffer_len` of `RegisteredAgent`, and the methods that use them.
pub mod Tail
use vibe_bridge.Base.{
  ℕ, ◌+◌, ◌-◌, ◌*◌, List, [], ◌∷◌, ◌++◌, length, drop, is_empty, ltb, leb, if◌then◌else◌,
}

abbrev pub vt100_buffer_bytes : ℕ
vt100_buffer_bytes = 64 * 1024

pub record TerminalBuffer : Type 0 where
  pub buffer : List (List ℕ)
  pub buffer_len : ℕ

abbrev pub empty_terminal : TerminalBuffer
empty_terminal = record { buffer = []; buffer_len = 0 }

-- The loop `while terminal_buffer_len > VT100_BUFFER_BYTES`. After `front.drain(..overflow)` the
-- length is the limit, so that the loop's test fails: the branch ends the loop.
unfoldable pub drop_front : List (List ℕ) → ℕ → TerminalBuffer
drop_front [] len =
    if ltb vt100_buffer_bytes len then empty_terminal else record { buffer = []; buffer_len = len }
drop_front (front ∷ rest) len =
    let popped = drop_front rest (len - length front) in
    let overflow = len - vt100_buffer_bytes in
    if ltb vt100_buffer_bytes len
    then if leb (length front) overflow
      then popped
      else record { buffer = drop overflow front ∷ rest; buffer_len = len - overflow }
    else record { buffer = front ∷ rest; buffer_len = len }

-- `append_terminal_bytes`.
unfoldable pub append_terminal_bytes : TerminalBuffer → List ℕ → TerminalBuffer
append_terminal_bytes t bytes =
    if is_empty bytes
    then t
    else if leb vt100_buffer_bytes (length bytes)
    then record {
      buffer = drop (length bytes - vt100_buffer_bytes) bytes ∷ [];
      buffer_len = vt100_buffer_bytes;
    }
    else drop_front (t.buffer ++ (bytes ∷ [])) (t.buffer_len + length bytes)

-- `terminal_snapshot`.
unfoldable pub concat : List (List ℕ) → List ℕ
concat [] = []
concat (chunk ∷ chunks) = chunk ++ concat chunks

unfoldable pub terminal_snapshot : TerminalBuffer → List ℕ
terminal_snapshot t = concat t.buffer
