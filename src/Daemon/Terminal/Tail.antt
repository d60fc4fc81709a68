-- ===== src/Daemon/Terminal/Tail.antt =====
-- The VT100 buffer of crates/vb-daemon/src/lib.rs as the tail of the stream.
use vibe_bridge.Base.{
  ℕ, ◌+◌, ◌-◌, ◌≤◌, ◌<◌, ◌≡◌, refl, sym, ap, subst, ◌∙◌, inl, inr, List, [], ◌∷◌, ◌++◌, length,
  take, drop, take_last, take-append-drop, length-take, length-append, length-drop, drop-append_add,
  drop-append_le, append-nil, append_assoc, ltb, leb, Bool-cases, ltb→lt, leb→le, arith,
}
use vibe_bridge.Daemon.Terminal.{
  TerminalBuffer, vt100_buffer_bytes, drop_front, append_terminal_bytes, concat, terminal_snapshot,
  empty_terminal,
}

-- The stored length is the number of bytes held, and that is within the limit.
pub record IsTerminal (t : TerminalBuffer) : Type 0 where
  pub counted : t.buffer_len ≡ length (terminal_snapshot t)
  pub within : t.buffer_len ≤ vt100_buffer_bytes

-- The buffer holds the last 64 KiB of a stream.
pub record Holds (t : TerminalBuffer) (stream : List ℕ) : Type 0 where
  pub tail : terminal_snapshot t ≡ take_last vt100_buffer_bytes stream
  pub valid : IsTerminal t

concat-append : (xs ys : List (List ℕ)) → concat (xs ++ ys) ≡ concat xs ++ concat ys
unfolding concat
concat-append [] ys = refl
concat-append (x ∷ xs) ys = rw (concat-append xs ys, append_assoc)

shorter :
    (front : List ℕ) (rest : List (List ℕ)) (len : ℕ)
    → len ≡ length (concat (front ∷ rest))
    → len - length front ≡ length (concat rest)
unfolding concat
shorter front rest len h = omega (arith, length-append front (concat rest))

keep-Holds :
    (chunks : List (List ℕ)) (len : ℕ)
    → len ≡ length (concat chunks)
    → len ≤ vt100_buffer_bytes
    → Holds (record { buffer = chunks; buffer_len = len }) (concat chunks)
unfolding terminal_snapshot
keep-Holds chunks len counted within =
    let none_over : length (concat chunks) - vt100_buffer_bytes ≡ 0 = omega arith in
    record {
      tail = ap (λ n. drop n (concat chunks)) (sym none_over);
      valid = record { counted = counted; within = within };
    }

pop-Holds :
    (front : List ℕ) (rest : List (List ℕ)) {t : TerminalBuffer}
    → length front ≤ length (concat (front ∷ rest)) - vt100_buffer_bytes
    → Holds t (concat rest)
    → Holds t (concat (front ∷ rest))
unfolding concat
pop-Holds front rest {t} over h = record {
  tail =
      h.tail
      ∙ sym (
          drop-append_add (length (front ++ concat rest) - vt100_buffer_bytes)
            (length (concat rest) - vt100_buffer_bytes) front (concat rest)
            (omega (arith, length-append front (concat rest))));
  valid = h.valid;
}

drain-Holds :
    (front : List ℕ) (rest : List (List ℕ)) (len : ℕ)
    → len ≡ length (concat (front ∷ rest))
    → vt100_buffer_bytes < len
    → len - vt100_buffer_bytes < length front
    → Holds
        (record {
          buffer = drop (len - vt100_buffer_bytes) front ∷ rest;
          buffer_len = len - (len - vt100_buffer_bytes);
        })
        (concat (front ∷ rest))
unfolding concat terminal_snapshot
drain-Holds front rest len counted over inside =
    let n : ℕ = len - vt100_buffer_bytes in
    let same : length (front ++ concat rest) - vt100_buffer_bytes ≡ n = omega arith in
    record {
      tail =
          sym (drop-append_le n front (concat rest) (omega arith))
          ∙ ap (λ k. drop k (front ++ concat rest)) (sym same);
      valid = record {
        counted = omega (
          arith,
          length-append (drop n front) (concat rest),
          length-append front (concat rest),
          length-drop n front,
        );
        within = omega arith;
      };
    }

drop_front-Holds :
    (chunks : List (List ℕ)) (len : ℕ)
    → len ≡ length (concat chunks)
    → Holds (drop_front chunks len) (concat chunks)
unfolding drop_front concat
drop_front-Holds [] len h =
    let empty : len ≡ 0 = unfold concat in h in rw empty (keep-Holds [] 0 refl (omega arith))
drop_front-Holds (front ∷ rest) len h = elim (Bool-cases (ltb vt100_buffer_bytes len)) [
  | inr fits ↦ rw fits (keep-Holds (front ∷ rest) len h (ground arith))
  | inl over ↦ elim (Bool-cases (leb (length front) (len - vt100_buffer_bytes))) [
    | inl whole ↦
        rw (over, whole)
          (pop-Holds front rest (ground arith)
            (drop_front-Holds rest (len - length front) (shorter front rest len h)))
    | inr part ↦ rw (over, part) (drain-Holds front rest len h (ltb→lt _ _ over) (ground arith))
  ]
]

-- One chunk as long as the limit replaces all that was held.
replace-Holds :
    (stream bytes : List ℕ)
    → vt100_buffer_bytes ≤ length bytes
    → Holds
        (record {
          buffer = drop (length bytes - vt100_buffer_bytes) bytes ∷ [];
          buffer_len = vt100_buffer_bytes;
        })
        (stream ++ bytes)
unfolding concat terminal_snapshot
replace-Holds stream bytes long =
    let n : ℕ = length bytes - vt100_buffer_bytes in
    record {
      tail =
          append-nil (drop n bytes)
          ∙ sym (
              drop-append_add (length (stream ++ bytes) - vt100_buffer_bytes) n stream bytes
                (omega (arith, length-append stream bytes)));
      valid = record {
        counted = omega (arith, length-append (drop n bytes) [], length-drop n bytes);
        within = omega arith;
      };
    }

snapshot-push :
    (t : TerminalBuffer) (bytes : List ℕ)
    → concat (t.buffer ++ (bytes ∷ [])) ≡ terminal_snapshot t ++ bytes
unfolding concat terminal_snapshot
snapshot-push t bytes =
    concat-append t.buffer (bytes ∷ []) ∙ ap (◌++◌ (concat t.buffer)) (append-nil bytes)

push-Holds :
    (t : TerminalBuffer) (bytes : List ℕ)
    → IsTerminal t
    → Holds
        (drop_front (t.buffer ++ (bytes ∷ [])) (t.buffer_len + length bytes))
        (terminal_snapshot t ++ bytes)
push-Holds t bytes v =
    subst (Holds (drop_front (t.buffer ++ (bytes ∷ [])) (t.buffer_len + length bytes)))
      (snapshot-push t bytes)
      (drop_front-Holds (t.buffer ++ (bytes ∷ [])) (t.buffer_len + length bytes) (
        omega (
          arith,
          v.counted,
          ap length (snapshot-push t bytes),
          length-append (terminal_snapshot t) bytes,
        )))

-- Appending to a valid buffer, in one piece or many, keeps exactly the last 64 KiB of what was held
-- followed by the new bytes, and the buffer valid; so does appending nothing.
pub append_terminal_bytes-Holds :
    (t : TerminalBuffer) (bytes : List ℕ)
    → IsTerminal t
    → Holds (append_terminal_bytes t bytes) (terminal_snapshot t ++ bytes)
unfolding append_terminal_bytes
append_terminal_bytes-Holds t [] v =
    rw (append-nil (terminal_snapshot t))
      (unfold terminal_snapshot in keep-Holds t.buffer t.buffer_len v.counted v.within)
append_terminal_bytes-Holds t (b ∷ bytes) v =
    elim (Bool-cases (leb vt100_buffer_bytes (length (b ∷ bytes)))) [
      | inl long ↦ rw long (replace-Holds (terminal_snapshot t) (b ∷ bytes) (leb→le _ _ long))
      | inr short ↦ rw short (push-Holds t (b ∷ bytes) v)
    ]

-- The tail of a stream is known from the tail of its front.
take_last-append :
    (n : ℕ) (xs ys : List ℕ) → take_last n (take_last n xs ++ ys) ≡ take_last n (xs ++ ys)
take_last-append n xs ys =
    let k : ℕ = length xs - n in
    let d : List ℕ = drop k xs in
    let j : ℕ = length (d ++ ys) - n in
    let m : ℕ = length (xs ++ ys) - n in
    let whole : take k xs ++ (d ++ ys) ≡ xs ++ ys =
      sym (append_assoc (take k xs) d ys) ∙ ap (λ s. s ++ ys) (take-append-drop k xs) in
    let cut : drop m (take k xs ++ (d ++ ys)) ≡ drop j (d ++ ys) =
      drop-append_add m j (take k xs) (d ++ ys) (
        omega
          (arith, length-append d ys, length-append xs ys, length-drop k xs, length-take k xs)) in
    sym cut ∙ ap (drop m) whole

-- The buffer after a list of appends.
unfoldable pub append_all : TerminalBuffer → List (List ℕ) → TerminalBuffer
append_all t [] = t
append_all t (bytes ∷ more) = append_all (append_terminal_bytes t bytes) more

append_all-Holds :
    (t : TerminalBuffer) (stream : List ℕ) (chunks : List (List ℕ))
    → Holds t stream
    → Holds (append_all t chunks) (stream ++ concat chunks)
unfolding append_all concat
append_all-Holds t stream [] h = rw append-nil h
append_all-Holds t stream (bytes ∷ more) h =
    let step = append_terminal_bytes-Holds t bytes h.valid in
    let next : Holds (append_terminal_bytes t bytes) (stream ++ bytes) = record {
      tail =
          step.tail
          ∙ ap (λ s. take_last vt100_buffer_bytes (s ++ bytes)) h.tail
          ∙ take_last-append vt100_buffer_bytes stream bytes;
      valid = step.valid;
    } in
    rw (← append_assoc stream bytes (concat more))
      (append_all-Holds (append_terminal_bytes t bytes) (stream ++ bytes) more next)

-- Whatever chunks a terminal sent, of any sizes, the buffer that they leave holds exactly the last
-- 64 KiB of them, and its stored length is the number of bytes held.
pub append_all_tail :
    (chunks : List (List ℕ)) → Holds (append_all empty_terminal chunks) (concat chunks)
unfolding concat
append_all_tail chunks =
    append_all-Holds empty_terminal [] chunks (keep-Holds [] 0 refl (omega arith))

pub empty_terminal-IsTerminal : IsTerminal empty_terminal
unfolding terminal_snapshot concat
empty_terminal-IsTerminal = record { counted = refl; within = omega arith }
