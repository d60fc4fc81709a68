-- ===== src/Protocol/Split/Reassembly.antt =====
-- What the board can rely on about the frames of `split_host_to_board`.
use vibe_bridge.Base.{
  ℕ, zero, suc, ◌+◌, ◌/◌, ◌≤◌, ◌<◌, ◌≡◌, refl, ap, ◌∙◌, List, [], ◌∷◌, ◌++◌, map, length, take,
  drop, All, length-take, length-drop, take-append-drop, arith,
}
use vibe_bridge.Protocol.{Cmd}
use vibe_bridge.Protocol.Codec.{HidFrame}
use vibe_bridge.Protocol.Split.{chunks_fuel, chunks, frame_to_board, split_host_to_board}

-- The payloads one after the other, as the board appends them.
abbrev pub joined : List HidFrame → List ℕ
joined [] = []
joined (f ∷ fs) = f.payload ++ joined fs

-- Every frame but the last is full, and no frame is empty or overfull.
abbrev pub Packed : List HidFrame → Type 0
Packed [] = Unit {0}
Packed (f ∷ []) = (1 ≤ length f.payload) × (length f.payload ≤ 58)
Packed (f ∷ g ∷ fs) = (length f.payload ≡ 58) × Packed (g ∷ fs)

-- A frame of the message: device bound, with its command and session id.
abbrev pub IsPartOf : Cmd → ℕ → HidFrame → Type 0
IsPartOf cmd sid f = (f.report_id ≡ 0x20) × (f.cmd ≡ cmd) × (f.sid ≡ sid)

joined-chunks :
    (cmd : Cmd) (sid fuel n : ℕ) (xs : List ℕ)
    → length xs ≤ fuel
    → joined (map (frame_to_board cmd sid) (chunks_fuel fuel (suc n) xs)) ≡ xs
unfolding chunks_fuel
joined-chunks cmd sid fuel n [] h = refl
joined-chunks cmd sid zero n (x ∷ xs) h = absurd (omega arith)
joined-chunks cmd sid (suc fuel) n (x ∷ xs) h =
    ap (◌++◌ (take (suc n) (x ∷ xs)))
      (joined-chunks cmd sid fuel n (drop n xs) (omega (arith, length-drop n xs)))
    ∙ take-append-drop (suc n) (x ∷ xs)

parts-chunks :
    (cmd : Cmd) (sid : ℕ) (cs : List (List ℕ))
    → All (IsPartOf cmd sid) (map (frame_to_board cmd sid) cs)
parts-chunks cmd sid [] = tt
parts-chunks cmd sid (c ∷ cs) = ((refl, refl, refl), parts-chunks cmd sid cs)

Packed-cons :
    (cmd : Cmd) (sid fuel : ℕ) (c rest : List ℕ)
    → length rest ≤ fuel
    → (1 ≤ length c) × (length c ≤ 58)
    → (0 < length rest → length c ≡ 58)
    → Packed (map (frame_to_board cmd sid) (chunks_fuel fuel 58 rest))
    → Packed (frame_to_board cmd sid c ∷ map (frame_to_board cmd sid) (chunks_fuel fuel 58 rest))
unfolding chunks_fuel
Packed-cons cmd sid fuel c [] h within full p = within
Packed-cons cmd sid zero c (x ∷ rest) h within full p = absurd (omega arith)
Packed-cons cmd sid (suc fuel) c (x ∷ rest) h within full p = (full (omega arith), p)

Packed-chunks :
    (cmd : Cmd) (sid fuel : ℕ) (xs : List ℕ)
    → length xs ≤ fuel
    → Packed (map (frame_to_board cmd sid) (chunks_fuel fuel 58 xs))
unfolding chunks_fuel
Packed-chunks cmd sid fuel [] h = tt
Packed-chunks cmd sid zero (x ∷ xs) h = absurd (omega arith)
Packed-chunks cmd sid (suc fuel) (x ∷ xs) h =
    let shorter : length (drop 57 xs) ≤ fuel = omega (arith, length-drop 57 xs) in
    Packed-cons cmd sid fuel (take 58 (x ∷ xs)) (drop 57 xs) shorter
      (omega (arith, length-take 58 (x ∷ xs)), omega (arith, length-take 58 (x ∷ xs)))
      (λ more. omega (arith, length-take 58 (x ∷ xs), length-drop 57 xs))
      (Packed-chunks cmd sid fuel (drop 57 xs) shorter)

length-chunks :
    (fuel : ℕ) (xs : List ℕ)
    → length xs ≤ fuel
    → length (chunks_fuel fuel 58 xs) ≡ (length xs + 57) / 58
unfolding chunks_fuel
length-chunks fuel [] h = omega arith
length-chunks zero (x ∷ xs) h = absurd (omega arith)
length-chunks (suc fuel) (x ∷ xs) h =
    omega
      (arith, length-chunks fuel (drop 57 xs) (omega (arith, length-drop 57 xs)), length-drop 57 xs)

length-map-frame :
    (cmd : Cmd) (sid : ℕ) (cs : List (List ℕ))
    → length (map (frame_to_board cmd sid) cs) ≡ length cs
length-map-frame cmd sid [] = refl
length-map-frame cmd sid (c ∷ cs) = ap suc (length-map-frame cmd sid cs)

-- Joined in order, the frames' payloads are the message's payload, whatever its length.
pub split-joined :
    (cmd : Cmd) (sid : ℕ) (payload : List ℕ)
    → joined (split_host_to_board cmd sid payload) ≡ payload
unfolding split_host_to_board chunks
split-joined cmd sid [] = refl
split-joined cmd sid (x ∷ xs) = joined-chunks cmd sid (length (x ∷ xs)) 57 (x ∷ xs) (omega arith)

-- Each frame is device bound and carries the message's command and session id.
pub split-IsPartOf :
    (cmd : Cmd) (sid : ℕ) (payload : List ℕ)
    → All (IsPartOf cmd sid) (split_host_to_board cmd sid payload)
unfolding split_host_to_board
split-IsPartOf cmd sid [] = ((refl, refl, refl), tt)
split-IsPartOf cmd sid (x ∷ xs) = parts-chunks cmd sid (chunks 58 (x ∷ xs))

-- A payload of `n > 0` bytes takes `n / 58` frames, rounded up; all but the last are full, and the
-- last holds 1 to 58 bytes.
pub split-Packed :
    (cmd : Cmd) (sid : ℕ) (payload : List ℕ)
    → 0 < length payload
    → Packed (split_host_to_board cmd sid payload)
      × (length (split_host_to_board cmd sid payload) ≡ (length payload + 57) / 58)
unfolding split_host_to_board chunks
split-Packed cmd sid [] h = absurd (omega arith)
split-Packed cmd sid (x ∷ xs) h = (
  Packed-chunks cmd sid (length (x ∷ xs)) (x ∷ xs) (omega arith),
  length-map-frame cmd sid (chunks_fuel (length (x ∷ xs)) 58 (x ∷ xs))
      ∙ length-chunks (length (x ∷ xs)) (x ∷ xs) (omega arith),
)
