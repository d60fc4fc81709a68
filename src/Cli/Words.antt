-- ===== src/Cli/Words.antt =====
-- `str::split_whitespace`, of the language's library, over bytes. A whitespace character takes one,
-- two or three bytes.
use vibe_bridge.Base.{
  ℕ, zero, suc, ◌-◌, ◌≤◌, ◌≡◌, refl, Bool, false, Bool-cases, inl, inr, not, List, [], ◌∷◌, ◌++◌,
  Text, length, retain, is_empty, space1, space2, space3, if◌then◌else◌, ltb, arith,
}

-- The number of bytes of the whitespace character that a text starts with.
unfoldable pub space_width : Text → ℕ
space_width [] = 0
space_width (a ∷ []) = if space1 a then 1 else 0
space_width (a ∷ b ∷ []) = if space1 a then 1 else if space2 a b then 2 else 0
space_width (a ∷ b ∷ c ∷ r) =
    if space1 a then 1 else if space2 a b then 2 else if space3 a b c then 3 else 0

-- The piece before the first whitespace character and the pieces after it, when the first bytes
-- still belong to the whitespace character before.
unfoldable pub pieces : ℕ → Text → Text × List Text
unfolding space_width
pieces skip [] = ([], [])
pieces (suc skip) (a ∷ r) = pieces skip r
pieces zero (a ∷ r) =
    let width = space_width (a ∷ r) in
    let (first, others) = pieces (width - 1) r in
    if ltb 0 width then ([], first ∷ others) else (a ∷ first, others)

unfoldable pub split_whitespace : Text → List Text
unfolding pieces
split_whitespace s =
    let (first, others) = pieces 0 s in retain (λ piece. not (is_empty piece)) (first ∷ others)

joined : Text × List Text → Text × List Text → Text × List Text
joined p q = (p.0, p.1 ++ q.0 ∷ q.1)

pub width-space : (a : ℕ) (s t : Text) → space_width (a ∷ s ++ b' ' ∷ t) ≡ space_width (a ∷ s)
unfolding space_width
width-space a [] [] = ground arith
width-space a [] (c ∷ t) = ground arith
width-space a (b ∷ []) t = ground arith
width-space a (b ∷ c ∷ s) t = refl

width_of_space : (t : Text) → space_width (b' ' ∷ t) ≡ 1
unfolding space_width
width_of_space [] = refl
width_of_space (b ∷ []) = refl
width_of_space (b ∷ c ∷ t) = refl

width_bound : (a : ℕ) (s : Text) → space_width (a ∷ s) ≤ suc (length s)
unfolding space_width
width_bound a [] = ground arith
width_bound a (b ∷ []) = ground arith
width_bound a (b ∷ c ∷ s) = ground arith

pieces-space :
    (skip : ℕ) (s t : Text)
    → skip ≤ length s
    → pieces skip (s ++ b' ' ∷ t) ≡ joined (pieces skip s) (pieces 0 t)
unfolding pieces joined
pieces-space zero [] t h = let e : space_width (b' ' ∷ t) ≡ 1 = width_of_space t in rw e refl
pieces-space (suc skip) [] t h = absurd (omega arith)
pieces-space (suc skip) (a ∷ s) t h = pieces-space skip s t (omega arith)
pieces-space zero (a ∷ s) t h =
    let inside : space_width (a ∷ s) - 1 ≤ length s = omega (arith, width_bound a s) in
    rw (width-space a s t, pieces-space (space_width (a ∷ s) - 1) s t inside)
      (elim (Bool-cases (ltb 0 (space_width (a ∷ s)))) [
        | inl some_space ↦ rw some_space refl
        | inr no_space ↦ rw no_space refl
      ])

retain-append :
    (p : Text → Bool) (xs ys : List Text) → retain p (xs ++ ys) ≡ retain p xs ++ retain p ys
retain-append p [] ys = refl
retain-append p (x ∷ xs) ys = ground (arith, retain-append p xs ys)

-- A space separates: the words of the two sides, one after the other.
pub split_whitespace-space :
    (s t : Text) → split_whitespace (s ++ b' ' ∷ t) ≡ split_whitespace s ++ split_whitespace t
unfolding split_whitespace joined
split_whitespace-space s t = rw (pieces-space 0 s t (omega arith)) (
    retain-append (λ piece. not (is_empty piece)) ((pieces 0 s).0 ∷ (pieces 0 s).1)
      ((pieces 0 t).0 ∷ (pieces 0 t).1))

-- No whitespace character starts in the text.
abbrev pub Solid : Text → Type 0
Solid [] = Unit
Solid (a ∷ s) = (space_width (a ∷ s) ≡ 0) × Solid s

pieces-Solid : (s : Text) → Solid s → pieces 0 s ≡ (s, [])
unfolding pieces
pieces-Solid [] h = refl
pieces-Solid (a ∷ s) h = rw (h.0, pieces-Solid s h.1) refl

-- A text without whitespace is one word.
pub split_whitespace-Solid : (s : Text) → is_empty s ≡ false → Solid s → split_whitespace s ≡ s ∷ []
unfolding split_whitespace
split_whitespace-Solid s nonempty h = rw (pieces-Solid s h, nonempty) refl
