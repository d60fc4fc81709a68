-- ===== src/Discovery/Active/Slots.antt =====
-- The slots of running processes in crates/vb-host/src/agent_discovery.rs: what taking one leaves.
use vibe_bridge.Base.{
  ℕ, zero, suc, ◌≡◌, ◌+◌, refl, subst, Bool, true, false, Bool-cases, inl, inr, List, [], ◌∷◌, some,
  Option-cases, last?, arith,
}
use vibe_bridge.Discovery.Active.{one_further, position, drop_last, set_at, fill_from, swap_remove}

abbrev pub bit : Bool → ℕ
bit true = 1
bit false = 0

-- How many elements pass the test.
unfoldable pub count {ℓ} : {A : Type ℓ} → (A → Bool) → List A → ℕ
count p [] = 0
count p (x ∷ xs) = bit (p x) + count p xs

module _ {A : Type 0} where
  last-some : (x : A) (xs : List A) → (a : A) × (last? (x ∷ xs) ≡ some a)
  last-some x [] = (x, refl)
  last-some x (y ∷ ys) = last-some y ys

  count-drop_last :
      (p : A → Bool) (a : A) (xs : List A)
      → last? xs ≡ some a
      → count p (drop_last xs) + bit (p a) ≡ count p xs
  unfolding count drop_last
  count-drop_last p a [] e = absurd (cc e)
  count-drop_last p a (x ∷ []) e = let same : x ≡ a = cc e in rw same (omega arith)
  count-drop_last p a (x ∷ y ∷ ys) e =
      let rest = count-drop_last p a (y ∷ ys) e in omega (arith, rest)

  last-set_at : (i : ℕ) (a : A) (xs : List A) → last? xs ≡ some a → last? (set_at i a xs) ≡ some a
  unfolding set_at
  last-set_at i a [] e = absurd (cc e)
  last-set_at zero a (x ∷ []) e = refl
  last-set_at (suc i) a (x ∷ []) e = e
  last-set_at zero a (x ∷ y ∷ ys) e = e
  last-set_at (suc zero) a (x ∷ y ∷ []) e = refl
  last-set_at (suc zero) a (x ∷ y ∷ z ∷ zs) e = e
  last-set_at (suc (suc i)) a (x ∷ y ∷ ys) e = last-set_at (suc i) a (y ∷ ys) e

  -- The element that passes `q`, and what writing at its position changes.
  Written : (A → Bool) → A → List A → ℕ → Type 0
  Written q a xs i =
      (x : A) × (q x ≡ true)
      × ((p : A → Bool) → count p (set_at i a xs) + bit (p x) ≡ count p xs + bit (p a))

  position-Written :
      (q : A → Bool) (a : A) (xs : List A) (i : ℕ) → position q xs ≡ some i → Written q a xs i
  unfolding position one_further count set_at Written
  position-Written q a [] i e = absurd (cc e)
  position-Written q a (x ∷ xs) i e = elim (Bool-cases (q x)) [
    | inl passes ↦
        let first : 0 ≡ i = cc (rw passes at e) in
        subst (Written q a (x ∷ xs)) first (x, passes, λ p. omega arith)
    | inr other ↦ elim (Option-cases (position q xs)) [
      | inl nowhere ↦ absurd (cc (rw (other, nowhere) at e))
      | inr (k, there) ↦
          let next : suc k ≡ i = cc (rw (other, there) at e) in
          let (y, passes, same) = position-Written q a xs k there in
          subst (Written q a (x ∷ xs)) next
            (y, passes, λ p. let rest = same p in omega (arith, rest))
    ]
  ]

  -- The slot that is found is taken out, and it alone.
  pub position-swap_remove :
      (q : A → Bool) (xs : List A) (i : ℕ)
      → position q xs ≡ some i
      → (x : A) × (q x ≡ true)
        × ((p : A → Bool) → count p (swap_remove i xs) + bit (p x) ≡ count p xs)
  unfolding swap_remove fill_from position Written
  position-swap_remove q [] i e = absurd (cc e)
  position-swap_remove q (y ∷ ys) i e =
      let (a, last) = last-some y ys in
      let (x, passes, written) = position-Written q a (y ∷ ys) i e in
      (
        x,
        passes,
        λ p.
            let here = written p in
            let dropped =
              count-drop_last p a (set_at i a (y ∷ ys)) (last-set_at i a (y ∷ ys) last) in
            rw last (omega (arith, here, dropped)),
      )
