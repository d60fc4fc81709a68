-- ===== src/Base/Map.antt =====
-- `HashMap` as an association list: a key has one entry, and the list's order stands for the
-- unspecified order in which a hash map is iterated.
use mathlib.Core.Path.{◌≡◌, refl, sym, subst, subst₂}
use mathlib.Core.Logic.{◌≢◌, ite, if_pos, if_neg}
use mathlib.Core.Bool.{Bool, true, false}
use mathlib.Core.Option.{Option, none, some}
use mathlib.Core.List.{List, [], ◌∷◌}
use native.Mathlib.Omega.{arith}
use vibe_bridge.Base.Tests.{if◌then◌else◌}

module _ {K : Type 0} {V : Type 0} where
  -- The keys of the entries that pass a test, in order.
  unfoldable pub keys_where : (K → V → Bool) → List (K × V) → List K
  keys_where p [] = []
  keys_where p ((j, w) ∷ m) = if p j w then j ∷ keys_where p m else keys_where p m

  -- `iter().find(..)`.
  unfoldable pub find_where : (K → V → Bool) → List (K × V) → Option (K × V)
  find_where p [] = none
  find_where p ((j, w) ∷ m) = if p j w then some (j, w) else find_where p m

  -- Every entry satisfies `P`.
  abbrev pub Each : (K → V → Type 0) → List (K × V) → Type 0
  Each P [] = Unit {0}
  Each P ((j, w) ∷ m) = P j w × Each P m

  abbrev Fresh : K → List (K × V) → Type 0
  Fresh k [] = Unit {0}
  Fresh k ((j, w) ∷ m) = (j ≢ k) × Fresh k m

  -- No key has two entries.
  abbrev pub Distinct : List (K × V) → Type 0
  Distinct [] = Unit {0}
  Distinct ((j, w) ∷ m) = Fresh j m × Distinct m

module _ {K : Type 0} {V : Type 0} (dec : (a b : K) → Dec (a ≡ b)) where
  unfoldable pub lookup : K → List (K × V) → Option V
  lookup k [] = none
  lookup k ((j, v) ∷ m) = ite (dec j k) (some v) (lookup k m)

  -- A new key goes to the end, a known one keeps its place.
  unfoldable pub insert : K → V → List (K × V) → List (K × V)
  insert k v [] = (k, v) ∷ []
  insert k v ((j, w) ∷ m) = ite (dec j k) ((k, v) ∷ m) ((j, w) ∷ insert k v m)

  unfoldable pub remove : K → List (K × V) → List (K × V)
  remove k [] = []
  remove k ((j, w) ∷ m) = ite (dec j k) m ((j, w) ∷ remove k m)

  -- `get_mut` followed by writes to the entry.
  unfoldable pub modify : K → (V → V) → List (K × V) → List (K × V)
  modify k f [] = []
  modify k f ((j, w) ∷ m) = ite (dec j k) ((j, f w) ∷ m) ((j, w) ∷ modify k f m)

  abbrev pub contains_key : K → List (K × V) → Bool
  contains_key k m = elim (lookup k m) [ none ↦ false | some v ↦ true ]

  pub lookup-insert :
      (k j : K) (v : V) (m : List (K × V))
      → lookup j (insert k v m) ≡ ite (dec k j) (some v) (lookup j m)
  unfolding lookup insert
  lookup-insert k j v [] = refl
  lookup-insert k j v ((i, w) ∷ m) = ground (arith, lookup-insert k j v m)

  pub lookup-modify :
      (k j : K) (f : V → V) (m : List (K × V))
      → lookup j (modify k f m)
        ≡ ite (dec k j) (elim (lookup j m) [ none ↦ none | some v ↦ some (f v) ]) (lookup j m)
  unfolding lookup modify
  lookup-modify k j f [] = ground arith
  lookup-modify k j f ((i, w) ∷ m) = ground (arith, lookup-modify k j f m)

  Fresh-lookup : (k : K) (m : List (K × V)) → Fresh k m → lookup k m ≡ none
  unfolding lookup
  Fresh-lookup k [] h = refl
  Fresh-lookup k ((j, w) ∷ m) h = ground (arith, Fresh-lookup k m)

  pub lookup-remove :
      (k j : K) (m : List (K × V))
      → Distinct m
      → lookup j (remove k m) ≡ ite (dec k j) none (lookup j m)
  unfolding lookup remove
  lookup-remove k j [] d = ground arith
  lookup-remove k j ((i, w) ∷ m) d = ground (arith, lookup-remove k j m d.1, Fresh-lookup i m d.0)

  pub lookup-remove_other :
      (k j : K) (m : List (K × V)) → k ≢ j → lookup j (remove k m) ≡ lookup j m
  unfolding lookup remove
  lookup-remove_other k j [] n = refl
  lookup-remove_other k j ((i, w) ∷ m) n = ground (arith, lookup-remove_other k j m n)

  Fresh-insert : (i k : K) (v : V) (m : List (K × V)) → k ≢ i → Fresh i m → Fresh i (insert k v m)
  unfolding insert
  Fresh-insert i k v [] n h = (n, tt)
  Fresh-insert i k v ((j, w) ∷ m) n h = ground (arith, Fresh-insert i k v m n h.1)

  pub insert-Distinct : (k : K) (v : V) (m : List (K × V)) → Distinct m → Distinct (insert k v m)
  unfolding insert
  insert-Distinct k v [] d = (tt, tt)
  insert-Distinct k v ((j, w) ∷ m) d = elim (dec j k) [
    | yes e ↦ ground arith
    | no n ↦ ground (arith, insert-Distinct k v m d.1, Fresh-insert j k v m (λ e. n (sym e)) d.0)
  ]

  Fresh-modify : (i k : K) (f : V → V) (m : List (K × V)) → Fresh i m → Fresh i (modify k f m)
  unfolding modify
  Fresh-modify i k f [] h = tt
  Fresh-modify i k f ((j, w) ∷ m) h = ground (arith, Fresh-modify i k f m h.1)

  pub modify-Distinct :
      (k : K) (f : V → V) (m : List (K × V)) → Distinct m → Distinct (modify k f m)
  unfolding modify
  modify-Distinct k f [] d = tt
  modify-Distinct k f ((j, w) ∷ m) d =
      ground (arith, modify-Distinct k f m d.1, Fresh-modify j k f m d.0)

  Fresh-remove : (i k : K) (m : List (K × V)) → Fresh i m → Fresh i (remove k m)
  unfolding remove
  Fresh-remove i k [] h = tt
  Fresh-remove i k ((j, w) ∷ m) h = ground (arith, Fresh-remove i k m h.1)

  pub remove-Distinct : (k : K) (m : List (K × V)) → Distinct m → Distinct (remove k m)
  unfolding remove
  remove-Distinct k [] d = tt
  remove-Distinct k ((j, w) ∷ m) d = ground (arith, remove-Distinct k m d.1, Fresh-remove j k m d.0)

  pub insert-Each :
      (P : K → V → Type 0) (k : K) (v : V) (m : List (K × V))
      → P k v
      → Each P m
      → Each P (insert k v m)
  unfolding insert
  insert-Each P k v [] p h = (p, tt)
  insert-Each P k v ((j, w) ∷ m) p h = ground (arith, insert-Each P k v m p h.1)

  pub modify-Each :
      (P : K → V → Type 0) (k : K) (f : V → V) (m : List (K × V))
      → ((v : V) → lookup k m ≡ some v → P k v → P k (f v))
      → Each P m
      → Each P (modify k f m)
  unfolding modify lookup
  modify-Each P k f [] keep h = tt
  modify-Each P k f ((j, w) ∷ m) keep h = elim (dec j k) [
    | yes e ↦
        rw (if_pos _ e) (
          subst (λ i. P i (f w)) (sym e) (keep w (rw (if_pos _ e)) (subst (λ i. P i w) e h.0)),
          h.1,
        )
    | no n ↦ rw (if_neg _ n) (h.0, modify-Each P k f m (λ v q. keep v (rw (if_neg _ n) q)) h.1)
  ]

  pub remove-Each : (P : K → V → Type 0) (k : K) (m : List (K × V)) → Each P m → Each P (remove k m)
  unfolding remove
  remove-Each P k [] h = tt
  remove-Each P k ((j, w) ∷ m) h = ground (arith, remove-Each P k m h.1)

  pub Each-lookup :
      (P : K → V → Type 0) (k : K) (v : V) (m : List (K × V))
      → Each P m
      → lookup k m ≡ some v
      → P k v
  unfolding lookup
  Each-lookup P k v [] h e = absurd (cc)
  Each-lookup P k v ((j, w) ∷ m) h e = elim (dec j k) [
    | yes same ↦ let found : w ≡ v = ground arith in subst₂ P same found h.0
    | no n ↦ Each-lookup P k v m h.1 (ground arith)
  ]

  -- The entry that a search finds is the map's entry for its key.
  pub find_where-lookup :
      (p : K → V → Bool) (m : List (K × V)) (k : K) (v : V)
      → Distinct m
      → find_where p m ≡ some (k, v)
      → (lookup k m ≡ some v) × (p k v ≡ true)
  unfolding find_where lookup
  find_where-lookup p [] k v d e = absurd (cc)
  find_where-lookup p ((j, w) ∷ m) k v d e =
      ground (arith, find_where-lookup p m k v d.1, Fresh-lookup j m d.0)

  -- A search fails only if no entry passes.
  pub find_where-none :
      (p : K → V → Bool) (m : List (K × V)) (k : K) (v : V)
      → find_where p m ≡ none
      → lookup k m ≡ some v
      → p k v ≡ false
  unfolding find_where lookup
  find_where-none p [] k v e h = absurd (cc)
  find_where-none p ((j, w) ∷ m) k v e h = ground (arith, find_where-none p m k v)

module _ {K : Type 0} (dec : (a b : K) → Dec (a ≡ b)) where
  unfoldable pub member : K → List K → Bool
  member k [] = false
  member k (j ∷ ks) = ite (dec j k) true (member k ks)

  -- No key stands twice in a list.
  abbrev pub Unrepeated : List K → Type 0
  Unrepeated [] = Unit {0}
  Unrepeated (k ∷ ks) = (member k ks ≡ false) × Unrepeated ks

module _ {K : Type 0} {V : Type 0} (dec : (a b : K) → Dec (a ≡ b)) where
  member-Fresh :
      (p : K → V → Bool) (k : K) (m : List (K × V))
      → Fresh k m
      → member dec k (keys_where p m) ≡ false
  unfolding member keys_where
  member-Fresh p k [] h = refl
  member-Fresh p k ((j, w) ∷ m) h = ground (arith, member-Fresh p k m h.1)

  -- The keys that pass a test, by the entries.
  pub member-keys_where :
      (p : K → V → Bool) (k : K) (m : List (K × V))
      → Distinct m
      → member dec k (keys_where p m) ≡ (elim (lookup dec k m) [ none ↦ false | some v ↦ p k v ])
  unfolding member keys_where lookup
  member-keys_where p k [] d = refl
  member-keys_where p k ((j, w) ∷ m) d =
      ground (arith, member-keys_where p k m d.1, member-Fresh p j m d.0)

  pub keys_where-Unrepeated :
      (p : K → V → Bool) (m : List (K × V)) → Distinct m → Unrepeated dec (keys_where p m)
  unfolding keys_where
  keys_where-Unrepeated p [] d = tt
  keys_where-Unrepeated p ((j, w) ∷ m) d =
      ground (arith, keys_where-Unrepeated p m d.1, member-Fresh p j m d.0)
