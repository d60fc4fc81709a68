-- ===== src/Base/Utf8.antt =====
-- `std::str::from_utf8` and `str::is_char_boundary`: the automaton of well-formed UTF-8, and what
-- cutting a valid text does.
use Prim.Native.Nat.{ℕ, zero, suc, ◌≤◌}
use mathlib.Core.Path.{◌≡◌, refl, sym, subst, ◌∙◌}
use mathlib.Core.Logic.{inl, inr}
use mathlib.Core.Bool.{Bool, true, false, not, ◌||◌, false≢true}
use mathlib.Core.List.{List, [], ◌∷◌}
use mathlib.Core.Option.{Option, none, some}
use native.Mathlib.Omega.{arith}
use vibe_bridge.Base.Tests.{ltb, ◌==◌, in_range, if◌then◌else◌, Option-cases}
use vibe_bridge.Base.Lists.{length, take}

-- How many continuation bytes are still due, and the range of the next one.
pub record Expect : Type 0 where
  pub due : ℕ
  pub lo : ℕ
  pub hi : ℕ

abbrev pub due_after : ℕ → Expect
due_after k = record { due = k; lo = 0x80; hi = 0xBF }

-- What a lead byte asks for.
lead : ℕ → Option Expect
lead b =
    if ltb b 0x80
    then some (due_after 0)
    else if in_range 0xC2 0xDF b
    then some (due_after 1)
    else if b == 0xE0
    then some (record { due = 2; lo = 0xA0; hi = 0xBF })
    else if b == 0xED
    then some (record { due = 2; lo = 0x80; hi = 0x9F })
    else if in_range 0xE1 0xEF b
    then some (due_after 2)
    else if b == 0xF0
    then some (record { due = 3; lo = 0x90; hi = 0xBF })
    else if in_range 0xF1 0xF3 b
    then some (due_after 3)
    else if b == 0xF4
    then some (record { due = 3; lo = 0x80; hi = 0x8F })
    else none

continue_from : ℕ → Expect → ℕ → Option Expect
continue_from zero e b = lead b
continue_from (suc k) e b = if in_range e.lo e.hi b then some (due_after k) else none

pub next : Expect → ℕ → Option Expect
unfolding lead continue_from
next e b = continue_from e.due e b

pub run : Option Expect → List ℕ → Bool
run none bs = false
run (some e) [] = e.due == 0
run (some e) (b ∷ bs) = run (next e b) bs

-- `from_utf8(bs).is_ok()`.
unfoldable pub is_utf8 : List ℕ → Bool
unfolding run next
is_utf8 bs = run (some (due_after 0)) bs

-- Bytes 0x80 to 0xBF continue a character.
abbrev pub is_continuation : ℕ → Bool
is_continuation b = in_range 0x80 0xBF b

boundary_within : ℕ → List ℕ → Bool
boundary_within zero [] = true
boundary_within zero (b ∷ bs) = not (is_continuation b)
boundary_within (suc n) [] = false
boundary_within (suc n) (b ∷ bs) = boundary_within n bs

-- `is_char_boundary(n)`: the start, the end, or a byte that does not continue a character.
unfoldable pub is_char_boundary : ℕ → List ℕ → Bool
unfolding boundary_within
is_char_boundary n bs = n == 0 || boundary_within n bs

-- The ranges of the automaton lie within the continuation bytes, and a lead byte is none.
abbrev Sound : Option Expect → Type 0
Sound none = Unit {0}
Sound (some e) = (0x80 ≤ e.lo) × (e.hi ≤ 0xBF)

continue_from-Sound : (k : ℕ) (e : Expect) (b : ℕ) → Sound (continue_from k e b)
unfolding continue_from lead
continue_from-Sound zero e b = ground arith
continue_from-Sound (suc k) e b = ground arith

-- A byte is accepted exactly where its kind, lead or continuation, is due.
continue_from-kind :
    (k : ℕ) (e : Expect) (b : ℕ) (f : Expect)
    → 0x80 ≤ e.lo
    → e.hi ≤ 0xBF
    → continue_from k e b ≡ some f
    → not (is_continuation b) ≡ (k == 0)
unfolding continue_from lead
continue_from-kind zero e b f lo hi h = ground arith
continue_from-kind (suc k) e b f lo hi h = ground arith

run-none : (bs : List ℕ) → run none bs ≡ false
unfolding run
run-none [] = refl
run-none (b ∷ bs) = refl

-- Before a valid rest, the part already read is valid exactly if the cut is at a boundary.
run-cut :
    (e : Expect) (n : ℕ) (bs : List ℕ)
    → 0x80 ≤ e.lo
    → e.hi ≤ 0xBF
    → n ≤ length bs
    → run (some e) bs ≡ true
    → run (some e) (take n bs) ≡ boundary_within n bs
unfolding run boundary_within next
run-cut e zero [] lo hi fits h = h
run-cut e zero (b ∷ bs) lo hi fits h = elim (Option-cases (continue_from e.due e b)) [
  | inl none_left ↦
      absurd (
        false≢true (sym (run-none bs) ∙ subst (λ (o : Option Expect). run o bs ≡ true) none_left h))
  | inr (f, read) ↦ sym (continue_from-kind e.due e b f lo hi read)
]
run-cut e (suc n) [] lo hi fits h = absurd (omega arith)
run-cut e (suc n) (b ∷ bs) lo hi fits h = elim (Option-cases (continue_from e.due e b)) [
  | inl none_left ↦
      absurd (
        false≢true (sym (run-none bs) ∙ subst (λ (o : Option Expect). run o bs ≡ true) none_left h))
  | inr (f, read) ↦
      let sound : Sound (some f) = subst Sound read (continue_from-Sound e.due e b) in
      subst (λ (o : Option Expect). run o (take n bs) ≡ boundary_within n bs) (sym read)
        (run-cut f n bs sound.0 sound.1 (omega arith)
          (subst (λ (o : Option Expect). run o bs ≡ true) read h))
]

-- A prefix of a valid text is valid exactly if it ends at a character boundary.
pub is_utf8-take :
    (n : ℕ) (bs : List ℕ)
    → n ≤ length bs
    → is_utf8 bs ≡ true
    → is_utf8 (take n bs) ≡ is_char_boundary n bs
unfolding is_utf8 is_char_boundary run
is_utf8-take zero bs fits h = refl
is_utf8-take (suc n) bs fits h =
    run-cut (due_after 0) (suc n) bs (omega arith) (omega arith) fits h ∙ ground arith

-- The end is a boundary.
pub is_char_boundary-length : (bs : List ℕ) → is_char_boundary (length bs) bs ≡ true
unfolding is_char_boundary boundary_within
is_char_boundary-length [] = refl
is_char_boundary-length (b ∷ bs) = ground (arith, is_char_boundary-length bs)

-- So is the start.
pub is_char_boundary-zero : (bs : List ℕ) → is_char_boundary 0 bs ≡ true
unfolding is_char_boundary
is_char_boundary-zero bs = refl
