-- ===== src/Cli/Args/Numbers.antt =====
-- The numbers that crates/vb-daemon/src/main.rs writes among arguments are read back.
use vibe_bridge.Base.{
  ℕ, zero, suc, ◌+◌, ◌-◌, ◌*◌, ◌/◌, ◌%◌, ◌≤◌, ◌<◌, ◌≡◌, refl, ap, ◌∙◌, true, false, Bool-cases, inl,
  inr, [], ◌∷◌, ◌++◌, Text, some, append_assoc, append-nil, ltb, leb, in_range, is_empty, ◌==◌,
  arith,
}
use vibe_bridge.Cli.Args.{
  ℤ, pos, negsuc, digits, decimal, to_string, parse_digits, parse_magnitude, parse_i16,
}

parse_digits-digit :
    (value d : ℕ) (rest : Text)
    → d < 10
    → parse_digits value ((b'0' + d) ∷ rest) ≡ parse_digits (value * 10 + d) rest
unfolding parse_digits
parse_digits-digit value d rest h =
    let digit : in_range b'0' b'9' (b'0' + d) ≡ true = ground arith in
    let back : b'0' + d - b'0' ≡ d = omega arith in rw (digit, back) refl

parse_digits-digits :
    (fuel n : ℕ) (rest : Text)
    → n < fuel
    → parse_digits 0 (digits fuel n ++ rest) ≡ parse_digits n rest
unfolding digits
parse_digits-digits zero n rest h = absurd (omega arith)
parse_digits-digits (suc fuel) n rest h = elim (Bool-cases (ltb n 10)) [
  | inl small ↦
      rw small
        (parse_digits-digit 0 n rest (ground arith) ∙ ap (λ v. parse_digits v rest) (omega arith))
  | inr large ↦
      rw
        (
          large,
          append_assoc,
          parse_digits-digits fuel (n / 10) ((b'0' + n % 10) ∷ rest) (ground arith),
        )
        (parse_digits-digit (n / 10) (n % 10) rest (omega arith)
          ∙ ap (λ v. parse_digits v rest) (omega arith))
]

-- The first digit is a digit.
digits_first :
    (fuel n : ℕ)
    → n < fuel
    → (d : ℕ) × (rest : Text) × (digits fuel n ≡ d ∷ rest) × (b'0' ≤ d) × (d ≤ b'9')
unfolding digits
digits_first zero n h = absurd (omega arith)
digits_first (suc fuel) n h = elim (Bool-cases (ltb n 10)) [
  | inl small ↦ (b'0' + n, [], rw small refl, ground arith, ground arith)
  | inr large ↦
      let (d, rest, e, lo, hi) = digits_first fuel (n / 10) (ground arith) in
      (d, rest ++ (b'0' + n % 10) ∷ [], rw (large, e) refl, lo, hi)
]

parse_magnitude-decimal : (limit n : ℕ) → n ≤ limit → parse_magnitude limit (decimal n) ≡ some n
unfolding parse_magnitude parse_digits
parse_magnitude-decimal limit n h =
    let (d, rest, e, lo, hi) = digits_first (suc n) n (omega arith) in
    let read = parse_digits-digits (suc n) n [] (omega arith) in
    let nonempty : is_empty (digits (suc n) n) ≡ false = rw e refl in
    let fits : leb n limit ≡ true = ground arith in rw (nonempty, rw append-nil at read, fits) refl

-- The numbers of the type `i16`.
abbrev pub FitsI16 : ℤ → Type 0
FitsI16 (pos n) = n ≤ 32767
FitsI16 (negsuc n) = n ≤ 32767

-- Every `i16` that is written in decimal is read back.
pub parse_i16-to_string : (z : ℤ) → FitsI16 z → parse_i16 (to_string z) ≡ some z
unfolding parse_i16 to_string
parse_i16-to_string (pos n) h =
    let (d, rest, e, lo, hi) = digits_first (suc n) n (omega arith) in
    let read : parse_magnitude 32767 (d ∷ rest) ≡ some n =
      rw e at (parse_magnitude-decimal 32767 n h) in
    let no_minus : (d == b'-') ≡ false = ground arith in
    let no_plus : (d == b'+') ≡ false = ground arith in rw (e, no_minus, no_plus, read) refl
parse_i16-to_string (negsuc n) h = rw (parse_magnitude-decimal 32768 (suc n) (omega arith)) refl
