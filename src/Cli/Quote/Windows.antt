-- ===== src/Cli/Quote/Windows.antt =====
-- `quote_windows_arg` of crates/vb-daemon/src/main.rs against the splitting of a command line into
-- arguments that Windows documents for C programs.
use vibe_bridge.Base.{
  ℕ, zero, suc, ◌+◌, ◌*◌, ◌/◌, ◌%◌, ◌≤◌, ◌≡◌, refl, ap, ◌∙◌, Bool, true, false, ◌||◌, ◌&&◌, not,
  Bool-cases, inl, inr, List, [], ◌∷◌, ◌++◌, Text, append_assoc, append-nil, length, replicate,
  is_empty, ◌==◌, if◌then◌else◌, arith,
}
use vibe_bridge.Cli.Quote.{has_whitespace, has_special, quote_loop, quote_windows_arg}

abbrev pub blank : ℕ → Bool
blank ch = ch == b' ' || ch == b'\t'

prepend : Text → Text × Text → Text × Text
prepend t p = (t ++ p.0, p.1)

-- Outside quotes, inside them, or right after the quote that ends them.
pub data Mode : Type 0 where
  outside inside closing : Mode

unfoldable pub settled : Mode → Mode
settled closing = outside
settled mode = mode

unfoldable pub literal_blank : Mode → ℕ → Bool
literal_blank inside ch = true
literal_blank mode ch = not (blank ch)

-- A quote after an even number of backslashes.
unfoldable pub toggle : Mode → Text × Text → Text × Text → Text × Text
unfolding prepend
toggle outside then_inside then_closing = then_inside
toggle inside then_inside then_closing = then_closing
toggle closing then_inside then_closing = prepend (b'"' ∷ []) then_inside

-- One argument and what follows it, from the mode and the number of backslashes just read. Before a
-- quote two backslashes stand for one, and an odd one makes the quote a character; elsewhere they
-- stand for themselves. Inside quotes a doubled quote is a character.
unfoldable pub take_arg : Mode → ℕ → Text → Text × Text
unfolding prepend
take_arg mode slashes [] = (replicate slashes b'\\', [])
take_arg mode slashes (ch ∷ rest) =
    let more = take_arg (settled mode) (suc slashes) rest in
    let same = take_arg (settled mode) 0 rest in
    let then_inside = take_arg inside 0 rest in
    let then_closing = take_arg closing 0 rest in
    if ch == b'\\'
    then more
    else if ch == b'"'
    then prepend (replicate (slashes / 2) b'\\') (
        if slashes % 2 == 0 then toggle mode then_inside then_closing else prepend (b'"' ∷ []) same)
    else if literal_blank mode ch
    then prepend (replicate slashes b'\\' ++ ch ∷ []) same
    else (replicate slashes b'\\', ch ∷ rest)

unfoldable pub skip_blanks : Text → Text
skip_blanks [] = []
skip_blanks (ch ∷ rest) = if blank ch then skip_blanks rest else ch ∷ rest

-- The arguments of a line, at most `fuel` of them.
unfoldable pub arguments : ℕ → Text → List Text
unfolding take_arg skip_blanks
arguments zero line = []
arguments (suc fuel) line =
    let text = skip_blanks line in
    let (arg, rest) = take_arg outside 0 text in
    let others = arguments fuel rest in if is_empty text then [] else arg ∷ others

-- The arguments of a line, each quoted, with a space between them.
unfoldable pub command_line : List Text → Text
command_line [] = []
command_line (arg ∷ []) = quote_windows_arg arg
command_line (arg ∷ next ∷ args) = quote_windows_arg arg ++ b' ' ∷ command_line (next ∷ args)

-- What follows an argument: nothing, or a space.
abbrev pub AtBlank : Text → Type 0
AtBlank [] = Unit
AtBlank (ch ∷ rest) = ch ≡ b' '

take_arg-closing : (rest : Text) → AtBlank rest → take_arg closing 0 rest ≡ ([], rest)
unfolding take_arg prepend toggle literal_blank
take_arg-closing [] h = refl
take_arg-closing (ch ∷ rest) h = rw h refl

take_arg-outside : (rest : Text) → AtBlank rest → take_arg outside 0 rest ≡ ([], rest)
unfolding take_arg prepend toggle literal_blank
take_arg-outside [] h = refl
take_arg-outside (ch ∷ rest) h = rw h refl

take_arg-slashes :
    (m k : ℕ) (text : Text)
    → take_arg inside m (replicate k b'\\' ++ text) ≡ take_arg inside (m + k) text
unfolding take_arg settled
take_arg-slashes m zero text = let e : m + 0 ≡ m = omega arith in rw e refl
take_arg-slashes m (suc k) text =
    let e : m + suc k ≡ suc m + k = omega arith in rw e (take_arg-slashes (suc m) k text)

all_slashes :
    (k : ℕ) (text : Text) → take_arg inside 0 (replicate k b'\\' ++ text) ≡ take_arg inside k text
all_slashes k text =
    let e : 0 + k ≡ k = omega arith in
    take_arg-slashes 0 k text ∙ ap (λ m. take_arg inside m text) e

replicate-shift :
    (n : ℕ) (a : ℕ) (text : Text) → replicate n a ++ a ∷ text ≡ a ∷ (replicate n a ++ text)
replicate-shift zero a text = refl
replicate-shift (suc n) a text = ap (◌∷◌ a) (replicate-shift n a text)

read_end :
    (n : ℕ) (rest : Text)
    → AtBlank rest
    → take_arg inside (n * 2) (b'"' ∷ rest) ≡ (replicate n b'\\', rest)
unfolding take_arg prepend toggle
read_end n rest h =
    let half : n * 2 / 2 ≡ n = omega arith in
    let even : n * 2 % 2 ≡ 0 = omega arith in
    rw (half, even, take_arg-closing rest h, append-nil) refl

read_quote :
    (n : ℕ) (text : Text)
    → take_arg inside (n * 2 + 1) (b'"' ∷ text)
      ≡ prepend (replicate n b'\\' ++ b'"' ∷ []) (take_arg inside 0 text)
unfolding take_arg prepend settled
read_quote n text =
    let half : (n * 2 + 1) / 2 ≡ n = omega arith in
    let odd : (n * 2 + 1) % 2 ≡ 1 = omega arith in rw (half, odd, append_assoc) refl

read_other :
    (n ch : ℕ) (text : Text)
    → (ch == b'\\') ≡ false
    → (ch == b'"') ≡ false
    → take_arg inside n (ch ∷ text)
      ≡ prepend (replicate n b'\\' ++ ch ∷ []) (take_arg inside 0 text)
unfolding take_arg settled literal_blank
read_other n ch text not_slash not_quote = rw (not_slash, not_quote) refl

-- The loop's text is read back with the backslashes held back before it.
take_arg-quote_loop :
    (n : ℕ) (value rest : Text)
    → AtBlank rest
    → take_arg inside 0 (quote_loop n value ++ rest) ≡ (replicate n b'\\' ++ value, rest)
unfolding quote_loop prepend
take_arg-quote_loop n [] rest h =
    rw (append_assoc, all_slashes (n * 2), append-nil) (read_end n rest h)
take_arg-quote_loop n (ch ∷ value) rest h = elim (Bool-cases (ch == b'\\')) [
  | inl slash ↦
      let e : ch ≡ b'\\' = ground arith in
      rw (e, replicate-shift n b'\\' value) (take_arg-quote_loop (suc n) value rest h)
  | inr not_slash ↦ elim (Bool-cases (ch == b'"')) [
    | inl quote ↦
        let e : ch ≡ b'"' = ground arith in
        rw
          (
            e,
            append_assoc,
            all_slashes (n * 2 + 1),
            read_quote n,
            take_arg-quote_loop 0 value rest h,
          )
          (rw append_assoc refl)
    | inr not_quote ↦
        rw
          (
            not_slash,
            not_quote,
            append_assoc,
            all_slashes n,
            read_other n ch _ not_slash not_quote,
            take_arg-quote_loop 0 value rest h,
          )
          (rw append_assoc refl)
  ]
]

pub no_blank :
    (ch : ℕ) (value : Text)
    → has_whitespace (ch ∷ value) ≡ false
    → (blank ch ≡ false) × (has_whitespace value ≡ false)
unfolding has_whitespace
no_blank ch [] h = ground arith
no_blank ch (b ∷ []) h = ground arith
no_blank ch (b ∷ c ∷ value) h = ground arith

-- What needs no quotes is read as it stands.
take_arg-plain :
    (value rest : Text)
    → AtBlank rest
    → has_whitespace value ≡ false
    → has_special value ≡ false
    → take_arg outside 0 (value ++ rest) ≡ (value, rest)
unfolding take_arg settled literal_blank has_special prepend
take_arg-plain [] rest h no_space no_special = take_arg-outside rest h
take_arg-plain (ch ∷ value) rest h no_space no_special =
    let (here, after) = no_blank ch value no_space in
    let not_slash : (ch == b'\\') ≡ false = ground arith in
    let not_quote : (ch == b'"') ≡ false = ground arith in
    let others : has_special value ≡ false = ground arith in
    rw (not_slash, not_quote, here, take_arg-plain value rest h after others) refl

-- An argument that was quoted is read back, whatever it holds, when nothing or a space follows it.
pub take_arg-quote_windows_arg :
    (value rest : Text)
    → AtBlank rest
    → take_arg outside 0 (quote_windows_arg value ++ rest) ≡ (value, rest)
unfolding quote_windows_arg take_arg toggle prepend
take_arg-quote_windows_arg value rest h =
    elim (Bool-cases (not (is_empty value) && not (has_whitespace value || has_special value))) [
      | inl plain ↦ rw plain (take_arg-plain value rest h (ground arith) (ground arith))
      | inr quoted ↦ rw (quoted, take_arg-quote_loop 0 value rest h) refl
    ]

skip_blanks-quote :
    (value rest : Text)
    → skip_blanks (quote_windows_arg value ++ rest) ≡ quote_windows_arg value ++ rest
unfolding quote_windows_arg skip_blanks
skip_blanks-quote [] rest = refl
skip_blanks-quote (ch ∷ value) rest =
    elim (Bool-cases (not (has_whitespace (ch ∷ value) || has_special (ch ∷ value)))) [
      | inl plain ↦ let (here, after) = no_blank ch value (ground arith) in rw plain (rw here refl)
      | inr quoted ↦ rw quoted refl
    ]

pub quote_windows_arg-nonempty :
    (value rest : Text) → is_empty (quote_windows_arg value ++ rest) ≡ false
unfolding quote_windows_arg
quote_windows_arg-nonempty [] rest = refl
quote_windows_arg-nonempty (ch ∷ value) rest =
    elim (Bool-cases (not (has_whitespace (ch ∷ value) || has_special (ch ∷ value)))) [
      | inl plain ↦ rw plain refl
      | inr quoted ↦ rw quoted refl
    ]

arguments-quote :
    (fuel : ℕ) (value rest : Text)
    → AtBlank rest
    → arguments (suc fuel) (quote_windows_arg value ++ rest) ≡ value ∷ arguments fuel rest
unfolding arguments
arguments-quote fuel value rest h =
    rw
      (
        skip_blanks-quote value rest,
        quote_windows_arg-nonempty value rest,
        take_arg-quote_windows_arg value rest h,
      )
      refl

arguments-space : (fuel : ℕ) (line : Text) → arguments fuel (b' ' ∷ line) ≡ arguments fuel line
unfolding arguments skip_blanks
arguments-space zero line = refl
arguments-space (suc fuel) line = refl

arguments_nil : (fuel : ℕ) → arguments fuel [] ≡ []
unfolding arguments skip_blanks
arguments_nil zero = refl
arguments_nil (suc fuel) = refl

-- A line of arguments of any number and content, each quoted, is split into those arguments.
pub arguments-command_line :
    (args : List Text) (fuel : ℕ) → length args ≤ fuel → arguments fuel (command_line args) ≡ args
unfolding command_line
arguments-command_line [] fuel h = arguments_nil fuel
arguments-command_line (arg ∷ args) zero h = absurd (omega arith)
arguments-command_line (arg ∷ []) (suc fuel) h =
    let one = arguments-quote fuel arg [] tt in
    (rw append-nil at one) ∙ ap (◌∷◌ arg) (arguments_nil fuel)
arguments-command_line (arg ∷ next ∷ args) (suc fuel) h =
    rw
      (
        arguments-quote fuel arg _ refl,
        arguments-space fuel,
        arguments-command_line (next ∷ args) fuel (omega arith),
      )
      refl
