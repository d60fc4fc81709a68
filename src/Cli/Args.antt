-- ===== src/Cli/Args.antt =====
-- crates/vb-daemon/src/main.rs: the loop over command line arguments that the argument parsers of
-- the program share, and the numbers among the arguments.
pub mod Launch
pub mod Install
pub mod Numbers
use vibe_bridge.Base.{
  ℕ, zero, suc, ◌+◌, ◌-◌, ◌*◌, ◌/◌, ◌%◌, Bool, true, false, not, ◌&&◌, List, [], ◌∷◌, ◌++◌, Text,
  codes, Option, none, some, ltb, leb, in_range, is_empty, ◌==◌, if◌then◌else◌,
}

-- A signed integer: `pos n` is n and `negsuc n` is -(n + 1).
pub data ℤ : Type 0 where
  pos negsuc : ℕ → ℤ

-- The decimal digits, at most `fuel` of them.
unfoldable pub digits : ℕ → ℕ → Text
digits zero n = []
digits (suc fuel) n =
    let high = digits fuel (n / 10) in
    if ltb n 10 then (b'0' + n) ∷ [] else high ++ (b'0' + n % 10) ∷ []

abbrev pub decimal : ℕ → Text
decimal n = digits (suc n) n

-- `to_string` of a signed integer.
unfoldable pub to_string : ℤ → Text
unfolding digits
to_string (pos n) = decimal n
to_string (negsuc n) = b'-' ∷ decimal (suc n)

unfoldable pub parse_digits : ℕ → Text → Option ℕ
parse_digits value [] = some value
parse_digits value (ch ∷ rest) =
    let more = parse_digits (value * 10 + (ch - b'0')) rest in
    if in_range b'0' b'9' ch then more else none

-- The digits of a number that is at most `limit`; there is at least one.
unfoldable pub parse_magnitude : ℕ → Text → Option ℕ
unfolding parse_digits
parse_magnitude limit text = if is_empty text then none else within (parse_digits 0 text)
  where
    within : Option ℕ → Option ℕ
    within none = none
    within (some value) = if leb value limit then some value else none

unfoldable pub negated : ℕ → ℤ
negated zero = pos 0
negated (suc n) = negsuc n

-- `str::parse::<i16>`.
unfoldable pub parse_i16 : Text → Option ℤ
unfolding parse_magnitude negated
parse_i16 [] = none
parse_i16 (ch ∷ rest) =
    if ch == b'-'
    then elim (parse_magnitude 32768 rest) [ none ↦ none | some n ↦ some (negated n) ]
    else if ch == b'+'
    then elim (parse_magnitude 32767 rest) [ none ↦ none | some n ↦ some (pos n) ]
    else elim (parse_magnitude 32767 (ch ∷ rest)) [ none ↦ none | some n ↦ some (pos n) ]

-- `str::parse::<u16>`.
unfoldable pub parse_u16 : Text → Option ℕ
unfolding parse_magnitude
parse_u16 [] = none
parse_u16 (ch ∷ rest) =
    if ch == b'+' then parse_magnitude 65535 rest else parse_magnitude 65535 (ch ∷ rest)

-- The messages, by what they say: a flag's value is missing or no number, a flag is not known, the
-- command is missing, the usage was asked for.
pub data ArgError : Type 0 where
  needs_value invalid_number unknown_flag : Text → ArgError
  missing_command usage no_local_appdata : ArgError

pub data Parsed {ℓ} (A : Type ℓ) : Type ℓ where
  ok : A → Parsed A
  err : ArgError → Parsed A

abbrev pub and_then {ℓ κ} : {A : Type ℓ} {B : Type κ} → Parsed A → (A → Parsed B) → Parsed B
and_then (ok a) f = f a
and_then (err e) f = err e

-- The arm of the `match` that an argument takes: `--`, a flag alone, a flag with a value after it,
-- an error, or the first word of the command.
pub data Arm {ℓ} (O : Type ℓ) : Type ℓ where
  separator word : Arm O
  sets : O → Arm O
  takes : (Text → Parsed O) → Arm O
  fails : ArgError → Arm O

-- The last argument, which has no value after it.
unfoldable pub on_last {ℓ} : {O : Type ℓ} → Text → O → O → Arm O → Parsed O
on_last arg opts pushed separator = ok opts
on_last arg opts pushed word = ok pushed
on_last arg opts pushed (sets changed) = ok changed
on_last arg opts pushed (takes set) = err (needs_value arg)
on_last arg opts pushed (fails e) = err e

-- An argument with another after it: how the loop goes on from that one, and from past it.
unfoldable pub on_next {ℓ} :
    {O : Type ℓ} → Text → O → O → (Bool → O → Parsed O) → (O → Parsed O) → Arm O → Parsed O
on_next next opts pushed go_on skip_next separator = go_on true opts
on_next next opts pushed go_on skip_next word = go_on true pushed
on_next next opts pushed go_on skip_next (sets changed) = go_on false changed
on_next next opts pushed go_on skip_next (takes set) = and_then (set next) skip_next
on_next next opts pushed go_on skip_next (fails e) = err e

-- The loop, from whether the command has started.
unfoldable pub arg_loop {ℓ} :
    {O : Type ℓ} → (Text → O → Arm O) → (Text → O → O) → Bool → O → List Text → Parsed O
unfolding on_last on_next
arg_loop arm push started opts [] = ok opts
arg_loop arm push true opts (arg ∷ rest) = arg_loop arm push true (push arg opts) rest
arg_loop arm push false opts (arg ∷ []) = on_last arg opts (push arg opts) (arm arg opts)
arg_loop arm push false opts (arg ∷ next ∷ rest) =
    on_next next opts (push arg opts) (λ started o. arg_loop arm push started o (next ∷ rest))
      (λ o. arg_loop arm push false o rest) (arm arg opts)
