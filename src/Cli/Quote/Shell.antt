-- ===== src/Cli/Quote/Shell.antt =====
-- `sh_quote` of crates/vb-daemon/src/main.rs against the quoting rules of the POSIX shell.
use vibe_bridge.Base.{
  ℕ, ◌≡◌, refl, ◌||◌, Bool-cases, inl, inr, [], ◌∷◌, ◌++◌, Option, none, some, Text, ◌==◌,
  if◌then◌else◌, arith, codes,
}
use vibe_bridge.Cli.Quote.{replace_quote, sh_quote}

pub data Quoting : Type 0 where
  bare single double : Quoting

pushed : ℕ → Option Text → Option Text
pushed ch none = none
pushed ch (some word) = some (ch ∷ word)

-- The word that a text is for the shell, where quoting alone settles it: a character that is not
-- quoted, or that may be special between double quotes, gives no answer.
unfoldable pub sh_word : Quoting → Text → Option Text
unfolding pushed
sh_word bare [] = some []
sh_word mode [] = none
sh_word bare (ch ∷ rest) =
    let in_single = sh_word single rest in
    let in_double = sh_word double rest in
    if ch == b'\'' then in_single else if ch == b'"' then in_double else none
sh_word single (ch ∷ rest) =
    let ended = sh_word bare rest in
    let more = sh_word single rest in if ch == b'\'' then ended else pushed ch more
sh_word double (ch ∷ rest) =
    let ended = sh_word bare rest in
    let more = sh_word double rest in
    if ch == b'"'
    then ended
    else if ch == b'$' || ch == b'`' || ch == b'\\' || ch == b'!'
    then none
    else pushed ch more

sh_word-replace_quote :
    (value : Text)
    → sh_word single (replace_quote (codes "'\"'\"'") value ++ b'\'' ∷ []) ≡ some value
unfolding sh_word replace_quote pushed
sh_word-replace_quote [] = refl
sh_word-replace_quote (ch ∷ value) = elim (Bool-cases (ch == b'\'')) [
  | inl quote ↦ let e : ch ≡ b'\'' = ground arith in rw (e, sh_word-replace_quote value) refl
  | inr other ↦ rw (other, other, sh_word-replace_quote value) refl
]

-- The shell reads a quoted text of any content as one word, that text.
pub sh_word-sh_quote : (value : Text) → sh_word bare (sh_quote value) ≡ some value
unfolding sh_word sh_quote
sh_word-sh_quote value = sh_word-replace_quote value
