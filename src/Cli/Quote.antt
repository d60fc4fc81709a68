-- ===== src/Cli/Quote.antt =====
-- crates/vb-daemon/src/main.rs: `quote_windows_arg`, `sh_quote` and `ps_quote`. Text is handled by
-- bytes: a quote, a backslash and an ASCII space are no part of a longer character.
pub mod Windows
pub mod Shell
use vibe_bridge.Base.{
  ℕ, zero, suc, ◌*◌, ◌+◌, Bool, true, false, ◌||◌, not, ◌&&◌, List, [], ◌∷◌, ◌++◌, Text, codes,
  is_empty, replicate, space1, space2, space3, ◌==◌, if◌then◌else◌,
}

-- `chars().any(char::is_whitespace)`.
unfoldable pub has_whitespace : Text → Bool
has_whitespace [] = false
has_whitespace (a ∷ []) = space1 a
has_whitespace (a ∷ b ∷ []) = space1 a || space2 a b || has_whitespace (b ∷ [])
has_whitespace (a ∷ b ∷ c ∷ r) =
    space1 a || space2 a b || space3 a b c || has_whitespace (b ∷ c ∷ r)

unfoldable pub has_special : Text → Bool
has_special [] = false
has_special (a ∷ r) = a == b'"' || a == b'\\' || has_special r

-- The loop over the characters, from the number of backslashes held back, and what follows it.
unfoldable pub quote_loop : ℕ → Text → Text
quote_loop backslashes [] = replicate (backslashes * 2) b'\\' ++ b'"' ∷ []
quote_loop backslashes (ch ∷ rest) =
    let held = quote_loop (suc backslashes) rest in
    let fresh = quote_loop 0 rest in
    if ch == b'\\'
    then held
    else if ch == b'"'
    then replicate (backslashes * 2 + 1) b'\\' ++ b'"' ∷ fresh
    else replicate backslashes b'\\' ++ ch ∷ fresh

unfoldable pub quote_windows_arg : Text → Text
unfolding has_whitespace has_special quote_loop
quote_windows_arg value =
    if not (is_empty value) && not (has_whitespace value || has_special value)
    then value
    else b'"' ∷ quote_loop 0 value

-- `value.replace("'", replacement)`.
unfoldable pub replace_quote : Text → Text → Text
replace_quote replacement [] = []
replace_quote replacement (ch ∷ rest) =
    if ch == b'\''
    then replacement ++ replace_quote replacement rest
    else ch ∷ replace_quote replacement rest

-- A quote leaves the quoted text, stands between double quotes, and enters it again.
unfoldable pub sh_quote : Text → Text
unfolding replace_quote
sh_quote value = b'\'' ∷ (replace_quote (codes "'\"'\"'") value ++ b'\'' ∷ [])

unfoldable pub ps_quote : Text → Text
unfolding replace_quote
ps_quote value = b'\'' ∷ (replace_quote (codes "''") value ++ b'\'' ∷ [])
