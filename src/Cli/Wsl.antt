-- ===== src/Cli/Wsl.antt =====
-- crates/vb-daemon/src/main.rs: the recognition of a terminal command that only opens WSL, and the
-- command that runs in its place. The script that runs in WSL is a parameter.
pub mod Interactive
use vibe_bridge.Base.{
  ℕ, zero, suc, ◌-◌, Bool, true, false, ◌||◌, ◌&&◌, not, List, [], ◌∷◌, ◌++◌, drop, Text, codes,
  Option, none, some, any, is_empty, text_eq, to_ascii_lowercase, ltb, retain, ◌==◌, if◌then◌else◌,
}
use vibe_bridge.Core.Terminal.{starts_with}
use vibe_bridge.Cli.Words.{space_width}
use vibe_bridge.Cli.Log.{same_case}

-- The word that is being read and the words after it, from the number of bytes that still belong to
-- what was read before and whether it is inside quotes.
unfoldable pub loose_words : ℕ → Bool → Text → Text × List Text
unfolding space_width
loose_words skip in_quotes [] = ([], [])
loose_words (suc skip) in_quotes (ch ∷ rest) = loose_words skip in_quotes rest
loose_words zero in_quotes (ch ∷ []) =
    if ch == b'"'
    then ([], [])
    else if ltb 0 (space_width (ch ∷ [])) && not in_quotes
    then ([], [] ∷ [])
    else (ch ∷ [], [])
loose_words zero in_quotes (ch ∷ next ∷ rest) =
    let width = space_width (ch ∷ next ∷ rest) in
    let toggled = loose_words 0 (not in_quotes) (next ∷ rest) in
    let quote = loose_words 1 in_quotes (next ∷ rest) in
    let after_space = loose_words (width - 1) in_quotes (next ∷ rest) in
    let same = loose_words 0 in_quotes (next ∷ rest) in
    if ch == b'"'
    then toggled
    else if ch == b'\\' && in_quotes && next == b'"'
    then (b'"' ∷ quote.0, quote.1)
    else if ltb 0 width && not in_quotes
    then ([], after_space.0 ∷ after_space.1)
    else (ch ∷ same.0, same.1)

-- Empty words are left out.
unfoldable pub kept_words : Text × List Text → List Text
kept_words words = retain (λ word. not (is_empty word)) (words.0 ∷ words.1)

unfoldable pub split_windows_commandline_loosely : Text → List Text
unfolding loose_words kept_words
split_windows_commandline_loosely input = kept_words (loose_words 0 false input)

-- `rsplit(['\\', '/']).next()`: what stands after the last separator.
unfoldable pub file_name : Text → Text
file_name [] = []
file_name (ch ∷ rest) =
    let later = file_name rest in
    if any (λ b. b == b'\\' || b == b'/') (ch ∷ rest)
    then (if any (λ b. b == b'\\' || b == b'/') rest then later else rest)
    else ch ∷ rest

-- The tokens, when the first names WSL.
unfoldable pub when_wsl : List Text → Option (List Text)
unfolding file_name
when_wsl [] = none
when_wsl (first ∷ args) =
    let exe = to_ascii_lowercase (file_name first) in
    if text_eq exe (codes "wsl.exe") || text_eq exe (codes "wsl") then some (first ∷ args) else none

unfoldable pub wsl_command_tokens : List Text → Option (List Text)
unfolding when_wsl split_windows_commandline_loosely
wsl_command_tokens (a ∷ b ∷ c ∷ d ∷ line ∷ []) =
    if same_case a (codes "cmd.exe")
      && same_case b (codes "/D")
      && same_case c (codes "/S")
      && same_case d (codes "/C")
    then when_wsl (split_windows_commandline_loosely line)
    else when_wsl (a ∷ b ∷ c ∷ d ∷ line ∷ [])
wsl_command_tokens command = when_wsl command

-- The flags that take a value, and those that hold it.
unfoldable pub takes_value : Text → Bool
takes_value arg = any (text_eq arg) (
    codes "-d"
    ∷ codes "--distribution"
    ∷ codes "-u"
    ∷ codes "--user"
    ∷ codes "--cd"
    ∷ codes "--shell-type"
    ∷ [])

unfoldable pub holds_value : Text → Bool
unfolding starts_with
holds_value arg =
    starts_with (codes "--distribution=") arg
    || starts_with (codes "--user=") arg
    || starts_with (codes "--cd=") arg
    || starts_with (codes "--shell-type=") arg

abbrev pub also {ℓ} : {A : Type ℓ} → List A → Option (List A) → Option (List A)
also xs none = none
also xs (some ys) = some (xs ++ ys)

-- Every other argument, a command to run among them, is refused.
unfoldable pub interactive_wsl_args : List Text → Option (List Text)
unfolding takes_value holds_value
interactive_wsl_args [] = some []
interactive_wsl_args (arg ∷ []) =
    if takes_value arg then none else if holds_value arg then some (arg ∷ []) else none
interactive_wsl_args (arg ∷ next ∷ rest) =
    let past = interactive_wsl_args rest in
    let later = interactive_wsl_args (next ∷ rest) in
    if takes_value arg
    then also (arg ∷ next ∷ []) past
    else if holds_value arg
    then also (arg ∷ []) later
    else none

unfoldable pub with_tokens : Option (List Text) → Option (List Text)
unfolding interactive_wsl_args
with_tokens none = none
with_tokens (some tokens) = interactive_wsl_args (drop 1 tokens)

unfoldable pub parse_simple_wsl_command : List Text → Option (List Text)
unfolding with_tokens wsl_command_tokens
parse_simple_wsl_command command = with_tokens (wsl_command_tokens command)

unfoldable pub wsl_args_include_cd : List Text → Bool
unfolding starts_with
wsl_args_include_cd args =
    any (λ arg. text_eq arg (codes "--cd") || starts_with (codes "--cd=") arg) args

unfoldable pub wrap_parsed : List Text → Text → Option (List Text) → List Text
unfolding wsl_args_include_cd
wrap_parsed command script none = command
wrap_parsed command script (some interactive_args) =
    codes "wsl.exe"
    ∷ (interactive_args
        ++ ((if wsl_args_include_cd interactive_args then [] else codes "--cd" ∷ codes "~" ∷ [])
            ++ codes "--exec"
              ∷ codes "bash"
              ∷ codes "-lc"
              ∷ script
              ∷ codes "vibe-bridge-terminal"
              ∷ []))

unfoldable pub maybe_wrap_wsl_terminal_command : List Text → Text → List Text
unfolding wrap_parsed parse_simple_wsl_command
maybe_wrap_wsl_terminal_command command script =
    wrap_parsed command script (parse_simple_wsl_command command)
