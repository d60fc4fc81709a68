-- ===== src/Cli/Profile.antt =====
-- crates/vb-daemon/src/main.rs: the command lines that run a terminal profile under the daemon's
-- shim, and the change of the Windows Terminal settings that installs and removes them. Parsing and
-- printing of JSON belong to the JSON library and are parameters.
pub mod RoundTrip
pub mod Trimmed
pub mod Settings
use vibe_bridge.Base.{
  ℕ, Bool, true, false, not, ◌||◌, ◌&&◌, List, [], ◌∷◌, ◌++◌, reverse, Text, codes, Option, none,
  some, is_empty, text_eq, trim, to_ascii_lowercase, is_utf8, ◌==◌, if◌then◌else◌,
}
use vibe_bridge.Core.Terminal.{contains}
use vibe_bridge.Json.{
  Value, Items, Fields, object, string, array, no_items, item, get, get_value, get_text, as_str,
  as_bool, insert,
}
use vibe_bridge.Cli.Base64.{Decoded, ok, err, base64_encode_bytes, base64_decode_bytes}
use vibe_bridge.Cli.Quote.{quote_windows_arg}
use vibe_bridge.Cli.Words.{split_whitespace}

abbrev pub b64_flag : Text
b64_flag = codes "--cmdline-b64"

unfoldable pub build_terminal_profile_commandline : Text → Text → Text → Text → Text
build_terminal_profile_commandline exe addr name original_cmdline =
    let encoded = base64_encode_bytes original_cmdline in
    let named =
      quote_windows_arg name ++ (codes " --follow-console-size --cmdline-b64 " ++ encoded) in
    let addressed = quote_windows_arg addr ++ (codes " --name " ++ named) in
    quote_windows_arg exe ++ (codes " terminal-shim --daemon " ++ addressed)

unfoldable pub trim_front_quotes : Text → Text
trim_front_quotes [] = []
trim_front_quotes (ch ∷ rest) = if ch == b'"' then trim_front_quotes rest else ch ∷ rest

-- `trim_matches('"')`.
unfoldable pub trim_quotes : Text → Text
unfolding trim_front_quotes
trim_quotes text = reverse (trim_front_quotes (reverse (trim_front_quotes text)))

-- `String::from_utf8(base64_decode_bytes(encoded).ok()?).ok()`.
unfoldable pub decoded_text : Decoded (List ℕ) → Option Text
decoded_text (ok bytes) = if is_utf8 bytes then some bytes else none
decoded_text (err e) = none

-- The loop over the words.
unfoldable pub after_flag : List Text → Option Text
unfolding decoded_text trim_quotes
after_flag [] = none
after_flag (part ∷ []) = none
after_flag (part ∷ next ∷ parts) =
    let later = after_flag (next ∷ parts) in
    if text_eq part b64_flag then decoded_text (base64_decode_bytes (trim_quotes next)) else later

unfoldable pub extract_wrapped_terminal_cmdline : Text → Option Text
unfolding after_flag
extract_wrapped_terminal_cmdline commandline =
    if contains (codes "terminal-shim") commandline
      || contains (codes "capture-shell") commandline
      || contains (codes "vibe-terminal") commandline
    then after_flag (split_whitespace commandline)
    else none

abbrev pub unwrap_or {ℓ} : {A : Type ℓ} → A → Option A → A
unwrap_or d none = d
unwrap_or d (some a) = a

-- The command line that Windows Terminal has for a profile that gives none.
unfoldable pub default_commandline : Text → Text → Option Text
default_commandline name source =
    let lower_name = to_ascii_lowercase name in
    let lower_source = to_ascii_lowercase source in
    if contains (codes "wsl") lower_source
      || contains (codes "ubuntu") lower_name
      || contains (codes "debian") lower_name
    then (if is_empty (trim name)
        then some (codes "wsl.exe")
        else some (codes "wsl.exe -d " ++ quote_windows_arg name))
    else if contains (codes "powershellcore") lower_source
        || text_eq lower_name (codes "powershell")
        || contains (codes "powershell 7") lower_name
    then some (codes "pwsh.exe")
    else if contains (codes "windowspowershell") lower_source
        || contains (codes "windows powershell") lower_name
    then some (codes "powershell.exe")
    else if contains (codes "visualstudio") lower_source && contains (codes "powershell") lower_name
    then some (codes "powershell.exe")
    else if contains (codes "cmd") lower_source || contains (codes "command prompt") lower_name
    then some (codes "cmd.exe")
    else if contains (codes "powershell") lower_name
    then some (codes "powershell.exe")
    else none

-- The profile's own command line, when it is not blank.
unfoldable pub own_commandline : Option Text → Option Text
own_commandline none = none
own_commandline (some text) = if is_empty (trim text) then none else some (trim text)

unfoldable pub or_else : Option Text → Option Text → Option Text
or_else (some text) other = some text
or_else none other = other

unfoldable pub terminal_profile_original_commandline : Fields → Option Text
unfolding own_commandline or_else default_commandline
terminal_profile_original_commandline profile =
    or_else (own_commandline (get_text (codes "commandline") profile)) (
      default_commandline (unwrap_or [] (get_text (codes "name") profile))
        (unwrap_or [] (get_text (codes "source") profile)))

abbrev pub profile_name : Fields → Text
profile_name profile = unwrap_or (codes "Windows Terminal") (get_text (codes "name") profile)

-- The line that a profile is given: the original inside a wrapped line is wrapped anew.
unfoldable pub wrapped_commandline : Text → Text → Fields → Text → Text
unfolding build_terminal_profile_commandline extract_wrapped_terminal_cmdline
wrapped_commandline exe addr profile profile_cmdline =
    build_terminal_profile_commandline exe addr (codes "Terminal: " ++ profile_name profile)
      (unwrap_or profile_cmdline (extract_wrapped_terminal_cmdline profile_cmdline))
