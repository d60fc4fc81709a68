-- ===== src/Cli/Log.antt =====
-- crates/vb-daemon/src/main.rs: what `terminal-shim` writes of its arguments to the log. A panic of
-- `String::truncate` gives no value.
pub mod Redaction
use vibe_bridge.Base.{
  ℕ, Bool, true, false, ◌||◌, ◌&&◌, List, [], ◌∷◌, ◌++◌, map, take, length, Text, codes, Option,
  none, some, any, text_eq, to_ascii_lowercase, is_char_boundary, ltb, ◌==◌, if◌then◌else◌,
}
use vibe_bridge.Core.Terminal.{contains}

abbrev pub max_len : ℕ
max_len = 240

unfoldable pub clean_byte : ℕ → ℕ
clean_byte b = if b == b'\r' || b == b'\n' || b == b'\t' then b' ' else b

unfoldable pub terminal_shim_log_value : Text → Option Text
unfolding clean_byte is_char_boundary
terminal_shim_log_value value =
    let clean = map clean_byte value in
    if ltb max_len (length clean)
    then (if is_char_boundary max_len clean then some (take max_len clean ++ codes "...") else none)
    else some clean

abbrev pub redacted : Text
redacted = codes "<redacted>"

-- `sensitive`, of the text in lower case.
unfoldable pub is_sensitive : Text → Bool
unfolding contains
is_sensitive lower =
    contains (codes "token") lower
    || contains (codes "secret") lower
    || contains (codes "password") lower
    || contains (codes "passwd") lower
    || contains (codes "apikey") lower
    || contains (codes "api-key") lower
    || contains (codes "credential") lower
    || contains (codes "cookie") lower

-- The flags whose value is redacted.
unfoldable pub hides_next : Text → Bool
hides_next lower = any (text_eq lower) (
    codes "--cmdline"
    ∷ codes "--cmdline-b64"
    ∷ codes "--token"
    ∷ codes "--secret"
    ∷ codes "--password"
    ∷ codes "--passwd"
    ∷ codes "--api-key"
    ∷ codes "--apikey"
    ∷ codes "--credential"
    ∷ codes "--cookie"
    ∷ [])

unfoldable pub shown_arg : Bool → Text → Option Text
unfolding is_sensitive terminal_shim_log_value
shown_arg redact_next arg =
    if redact_next || is_sensitive (to_ascii_lowercase arg)
    then some redacted
    else terminal_shim_log_value arg

unfoldable pub cons_some : Option Text → Option (List Text) → Option (List Text)
cons_some none more = none
cons_some (some part) none = none
cons_some (some part) (some parts) = some (part ∷ parts)

-- The scan over the arguments, from `redact_next`.
unfoldable pub shown_args : Bool → List Text → Option (List Text)
unfolding shown_arg hides_next cons_some
shown_args redact_next [] = some []
shown_args redact_next (arg ∷ args) =
    cons_some (shown_arg redact_next arg) (shown_args (hides_next (to_ascii_lowercase arg)) args)

-- `parts.join(", ")`.
unfoldable pub join_parts : List Text → Text
join_parts [] = []
join_parts (part ∷ []) = part
join_parts (part ∷ next ∷ parts) = part ++ b',' ∷ b' ' ∷ join_parts (next ∷ parts)

unfoldable pub bracketed : Option (List Text) → Option Text
unfolding join_parts
bracketed none = none
bracketed (some parts) = some (b'[' ∷ join_parts parts ++ b']' ∷ [])

unfoldable pub terminal_shim_log_args : List Text → Option Text
unfolding bracketed shown_args
terminal_shim_log_args args = bracketed (shown_args false args)

abbrev pub same_case : Text → Text → Bool
same_case a b = text_eq (to_ascii_lowercase a) (to_ascii_lowercase b)

-- A command line under `cmd.exe /D /S /C` is not shown.
unfoldable pub terminal_shim_log_command : List Text → Option Text
unfolding terminal_shim_log_args
terminal_shim_log_command (a ∷ b ∷ c ∷ d ∷ rest) =
    if same_case a (codes "cmd.exe")
      && same_case b (codes "/D")
      && same_case c (codes "/S")
      && same_case d (codes "/C")
    then terminal_shim_log_args (a ∷ b ∷ c ∷ d ∷ codes "<cmdline>" ∷ [])
    else terminal_shim_log_args (a ∷ b ∷ c ∷ d ∷ rest)
terminal_shim_log_command command = terminal_shim_log_args command
