-- ===== src/Examples/Cli.antt =====
-- Examples for crates/vb-daemon/src/main.rs.
use vibe_bridge.Base.{
  ℕ, ◌≡◌, ◌≤◌, refl, Bool, true, false, List, [], ◌∷◌, ◌++◌, Text, codes, Option, none, some, drop,
  text_eq, if◌then◌else◌, arith, is_utf8, any,
}
use vibe_bridge.Json.{
  Value, Items, object, array, string, number, item, no_items, field, no_fields, get_value,
}
use vibe_bridge.Cli.Quote.Windows.{arguments, command_line, arguments-command_line}
use vibe_bridge.Cli.Jsonc.{strip_jsonc_comments}
use vibe_bridge.Cli.Jsonc.Comments.{
  Piece, outside, literal, line_comment, block_comment, char, escaped_char, source_text, plain_text,
  strip-source_text,
}
use vibe_bridge.Cli.Profile.{build_terminal_profile_commandline, extract_wrapped_terminal_cmdline}
use vibe_bridge.Cli.Profile.RoundTrip.{extract-build}
use vibe_bridge.Cli.Profile.Settings.{
  wrap_profiles, unwrap_profiles, settings, wrap_windows_terminal_settings_json,
}
use vibe_bridge.Cli.Profile.Settings.Again.{fits}
use vibe_bridge.Cli.Profile.Settings.Restored.{restored_items, unwrap_profiles-wrap}
use vibe_bridge.Cli.Profile.Settings.Whole.{wrapped_root, wrap_settings-again}
use vibe_bridge.Cli.Args.{pos, negsuc, ok}
use vibe_bridge.Cli.Args.Launch.{
  StartOpts, parse_launch_args, start_launch_args, parse_terminal_shim_args, terminal_shim_command,
  cmd_line,
}
use vibe_bridge.Cli.Args.Launch.Relaunch.{parse-start_launch_args}
use vibe_bridge.Cli.Args.Launch.Profile.{profile_arguments, profile_opts, shim-runs_original}
use vibe_bridge.Cli.Args.Install.{
  install_defaults, parse_install_windows_args, product_install_args,
}
use vibe_bridge.Cli.Args.Install.Product.{parse-product_install_args}
use vibe_bridge.Cli.Log.{terminal_shim_log_args}
use vibe_bridge.Cli.Log.Redaction.{log_args-hide_secret}
use vibe_bridge.Cli.Wsl.{parse_simple_wsl_command}
use vibe_bridge.Cli.Wsl.Interactive.{parse_simple_wsl_command-distribution}
use vibe_bridge.Cli.Quote.{quote_windows_arg}

abbrev exe_path : Text
exe_path = codes "C:\\Program Files\\vb.exe"

abbrev local_addr : Text
local_addr = codes "127.0.0.1:8765"

shim-runs_original_example :
    (arguments 9
        (build_terminal_profile_commandline exe_path local_addr (codes "a \"b\"") (codes "cmd"))
      ≡ profile_arguments exe_path local_addr (codes "a \"b\"") (codes "cmd"))
    × (parse_terminal_shim_args
          (drop 2 (profile_arguments exe_path local_addr (codes "a \"b\"") (codes "cmd")))
        ≡ ok (profile_opts local_addr (codes "a \"b\"") (codes "cmd")))
    × (terminal_shim_command (profile_opts local_addr (codes "a \"b\"") (codes "cmd"))
        ≡ some (cmd_line (codes "cmd")))
unfolding is_utf8
shim-runs_original_example =
    shim-runs_original exe_path local_addr (codes "a \"b\"") (codes "cmd")
      (omega arith, (omega arith, (omega arith, tt))) refl refl

extract-build_example :
    extract_wrapped_terminal_cmdline
      (build_terminal_profile_commandline exe_path local_addr (codes "a b") (codes "cmd"))
    ≡ some (codes "cmd")
unfolding is_utf8 quote_windows_arg vibe_bridge.Cli.Words.split_whitespace text_eq
extract-build_example =
    extract-build exe_path local_addr (codes "a b") (codes "cmd") refl refl refl
      (omega arith, (omega arith, (omega arith, tt))) refl refl

-- A backslash before a quote, one at the end, nothing, and a plain word.
arguments-command_line_example :
    arguments 4 (command_line (codes "a \\\"" ∷ codes "b \\" ∷ [] ∷ codes "c" ∷ []))
    ≡ codes "a \\\"" ∷ codes "b \\" ∷ [] ∷ codes "c" ∷ []
arguments-command_line_example =
    arguments-command_line (codes "a \\\"" ∷ codes "b \\" ∷ [] ∷ codes "c" ∷ []) 4 (omega arith)

abbrev some_json : List Piece
some_json =
    outside b'{'
    ∷ block_comment (codes " a * / b *")
    ∷ literal (char b'/' ∷ char b'/' ∷ escaped_char b'"' ∷ [])
    ∷ line_comment (codes " \"c")
    ∷ outside b'}'
    ∷ []

strip-source_text_example : strip_jsonc_comments (source_text some_json) ≡ plain_text some_json
unfolding vibe_bridge.Cli.Jsonc.Comments.ill_formed
strip-source_text_example = strip-source_text some_json refl

abbrev two_profiles : Items
two_profiles =
    item
      (object (
        field (codes "name") (string (codes "A"))
          (field (codes "commandline") (string (codes "cmd")) no_fields)))
      (item (object (field (codes "name") (string (codes "Ubuntu")) no_fields)) no_items)

unwrap_profiles-wrap_example :
    (unwrap_profiles (wrap_profiles (codes "v") (codes "l") two_profiles).list).list
    ≡ restored_items two_profiles
unfolding fits is_utf8 quote_windows_arg vibe_bridge.Cli.Words.split_whitespace text_eq
    vibe_bridge.Json.get vibe_bridge.Cli.Profile.terminal_profile_original_commandline
    vibe_bridge.Base.trim extract_wrapped_terminal_cmdline vibe_bridge.Core.Terminal.contains
    vibe_bridge.Base.lower_byte
unwrap_profiles-wrap_example =
    unwrap_profiles-wrap (codes "v") (codes "l") two_profiles refl refl refl

abbrev root_of : Items → Value
root_of items =
    object
      (field (codes "profiles") (object (field (codes "list") (array items) no_fields)) no_fields)

abbrev parse_example : Text → Option Value
parse_example text =
    if text_eq text (codes "in")
    then some (root_of two_profiles)
    else some (wrapped_root (codes "v") (codes "l") (root_of two_profiles) two_profiles)

abbrev print_example : Value → Text
print_example value = codes "\"\\\"//\""

-- A string that holds an escaped quote and two slashes, and the line's end.
abbrev put_out : Text
put_out = codes "\"\\\"//\"\n"

wrap_settings-again_example :
    wrap_windows_terminal_settings_json parse_example print_example put_out (codes "v") (codes "l")
    ≡ settings none [] (codes "A" ∷ codes "Ubuntu" ∷ [])
unfolding fits is_utf8 quote_windows_arg vibe_bridge.Cli.Words.split_whitespace text_eq
    vibe_bridge.Json.get vibe_bridge.Cli.Profile.terminal_profile_original_commandline
    vibe_bridge.Base.trim extract_wrapped_terminal_cmdline vibe_bridge.Core.Terminal.contains
    vibe_bridge.Base.lower_byte wrap_windows_terminal_settings_json strip_jsonc_comments
    vibe_bridge.Cli.Jsonc.Comments.ill_formed source_text
wrap_settings-again_example =
    wrap_settings-again parse_example print_example (codes "in") (codes "v") (codes "l")
      (root_of two_profiles) two_profiles put_out (codes "A" ∷ codes "Ubuntu" ∷ [])
      (codes "A" ∷ codes "Ubuntu" ∷ []) refl refl refl refl refl
      (
        literal (escaped_char b'"' ∷ char b'/' ∷ char b'/' ∷ []) ∷ outside b'\n' ∷ [],
        refl,
        refl,
        refl,
      )
      refl refl

abbrev claude_opts : StartOpts
claude_opts = record {
  daemon_addr = none;
  device = codes "auto";
  kind = some (codes "claude");
  name = none;
  cols = pos 120;
  rows = negsuc 0;
  follow_console_size = true;
  command = codes "claude" ∷ codes "--" ∷ codes "--cols" ∷ [];
}

parse-start_launch_args_example :
    parse_launch_args (start_launch_args local_addr claude_opts)
    ≡ ok (record {
      daemon_addr = some local_addr;
      kind = some (codes "claude");
      name = none;
      cols = pos 120;
      rows = negsuc 0;
      follow_console_size = true;
      command = codes "claude" ∷ codes "--" ∷ codes "--cols" ∷ [];
    })
parse-start_launch_args_example =
    parse-start_launch_args local_addr claude_opts (omega arith) (omega arith) refl

abbrev install_args : List Text
install_args = codes "--no-wsl-shell" ∷ codes "--addr" ∷ codes "x" ∷ []

parse-product_install_args_example :
    parse_install_windows_args (some (codes "d")) (product_install_args install_args)
    ≡ ok (record (install_defaults (codes "d")) {
      addr = codes "x";
      install_management_shortcuts = true;
    })
unfolding parse_install_windows_args text_eq
parse-product_install_args_example =
    parse-product_install_args (codes "d") install_args
      (record (install_defaults (codes "d")) { addr = codes "x" }) refl

log_args-hide_secret_example :
    terminal_shim_log_args (codes "a" ∷ codes "--Password" ∷ codes "one" ∷ [])
    ≡ terminal_shim_log_args (codes "a" ∷ codes "--Password" ∷ codes "other" ∷ [])
unfolding vibe_bridge.Cli.Log.hides_next vibe_bridge.Base.lower_byte text_eq
log_args-hide_secret_example =
    log_args-hide_secret (codes "a" ∷ []) [] (codes "--Password") (codes "one") (codes "other") refl
      refl refl

parse_simple_wsl_command-distribution_example :
    parse_simple_wsl_command
      (cmd_line (codes "wsl.exe -d " ++ quote_windows_arg (codes "my linux")))
    ≡ some (codes "-d" ∷ codes "my linux" ∷ [])
unfolding vibe_bridge.Cli.Quote.has_special
parse_simple_wsl_command-distribution_example =
    parse_simple_wsl_command-distribution (codes "my linux") refl refl
