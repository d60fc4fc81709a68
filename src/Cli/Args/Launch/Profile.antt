-- ===== src/Cli/Args/Launch/Profile.antt =====
-- From the command line that a terminal profile is given in crates/vb-daemon/src/main.rs to the
-- command that runs: Windows splits the line, `terminal-shim` reads the arguments and decodes.
use vibe_bridge.Base.{
  ◌≡◌, refl, Bool, true, false, not, ◌||◌, ◌&&◌, List, [], ◌∷◌, Text, codes, some, All, IsBytes,
  drop, is_empty, is_utf8, text_eq, arith,
}
use vibe_bridge.Cli.Base64.{base64_encode_bytes}
use vibe_bridge.Cli.Base64.RoundTrip.{
  IsVisible, base64_encode_bytes-IsVisible, base64_decode_bytes-encode,
}
use vibe_bridge.Cli.Quote.{has_whitespace, has_special, quote_windows_arg}
use vibe_bridge.Cli.Quote.Windows.{arguments, command_line, arguments-command_line}
use vibe_bridge.Cli.Profile.{build_terminal_profile_commandline}
use vibe_bridge.Cli.Profile.RoundTrip.{base64-nonempty}
use vibe_bridge.Cli.Args.{ok, arg_loop}
use vibe_bridge.Cli.Args.Launch.{
  TerminalShimOpts, shim_defaults, shim_arm, parse_terminal_shim_args, terminal_shim_command,
  command_of, decoded_command, cmd_line,
}

no_whitespace : (s : Text) → All IsVisible s → has_whitespace s ≡ false
unfolding has_whitespace
no_whitespace [] h = refl
no_whitespace (a ∷ []) h = ground arith
no_whitespace (a ∷ b ∷ []) h = ground (arith, no_whitespace (b ∷ []) h.1)
no_whitespace (a ∷ b ∷ c ∷ s) h = ground (arith, no_whitespace (b ∷ c ∷ s) h.1)

no_special : (s : Text) → All IsVisible s → has_special s ≡ false
unfolding has_special
no_special [] h = refl
no_special (a ∷ s) h = ground (arith, no_special s h.1)

quote-visible : (s : Text) → All IsVisible s → is_empty s ≡ false → quote_windows_arg s ≡ s
unfolding quote_windows_arg
quote-visible s h nonempty = rw (nonempty, no_whitespace s h, no_special s h) refl

-- The words of the line.
abbrev pub profile_arguments : Text → Text → Text → Text → List Text
profile_arguments exe addr name original =
    exe
    ∷ codes "terminal-shim"
    ∷ codes "--daemon"
    ∷ addr
    ∷ codes "--name"
    ∷ name
    ∷ codes "--follow-console-size"
    ∷ codes "--cmdline-b64"
    ∷ base64_encode_bytes original
    ∷ []

-- The flags need no quotes.
unfoldable needs_none : Text → Bool
needs_none s = not (is_empty s) && not (has_whitespace s || has_special s)

quote_literal : (s : Text) → needs_none s ≡ true → quote_windows_arg s ≡ s
unfolding quote_windows_arg needs_none
quote_literal s h = rw h refl

build-command_line :
    (exe addr name original : Text)
    → is_empty original ≡ false
    → build_terminal_profile_commandline exe addr name original
      ≡ command_line (profile_arguments exe addr name original)
unfolding build_terminal_profile_commandline command_line needs_none has_whitespace has_special
build-command_line exe addr name original nonempty =
    rw
      (
        quote-visible (base64_encode_bytes original) (base64_encode_bytes-IsVisible original)
            (base64-nonempty original nonempty),
        quote_literal (codes "terminal-shim") refl,
        quote_literal (codes "--daemon") refl,
        quote_literal (codes "--name") refl,
        quote_literal (codes "--follow-console-size") refl,
        quote_literal (codes "--cmdline-b64") refl,
      )
      refl

-- The options that the shim finds in the line.
abbrev pub profile_opts : Text → Text → Text → TerminalShimOpts
profile_opts addr name original = record shim_defaults {
  daemon_addr = some addr;
  name = some name;
  follow_console_size = true;
  cmdline_b64 = some (base64_encode_bytes original);
}

parse-profile_arguments :
    (exe addr name original : Text)
    → parse_terminal_shim_args (drop 2 (profile_arguments exe addr name original))
      ≡ ok (profile_opts addr name original)
unfolding parse_terminal_shim_args arg_loop shim_arm text_eq
parse-profile_arguments exe addr name original = refl

command-profile_opts :
    (addr name original : Text)
    → IsBytes original
    → is_utf8 original ≡ true
    → terminal_shim_command (profile_opts addr name original) ≡ some (cmd_line original)
unfolding command_of decoded_command
command-profile_opts addr name original bytes utf8 =
    rw (base64_decode_bytes-encode original bytes, utf8) refl

-- Windows splits the line of a wrapped profile into nine arguments, of which the first two are the
-- program and `terminal-shim`; the shim reads the other seven as its options and runs the original
-- command line under `cmd.exe /D /S /C`, whatever the path, the address and the name hold, if the
-- original is UTF-8 and not empty.
pub shim-runs_original :
    (exe addr name original : Text)
    → IsBytes original
    → is_utf8 original ≡ true
    → is_empty original ≡ false
    → (arguments 9 (build_terminal_profile_commandline exe addr name original)
        ≡ profile_arguments exe addr name original)
      × (parse_terminal_shim_args (drop 2 (profile_arguments exe addr name original))
          ≡ ok (profile_opts addr name original))
      × (terminal_shim_command (profile_opts addr name original) ≡ some (cmd_line original))
shim-runs_original exe addr name original bytes utf8 nonempty = (
  rw (build-command_line exe addr name original nonempty)
      (arguments-command_line (profile_arguments exe addr name original) 9 (omega arith)),
  parse-profile_arguments exe addr name original,
  command-profile_opts addr name original bytes utf8,
)
