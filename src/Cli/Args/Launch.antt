-- ===== src/Cli/Args/Launch.antt =====
-- crates/vb-daemon/src/main.rs: the arguments of `launch`, `start` and `terminal-shim`, and the
-- arguments of `launch` that the other two make.
pub mod Relaunch
pub mod Profile
use vibe_bridge.Base.{
  ℕ, Bool, true, false, ◌||◌, ◌&&◌, List, [], ◌∷◌, ◌++◌, Text, codes, Option, none, some, is_empty,
  text_eq, is_utf8, if◌then◌else◌,
}
use vibe_bridge.Core.Terminal.{starts_with}
use vibe_bridge.Cli.Base64.{Decoded, base64_decode_bytes}
use vibe_bridge.Cli.Args.{
  ℤ, pos, negsuc, decimal, to_string, parse_i16, parse_u16, ArgError, needs_value, invalid_number,
  unknown_flag, missing_command, Parsed, ok, err, and_then, Arm, separator, word, sets, takes,
  fails, arg_loop,
}

abbrev pub default_lcd_cols : ℤ
default_lcd_cols = pos 78

abbrev pub default_lcd_rows : ℤ
default_lcd_rows = pos 15

pub record LaunchOpts : Type 0 where
  pub daemon_addr : Option Text
  pub kind : Option Text
  pub name : Option Text
  pub cols : ℤ
  pub rows : ℤ
  pub follow_console_size : Bool
  pub command : List Text

abbrev pub launch_defaults : LaunchOpts
launch_defaults = record {
  daemon_addr = none;
  kind = none;
  name = none;
  cols = default_lcd_cols;
  rows = default_lcd_rows;
  follow_console_size = false;
  command = [];
}

-- `.parse().map_err(..)?` of the value of a flag.
abbrev pub number_of {ℓ} : {A : Type ℓ} → Text → Option A → Parsed A
number_of flag none = err (invalid_number flag)
number_of flag (some n) = ok n

-- The arms that are last in each parser: an unknown flag, or a word.
unfoldable pub other_arm {ℓ} : {O : Type ℓ} → Text → Arm O
other_arm arg = if starts_with (codes "--") arg then fails (unknown_flag arg) else word

unfoldable pub launch_arm : Text → LaunchOpts → Arm LaunchOpts
unfolding other_arm
launch_arm arg opts =
    if text_eq arg (codes "--")
    then separator
    else if text_eq arg (codes "--daemon")
    then takes (λ v. ok (record opts { daemon_addr = some v }))
    else if text_eq arg (codes "--kind")
    then takes (λ v. ok (record opts { kind = some v }))
    else if text_eq arg (codes "--name")
    then takes (λ v. ok (record opts { name = some v }))
    else if text_eq arg (codes "--cols")
    then takes (λ v. and_then (number_of arg (parse_i16 v)) (λ n. ok (record opts { cols = n })))
    else if text_eq arg (codes "--rows")
    then takes (λ v. and_then (number_of arg (parse_i16 v)) (λ n. ok (record opts { rows = n })))
    else if text_eq arg (codes "--follow-console-size")
    then sets (record opts { follow_console_size = true })
    else other_arm arg

abbrev pub push_launch : Text → LaunchOpts → LaunchOpts
push_launch arg opts = record opts { command = opts.command ++ arg ∷ [] }

-- A launch without a command is refused.
unfoldable pub parse_launch_args : List Text → Parsed LaunchOpts
unfolding arg_loop launch_arm
parse_launch_args raw =
    and_then (arg_loop launch_arm push_launch false launch_defaults raw)
      (λ opts. if is_empty opts.command then err missing_command else ok opts)

pub record StartOpts : Type 0 where
  pub daemon_addr : Option Text
  pub device : Text
  pub kind : Option Text
  pub name : Option Text
  pub cols : ℤ
  pub rows : ℤ
  pub follow_console_size : Bool
  pub command : List Text

abbrev pub start_defaults : StartOpts
start_defaults = record {
  daemon_addr = none;
  device = codes "auto";
  kind = none;
  name = none;
  cols = default_lcd_cols;
  rows = default_lcd_rows;
  follow_console_size = false;
  command = [];
}

unfoldable pub start_arm : Text → StartOpts → Arm StartOpts
unfolding other_arm
start_arm arg opts =
    if text_eq arg (codes "--")
    then separator
    else if text_eq arg (codes "--daemon")
    then takes (λ v. ok (record opts { daemon_addr = some v }))
    else if text_eq arg (codes "--port")
    then takes (λ v.
      and_then (number_of arg (parse_u16 v))
        (λ port. ok (record opts { daemon_addr = some (codes "127.0.0.1:" ++ decimal port) })))
    else if text_eq arg (codes "--device")
    then takes (λ v. ok (record opts { device = v }))
    else if text_eq arg (codes "--kind")
    then takes (λ v. ok (record opts { kind = some v }))
    else if text_eq arg (codes "--name")
    then takes (λ v. ok (record opts { name = some v }))
    else if text_eq arg (codes "--cols")
    then takes (λ v. and_then (number_of arg (parse_i16 v)) (λ n. ok (record opts { cols = n })))
    else if text_eq arg (codes "--rows")
    then takes (λ v. and_then (number_of arg (parse_i16 v)) (λ n. ok (record opts { rows = n })))
    else if text_eq arg (codes "--follow-console-size")
    then sets (record opts { follow_console_size = true })
    else other_arm arg

abbrev pub push_start : Text → StartOpts → StartOpts
push_start arg opts = record opts { command = opts.command ++ arg ∷ [] }

unfoldable pub parse_start_args : List Text → Parsed StartOpts
unfolding arg_loop start_arm
parse_start_args raw =
    and_then (arg_loop start_arm push_start false start_defaults raw)
      (λ opts. if is_empty opts.command then err missing_command else ok opts)

pub record TerminalShimOpts : Type 0 where
  pub daemon_addr : Option Text
  pub name : Option Text
  pub cols : ℤ
  pub rows : ℤ
  pub follow_console_size : Bool
  pub cmdline : Option Text
  pub cmdline_b64 : Option Text
  pub command : List Text

abbrev pub shim_defaults : TerminalShimOpts
shim_defaults = record {
  daemon_addr = none;
  name = none;
  cols = default_lcd_cols;
  rows = default_lcd_rows;
  follow_console_size = false;
  cmdline = none;
  cmdline_b64 = none;
  command = [];
}

unfoldable pub shim_arm : Text → TerminalShimOpts → Arm TerminalShimOpts
unfolding other_arm
shim_arm arg opts =
    if text_eq arg (codes "--")
    then separator
    else if text_eq arg (codes "--daemon")
    then takes (λ v. ok (record opts { daemon_addr = some v }))
    else if text_eq arg (codes "--name")
    then takes (λ v. ok (record opts { name = some v }))
    else if text_eq arg (codes "--cols")
    then takes (λ v. and_then (number_of arg (parse_i16 v)) (λ n. ok (record opts { cols = n })))
    else if text_eq arg (codes "--rows")
    then takes (λ v. and_then (number_of arg (parse_i16 v)) (λ n. ok (record opts { rows = n })))
    else if text_eq arg (codes "--follow-console-size")
    then sets (record opts { follow_console_size = true })
    else if text_eq arg (codes "--cmdline")
    then takes (λ v. ok (record opts { cmdline = some v }))
    else if text_eq arg (codes "--cmdline-b64")
    then takes (λ v. ok (record opts { cmdline_b64 = some v }))
    else other_arm arg

abbrev pub push_shim : Text → TerminalShimOpts → TerminalShimOpts
push_shim arg opts = record opts { command = opts.command ++ arg ∷ [] }

unfoldable pub parse_terminal_shim_args : List Text → Parsed TerminalShimOpts
unfolding arg_loop shim_arm
parse_terminal_shim_args raw = arg_loop shim_arm push_shim false shim_defaults raw

-- `cmd.exe /D /S /C` and the command line.
abbrev pub cmd_line : Text → List Text
cmd_line line = codes "cmd.exe" ∷ codes "/D" ∷ codes "/S" ∷ codes "/C" ∷ line ∷ []

unfoldable pub decoded_command : Decoded (List ℕ) → Option (List Text)
decoded_command (Decoded.ok bytes) = if is_utf8 bytes then some (cmd_line bytes) else none
decoded_command (Decoded.err e) = none

-- An encoded command line that does not decode to UTF-8 is an error.
unfoldable pub command_of : Option Text → Option Text → List Text → Option (List Text)
unfolding decoded_command
command_of (some encoded) cmdline command = decoded_command (base64_decode_bytes encoded)
command_of none (some line) command = some (cmd_line line)
command_of none none [] = some (codes "powershell.exe" ∷ [])
command_of none none (arg ∷ command) = some (arg ∷ command)

abbrev pub terminal_shim_command : TerminalShimOpts → Option (List Text)
terminal_shim_command opts = command_of opts.cmdline_b64 opts.cmdline opts.command

-- A flag with its value, when there is one.
abbrev pub flag_value : Text → Option Text → List Text
flag_value flag none = []
flag_value flag (some v) = flag ∷ v ∷ []

abbrev pub size_args : ℤ → ℤ → Bool → List Text → List Text
size_args cols rows follow command =
    codes "--cols"
    ∷ to_string cols
    ∷ codes "--rows"
    ∷ to_string rows
    ∷ ((if follow then codes "--follow-console-size" ∷ [] else []) ++ codes "--" ∷ command)

-- `launch_args` in `run_start`.
unfoldable pub start_launch_args : Text → StartOpts → List Text
unfolding to_string
start_launch_args addr opts =
    codes "--daemon"
    ∷ addr
    ∷ (flag_value (codes "--kind") opts.kind
        ++ (flag_value (codes "--name") opts.name
            ++ size_args opts.cols opts.rows opts.follow_console_size opts.command))

-- `launch_args` in `run_terminal_shim`.
unfoldable pub shim_launch_args : Text → Text → TerminalShimOpts → List Text → List Text
unfolding to_string
shim_launch_args addr name opts command =
    codes "--daemon"
    ∷ addr
    ∷ codes "--kind"
    ∷ codes "terminal"
    ∷ codes "--name"
    ∷ name
    ∷ size_args opts.cols opts.rows opts.follow_console_size command
