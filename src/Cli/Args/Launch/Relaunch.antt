-- ===== src/Cli/Args/Launch/Relaunch.antt =====
-- The arguments that `run_start` and `run_terminal_shim` of crates/vb-daemon/src/main.rs make are
-- read by `parse_launch_args` as they were meant.
use vibe_bridge.Base.{
  ◌≡◌, refl, ap, ◌∙◌, Bool, true, false, List, [], ◌∷◌, ◌++◌, Text, codes, Option, none, some,
  append_assoc, append-nil, is_empty, text_eq,
}
use vibe_bridge.Cli.Args.{ℤ, ok, arg_loop}
use vibe_bridge.Cli.Args.Numbers.{FitsI16, parse_i16-to_string}
use vibe_bridge.Cli.Args.Launch.{
  LaunchOpts, launch_defaults, launch_arm, push_launch, parse_launch_args, StartOpts,
  TerminalShimOpts, flag_value, size_args, start_launch_args, shim_launch_args,
}

-- The words after the start of the command are its own.
loop-command :
    (opts : LaunchOpts) (command : List Text)
    → arg_loop launch_arm push_launch true opts command
      ≡ ok (record opts { command = opts.command ++ command })
unfolding arg_loop
loop-command opts [] = rw append-nil refl
loop-command opts (arg ∷ command) =
    loop-command (push_launch arg opts) command
    ∙ ap (λ words. ok (record opts { command = words }))
        (append_assoc opts.command (arg ∷ []) command)

loop-size :
    (opts : LaunchOpts) (cols rows : ℤ) (follow : Bool) (command : List Text)
    → FitsI16 cols
    → FitsI16 rows
    → opts.command ≡ []
    → opts.follow_console_size ≡ false
    → arg_loop launch_arm push_launch false opts (size_args cols rows follow command)
      ≡ ok (record opts {
        cols = cols;
        rows = rows;
        follow_console_size = follow;
        command = command;
      })
unfolding arg_loop launch_arm text_eq
loop-size opts cols rows true [] hc hr none_yet not_yet =
    rw (parse_i16-to_string cols hc, parse_i16-to_string rows hr, none_yet) refl
loop-size opts cols rows false [] hc hr none_yet not_yet =
    rw (parse_i16-to_string cols hc, parse_i16-to_string rows hr, none_yet, not_yet) refl
loop-size opts cols rows true (arg ∷ command) hc hr none_yet not_yet =
    rw (parse_i16-to_string cols hc, parse_i16-to_string rows hr, none_yet)
      (loop-command
        (record opts { cols = cols; rows = rows; follow_console_size = true; command = arg ∷ [] })
        command)
loop-size opts cols rows false (arg ∷ command) hc hr none_yet not_yet =
    rw (parse_i16-to_string cols hc, parse_i16-to_string rows hr, none_yet, not_yet)
      (loop-command
        (record opts { cols = cols; rows = rows; follow_console_size = false; command = arg ∷ [] })
        command)

loop-named :
    (addr : Text) (kind name : Option Text) (cols rows : ℤ) (follow : Bool) (command : List Text)
    → FitsI16 cols
    → FitsI16 rows
    → arg_loop launch_arm push_launch false launch_defaults (
        codes "--daemon"
        ∷ addr
        ∷ (flag_value (codes "--kind") kind
            ++ (flag_value (codes "--name") name ++ size_args cols rows follow command)))
      ≡ ok (record {
        daemon_addr = some addr;
        kind = kind;
        name = name;
        cols = cols;
        rows = rows;
        follow_console_size = follow;
        command = command;
      })
unfolding arg_loop launch_arm text_eq
loop-named addr none none cols rows follow command hc hr =
    loop-size (record launch_defaults { daemon_addr = some addr }) cols rows follow command hc hr
      refl refl
loop-named addr (some kind) none cols rows follow command hc hr =
    loop-size (record launch_defaults { daemon_addr = some addr; kind = some kind }) cols rows
      follow command hc hr refl refl
loop-named addr none (some name) cols rows follow command hc hr =
    loop-size (record launch_defaults { daemon_addr = some addr; name = some name }) cols rows
      follow command hc hr refl refl
loop-named addr (some kind) (some name) cols rows follow command hc hr =
    loop-size
      (record launch_defaults { daemon_addr = some addr; kind = some kind; name = some name }) cols
      rows follow command hc hr refl refl

-- `start` launches its command as it was asked to: `launch` reads the address, the kind, the name,
-- the size and the command, with all its own arguments, from the arguments that `start` makes, if
-- the size is one of the type `i16` and there is a command.
pub parse-start_launch_args :
    (addr : Text) (opts : StartOpts)
    → FitsI16 opts.cols
    → FitsI16 opts.rows
    → is_empty opts.command ≡ false
    → parse_launch_args (start_launch_args addr opts)
      ≡ ok (record {
        daemon_addr = some addr;
        kind = opts.kind;
        name = opts.name;
        cols = opts.cols;
        rows = opts.rows;
        follow_console_size = opts.follow_console_size;
        command = opts.command;
      })
unfolding parse_launch_args start_launch_args
parse-start_launch_args addr opts hc hr nonempty =
    rw
      (
        loop-named addr opts.kind opts.name opts.cols opts.rows opts.follow_console_size
            opts.command hc hr,
        nonempty,
      )
      refl

-- `terminal-shim` too: a terminal of that name runs the command.
pub parse-shim_launch_args :
    (addr name : Text) (opts : TerminalShimOpts) (command : List Text)
    → FitsI16 opts.cols
    → FitsI16 opts.rows
    → is_empty command ≡ false
    → parse_launch_args (shim_launch_args addr name opts command)
      ≡ ok (record {
        daemon_addr = some addr;
        kind = some (codes "terminal");
        name = some name;
        cols = opts.cols;
        rows = opts.rows;
        follow_console_size = opts.follow_console_size;
        command = command;
      })
unfolding parse_launch_args shim_launch_args
parse-shim_launch_args addr name opts command hc hr nonempty =
    rw
      (
        loop-named addr (some (codes "terminal")) (some name) opts.cols opts.rows
            opts.follow_console_size command hc hr,
        nonempty,
      )
      refl
