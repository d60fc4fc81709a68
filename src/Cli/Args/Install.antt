-- ===== src/Cli/Args/Install.antt =====
-- crates/vb-daemon/src/main.rs: the arguments of the commands that install, remove and report, and
-- what a product install adds to them. The folder for shims is the system's and is a parameter.
pub mod Product
use vibe_bridge.Base.{
  ℕ, Bool, true, false, ◌||◌, not, List, [], ◌∷◌, ◌++◌, Text, codes, Option, none, some, any,
  text_eq, if◌then◌else◌, to_ascii_lowercase,
}
use vibe_bridge.Core.Terminal.{contains}
use vibe_bridge.Cli.Args.{
  ArgError, unknown_flag, usage, no_local_appdata, Parsed, ok, err, Arm, sets, takes, fails,
  arg_loop,
}

pub data ProductAction : Type 0 where
  install uninstall : ProductAction

unfoldable pub product_action_from_exe_name : Text → Option ProductAction
product_action_from_exe_name name =
    let lower = to_ascii_lowercase name in
    if contains (codes "uninstall") lower
    then some uninstall
    else if contains (codes "setup") lower || contains (codes "installer") lower
    then some install
    else none

abbrev pub product_action_name : ProductAction → Text
product_action_name install = codes "install-product"
product_action_name uninstall = codes "uninstall-product"

-- One of the three flags is added, unless it or its opposite is there.
unfoldable pub add_choice : Text → Text → Text → List Text → List Text
add_choice wanted opposite added raw =
    if any (λ arg. text_eq arg wanted || text_eq arg opposite) raw then raw else raw ++ added ∷ []

unfoldable pub product_install_args : List Text → List Text
unfolding add_choice
product_install_args raw =
    add_choice (codes "--wsl-shell") (codes "--no-wsl-shell") (codes "--wsl-shell") (
      add_choice (codes "--management-shortcuts") (codes "--no-management-shortcuts")
        (codes "--management-shortcuts")
        (add_choice (codes "--terminal-profiles") (codes "--no-terminal-profiles")
          (codes "--no-terminal-profiles") raw))

pub record InstallWindowsOpts : Type 0 where
  pub addr : Text
  pub device : Text
  pub shim_dir : Text
  pub wsl_distros : List Text
  pub install_wsl : Bool
  pub install_wsl_shell : Bool
  pub install_startup : Bool
  pub install_terminal_profiles : Bool
  pub install_wsl_shortcuts : Bool
  pub install_management_shortcuts : Bool
  pub update_path : Bool

abbrev pub install_defaults : Text → InstallWindowsOpts
install_defaults dir = record {
  addr = codes "127.0.0.1:8765";
  device = codes "auto";
  shim_dir = dir;
  wsl_distros = [];
  install_wsl = false;
  install_wsl_shell = false;
  install_startup = true;
  install_terminal_profiles = false;
  install_wsl_shortcuts = true;
  install_management_shortcuts = false;
  update_path = true;
}

unfoldable pub install_arm : Text → InstallWindowsOpts → Arm InstallWindowsOpts
install_arm arg opts =
    if text_eq arg (codes "--addr")
    then takes (λ v. ok (record opts { addr = v }))
    else if text_eq arg (codes "--device")
    then takes (λ v. ok (record opts { device = v }))
    else if text_eq arg (codes "--shim-dir")
    then takes (λ v. ok (record opts { shim_dir = v }))
    else if text_eq arg (codes "--wsl")
    then sets (record opts { install_wsl = true })
    else if text_eq arg (codes "--wsl-distro")
    then takes
        (λ v. ok (record opts { install_wsl = true; wsl_distros = opts.wsl_distros ++ v ∷ [] }))
    else if text_eq arg (codes "--no-wsl")
    then sets (record opts { install_wsl = false })
    else if text_eq arg (codes "--wsl-shell")
    then sets (record opts { install_wsl_shell = true })
    else if text_eq arg (codes "--no-wsl-shell")
    then sets (record opts { install_wsl_shell = false })
    else if text_eq arg (codes "--no-startup")
    then sets (record opts { install_startup = false })
    else if text_eq arg (codes "--terminal-profiles")
    then sets (record opts { install_terminal_profiles = true })
    else if text_eq arg (codes "--no-terminal-profiles")
    then sets (record opts { install_terminal_profiles = false })
    else if text_eq arg (codes "--wsl-shortcuts")
    then sets (record opts { install_wsl_shortcuts = true })
    else if text_eq arg (codes "--no-wsl-shortcuts")
    then sets (record opts { install_wsl_shortcuts = false })
    else if text_eq arg (codes "--management-shortcuts")
    then sets (record opts { install_management_shortcuts = true })
    else if text_eq arg (codes "--no-management-shortcuts")
    then sets (record opts { install_management_shortcuts = false })
    else if text_eq arg (codes "--no-path")
    then sets (record opts { update_path = false })
    else if text_eq arg (codes "-h") || text_eq arg (codes "--help")
    then fails usage
    else fails (unknown_flag arg)

-- No argument is a word of a command here.
abbrev pub no_words {ℓ} : {O : Type ℓ} → Text → O → O
no_words arg opts = opts

unfoldable pub parse_install_windows_args : Option Text → List Text → Parsed InstallWindowsOpts
unfolding arg_loop install_arm
parse_install_windows_args none raw = err no_local_appdata
parse_install_windows_args (some dir) raw =
    arg_loop install_arm no_words false (install_defaults dir) raw

pub record UninstallWindowsOpts : Type 0 where
  pub addr : Text
  pub shim_dir : Text
  pub remove_terminal_profiles : Bool
  pub purge : Bool

unfoldable pub uninstall_arm : Text → UninstallWindowsOpts → Arm UninstallWindowsOpts
uninstall_arm arg opts =
    if text_eq arg (codes "--addr")
    then takes (λ v. ok (record opts { addr = v }))
    else if text_eq arg (codes "--shim-dir")
    then takes (λ v. ok (record opts { shim_dir = v }))
    else if text_eq arg (codes "--terminal-profiles")
    then sets (record opts { remove_terminal_profiles = true })
    else if text_eq arg (codes "--no-terminal-profiles")
    then sets (record opts { remove_terminal_profiles = false })
    else if text_eq arg (codes "--purge")
    then sets (record opts { purge = true })
    else if text_eq arg (codes "-h") || text_eq arg (codes "--help")
    then fails usage
    else fails (unknown_flag arg)

unfoldable pub parse_uninstall_windows_args : Option Text → List Text → Parsed UninstallWindowsOpts
unfolding arg_loop uninstall_arm
parse_uninstall_windows_args none raw = err no_local_appdata
parse_uninstall_windows_args (some dir) raw =
    arg_loop uninstall_arm no_words false
      (record {
        addr = codes "127.0.0.1:8765";
        shim_dir = dir;
        remove_terminal_profiles = true;
        purge = false;
      })
      raw

unfoldable pub status_arm : Text → Text → Arm Text
status_arm arg addr =
    if text_eq arg (codes "--addr")
    then takes ok
    else if text_eq arg (codes "-h") || text_eq arg (codes "--help")
    then fails usage
    else fails (unknown_flag arg)

unfoldable pub parse_status_windows_args : List Text → Parsed Text
unfolding arg_loop status_arm
parse_status_windows_args raw = arg_loop status_arm no_words false (codes "127.0.0.1:8765") raw
