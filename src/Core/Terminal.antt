-- ===== src/Core/Terminal.antt =====
-- crates/vb-core/src/lib.rs: `classify_terminal_process` and the methods of `TerminalWindow`.
use vibe_bridge.Base.{
  ◌≡◌, refl, sym, ap, ◌∙◌, Bool, true, false, ◌&&◌, ◌||◌, List, [], ◌∷◌, Text, codes, text_eq,
  to_ascii_lowercase, if◌then◌else◌, ◌==◌, is_empty,
}
use vibe_bridge.Core.{TerminalKind, TerminalWindow}

-- `rsplit(['\\', '/']).next()`: what stands behind the last separator; the whole path without one.
basename_from : Text → Text → Text
basename_from piece [] = piece
basename_from piece (b ∷ bs) = basename_from (if b == b'\\' || b == b'/' then bs else piece) bs

unfoldable pub basename : Text → Text
unfolding basename_from
basename path = basename_from path path

-- `TerminalWindow::process_basename`.
unfoldable pub process_basename : TerminalWindow → Text
unfolding basename
process_basename w = basename w.process_path

-- `TerminalWindow::is_terminal_candidate`.
unfoldable pub is_terminal_candidate : TerminalWindow → Bool
is_terminal_candidate w = candidate w.kind
  where
    candidate : TerminalKind → Bool
    candidate TerminalKind.unknown = false
    candidate other = true

-- `str::starts_with` and `str::contains`.
unfoldable pub starts_with : Text → Text → Bool
starts_with [] s = true
starts_with (p ∷ ps) [] = false
starts_with (p ∷ ps) (b ∷ bs) = p == b && starts_with ps bs

unfoldable pub contains : Text → Text → Bool
unfolding starts_with
contains p [] = is_empty p
contains p (b ∷ bs) = starts_with p (b ∷ bs) || contains p bs

is_one_of : Text → List Text → Bool
is_one_of s [] = false
is_one_of s (t ∷ ts) = text_eq s t || is_one_of s ts

-- The arms that decide by the program's name alone.
kind_of_exe : Text → TerminalKind → TerminalKind
unfolding is_one_of
kind_of_exe exe otherwise =
    if is_one_of exe (codes "windowsterminal.exe" ∷ codes "wt.exe" ∷ [])
    then TerminalKind.windows_terminal
    else if is_one_of exe (codes "openconsole.exe" ∷ codes "conhost.exe" ∷ [])
    then TerminalKind.console_host
    else if is_one_of exe (codes "powershell.exe" ∷ codes "pwsh.exe" ∷ [])
    then TerminalKind.power_shell
    else if is_one_of exe (codes "cmd.exe" ∷ [])
    then TerminalKind.cmd
    else if is_one_of exe (
        codes "wsl.exe"
        ∷ codes "ubuntu.exe"
        ∷ codes "ubuntu2204.exe"
        ∷ codes "ubuntu-22.04.exe"
        ∷ [])
    then TerminalKind.wsl
    else if is_one_of exe (
        codes "wezterm-gui.exe"
        ∷ codes "alacritty.exe"
        ∷ codes "mintty.exe"
        ∷ codes "tabby.exe"
        ∷ codes "hyper.exe"
        ∷ [])
    then TerminalKind.terminal_like
    else otherwise

-- The arms under `trusted_title_only_host`.
kind_of_title : Bool → Text → TerminalKind
unfolding contains
kind_of_title trusted title =
    if trusted && contains (codes "windows powershell") title
    then TerminalKind.power_shell
    else if trusted && contains (codes "command prompt") title
    then TerminalKind.cmd
    else if trusted && (contains (codes "ubuntu") title || contains (codes "wsl") title)
    then TerminalKind.wsl
    else if trusted && contains (codes "windows terminal") title
    then TerminalKind.windows_terminal
    else TerminalKind.unknown

-- `trusted_title_only_host`: the program is unnamed, or the frame host of store applications.
trusted_host : Text → Bool
trusted_host exe = is_empty exe || text_eq exe (codes "applicationframehost.exe")

unfoldable pub classify_terminal_process : Text → Text → TerminalKind
unfolding basename kind_of_exe kind_of_title trusted_host
classify_terminal_process process_path title =
    let exe = to_ascii_lowercase (basename process_path) in
    kind_of_exe exe (kind_of_title (trusted_host exe) (to_ascii_lowercase title))

classify_lem :
    (path title : Text)
    → classify_terminal_process path title
      ≡ kind_of_exe (to_ascii_lowercase (basename path)) (
          kind_of_title
            (trusted_host (to_ascii_lowercase (basename path)))
            (to_ascii_lowercase title))
unfolding classify_terminal_process
classify_lem path title = refl

kind_of_title_untrusted : (title : Text) → kind_of_title false title ≡ TerminalKind.unknown
unfolding kind_of_title
kind_of_title_untrusted title = refl

trusted_host_named :
    (name : Text)
    → is_empty name ≡ false
    → text_eq (to_ascii_lowercase name) (codes "applicationframehost.exe") ≡ false
    → trusted_host (to_ascii_lowercase name) ≡ false
unfolding trusted_host
trusted_host_named [] named plain = absurd (cc)
trusted_host_named (b ∷ bs) named plain = plain

-- The title counts only for a window whose program is unnamed or the frame host: any other window
-- is classified alike under every title.
pub classify_ignores_title :
    (path title other : Text)
    → is_empty (basename path) ≡ false
    → text_eq (to_ascii_lowercase (basename path)) (codes "applicationframehost.exe") ≡ false
    → classify_terminal_process path title ≡ classify_terminal_process path other
classify_ignores_title path title other named plain =
    let untrusted = trusted_host_named (basename path) named plain in
    rw (classify_lem path title, classify_lem path other, untrusted)
      (ap (kind_of_exe _) (
        kind_of_title_untrusted (to_ascii_lowercase title)
        ∙ sym (kind_of_title_untrusted (to_ascii_lowercase other))))
