-- ===== src/Cli/Profile/Trimmed.antt =====
-- The line that `build_terminal_profile_commandline` of crates/vb-daemon/src/main.rs makes has no
-- whitespace at its ends, so that reading it from a profile, which trims it, leaves it.
use vibe_bridge.Base.{
  ℕ, ◌≡◌, refl, sym, false, Bool-cases, inl, inr, not, ◌||◌, [], ◌∷◌, ◌++◌, Text, codes, All,
  append_assoc, reverse, reverse-append, reverse-reverse, is_empty, trim, trim_start, trim_back,
  arith,
}
use vibe_bridge.Cli.Base64.{base64_encode_bytes}
use vibe_bridge.Cli.Base64.RoundTrip.{IsVisible, base64_encode_bytes-IsVisible}
use vibe_bridge.Cli.Words.{space_width, width-space}
use vibe_bridge.Cli.Quote.{quote_windows_arg, has_whitespace, has_special}
use vibe_bridge.Cli.Profile.{build_terminal_profile_commandline}
use vibe_bridge.Cli.Profile.RoundTrip.{All-reverse, base64-nonempty}

trim_start-solid : (s : Text) → space_width s ≡ 0 → trim_start s ≡ s
unfolding trim_start space_width
trim_start-solid [] h = refl
trim_start-solid (a ∷ []) h = ground arith
trim_start-solid (a ∷ b ∷ []) h = ground arith
trim_start-solid (a ∷ b ∷ c ∷ s) h = ground arith

trim_back-visible : (a : ℕ) (s : Text) → IsVisible a → trim_back (a ∷ s) ≡ a ∷ s
unfolding trim_back
trim_back-visible a [] h = ground arith
trim_back-visible a (b ∷ []) h = ground arith
trim_back-visible a (b ∷ c ∷ s) h = ground arith

trim_back-append : (e s : Text) → All IsVisible e → is_empty e ≡ false → trim_back (e ++ s) ≡ e ++ s
trim_back-append [] s h nonempty = absurd (ground arith)
trim_back-append (a ∷ e) s h nonempty = trim_back-visible a (e ++ s) h.0

nonempty-append : (s : Text) (a : ℕ) (t : Text) → is_empty (s ++ a ∷ t) ≡ false
nonempty-append [] a t = refl
nonempty-append (b ∷ s) a t = refl

nonempty-reverse : (e : Text) → is_empty e ≡ false → is_empty (reverse e) ≡ false
nonempty-reverse [] h = h
nonempty-reverse (a ∷ e) h = rw (reverse-append (a ∷ []) e) (nonempty-append (reverse e) a [])

trim-ends :
    (s e : Text)
    → space_width (s ++ e) ≡ 0
    → All IsVisible e
    → is_empty e ≡ false
    → trim (s ++ e) ≡ s ++ e
unfolding trim
trim-ends s e start visible nonempty =
    let back =
      trim_back-append (reverse e) (reverse s) (All-reverse e visible)
        (nonempty-reverse e nonempty) in
    let both : reverse (s ++ e) ≡ reverse e ++ reverse s = reverse-append s e in
    rw (trim_start-solid (s ++ e) start, both, back, sym both, reverse-reverse) refl

width_of_quote : (s : Text) → space_width (b'"' ∷ s) ≡ 0
unfolding space_width
width_of_quote [] = refl
width_of_quote (b ∷ []) = refl
width_of_quote (b ∷ c ∷ s) = refl

pub width-solid : (s : Text) → has_whitespace s ≡ false → space_width s ≡ 0
unfolding space_width has_whitespace
width-solid [] h = refl
width-solid (a ∷ []) h = ground arith
width-solid (a ∷ b ∷ []) h = ground arith
width-solid (a ∷ b ∷ c ∷ s) h = ground arith

width-quote_windows_arg :
    (value rest : Text) → space_width (quote_windows_arg value ++ b' ' ∷ rest) ≡ 0
unfolding quote_windows_arg
width-quote_windows_arg [] rest = width_of_quote _
width-quote_windows_arg (a ∷ value) rest =
    elim (Bool-cases (not (has_whitespace (a ∷ value) || has_special (a ∷ value)))) [
      | inl plain ↦ rw (plain, width-space a value rest) (width-solid (a ∷ value) (ground arith))
      | inr quoted ↦ rw quoted (width_of_quote _)
    ]

-- The line up to the base64 text.
before : Text → Text → Text → Text
before exe addr name =
    quote_windows_arg exe
    ++ (codes " terminal-shim --daemon "
        ++ (quote_windows_arg addr
            ++ (codes " --name "
                ++ (quote_windows_arg name ++ codes " --follow-console-size --cmdline-b64 "))))

build-before :
    (exe addr name original : Text)
    → build_terminal_profile_commandline exe addr name original
      ≡ before exe addr name ++ base64_encode_bytes original
unfolding before build_terminal_profile_commandline
build-before exe addr name original =
    rw (append_assoc, append_assoc, append_assoc, append_assoc, append_assoc) refl

width-build :
    (exe addr name original : Text)
    → space_width (build_terminal_profile_commandline exe addr name original) ≡ 0
unfolding build_terminal_profile_commandline
width-build exe addr name original = width-quote_windows_arg exe _

pub trim-build :
    (exe addr name original : Text)
    → is_empty original ≡ false
    → trim (build_terminal_profile_commandline exe addr name original)
      ≡ build_terminal_profile_commandline exe addr name original
trim-build exe addr name original nonempty =
    let split = build-before exe addr name original in
    let start = width-build exe addr name original in
    rw split (
      trim-ends (before exe addr name) (base64_encode_bytes original) (rw split at start)
        (base64_encode_bytes-IsVisible original) (base64-nonempty original nonempty))

-- Nor is the line empty.
pub build-nonempty :
    (exe addr name original : Text)
    → is_empty (build_terminal_profile_commandline exe addr name original) ≡ false
unfolding build_terminal_profile_commandline
build-nonempty exe addr name original = nonempty-append (quote_windows_arg exe) b' ' _
