-- ===== src/Cli/Profile/RoundTrip.antt =====
-- The original command line is found again in the one that `build_terminal_profile_commandline` of
-- crates/vb-daemon/src/main.rs makes.
use vibe_bridge.Base.{
  ℕ, ◌≡◌, refl, ap, ◌∙◌, Bool, true, false, not, List, [], ◌∷◌, ◌++◌, Text, codes, All, All-append,
  append_assoc, reverse, reverse-append, reverse-reverse, any, in_range, IsBytes, some, is_empty,
  is_utf8, text_eq, text_eq_refl, ◌==◌, arith,
}
use vibe_bridge.Core.Terminal.{contains, starts_with}
use vibe_bridge.Cli.Base64.{base64_encode_bytes, base64_decode_bytes}
use vibe_bridge.Cli.Base64.RoundTrip.{
  IsVisible, base64_encode_bytes-IsVisible, base64_decode_bytes-encode,
}
use vibe_bridge.Cli.Words.{
  split_whitespace, space_width, Solid, split_whitespace-space, split_whitespace-Solid,
}
use vibe_bridge.Cli.Quote.{quote_windows_arg}
use vibe_bridge.Cli.Profile.{
  b64_flag, build_terminal_profile_commandline, trim_front_quotes, trim_quotes, decoded_text,
  after_flag, extract_wrapped_terminal_cmdline,
}

starts_with-append : (p s : Text) → starts_with p (p ++ s) ≡ true
unfolding starts_with
starts_with-append [] s = refl
starts_with-append (a ∷ p) s = ground (arith, starts_with-append p s)

pub contains-append : (s p t : Text) → contains p (s ++ (p ++ t)) ≡ true
unfolding contains
contains-append [] [] [] = refl
contains-append [] [] (b ∷ t) = refl
contains-append [] (a ∷ p) t = ground (arith, starts_with-append (a ∷ p) t)
contains-append (a ∷ s) p t = ground (arith, contains-append s p t)

visible-Solid : (s : Text) → All IsVisible s → Solid s
unfolding space_width
visible-Solid [] h = tt
visible-Solid (a ∷ []) h = (ground arith, tt)
visible-Solid (a ∷ b ∷ []) h = (ground arith, visible-Solid (b ∷ []) h.1)
visible-Solid (a ∷ b ∷ c ∷ s) h = (ground arith, visible-Solid (b ∷ c ∷ s) h.1)

trim_front-visible : (s : Text) → All IsVisible s → trim_front_quotes s ≡ s
unfolding trim_front_quotes
trim_front-visible [] h = refl
trim_front-visible (a ∷ s) h = let other : (a == b'"') ≡ false = ground arith in rw other refl

pub All-reverse : (s : Text) → All IsVisible s → All IsVisible (reverse s)
All-reverse [] h = tt
All-reverse (a ∷ s) h =
    rw (reverse-append (a ∷ []) s)
      (All-append IsVisible (reverse s) (a ∷ []) (All-reverse s h.1) (h.0, tt))

trim_quotes-visible : (s : Text) → All IsVisible s → trim_quotes s ≡ s
unfolding trim_quotes
trim_quotes-visible s h =
    rw (trim_front-visible s h, trim_front-visible (reverse s) (All-reverse s h), reverse-reverse)
      refl

-- Words that are not the flag are passed over.
after_flag-skip :
    (parts : List Text) (encoded : Text)
    → any (λ part. text_eq part b64_flag) parts ≡ false
    → after_flag (parts ++ b64_flag ∷ encoded ∷ [])
      ≡ decoded_text (base64_decode_bytes (trim_quotes encoded))
unfolding after_flag
after_flag-skip [] encoded h = rw (text_eq_refl b64_flag) refl
after_flag-skip (part ∷ []) encoded h =
    let other : text_eq part b64_flag ≡ false = ground arith in
    rw (other, text_eq_refl b64_flag) refl
after_flag-skip (part ∷ next ∷ parts) encoded h =
    let other : text_eq part b64_flag ≡ false = ground arith in
    rw other (after_flag-skip (next ∷ parts) encoded (ground arith))

unseen : Text → Bool
unseen s = any (λ b. not (in_range 0x21 0x7E b)) s

literal-Solid : (s : Text) → unseen s ≡ false → Solid s
unfolding unseen space_width
literal-Solid [] h = tt
literal-Solid (a ∷ []) h = (ground arith, tt)
literal-Solid (a ∷ b ∷ []) h = (ground arith, literal-Solid (b ∷ []) (ground arith))
literal-Solid (a ∷ b ∷ c ∷ s) h = (ground arith, literal-Solid (b ∷ c ∷ s) (ground arith))

literal_word :
    (w t : Text)
    → is_empty w ≡ false
    → unseen w ≡ false
    → split_whitespace (w ++ b' ' ∷ t) ≡ w ∷ split_whitespace t
literal_word w t nonempty seen =
    rw (split_whitespace-space w t, split_whitespace-Solid w nonempty (literal-Solid w seen)) refl

pub base64-nonempty :
    (bytes : List ℕ) → is_empty bytes ≡ false → is_empty (base64_encode_bytes bytes) ≡ false
unfolding base64_encode_bytes
base64-nonempty [] h = h
base64-nonempty (b0 ∷ []) h = refl
base64-nonempty (b0 ∷ b1 ∷ []) h = refl
base64-nonempty (b0 ∷ b1 ∷ b2 ∷ rest) h = refl

abbrev pub words_of : Text → List Text
words_of value = split_whitespace (quote_windows_arg value)

-- The words of the line up to the flag.
front : Text → Text → Text → List Text
front exe addr name =
    words_of exe
    ++ (codes "terminal-shim"
        ∷ codes "--daemon"
        ∷ (words_of addr ++ codes "--name" ∷ (words_of name ++ codes "--follow-console-size" ∷ [])))

build-contains :
    (exe addr name original : Text)
    → contains (codes "terminal-shim") (build_terminal_profile_commandline exe addr name original)
      ≡ true
unfolding build_terminal_profile_commandline
build-contains exe addr name original =
    let named =
      quote_windows_arg name
      ++ (codes " --follow-console-size --cmdline-b64 " ++ base64_encode_bytes original) in
    let after = codes " --daemon " ++ (quote_windows_arg addr ++ (codes " --name " ++ named)) in
    let found =
      contains-append (quote_windows_arg exe ++ b' ' ∷ []) (codes "terminal-shim") after in
    rw append_assoc at found

words-build :
    (exe addr name original : Text)
    → is_empty original ≡ false
    → split_whitespace (build_terminal_profile_commandline exe addr name original)
      ≡ front exe addr name ++ b64_flag ∷ base64_encode_bytes original ∷ []
unfolding build_terminal_profile_commandline front unseen
words-build exe addr name original nonempty =
    let encoded = base64_encode_bytes original in
    let last : split_whitespace encoded ≡ encoded ∷ [] =
      split_whitespace-Solid encoded (base64-nonempty original nonempty)
        (visible-Solid encoded (base64_encode_bytes-IsVisible original)) in
    let after_name = codes "--follow-console-size" ++ b' ' ∷ (b64_flag ++ b' ' ∷ encoded) in
    let after_addr = codes "--name" ++ b' ' ∷ (quote_windows_arg name ++ b' ' ∷ after_name) in
    let after_exe =
      codes "terminal-shim"
      ++ b' ' ∷ (codes "--daemon" ++ b' ' ∷ (quote_windows_arg addr ++ b' ' ∷ after_addr)) in
    let flags : split_whitespace after_name
        ≡ codes "--follow-console-size" ∷ b64_flag ∷ encoded ∷ [] =
      literal_word (codes "--follow-console-size") (b64_flag ++ b' ' ∷ encoded) refl refl
      ∙ ap (◌∷◌ (codes "--follow-console-size"))
          (literal_word b64_flag encoded refl refl ∙ ap (◌∷◌ b64_flag) last) in
    let named : split_whitespace after_addr
        ≡ codes "--name" ∷ (words_of name ++ split_whitespace after_name) =
      literal_word (codes "--name") (quote_windows_arg name ++ b' ' ∷ after_name) refl refl
      ∙ ap (◌∷◌ (codes "--name")) (split_whitespace-space (quote_windows_arg name) after_name) in
    let addressed : split_whitespace after_exe
        ≡ codes "terminal-shim"
          ∷ codes "--daemon"
          ∷ (words_of addr ++ split_whitespace after_addr) =
      literal_word (codes "terminal-shim")
        (codes "--daemon" ++ b' ' ∷ (quote_windows_arg addr ++ b' ' ∷ after_addr)) refl refl
      ∙ ap (◌∷◌ (codes "terminal-shim")) (
          literal_word (codes "--daemon") (quote_windows_arg addr ++ b' ' ∷ after_addr) refl refl
          ∙ ap (◌∷◌ (codes "--daemon"))
              (split_whitespace-space (quote_windows_arg addr) after_addr)) in
    split_whitespace-space (quote_windows_arg exe) after_exe
    ∙ rw (addressed, named, flags, append_assoc, append_assoc, append_assoc) refl

-- No word of the quoted text is the flag that the original follows.
abbrev pub FlagFree : Text → Type 0
FlagFree value = any (λ part. text_eq part b64_flag) (words_of value) ≡ false

any-append :
    (p : Text → Bool) (xs ys : List Text)
    → any p xs ≡ false
    → any p ys ≡ false
    → any p (xs ++ ys) ≡ false
any-append p [] ys hx hy = hy
any-append p (x ∷ xs) ys hx hy = ground (arith, any-append p xs ys)

front-FlagFree :
    (exe addr name : Text)
    → FlagFree exe
    → FlagFree addr
    → FlagFree name
    → any (λ part. text_eq part b64_flag) (front exe addr name) ≡ false
unfolding front text_eq
front-FlagFree exe addr name he ha hn =
    let p = λ (part : Text). text_eq part b64_flag in
    let one = any-append p (words_of name) (codes "--follow-console-size" ∷ []) hn refl in
    let two =
      any-append p (words_of addr)
        (codes "--name" ∷ (words_of name ++ codes "--follow-console-size" ∷ [])) ha one in
    any-append p (words_of exe) _ he two

-- The original command line, unless it is empty, is extracted from the line built from it,
-- whatever the program's path, the address and the name are, if none has the flag as a word.
pub extract-build :
    (exe addr name original : Text)
    → FlagFree exe
    → FlagFree addr
    → FlagFree name
    → IsBytes original
    → is_utf8 original ≡ true
    → is_empty original ≡ false
    → extract_wrapped_terminal_cmdline (build_terminal_profile_commandline exe addr name original)
      ≡ some original
unfolding extract_wrapped_terminal_cmdline decoded_text
extract-build exe addr name original he ha hn bytes utf8 nonempty =
    let encoded = base64_encode_bytes original in
    rw
      (
        build-contains exe addr name original,
        words-build exe addr name original nonempty,
        after_flag-skip (front exe addr name) encoded (front-FlagFree exe addr name he ha hn),
        trim_quotes-visible encoded (base64_encode_bytes-IsVisible original),
        base64_decode_bytes-encode original bytes,
        utf8,
      )
      refl
