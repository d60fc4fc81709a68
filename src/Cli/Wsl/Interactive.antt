-- ===== src/Cli/Wsl/Interactive.antt =====
-- What the recognition of WSL commands in crates/vb-daemon/src/main.rs keeps of a command.
use vibe_bridge.Base.{
  ℕ, ◌≡◌, refl, ap, sym, ◌∙◌, Bool, true, false, Bool-cases, inl, inr, ◌||◌, ◌&&◌, not, List, [],
  ◌∷◌, ◌++◌, Text, codes, Option, none, some, append-nil, lower_byte, is_empty, text_eq, ◌==◌,
  arith,
}
use vibe_bridge.Cli.Words.{space_width}
use vibe_bridge.Cli.Quote.{has_whitespace, has_special, quote_loop, quote_windows_arg}
use vibe_bridge.Cli.Quote.Windows.{no_blank, quote_windows_arg-nonempty}
use vibe_bridge.Cli.Args.Launch.{cmd_line}
use vibe_bridge.Cli.Profile.Trimmed.{width-solid}
use vibe_bridge.Cli.Wsl.{
  loose_words, kept_words, split_windows_commandline_loosely, file_name, when_wsl,
  wsl_command_tokens, takes_value, holds_value, also, interactive_wsl_args, with_tokens,
  parse_simple_wsl_command,
}

some_inj : {A : Type 0} {a b : A} → some a ≡ some b → a ≡ b
some_inj e = cc

none≢some : {A : Type 0} {a : A} → none ≡ some a → ⊥
none≢some e = cc

also-same :
    (args rest : List Text) (found : Option (List Text)) (out : List Text)
    → ((more : List Text) → found ≡ some more → more ≡ rest)
    → also args found ≡ some out
    → out ≡ args ++ rest
also-same args rest none out h e = absurd (none≢some e)
also-same args rest (some more) out h e = sym (some_inj e) ∙ ap (λ m. args ++ m) (h more refl)

-- Accepted arguments are kept, all of them and in their order.
pub interactive_wsl_args-same :
    (args out : List Text) → interactive_wsl_args args ≡ some out → out ≡ args
unfolding interactive_wsl_args
interactive_wsl_args-same [] out e = sym (some_inj e)
interactive_wsl_args-same (arg ∷ []) out e = elim (Bool-cases (takes_value arg)) [
  | inl takes ↦ absurd (none≢some (rw takes at e))
  | inr other ↦ elim (Bool-cases (holds_value arg)) [
    | inl holds ↦ sym (some_inj (rw (other, holds) at e))
    | inr neither ↦ absurd (none≢some (rw (other, neither) at e))
  ]
]
interactive_wsl_args-same (arg ∷ next ∷ rest) out e = elim (Bool-cases (takes_value arg)) [
  | inl takes ↦
      also-same (arg ∷ next ∷ []) rest (interactive_wsl_args rest) out
        (interactive_wsl_args-same rest) (rw takes at e)
  | inr other ↦ elim (Bool-cases (holds_value arg)) [
    | inl holds ↦
        also-same (arg ∷ []) (next ∷ rest) (interactive_wsl_args (next ∷ rest)) out
          (interactive_wsl_args-same (next ∷ rest)) (rw (other, holds) at e)
    | inr neither ↦ absurd (none≢some (rw (other, neither) at e))
  ]
]

quote_loop-plain : (name : Text) → has_special name ≡ false → quote_loop 0 name ≡ name ++ b'"' ∷ []
unfolding quote_loop has_special
quote_loop-plain [] h = refl
quote_loop-plain (ch ∷ name) h =
    let not_slash : (ch == b'\\') ≡ false = ground arith in
    let not_quote : (ch == b'"') ≡ false = ground arith in
    rw (not_slash, not_quote) (ap (◌∷◌ ch) (quote_loop-plain name (ground arith)))

and_false : (b : Bool) → (b && false) ≡ false
and_false true = refl
and_false false = refl

loose-quoted :
    (name : Text) → has_special name ≡ false → loose_words 0 true (name ++ b'"' ∷ []) ≡ (name, [])
unfolding loose_words has_special
loose-quoted [] h = refl
loose-quoted (ch ∷ []) h =
    let not_slash : (ch == b'\\') ≡ false = ground arith in
    let not_quote : (ch == b'"') ≡ false = ground arith in rw (not_quote, not_slash, and_false) refl
loose-quoted (ch ∷ next ∷ name) h =
    let not_slash : (ch == b'\\') ≡ false = ground arith in
    let not_quote : (ch == b'"') ≡ false = ground arith in
    rw (not_slash, not_quote, and_false, loose-quoted (next ∷ name) (ground arith)) refl

loose-plain :
    (name : Text)
    → has_whitespace name ≡ false
    → has_special name ≡ false
    → loose_words 0 false name ≡ (name, [])
unfolding loose_words has_special
loose-plain [] h s = refl
loose-plain (ch ∷ []) h s =
    let not_quote : (ch == b'"') ≡ false = ground arith in
    rw (not_quote, width-solid (ch ∷ []) h) refl
loose-plain (ch ∷ next ∷ name) h s =
    let not_slash : (ch == b'\\') ≡ false = ground arith in
    let not_quote : (ch == b'"') ≡ false = ground arith in
    let (here, after) = no_blank ch (next ∷ name) h in
    rw
      (
        not_slash,
        not_quote,
        width-solid (ch ∷ next ∷ name) h,
        loose-plain (next ∷ name) after (ground arith),
      )
      refl

loose-enter : (text : Text) → loose_words 0 false (b'"' ∷ text) ≡ loose_words 0 true text
unfolding loose_words
loose-enter [] = refl
loose-enter (ch ∷ text) = refl

loose-quote_windows_arg :
    (name : Text)
    → has_special name ≡ false
    → loose_words 0 false (quote_windows_arg name) ≡ (name, [])
unfolding quote_windows_arg loose_words
loose-quote_windows_arg name s =
    elim (Bool-cases (not (is_empty name) && not (has_whitespace name || has_special name))) [
      | inl plain ↦ rw plain (loose-plain name (ground arith) s)
      | inr quoted ↦
          rw (quoted, quote_loop-plain name s, loose-enter (name ++ b'"' ∷ []))
            (loose-quoted name s)
    ]

-- The words of the line that opens a distribution.
loose-distribution :
    (ch : ℕ) (text : Text)
    → loose_words 0 false (codes "wsl.exe -d " ++ ch ∷ text) ≡ (
      codes "wsl.exe",
      codes "-d" ∷ (loose_words 0 false (ch ∷ text)).0 ∷ (loose_words 0 false (ch ∷ text)).1,
    )
unfolding loose_words space_width
loose-distribution ch [] = refl
loose-distribution ch (next ∷ text) = refl

split-distribution :
    (text : Text)
    → is_empty text ≡ false
    → (word : Text) → is_empty word ≡ false
    → loose_words 0 false text ≡ (word, [])
    → split_windows_commandline_loosely (codes "wsl.exe -d " ++ text)
      ≡ codes "wsl.exe" ∷ codes "-d" ∷ word ∷ []
unfolding split_windows_commandline_loosely kept_words
split-distribution [] h word nonempty e = absurd (ground arith)
split-distribution (ch ∷ text) h word nonempty e =
    let words : loose_words 0 false (codes "wsl.exe -d " ++ ch ∷ text)
        ≡ (codes "wsl.exe", codes "-d" ∷ word ∷ []) =
      loose-distribution ch text ∙ ap (λ w. (codes "wsl.exe", codes "-d" ∷ w.0 ∷ w.1)) e in
    let kept : not (is_empty word) ≡ true = rw nonempty refl in ap kept_words words ∙ rw kept refl

-- The command line that a WSL profile without one of its own is given is recognised, with the name
-- of its distribution, if the name is not empty and has no quote and no backslash.
pub parse_simple_wsl_command-distribution :
    (name : Text)
    → is_empty name ≡ false
    → has_special name ≡ false
    → parse_simple_wsl_command (cmd_line (codes "wsl.exe -d " ++ quote_windows_arg name))
      ≡ some (codes "-d" ∷ name ∷ [])
unfolding parse_simple_wsl_command with_tokens wsl_command_tokens when_wsl file_name
    interactive_wsl_args takes_value text_eq lower_byte
parse_simple_wsl_command-distribution name nonempty s =
    ap (λ tokens. with_tokens (when_wsl tokens))
      (split-distribution (quote_windows_arg name)
        (rw append-nil at (quote_windows_arg-nonempty name [])) name nonempty
        (loose-quote_windows_arg name s))
