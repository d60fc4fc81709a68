-- ===== src/Cli/Log/Redaction.antt =====
-- What the log of `terminal-shim` in crates/vb-daemon/src/main.rs does not show.
use vibe_bridge.Base.{
  ℕ, ◌≡◌, ◌≢◌, ◌≤◌, refl, ap, sym, subst, ◌∙◌, not, length-take, Bool, true, false, Bool-cases, inl,
  inr, ◌||◌, ◌&&◌, List, [], ◌∷◌, ◌++◌, map, take, length, length-append, Text, codes, Option, none,
  some, All, All-append, All-take, to_ascii_lowercase, is_char_boundary, ltb, ◌==◌, arith,
}
use vibe_bridge.Cli.Log.{
  max_len, clean_byte, terminal_shim_log_value, redacted, is_sensitive, hides_next, shown_arg,
  cons_some, shown_args, join_parts, bracketed, terminal_shim_log_args, terminal_shim_log_command,
  same_case,
}

shown_args-hidden :
    (before after : List Text) (flag secret other : Text) (redact_next : Bool)
    → hides_next (to_ascii_lowercase flag) ≡ true
    → hides_next (to_ascii_lowercase secret) ≡ hides_next (to_ascii_lowercase other)
    → shown_args redact_next (before ++ flag ∷ secret ∷ after)
      ≡ shown_args redact_next (before ++ flag ∷ other ∷ after)
unfolding shown_args shown_arg
shown_args-hidden [] after flag secret other redact_next h same = rw (h, same) refl
shown_args-hidden (arg ∷ before) after flag secret other redact_next h same =
    ap (cons_some (shown_arg redact_next arg))
      (shown_args-hidden before after flag secret other _ h same)

-- The value after a flag for a secret leaves no trace in the log: two values, of which neither is
-- itself such a flag, give the same line, or the same panic over another argument.
pub log_args-hide_secret :
    (before after : List Text) (flag secret other : Text)
    → hides_next (to_ascii_lowercase flag) ≡ true
    → hides_next (to_ascii_lowercase secret) ≡ false
    → hides_next (to_ascii_lowercase other) ≡ false
    → terminal_shim_log_args (before ++ flag ∷ secret ∷ after)
      ≡ terminal_shim_log_args (before ++ flag ∷ other ∷ after)
unfolding terminal_shim_log_args
log_args-hide_secret before after flag secret other h hs ho =
    ap bracketed (shown_args-hidden before after flag secret other false h (hs ∙ sym ho))

-- No byte of the text ends a line.
abbrev pub OneLine : Text → Type 0
OneLine = All (λ b. (b ≢ b'\n') × (b ≢ b'\r'))

clean-OneLine : (value : Text) → OneLine (map clean_byte value)
unfolding clean_byte
clean-OneLine [] = tt
clean-OneLine (b ∷ value) = (ground arith, clean-OneLine value)

literal : Text → Bool
literal [] = true
literal (b ∷ text) = not (b == b'\n' || b == b'\r') && literal text

literal-OneLine : (text : Text) → literal text ≡ true → OneLine text
unfolding literal
literal-OneLine [] h = tt
literal-OneLine (b ∷ text) h = (ground arith, literal-OneLine text (ground arith))

some_inj : {A : Type 0} {a b : A} → some a ≡ some b → a ≡ b
some_inj e = cc

none≢some : {A : Type 0} {a : A} → none ≡ some a → ⊥
none≢some e = cc

short_length : (n : ℕ) → ltb max_len n ≡ false → n ≤ 243
short_length n h = ground arith

abbrev Shown : Text → Type 0
Shown text = OneLine text × (length text ≤ 243)

log_value-OneLine :
    (value shown : Text)
    → terminal_shim_log_value value ≡ some shown
    → OneLine shown × (length shown ≤ 243)
unfolding terminal_shim_log_value literal
log_value-OneLine value shown e =
    let clean = map clean_byte value in
    elim (Bool-cases (ltb max_len (length clean))) [
      | inl long ↦ elim (Bool-cases (is_char_boundary max_len clean)) [
        | inl whole ↦
            let same = some_inj (rw (long, whole) at e) in
            let bound : length (take max_len clean ++ codes "...") ≤ 243 = omega (
              arith,
              length-append (take max_len clean) (codes "..."),
              length-take max_len clean,
            ) in
            subst Shown same (
              All-append _ (take max_len clean) (codes "...")
                  (All-take _ max_len clean (clean-OneLine value))
                  (literal-OneLine (codes "...") refl),
              bound,
            )
        | inr inside ↦ absurd (none≢some (rw (long, inside) at e))
      ]
      | inr short ↦
          subst Shown (some_inj (rw short at e))
            (clean-OneLine value, short_length (length clean) short)
    ]

shown_arg-OneLine :
    (redact_next : Bool) (arg shown : Text) → shown_arg redact_next arg ≡ some shown → Shown shown
unfolding shown_arg literal
shown_arg-OneLine redact_next arg shown e =
    elim (Bool-cases (redact_next || is_sensitive (to_ascii_lowercase arg))) [
      | inl hidden ↦
          subst Shown (some_inj (rw hidden at e)) (literal-OneLine redacted refl, omega arith)
      | inr open_value ↦ log_value-OneLine arg shown (rw open_value at e)
    ]

cons_some-inv :
    (part : Option Text) (parts : Option (List Text)) (all : List Text)
    → cons_some part parts ≡ some all
    → (p : Text) × (ps : List Text) × (part ≡ some p) × (parts ≡ some ps) × (p ∷ ps ≡ all)
unfolding cons_some
cons_some-inv none parts all e = absurd (none≢some e)
cons_some-inv (some p) none all e = absurd (none≢some e)
cons_some-inv (some p) (some ps) all e = (p, ps, refl, refl, some_inj e)

shown_args-OneLine :
    (redact_next : Bool) (args parts : List Text)
    → shown_args redact_next args ≡ some parts
    → All Shown parts
unfolding shown_args
shown_args-OneLine redact_next [] parts e = subst (All Shown) (some_inj e) tt
shown_args-OneLine redact_next (arg ∷ args) parts e =
    let (p, ps, here, more, same) = cons_some-inv _ _ parts e in
    let first = shown_arg-OneLine redact_next arg p here in
    let others = shown_args-OneLine (hides_next (to_ascii_lowercase arg)) args ps more in
    subst (All Shown) same (first, others)

join-OneLine : (parts : List Text) → All Shown parts → OneLine (join_parts parts)
unfolding join_parts
join-OneLine [] h = tt
join-OneLine (part ∷ []) h = h.0.0
join-OneLine (part ∷ next ∷ parts) h =
    All-append _ part (b',' ∷ b' ' ∷ join_parts (next ∷ parts)) h.0.0
      (ground arith, (ground arith, join-OneLine (next ∷ parts) h.1))

bracketed-OneLine :
    (parts : Option (List Text)) (line : Text)
    → bracketed parts ≡ some line
    → ((all : List Text) → parts ≡ some all → All Shown all)
    → OneLine line
unfolding bracketed
bracketed-OneLine none line e h = absurd (none≢some e)
bracketed-OneLine (some parts) line e h = subst OneLine (some_inj e) (
  ground arith,
  All-append _ (join_parts parts) (b']' ∷ []) (join-OneLine parts (h parts refl))
      (ground arith, tt),
)

-- What is logged of arguments is one line, whatever they hold.
pub log_args-OneLine :
    (args : List Text) (line : Text) → terminal_shim_log_args args ≡ some line → OneLine line
unfolding terminal_shim_log_args
log_args-OneLine args line e =
    bracketed-OneLine (shown_args false args) line e
      (λ parts h. shown_args-OneLine false args parts h)

-- A command line under `cmd.exe /D /S /C` leaves no trace in the log of the command.
pub log_command-hide_line :
    (a b c d line other : Text) (rest more : List Text)
    → (same_case a (codes "cmd.exe")
        && same_case b (codes "/D")
        && same_case c (codes "/S")
        && same_case d (codes "/C"))
      ≡ true
    → terminal_shim_log_command (a ∷ b ∷ c ∷ d ∷ line ∷ rest)
      ≡ terminal_shim_log_command (a ∷ b ∷ c ∷ d ∷ other ∷ more)
unfolding terminal_shim_log_command
log_command-hide_line a b c d line other rest more h = rw h refl
