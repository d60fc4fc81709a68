-- ===== src/Cli/Args/Install/Product.antt =====
-- What `product_install_args` of crates/vb-daemon/src/main.rs adds is what the parser makes of it.
use vibe_bridge.Base.{
  ◌≡◌, refl, ap, sym, ◌∙◌, Bool, true, false, Bool-cases, inl, inr, ◌||◌, List, [], ◌∷◌, ◌++◌, Text,
  codes, some, any, text_eq, if◌then◌else◌,
}
use vibe_bridge.Cli.Args.{
  ArgError, needs_value, Parsed, ok, err, and_then, Arm, separator, word, sets, takes, fails,
  arg_loop,
}
use vibe_bridge.Cli.Args.Install.{
  InstallWindowsOpts, install_defaults, install_arm, no_words, parse_install_windows_args,
  add_choice, product_install_args,
}

-- An arm that no command can start with.
abbrev FlagArm : Arm InstallWindowsOpts → Type 0
FlagArm separator = ⊥
FlagArm word = ⊥
FlagArm other = Unit

choose :
    (b : Bool) (x y : Arm InstallWindowsOpts) → FlagArm x → FlagArm y → FlagArm (if b then x else y)
choose true x y hx hy = hx
choose false x y hx hy = hy

install_arm-flag : (arg : Text) (opts : InstallWindowsOpts) → FlagArm (install_arm arg opts)
unfolding install_arm
install_arm-flag arg opts = search (choose, tt) depth 25 fits 4000

ok_inj : {A : Type 0} {a b : A} → ok a ≡ ok b → a ≡ b
ok_inj e = cc

err≢ok : {A : Type 0} {e : ArgError} {a : A} → err e ≡ ok a → ⊥
err≢ok e = cc

module _ (arm : Text → InstallWindowsOpts → Arm InstallWindowsOpts) where
  abbrev loop_with : InstallWindowsOpts → List Text → Parsed InstallWindowsOpts
  loop_with = arg_loop arm no_words false

  loop-sets :
      (arg : Text) (opts changed : InstallWindowsOpts) (rest : List Text)
      → arm arg opts ≡ sets changed
      → loop_with opts (arg ∷ rest) ≡ loop_with changed rest
  unfolding arg_loop
  loop-sets arg opts changed [] s = rw s refl
  loop-sets arg opts changed (next ∷ rest) s = rw s refl

  loop-fails :
      (arg : Text) (opts : InstallWindowsOpts) (error : ArgError) (rest : List Text)
      → arm arg opts ≡ fails error
      → loop_with opts (arg ∷ rest) ≡ err error
  unfolding arg_loop
  loop-fails arg opts error [] s = rw s refl
  loop-fails arg opts error (next ∷ rest) s = rw s refl

  loop-takes_none :
      (arg : Text) (opts : InstallWindowsOpts) (set : Text → Parsed InstallWindowsOpts)
      → arm arg opts ≡ takes set
      → loop_with opts (arg ∷ []) ≡ err (needs_value arg)
  unfolding arg_loop
  loop-takes_none arg opts set s = rw s refl

  loop-takes :
      (arg next : Text) (opts : InstallWindowsOpts) (set : Text → Parsed InstallWindowsOpts)
      (rest : List Text)
      → arm arg opts ≡ takes set
      → loop_with opts (arg ∷ next ∷ rest) ≡ and_then (set next) (λ changed. loop_with changed rest)
  unfolding arg_loop
  loop-takes arg next opts set rest s = rw s refl

abbrev loop : InstallWindowsOpts → List Text → Parsed InstallWindowsOpts
loop = arg_loop install_arm no_words false

-- More arguments are read from where the ones before them ended.
abbrev Continues : List Text → List Text → Type 0
Continues raw more =
    (opts parsed : InstallWindowsOpts)
    → loop opts raw ≡ ok parsed
    → loop opts (raw ++ more) ≡ loop parsed more

then-Continues :
    (raw more : List Text) (value : Parsed InstallWindowsOpts) (parsed : InstallWindowsOpts)
    → Continues raw more
    → and_then value (λ changed. loop changed raw) ≡ ok parsed
    → and_then value (λ changed. loop changed (raw ++ more)) ≡ loop parsed more
then-Continues raw more (ok changed) parsed continue e = continue changed parsed e
then-Continues raw more (err error) parsed continue e = absurd (err≢ok e)

last_continues :
    (arg : Text) (more : List Text) (opts parsed : InstallWindowsOpts)
    (arm : Arm InstallWindowsOpts)
    → install_arm arg opts ≡ arm
    → FlagArm arm
    → loop opts (arg ∷ []) ≡ ok parsed
    → loop opts (arg ∷ more) ≡ loop parsed more
unfolding arg_loop
last_continues arg more opts parsed separator s h e = absurd h
last_continues arg more opts parsed word s h e = absurd h
last_continues arg more opts parsed (sets changed) s h e =
    let same = ok_inj (sym (loop-sets install_arm arg opts changed [] s) ∙ e) in
    loop-sets install_arm arg opts changed more s ∙ ap (λ o. loop o more) same
last_continues arg more opts parsed (takes set) s h e =
    absurd (err≢ok (sym (loop-takes_none install_arm arg opts set s) ∙ e))
last_continues arg more opts parsed (fails error) s h e =
    absurd (err≢ok (sym (loop-fails install_arm arg opts error [] s) ∙ e))

next-Continues :
    (arg next : Text) (raw more : List Text) (opts parsed : InstallWindowsOpts)
    (arm : Arm InstallWindowsOpts)
    → install_arm arg opts ≡ arm
    → FlagArm arm
    → Continues (next ∷ raw) more
    → Continues raw more
    → loop opts (arg ∷ next ∷ raw) ≡ ok parsed
    → loop opts (arg ∷ next ∷ raw ++ more) ≡ loop parsed more
next-Continues arg next raw more opts parsed separator s h one two e = absurd h
next-Continues arg next raw more opts parsed word s h one two e = absurd h
next-Continues arg next raw more opts parsed (sets changed) s h one two e =
    loop-sets install_arm arg opts changed (next ∷ raw ++ more) s
    ∙ one changed parsed (sym (loop-sets install_arm arg opts changed (next ∷ raw) s) ∙ e)
next-Continues arg next raw more opts parsed (takes set) s h one two e =
    loop-takes install_arm arg next opts set (raw ++ more) s
    ∙ then-Continues raw more (set next) parsed two
        (sym (loop-takes install_arm arg next opts set raw s) ∙ e)
next-Continues arg next raw more opts parsed (fails error) s h one two e =
    absurd (err≢ok (sym (loop-fails install_arm arg opts error (next ∷ raw) s) ∙ e))

loop-append : (raw more : List Text) → Continues raw more
unfolding arg_loop
loop-append [] more opts parsed e = ap (λ o. loop o more) (ok_inj e)
loop-append (arg ∷ []) more opts parsed e =
    last_continues arg more opts parsed (install_arm arg opts) refl (install_arm-flag arg opts) e
loop-append (arg ∷ next ∷ raw) more opts parsed e =
    next-Continues arg next raw more opts parsed (install_arm arg opts) refl
      (install_arm-flag arg opts) (loop-append (next ∷ raw) more) (loop-append raw more) e

-- Whether a choice is among the arguments, as the flag or as its opposite.
abbrev pub chosen : Text → Text → List Text → Bool
chosen wanted opposite raw = any (λ arg. text_eq arg wanted || text_eq arg opposite) raw

loop-add_choice :
    (wanted opposite added : Text) (raw : List Text) (opts parsed changed : InstallWindowsOpts)
    → loop opts raw ≡ ok parsed
    → install_arm added parsed ≡ sets changed
    → loop opts (add_choice wanted opposite added raw)
      ≡ ok (if chosen wanted opposite raw then parsed else changed)
unfolding add_choice arg_loop
loop-add_choice wanted opposite added raw opts parsed changed e s =
    elim (Bool-cases (chosen wanted opposite raw)) [
      | inl made ↦ rw made e
      | inr unmade ↦ rw unmade (
          loop-append raw (added ∷ []) opts parsed e
          ∙ loop-sets install_arm added parsed changed [] s)
    ]

any-last :
    (p : Text → Bool) (raw : List Text) (arg : Text)
    → p arg ≡ false
    → any p (raw ++ arg ∷ []) ≡ any p raw
any-last p [] arg h = rw h refl
any-last p (x ∷ raw) arg h = ap (λ b. p x || b) (any-last p raw arg h)

-- What is added for one choice is no other choice.
chosen-add_choice :
    (p : Text → Bool) (wanted opposite added : Text) (raw : List Text)
    → p added ≡ false
    → any p (add_choice wanted opposite added raw) ≡ any p raw
unfolding add_choice
chosen-add_choice p wanted opposite added raw h = elim (Bool-cases (chosen wanted opposite raw)) [
  | inl made ↦ rw made refl
  | inr unmade ↦ rw unmade (any-last p raw added h)
]

-- The options with the product's, where a choice is open: no terminal profiles, the shortcuts and
-- the shell.
abbrev pub product_opts : Bool → Bool → Bool → InstallWindowsOpts → InstallWindowsOpts
product_opts profiles shortcuts shell opts = record opts {
  install_terminal_profiles = if profiles then opts.install_terminal_profiles else false;
  install_management_shortcuts = if shortcuts then opts.install_management_shortcuts else true;
  install_wsl_shell = if shell then opts.install_wsl_shell else true;
}

-- The same, one choice after the other.
abbrev steps : Bool → Bool → Bool → InstallWindowsOpts → InstallWindowsOpts
steps profiles shortcuts shell opts =
    let one = if profiles then opts else record opts { install_terminal_profiles = false } in
    let two = if shortcuts then one else record one { install_management_shortcuts = true } in
    if shell then two else record two { install_wsl_shell = true }

product_opts-steps :
    (profiles shortcuts shell : Bool) (opts : InstallWindowsOpts)
    → steps profiles shortcuts shell opts ≡ product_opts profiles shortcuts shell opts
product_opts-steps true true true opts = refl
product_opts-steps true true false opts = refl
product_opts-steps true false true opts = refl
product_opts-steps true false false opts = refl
product_opts-steps false true true opts = refl
product_opts-steps false true false opts = refl
product_opts-steps false false true opts = refl
product_opts-steps false false false opts = refl

-- A product install is read as an install with the product's choices, where the arguments make none;
-- the choices that they make, and all other options, stay. This is for arguments that parse alone.
pub parse-product_install_args :
    (dir : Text) (raw : List Text) (opts : InstallWindowsOpts)
    → parse_install_windows_args (some dir) raw ≡ ok opts
    → parse_install_windows_args (some dir) (product_install_args raw)
      ≡ ok (
          product_opts
            (chosen (codes "--terminal-profiles") (codes "--no-terminal-profiles") raw)
            (chosen (codes "--management-shortcuts") (codes "--no-management-shortcuts") raw)
            (chosen (codes "--wsl-shell") (codes "--no-wsl-shell") raw)
            opts)
unfolding parse_install_windows_args product_install_args install_arm text_eq
parse-product_install_args dir raw opts e =
    let p = λ (arg : Text).
      text_eq arg (codes "--management-shortcuts")
      || text_eq arg (codes "--no-management-shortcuts") in
    let q =
      λ (arg : Text). text_eq arg (codes "--wsl-shell") || text_eq arg (codes "--no-wsl-shell") in
    let raw1 =
      add_choice (codes "--terminal-profiles") (codes "--no-terminal-profiles")
        (codes "--no-terminal-profiles") raw in
    let raw2 =
      add_choice (codes "--management-shortcuts") (codes "--no-management-shortcuts")
        (codes "--management-shortcuts") raw1 in
    let one =
      loop-add_choice (codes "--terminal-profiles") (codes "--no-terminal-profiles")
        (codes "--no-terminal-profiles") raw (install_defaults dir) opts _ e refl in
    let two =
      loop-add_choice (codes "--management-shortcuts") (codes "--no-management-shortcuts")
        (codes "--management-shortcuts") raw1 (install_defaults dir) _ _ one refl in
    let three =
      loop-add_choice (codes "--wsl-shell") (codes "--no-wsl-shell") (codes "--wsl-shell") raw2
        (install_defaults dir) _ _ two refl in
    let same1 =
      chosen-add_choice p (codes "--terminal-profiles") (codes "--no-terminal-profiles")
        (codes "--no-terminal-profiles") raw refl in
    let same2 =
      chosen-add_choice q (codes "--terminal-profiles") (codes "--no-terminal-profiles")
        (codes "--no-terminal-profiles") raw refl in
    let same3 =
      chosen-add_choice q (codes "--management-shortcuts") (codes "--no-management-shortcuts")
        (codes "--management-shortcuts") raw1 refl in
    let profiles = chosen (codes "--terminal-profiles") (codes "--no-terminal-profiles") raw in
    let shortcuts = any p raw in
    three
    ∙ ap (λ b. ok (steps profiles b (any q raw2) opts)) same1
    ∙ ap (λ b. ok (steps profiles shortcuts b opts)) (same3 ∙ same2)
    ∙ ap ok (product_opts-steps profiles shortcuts (any q raw) opts)
