-- ===== src/Cli/Profile/Settings/Again.antt =====
-- Wrapping settings of crates/vb-daemon/src/main.rs a second time, and unwrapping them.
use vibe_bridge.Base.{
  ◌≡◌, refl, ap, sym, Bool, true, false, Bool-cases, inl, inr, not, ◌&&◌, [], ◌∷◌, ◌++◌, Text,
  codes, Option, none, some, is_empty, is_utf8, any, ltb, IsBytes, text_eq, text_eq_refl, arith,
}
use vibe_bridge.Json.{
  Items, Fields, object, string, array, null, boolean, number, no_items, item, get, get_text,
  as_str, as_bool, insert, get-insert, get-insert_other,
}
use vibe_bridge.Cli.Profile.{
  b64_flag, extract_wrapped_terminal_cmdline, terminal_profile_original_commandline,
  own_commandline, or_else, unwrap_or, profile_name, wrapped_commandline,
}
use vibe_bridge.Cli.Profile.RoundTrip.{words_of, FlagFree, extract-build}
use vibe_bridge.Cli.Profile.Trimmed.{trim-build, build-nonempty}
use vibe_bridge.Cli.Profile.Settings.{
  Round, skipped, already, changed, has_text, wrap_with, wrap_profile, add_round, wrap_profiles,
}

abbrev pub capture_name : Fields → Text
capture_name profile = codes "Terminal: " ++ profile_name profile

-- The command line that a wrapped profile stands for.
unfoldable pub original_of : Text → Text
original_of profile_cmdline =
    unwrap_or profile_cmdline (extract_wrapped_terminal_cmdline profile_cmdline)

unfoldable pub has_flag : Text → Bool
has_flag value = any (λ part. text_eq part b64_flag) (words_of value)

-- A line that can be wrapped and found again: UTF-8, and not empty.
unfoldable pub fits_line : Option Text → Bool
unfolding original_of
fits_line none = true
fits_line (some profile_cmdline) =
    let original = original_of profile_cmdline in
    not (any (λ b. not (ltb b 256)) original) && is_utf8 original && not (is_empty original)

unfoldable pub fits_profile : Fields → Bool
unfolding has_flag fits_line
fits_profile profile =
    not (has_flag (capture_name profile))
    && fits_line (terminal_profile_original_commandline profile)

-- The names of the profiles do not hold the flag, and their lines fit.
unfoldable pub fits : Items → Bool
unfolding fits_profile
fits no_items = true
fits (item (object profile) rest) = fits_profile profile && fits rest
fits (item other rest) = fits rest

pub both : (a b : Bool) → (a && b) ≡ true → (a ≡ true) × (b ≡ true)
both a b h = ground arith

IsBytes-of_test : (s : Text) → any (λ b. not (ltb b 256)) s ≡ false → IsBytes s
IsBytes-of_test [] h = tt
IsBytes-of_test (b ∷ s) h = (ground arith, IsBytes-of_test s (ground arith))

-- What is read back from a line that was wrapped.
pub extract-wrapped :
    (exe addr : Text) (profile : Fields) (line : Text)
    → FlagFree exe
    → FlagFree addr
    → has_flag (capture_name profile) ≡ false
    → fits_line (some line) ≡ true
    → extract_wrapped_terminal_cmdline (wrapped_commandline exe addr profile line)
      ≡ some (original_of line)
unfolding wrapped_commandline has_flag fits_line original_of
extract-wrapped exe addr profile line he ha hn fit =
    extract-build exe addr (capture_name profile) (original_of line) he ha hn
      (IsBytes-of_test (original_of line) (ground arith)) (ground arith) (ground arith)

pub own-wrapped :
    (exe addr : Text) (profile : Fields) (line : Text)
    → fits_line (some line) ≡ true
    → own_commandline (some (wrapped_commandline exe addr profile line))
      ≡ some (wrapped_commandline exe addr profile line)
unfolding wrapped_commandline fits_line original_of own_commandline
own-wrapped exe addr profile line fit =
    let original = original_of line in
    rw
      (
        trim-build exe addr (capture_name profile) original (ground arith),
        build-nonempty exe addr (capture_name profile) original,
      )
      refl

-- The line of a profile whose line was wrapped is not changed.
pub wrap-wrapped :
    (exe addr : Text) (profile : Fields) (line : Text)
    → FlagFree exe
    → FlagFree addr
    → has_flag (capture_name profile) ≡ false
    → fits_line (some line) ≡ true
    → wrapped_commandline exe addr profile (wrapped_commandline exe addr profile line)
      ≡ wrapped_commandline exe addr profile line
unfolding wrapped_commandline original_of
wrap-wrapped exe addr profile line he ha hn fit =
    rw (extract-wrapped exe addr profile line he ha hn fit) refl

abbrev pub is_hidden : Fields → Bool
is_hidden profile = unwrap_or false (as_bool (get (codes "hidden") profile))

abbrev pub with_line : Text → Fields → Fields
with_line line profile = insert (codes "commandline") (string line) profile

pub name-with_line :
    (line : Text) (profile : Fields) → profile_name (with_line line profile) ≡ profile_name profile
unfolding text_eq
name-with_line line profile =
    ap (λ v. unwrap_or (codes "Windows Terminal") (as_str v))
      (get-insert_other (codes "commandline") (codes "name") (string line) profile refl)

hidden-with_line :
    (line : Text) (profile : Fields) → is_hidden (with_line line profile) ≡ is_hidden profile
unfolding text_eq
hidden-with_line line profile =
    ap (λ v. unwrap_or false (as_bool v))
      (get-insert_other (codes "commandline") (codes "hidden") (string line) profile refl)

pub line-with_line :
    (line : Text) (profile : Fields)
    → get_text (codes "commandline") (with_line line profile) ≡ some line
line-with_line line profile = ap as_str (get-insert (codes "commandline") (string line) profile)

changed_inj : (v w : Text) → changed v ≡ changed w → v ≡ w
changed_inj v w e = cc

-- What a round that changes a profile has found.
pub changed-wrap_with :
    (exe addr : Text) (profile : Fields) (found : Option Text) (wrapped : Text)
    → wrap_with exe addr profile found ≡ changed wrapped
    → (line : Text) × (found ≡ some line) × (wrapped ≡ wrapped_commandline exe addr profile line)
unfolding wrap_with
changed-wrap_with exe addr profile none wrapped e = absurd (cc e)
changed-wrap_with exe addr profile (some line) wrapped e =
    elim (Bool-cases (
      has_text (get_text (codes "commandline") profile)
        (wrapped_commandline exe addr profile line))) [
          | inl same ↦ absurd (cc (rw same at e))
          | inr other ↦ (line, refl, sym (changed_inj _ _ (rw other at e)))
        ]

pub changed-wrap_profile :
    (exe addr : Text) (profile : Fields) (wrapped : Text)
    → wrap_profile exe addr profile ≡ changed wrapped
    → (is_hidden profile ≡ false)
      × ((line : Text) × (terminal_profile_original_commandline profile ≡ some line)
          × (wrapped ≡ wrapped_commandline exe addr profile line))
unfolding wrap_profile
changed-wrap_profile exe addr profile wrapped e = elim (Bool-cases (is_hidden profile)) [
  | inl hidden ↦ absurd (cc (rw hidden at e))
  | inr shown ↦ (shown, changed-wrap_with exe addr profile _ wrapped (rw shown at e))
]

wrapped-with_line :
    (exe addr line text : Text) (profile : Fields)
    → wrapped_commandline exe addr (with_line line profile) text
      ≡ wrapped_commandline exe addr profile text
unfolding wrapped_commandline
wrapped-with_line exe addr line text profile = rw (name-with_line line profile) refl

-- A profile whose line was changed is not changed again.
wrap_profile-changed :
    (exe addr : Text) (profile : Fields) (line : Text)
    → FlagFree exe
    → FlagFree addr
    → has_flag (capture_name profile) ≡ false
    → fits_line (some line) ≡ true
    → is_hidden profile ≡ false
    → wrap_profile exe addr (with_line (wrapped_commandline exe addr profile line) profile)
      ≡ already
unfolding wrap_profile wrap_with terminal_profile_original_commandline or_else has_text
wrap_profile-changed exe addr profile line he ha hn fit shown =
    let wrapped = wrapped_commandline exe addr profile line in
    rw
      (
        hidden-with_line wrapped profile,
        shown,
        line-with_line wrapped profile,
        own-wrapped exe addr profile line fit,
        wrapped-with_line exe addr wrapped wrapped profile,
        wrap-wrapped exe addr profile line he ha hn fit,
        line-with_line wrapped profile,
        text_eq_refl wrapped,
      )
      refl

add_round-again :
    (exe addr : Text) (profile : Fields) (round : Round) (rest : Items)
    → wrap_profile exe addr profile ≡ round
    → FlagFree exe
    → FlagFree addr
    → fits_profile profile ≡ true
    → (wrap_profiles exe addr (wrap_profiles exe addr rest).list
        ≡ record (wrap_profiles exe addr rest) { changed_profiles = [] })
    → wrap_profiles exe addr (add_round profile round (wrap_profiles exe addr rest)).list
      ≡ record (add_round profile round (wrap_profiles exe addr rest)) { changed_profiles = [] }
unfolding wrap_profiles add_round fits_profile
add_round-again exe addr profile skipped rest e he ha fit again = rw (e, again) refl
add_round-again exe addr profile already rest e he ha fit again = rw (e, again) refl
add_round-again exe addr profile (changed wrapped) rest e he ha fit again =
    let (shown, (line, found, made)) = changed-wrap_profile exe addr profile wrapped e in
    let (name_fits, line_fits) =
      both (not (has_flag (capture_name profile)))
        (fits_line (terminal_profile_original_commandline profile)) fit in
    let free : has_flag (capture_name profile) ≡ false = ground arith in
    rw
      (
        made,
        wrap_profile-changed exe addr profile line he ha free (rw found at line_fits) shown,
        again,
        name-with_line (wrapped_commandline exe addr profile line) profile,
      )
      refl

-- Wrapping the profiles again changes none of them, and supports the same ones, where the names of
-- the profiles do not hold the flag and their lines are UTF-8 and not empty.
pub wrap_profiles-again :
    (exe addr : Text) (items : Items)
    → FlagFree exe
    → FlagFree addr
    → fits items ≡ true
    → wrap_profiles exe addr (wrap_profiles exe addr items).list
      ≡ record (wrap_profiles exe addr items) { changed_profiles = [] }
unfolding wrap_profiles fits
wrap_profiles-again exe addr no_items he ha fit = refl
wrap_profiles-again exe addr (item (object profile) rest) he ha fit =
    let (here, after) = both (fits_profile profile) (fits rest) fit in
    add_round-again exe addr profile (wrap_profile exe addr profile) rest refl he ha here
      (wrap_profiles-again exe addr rest he ha after)
wrap_profiles-again exe addr (item null rest) he ha fit =
    rw (wrap_profiles-again exe addr rest he ha fit) refl
wrap_profiles-again exe addr (item (boolean b) rest) he ha fit =
    rw (wrap_profiles-again exe addr rest he ha fit) refl
wrap_profiles-again exe addr (item (number n) rest) he ha fit =
    rw (wrap_profiles-again exe addr rest he ha fit) refl
wrap_profiles-again exe addr (item (string s) rest) he ha fit =
    rw (wrap_profiles-again exe addr rest he ha fit) refl
wrap_profiles-again exe addr (item (array xs) rest) he ha fit =
    rw (wrap_profiles-again exe addr rest he ha fit) refl
