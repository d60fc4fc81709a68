-- ===== src/Cli/Profile/Settings/Restored.antt =====
-- Unwrapping the profiles that were wrapped, in crates/vb-daemon/src/main.rs.
use vibe_bridge.Base.{
  ◌≡◌, refl, ap, ◌∙◌, true, false, Bool-cases, inl, inr, not, Text, codes, Option, none, some,
  text_eq, text_eq_refl, text_eq→eq, if◌then◌else◌, arith,
}
use vibe_bridge.Json.{
  Value, Items, Fields, object, string, array, null, boolean, number, no_items, item, field,
  no_fields, get_text, insert,
}
use vibe_bridge.Cli.Profile.{terminal_profile_original_commandline, wrapped_commandline}
use vibe_bridge.Cli.Profile.RoundTrip.{FlagFree}
use vibe_bridge.Cli.Profile.Settings.{
  Profiles, Round, skipped, already, changed, has_text, wrap_with, wrap_profile, add_round,
  wrap_profiles, unwrap_with, extract_some, unwrap_profile, unwrap_profiles,
}
use vibe_bridge.Cli.Profile.Settings.Again.{
  both, capture_name, original_of, has_flag, fits_line, fits_profile, fits, is_hidden, with_line,
  line-with_line, extract-wrapped,
}

insert-insert :
    (key : Text) (v w : Value) (fs : Fields) → insert key v (insert key w fs) ≡ insert key v fs
unfolding insert
insert-insert key v w no_fields = rw (text_eq_refl key) refl
insert-insert key v w (field k u fs) = elim (Bool-cases (text_eq k key)) [
  | inl same ↦ rw (same, same) refl
  | inr other ↦ rw (other, other) (ap (λ rest. field k u rest) (insert-insert key v w fs))
]

-- What is left of a round: nothing was written, or the line that the profile stood for.
unfoldable pub restored_fields : Fields → Round → Fields
restored_fields profile skipped = profile
restored_fields profile already = profile
restored_fields profile (changed line) = with_line line profile

-- The profile with the line that it stands for written out, when it can be wrapped; otherwise only
-- a line that was wrapped before is replaced.
unfoldable pub restored : Fields → Option Text → Fields
unfolding original_of restored_fields
restored profile none = restored_fields profile (unwrap_profile profile)
restored profile (some line) =
    if is_hidden profile
    then restored_fields profile (unwrap_profile profile)
    else with_line (original_of line) profile

unfoldable pub restored_items : Items → Items
unfolding restored
restored_items no_items = no_items
restored_items (item (object profile) rest) =
    item (object (restored profile (terminal_profile_original_commandline profile)))
      (restored_items rest)
restored_items (item other rest) = item other (restored_items rest)

-- A profile that has a wrapped line is given the line's original.
unwrap-wrapped :
    (exe addr line : Text) (profile after : Fields)
    → FlagFree exe
    → FlagFree addr
    → has_flag (capture_name profile) ≡ false
    → fits_line (some line) ≡ true
    → get_text (codes "commandline") after ≡ some (wrapped_commandline exe addr profile line)
    → restored_fields after (unwrap_profile after) ≡ with_line (original_of line) after
unfolding unwrap_profile unwrap_with extract_some restored_fields
unwrap-wrapped exe addr line profile after he ha hn fit e =
    rw (e, extract-wrapped exe addr profile line he ha hn fit) refl

has_text→eq : (found : Option Text) (line : Text) → has_text found line ≡ true → found ≡ some line
unfolding has_text
has_text→eq none line h = absurd (ground arith)
has_text→eq (some text) line h = ap some (text_eq→eq text line h)

unwrap-wrap_with :
    (exe addr : Text) (profile : Fields) (found : Option Text)
    → is_hidden profile ≡ false
    → FlagFree exe
    → FlagFree addr
    → has_flag (capture_name profile) ≡ false
    → fits_line found ≡ true
    → (let after = restored_fields profile (wrap_with exe addr profile found) in
        restored_fields after (unwrap_profile after) ≡ restored profile found)
unfolding restored_fields wrap_with restored
unwrap-wrap_with exe addr profile none shown he ha hn fit = refl
unwrap-wrap_with exe addr profile (some line) shown he ha hn fit =
    let wrapped = wrapped_commandline exe addr profile line in
    elim (Bool-cases (has_text (get_text (codes "commandline") profile) wrapped)) [
      | inl same ↦
          rw (same, shown)
            (unwrap-wrapped exe addr line profile profile he ha hn fit (has_text→eq _ wrapped same))
      | inr other ↦
          rw (other, shown)
            (unwrap-wrapped exe addr line profile (with_line wrapped profile) he ha hn fit
                (line-with_line wrapped profile)
              ∙ insert-insert (codes "commandline") _ _ profile)
    ]

restored-hidden :
    (profile : Fields) (found : Option Text)
    → is_hidden profile ≡ true
    → restored profile found ≡ restored_fields profile (unwrap_profile profile)
unfolding restored
restored-hidden profile none h = refl
restored-hidden profile (some line) h = rw h refl

unwrap-wrap_profile :
    (exe addr : Text) (profile : Fields)
    → FlagFree exe
    → FlagFree addr
    → fits_profile profile ≡ true
    → (let after = restored_fields profile (wrap_profile exe addr profile) in
        restored_fields after (unwrap_profile after)
        ≡ restored profile (terminal_profile_original_commandline profile))
unfolding wrap_profile fits_profile restored_fields
unwrap-wrap_profile exe addr profile he ha fit = elim (Bool-cases (is_hidden profile)) [
  | inl hidden ↦
      rw (hidden, restored-hidden profile (terminal_profile_original_commandline profile) hidden)
        refl
  | inr shown ↦
      let (name_fits, line_fits) =
        both (not (has_flag (capture_name profile)))
          (fits_line (terminal_profile_original_commandline profile)) fit in
      let free : has_flag (capture_name profile) ≡ false = ground arith in
      rw shown (
        unwrap-wrap_with exe addr profile (terminal_profile_original_commandline profile) shown he
          ha free line_fits)
]

list-add_round :
    (profile : Fields) (round : Round) (rest : Profiles)
    → (add_round profile round rest).list ≡ item (object (restored_fields profile round)) rest.list
unfolding add_round restored_fields
list-add_round profile skipped rest = refl
list-add_round profile already rest = refl
list-add_round profile (changed line) rest = refl

-- Unwrapping wrapped profiles leaves each one that is shown and supported with the line that it
-- stood for, and the others as unwrapping alone leaves them, where the names of the profiles do not
-- hold the flag and their lines are UTF-8 and not empty.
pub unwrap_profiles-wrap :
    (exe addr : Text) (items : Items)
    → FlagFree exe
    → FlagFree addr
    → fits items ≡ true
    → (unwrap_profiles (wrap_profiles exe addr items).list).list ≡ restored_items items
unfolding wrap_profiles unwrap_profiles restored_items fits
unwrap_profiles-wrap exe addr no_items he ha fit = refl
unwrap_profiles-wrap exe addr (item (object profile) rest) he ha fit =
    let (here, after) = both (fits_profile profile) (fits rest) fit in
    rw
      (
        list-add_round profile (wrap_profile exe addr profile) (wrap_profiles exe addr rest),
        list-add_round _ _ (unwrap_profiles (wrap_profiles exe addr rest).list),
        unwrap-wrap_profile exe addr profile he ha here,
        unwrap_profiles-wrap exe addr rest he ha after,
      )
      refl
unwrap_profiles-wrap exe addr (item null rest) he ha fit =
    ap (item null) (unwrap_profiles-wrap exe addr rest he ha fit)
unwrap_profiles-wrap exe addr (item (boolean b) rest) he ha fit =
    ap (item (boolean b)) (unwrap_profiles-wrap exe addr rest he ha fit)
unwrap_profiles-wrap exe addr (item (number n) rest) he ha fit =
    ap (item (number n)) (unwrap_profiles-wrap exe addr rest he ha fit)
unwrap_profiles-wrap exe addr (item (string s) rest) he ha fit =
    ap (item (string s)) (unwrap_profiles-wrap exe addr rest he ha fit)
unwrap_profiles-wrap exe addr (item (array xs) rest) he ha fit =
    ap (item (array xs)) (unwrap_profiles-wrap exe addr rest he ha fit)
