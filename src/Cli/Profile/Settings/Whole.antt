-- ===== src/Cli/Profile/Settings/Whole.antt =====
-- `wrap_windows_terminal_settings_json` of crates/vb-daemon/src/main.rs on its own output.
use vibe_bridge.Base.{
  ◌≡◌, refl, sym, true, Bool-cases, inl, inr, List, [], ◌∷◌, ◌++◌, Text, codes, Option, none, some,
  is_empty,
}
use vibe_bridge.Json.{
  Value, Items, Fields, object, string, array, null, boolean, number, get, get_value, get-insert,
}
use vibe_bridge.Cli.Jsonc.{strip_jsonc_comments}
use vibe_bridge.Cli.Jsonc.Comments.{IsJsonText, strip-IsJsonText}
use vibe_bridge.Cli.Profile.RoundTrip.{FlagFree}
use vibe_bridge.Cli.Profile.Settings.{
  Profiles, wrap_profiles, list_of, with_list, settings, settings_of, on_list, on_settings,
  wrap_windows_terminal_settings_json,
}
use vibe_bridge.Cli.Profile.Settings.Again.{fits, wrap_profiles-again}

none≢items : (items : Items) → none ≡ some items → ⊥
none≢items items e = cc

list_within :
    (profiles : Option Value) (root : Fields) (old items : Items)
    → get (codes "profiles") root ≡ profiles
    → list_of profiles ≡ some old
    → list_of (get_value (codes "profiles") (with_list items profiles (object root))) ≡ some items
list_within none root old items e h = absurd (none≢items old h)
list_within (some (object profiles)) root old items e h =
    rw (get-insert (codes "profiles") _ root, get-insert (codes "list") (array items) profiles) refl
list_within (some null) root old items e h = absurd (none≢items old h)
list_within (some (boolean b)) root old items e h = absurd (none≢items old h)
list_within (some (number n)) root old items e h = absurd (none≢items old h)
list_within (some (string s)) root old items e h = absurd (none≢items old h)
list_within (some (array xs)) root old items e h = absurd (none≢items old h)

-- The list that was put into the settings is the one that is found.
list_of-with_list :
    (root : Value) (old items : Items)
    → list_of (get_value (codes "profiles") root) ≡ some old
    → list_of
        (get_value (codes "profiles") (with_list items (get_value (codes "profiles") root) root))
      ≡ some items
list_of-with_list (object root) old items h =
    list_within (get (codes "profiles") root) root old items refl h
list_of-with_list null old items h = absurd (none≢items old h)
list_of-with_list (boolean b) old items h = absurd (none≢items old h)
list_of-with_list (number n) old items h = absurd (none≢items old h)
list_of-with_list (string s) old items h = absurd (none≢items old h)
list_of-with_list (array xs) old items h = absurd (none≢items old h)

-- The settings with the wrapped profiles in place of the old.
abbrev pub wrapped_root : Text → Text → Value → Items → Value
wrapped_root exe addr root items =
    with_list (wrap_profiles exe addr items).list (get_value (codes "profiles") root) root

output_inj :
    (out text : Text) (names more shown some_shown : List Text)
    → settings (some text) names shown ≡ settings (some out) more some_shown
    → (text ≡ out) × (shown ≡ some_shown)
output_inj out text names more shown some_shown e = (cc e, cc e)

output-settings_of :
    (print : Value → Text) (root : Value) (done : Profiles) (out : Text) (names shown : List Text)
    → settings_of print root done ≡ settings (some out) names shown
    → (print (with_list done.list (get_value (codes "profiles") root) root) ++ b'\n' ∷ [] ≡ out)
      × (done.supported_profiles ≡ shown)
unfolding settings_of
output-settings_of print root done out names shown e =
    elim (Bool-cases (is_empty done.changed_profiles)) [
      | inl unchanged ↦ absurd (cc (rw unchanged at e))
      | inr some_changed ↦
          output_inj out _ done.changed_profiles names _ shown (rw some_changed at e)
    ]

-- When the settings that it puts out are wrapped again, no profile is changed and nothing is put
-- out, and the same profiles are supported, where the names of the profiles do not hold the flag and
-- their lines are UTF-8 and not empty. What the JSON library prints for these settings, with the
-- line's end after it, is JSON text (without comments), which the library parses to the settings.
pub wrap_settings-again :
    (parse : Text → Option Value) (print : Value → Text) (input exe addr : Text) (root : Value)
    (items : Items) (output : Text) (changed supported : List Text)
    → (parse (strip_jsonc_comments input) ≡ some root)
    → (list_of (get_value (codes "profiles") root) ≡ some items)
    → FlagFree exe
    → FlagFree addr
    → fits items ≡ true
    → IsJsonText (print (wrapped_root exe addr root items) ++ b'\n' ∷ [])
    → (parse (print (wrapped_root exe addr root items) ++ b'\n' ∷ [])
        ≡ some (wrapped_root exe addr root items))
    → wrap_windows_terminal_settings_json parse print input exe addr
      ≡ settings (some output) changed supported
    → wrap_windows_terminal_settings_json parse print output exe addr ≡ settings none [] supported
unfolding wrap_windows_terminal_settings_json on_settings on_list settings_of
wrap_settings-again parse print input exe addr root items output changed supported read listed he ha
      fit json again first =
    let (written, shown) =
      output-settings_of print root (wrap_profiles exe addr items) output changed supported
        (rw (read, listed) at first) in
    rw
      (
        sym written,
        strip-IsJsonText (print (wrapped_root exe addr root items) ++ b'\n' ∷ []) json,
        again,
        list_of-with_list root items (wrap_profiles exe addr items).list listed,
        wrap_profiles-again exe addr items he ha fit,
        shown,
      )
      refl
