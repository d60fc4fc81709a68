-- ===== src/Cli/Profile/Settings.antt =====
-- crates/vb-daemon/src/main.rs: `wrap_windows_terminal_settings_json` and
-- `unwrap_windows_terminal_settings_json`. `serde_json::from_str` and `to_string_pretty` belong to
-- the JSON library and are the parameters `parse` and `print`.
pub mod Again
pub mod Restored
pub mod Whole
use vibe_bridge.Base.{
  ℕ, Bool, true, false, List, [], ◌∷◌, ◌++◌, Text, codes, Option, none, some, is_empty, text_eq,
  if◌then◌else◌,
}
use vibe_bridge.Json.{
  Value, Items, Fields, object, string, array, no_items, item, field, no_fields, get, get_text,
  get_value, as_bool, insert,
}
use vibe_bridge.Cli.Jsonc.{strip_jsonc_comments}
use vibe_bridge.Cli.Profile.{
  extract_wrapped_terminal_cmdline, terminal_profile_original_commandline, unwrap_or, profile_name,
  wrapped_commandline,
}

pub record Profiles : Type 0 where
  pub list : Items
  pub changed_profiles : List Text
  pub supported_profiles : List Text

-- What a round of the loop does with a profile: nothing, or its supported name, or a change too.
pub data Round : Type 0 where
  skipped : Round
  already : Round
  changed : Text → Round

unfoldable pub has_text : Option Text → Text → Bool
has_text none expected = false
has_text (some text) expected = text_eq text expected

unfoldable pub wrap_with : Text → Text → Fields → Option Text → Round
unfolding wrapped_commandline has_text
wrap_with exe addr profile none = skipped
wrap_with exe addr profile (some profile_cmdline) =
    let wrapped = wrapped_commandline exe addr profile profile_cmdline in
    if has_text (get_text (codes "commandline") profile) wrapped then already else changed wrapped

unfoldable pub wrap_profile : Text → Text → Fields → Round
unfolding wrap_with terminal_profile_original_commandline
wrap_profile exe addr profile =
    if unwrap_or false (as_bool (get (codes "hidden") profile))
    then skipped
    else wrap_with exe addr profile (terminal_profile_original_commandline profile)

unfoldable pub add_round : Fields → Round → Profiles → Profiles
add_round profile skipped rest = record rest { list = item (object profile) rest.list }
add_round profile already rest = record rest {
  list = item (object profile) rest.list;
  supported_profiles = profile_name profile ∷ rest.supported_profiles;
}
add_round profile (changed commandline) rest = record {
  list = item (object (insert (codes "commandline") (string commandline) profile)) rest.list;
  changed_profiles = profile_name profile ∷ rest.changed_profiles;
  supported_profiles = profile_name profile ∷ rest.supported_profiles;
}

unfoldable pub wrap_profiles : Text → Text → Items → Profiles
unfolding add_round wrap_profile
wrap_profiles exe addr no_items = record {
  list = no_items;
  changed_profiles = [];
  supported_profiles = [];
}
wrap_profiles exe addr (item (object profile) rest) =
    add_round profile (wrap_profile exe addr profile) (wrap_profiles exe addr rest)
wrap_profiles exe addr (item other rest) =
    let done = wrap_profiles exe addr rest in record done { list = item other done.list }

unfoldable pub unwrap_with : Option Text → Round
unwrap_with none = skipped
unwrap_with (some original) = changed original

unfoldable pub extract_some : Option Text → Option Text
extract_some none = none
extract_some (some commandline) = extract_wrapped_terminal_cmdline commandline

unfoldable pub unwrap_profile : Fields → Round
unfolding unwrap_with extract_some
unwrap_profile profile = unwrap_with (extract_some (get_text (codes "commandline") profile))

unfoldable pub unwrap_profiles : Items → Profiles
unfolding add_round unwrap_profile
unwrap_profiles no_items = record {
  list = no_items;
  changed_profiles = [];
  supported_profiles = [];
}
unwrap_profiles (item (object profile) rest) =
    add_round profile (unwrap_profile profile) (unwrap_profiles rest)
unwrap_profiles (item other rest) =
    let done = unwrap_profiles rest in record done { list = item other done.list }

-- `profiles.list` of the settings, read and replaced.
abbrev pub items_of : Option Value → Option Items
items_of (some (array items)) = some items
items_of other = none

abbrev pub list_of : Option Value → Option Items
list_of (some value) = items_of (get_value (codes "list") value)
list_of none = none

abbrev pub with_list : Items → Option Value → Value → Value
with_list items (some (object profiles)) (object root) =
    object (insert (codes "profiles") (object (insert (codes "list") (array items) profiles)) root)
with_list items other root = root

pub data SettingsError : Type 0 where
  parse_failed missing_list : SettingsError

pub data Settings : Type 0 where
  settings : Option Text → List Text → List Text → Settings
  failed : SettingsError → Settings

-- The output, if a profile was changed.
unfoldable pub settings_of : (Value → Text) → Value → Profiles → Settings
settings_of print root done =
    let output =
      print (with_list done.list (get_value (codes "profiles") root) root) ++ b'\n' ∷ [] in
    settings (if is_empty done.changed_profiles then none else some output) done.changed_profiles
      done.supported_profiles

unfoldable pub on_list : (Value → Text) → (Items → Profiles) → Value → Option Items → Settings
unfolding settings_of
on_list print change root none = failed missing_list
on_list print change root (some items) = settings_of print root (change items)

unfoldable pub on_settings : (Value → Text) → (Items → Profiles) → Option Value → Settings
unfolding on_list
on_settings print change none = failed parse_failed
on_settings print change (some root) =
    on_list print change root (list_of (get_value (codes "profiles") root))

unfoldable pub wrap_windows_terminal_settings_json :
    (Text → Option Value) → (Value → Text) → Text → Text → Text → Settings
unfolding on_settings wrap_profiles
wrap_windows_terminal_settings_json parse print input exe addr =
    on_settings print (wrap_profiles exe addr) (parse (strip_jsonc_comments input))

-- This result has no names of supported profiles.
unfoldable pub unwrap_windows_terminal_settings_json :
    (Text → Option Value) → (Value → Text) → Text → Settings
unfolding on_settings unwrap_profiles
unwrap_windows_terminal_settings_json parse print input =
    on_settings print (λ items. record (unwrap_profiles items) { supported_profiles = [] })
      (parse (strip_jsonc_comments input))
