-- ===== src/Json.antt =====
-- The part of `serde_json::Value`, of the JSON library that the daemon uses, that its programs read
-- and change. A number is kept as its text.
use vibe_bridge.Base.{
  Bool, false, Text, text_eq, Option, none, some, if◌then◌else◌, ◌≡◌, refl, text_eq_refl,
  text_eq→eq, Bool-cases, inl, inr,
}

mutual
  pub data Value : Type 0 where
    null : Value
    boolean : Bool → Value
    number : Text → Value
    string : Text → Value
    array : Items → Value
    object : Fields → Value

  pub data Items : Type 0 where
    no_items : Items
    item : Value → Items → Items

  pub data Fields : Type 0 where
    no_fields : Fields
    field : Text → Value → Fields → Fields

-- `Map::get`.
unfoldable pub get : Text → Fields → Option Value
get key no_fields = none
get key (field k v fs) = if text_eq k key then some v else get key fs

-- `Map::insert`, but for the place of a new key.
unfoldable pub insert : Text → Value → Fields → Fields
insert key value no_fields = field key value no_fields
insert key value (field k v fs) =
    if text_eq k key then field k value fs else field k v (insert key value fs)

-- `Value::get` with a key, as of an object.
abbrev pub get_value : Text → Value → Option Value
get_value key (object fs) = get key fs
get_value key other = none

abbrev pub as_str : Option Value → Option Text
as_str (some (string s)) = some s
as_str other = none

abbrev pub as_bool : Option Value → Option Bool
as_bool (some (boolean b)) = some b
as_bool other = none

-- A field's text and its flag.
abbrev pub get_text : Text → Fields → Option Text
get_text key fs = as_str (get key fs)

pub get-insert : (key : Text) (v : Value) (fs : Fields) → get key (insert key v fs) ≡ some v
unfolding get insert
get-insert key v no_fields = rw (text_eq_refl key) refl
get-insert key v (field k w fs) = elim (Bool-cases (text_eq k key)) [
  | inl same ↦ rw (same, same) refl
  | inr other ↦ rw (other, other) (get-insert key v fs)
]

-- Another key's field is left.
pub get-insert_other :
    (key other : Text) (v : Value) (fs : Fields)
    → text_eq key other ≡ false
    → get other (insert key v fs) ≡ get other fs
unfolding get insert
get-insert_other key other v no_fields h = rw h refl
get-insert_other key other v (field k w fs) h = elim (Bool-cases (text_eq k key)) [
  | inl same ↦ let e : k ≡ key = text_eq→eq k key same in rw (e, text_eq_refl key, h) refl
  | inr differs ↦ rw (differs, get-insert_other key other v fs h) refl
]
