-- ===== src/Base/Strings.antt =====
-- Rust text is its UTF-8 bytes. Literals, ASCII case, `trim`, UTF-8 validity and char boundaries.
use Prim.Native.Char.{code}
use Prim.Native.String.{String}
use Prim.Native.Nat.{ℕ, ◌+◌}
use mathlib.Core.Path.{◌≡◌, refl}
use mathlib.Core.Bool.{Bool, true, false, ◌&&◌, ◌||◌}
use mathlib.Core.List.{List, [], ◌∷◌, map, reverse}
use native.Mathlib.Omega.{arith}
use vibe_bridge.Base.Tests.{◌==◌, in_range, if◌then◌else◌}

-- The type `str` or `String`: bytes, of which the language promises that they are UTF-8.
abbrev pub Text : Type 0
Text = List ℕ

-- The bytes of an ASCII literal.
abbrev pub codes : String → Text
codes String.[] = []
codes (String.◌∷◌ c s) = code c ∷ codes s

-- `==` on text.
unfoldable pub text_eq : Text → Text → Bool
text_eq [] [] = true
text_eq [] (y ∷ ys) = false
text_eq (x ∷ xs) [] = false
text_eq (x ∷ xs) (y ∷ ys) = x == y && text_eq xs ys

pub text_eq→eq : (s t : Text) → text_eq s t ≡ true → s ≡ t
unfolding text_eq
text_eq→eq [] [] h = refl
text_eq→eq [] (y ∷ t) h = ground arith
text_eq→eq (x ∷ s) [] h = ground arith
text_eq→eq (x ∷ s) (y ∷ t) h = ground (arith, text_eq→eq s t)

pub text_eq_refl : (s : Text) → text_eq s s ≡ true
unfolding text_eq
text_eq_refl [] = refl
text_eq_refl (x ∷ s) = ground (arith, text_eq_refl s)

unfoldable pub lower_byte : ℕ → ℕ
lower_byte b = if in_range b'A' b'Z' b then b + 32 else b

-- `to_ascii_lowercase`.
abbrev pub to_ascii_lowercase : Text → Text
to_ascii_lowercase = map lower_byte

-- `char::is_whitespace` on the encodings of one, two and three bytes.
abbrev pub space1 : ℕ → Bool
space1 a = in_range 0x09 0x0D a || a == 0x20

abbrev pub space2 : ℕ → ℕ → Bool
space2 a b = a == 0xC2 && (b == 0x85 || b == 0xA0)

abbrev pub space3 : ℕ → ℕ → ℕ → Bool
space3 a b c =
    a == 0xE1 && b == 0x9A && c == 0x80
    || a == 0xE2 && b == 0x80 && (in_range 0x80 0x8A c || c == 0xA8 || c == 0xA9 || c == 0xAF)
    || a == 0xE2 && b == 0x81 && c == 0x9F
    || a == 0xE3 && b == 0x80 && c == 0x80

-- `trim_start`: whitespace characters are taken off while there are any.
unfoldable pub trim_start : Text → Text
trim_start [] = []
trim_start (a ∷ []) = if space1 a then [] else a ∷ []
trim_start (a ∷ b ∷ []) =
    let one = trim_start (b ∷ []) in if space1 a then one else if space2 a b then [] else a ∷ b ∷ []
trim_start (a ∷ b ∷ c ∷ r) =
    let one = trim_start (b ∷ c ∷ r) in
    let two = trim_start (c ∷ r) in
    let three = trim_start r in
    if space1 a
    then one
    else if space2 a b
    then two
    else if space3 a b c
    then three
    else a ∷ b ∷ c ∷ r

-- The same from the end, on the reversed bytes.
unfoldable pub trim_back : Text → Text
trim_back [] = []
trim_back (a ∷ []) = if space1 a then [] else a ∷ []
trim_back (b ∷ a ∷ []) =
    let one = trim_back (a ∷ []) in if space1 b then one else if space2 a b then [] else b ∷ a ∷ []
trim_back (c ∷ b ∷ a ∷ r) =
    let one = trim_back (b ∷ a ∷ r) in
    let two = trim_back (a ∷ r) in
    let three = trim_back r in
    if space1 c
    then one
    else if space2 b c
    then two
    else if space3 a b c
    then three
    else c ∷ b ∷ a ∷ r

-- `str::trim`.
unfoldable pub trim : Text → Text
unfolding trim_start trim_back
trim s = reverse (trim_back (reverse (trim_start s)))
