-- ===== src/Cli/Jsonc/Comments.antt =====
-- `strip_jsonc_comments` of crates/vb-daemon/src/main.rs against JSON text with comments, given by
-- its pieces.
use vibe_bridge.Base.{
  ℕ, ◌≡◌, refl, ap, sym, ◌∙◌, Bool, true, false, ◌&&◌, ◌||◌, List, [], ◌∷◌, ◌++◌, Text, any, ◌==◌,
  arith,
}
use vibe_bridge.Cli.Jsonc.{plain, in_string, in_line, in_block, strip_from, strip_jsonc_comments}

-- A part of a string: a character, or a backslash and the character that it escapes.
pub data Part : Type 0 where
  char escaped_char : ℕ → Part

-- A character outside strings, a string, a comment with the end of its line, a comment in between.
pub data Piece : Type 0 where
  outside : ℕ → Piece
  literal : List Part → Piece
  line_comment block_comment : Text → Piece

unfoldable pub parts_text : List Part → Text
parts_text [] = b'"' ∷ []
parts_text (char ch ∷ parts) = ch ∷ parts_text parts
parts_text (escaped_char ch ∷ parts) = b'\\' ∷ ch ∷ parts_text parts

-- The text of the pieces, with their comments.
unfoldable pub source_text : List Piece → Text
unfolding parts_text
source_text [] = []
source_text (outside ch ∷ pieces) = ch ∷ source_text pieces
source_text (literal parts ∷ pieces) = b'"' ∷ (parts_text parts ++ source_text pieces)
source_text (line_comment note ∷ pieces) = b'/' ∷ b'/' ∷ (note ++ b'\n' ∷ source_text pieces)
source_text (block_comment note ∷ pieces) = b'/' ∷ b'*' ∷ (note ++ b'*' ∷ b'/' ∷ source_text pieces)

-- The text of the pieces without comments.
unfoldable pub plain_text : List Piece → Text
unfolding parts_text
plain_text [] = []
plain_text (outside ch ∷ pieces) = ch ∷ plain_text pieces
plain_text (literal parts ∷ pieces) = b'"' ∷ (parts_text parts ++ plain_text pieces)
plain_text (line_comment note ∷ pieces) = b'\n' ∷ plain_text pieces
plain_text (block_comment note ∷ pieces) = plain_text pieces

abbrev pub special_part : Part → Bool
special_part (char ch) = ch == b'"' || ch == b'\\'
special_part (escaped_char ch) = false

-- The end of a comment within it, from the character before.
unfoldable pub ends_early : ℕ → Text → Bool
ends_early prev [] = false
ends_early prev (ch ∷ note) = prev == b'*' && ch == b'/' || ends_early ch note

-- What a piece cannot hold. JSON has no slash outside strings.
unfoldable pub ill_formed : Piece → Bool
unfolding ends_early
ill_formed (outside ch) = ch == b'"' || ch == b'/'
ill_formed (literal parts) = any special_part parts
ill_formed (line_comment note) = any (λ ch. ch == b'\n') note
ill_formed (block_comment note) = ends_early 0 note

strip-parts :
    (parts : List Part) (rest : Text)
    → any special_part parts ≡ false
    → strip_from (in_string false) (parts_text parts ++ rest)
      ≡ parts_text parts ++ strip_from plain rest
unfolding strip_from parts_text
strip-parts [] rest h = refl
strip-parts (char ch ∷ parts) rest h =
    let not_slash : (ch == b'\\') ≡ false = ground arith in
    let not_quote : (ch == b'"') ≡ false = ground arith in
    rw (not_slash, not_quote, strip-parts parts rest (ground arith)) refl
strip-parts (escaped_char ch ∷ parts) rest h = rw (strip-parts parts rest (ground arith)) refl

strip-line :
    (note rest : Text)
    → any (λ ch. ch == b'\n') note ≡ false
    → strip_from in_line (note ++ b'\n' ∷ rest) ≡ b'\n' ∷ strip_from plain rest
unfolding strip_from
strip-line [] rest h = refl
strip-line (ch ∷ note) rest h =
    let other : (ch == b'\n') ≡ false = ground arith in
    rw other (strip-line note rest (ground arith))

strip-block :
    (prev : ℕ) (note rest : Text)
    → ends_early prev note ≡ false
    → strip_from (in_block prev) (note ++ b'*' ∷ b'/' ∷ rest) ≡ strip_from plain rest
unfolding strip_from ends_early
strip-block prev [] rest h = ground arith
strip-block prev (ch ∷ note) rest h =
    let other : (prev == b'*' && ch == b'/') ≡ false = ground arith in
    rw other (strip-block ch note rest (ground arith))

strip-outside :
    (ch : ℕ) (rest : Text)
    → (ch == b'"' || ch == b'/') ≡ false
    → strip_from plain (ch ∷ rest) ≡ ch ∷ strip_from plain rest
unfolding strip_from
strip-outside ch [] h = refl
strip-outside ch (next ∷ rest) h = ground arith

strip-quote :
    (rest : Text) → strip_from plain (b'"' ∷ rest) ≡ b'"' ∷ strip_from (in_string false) rest
unfolding strip_from
strip-quote [] = refl
strip-quote (ch ∷ rest) = refl

-- The comments of a text are taken out, and only they: strings keep what looks like a comment, and
-- a line keeps its end.
pub strip-source_text :
    (source : List Piece)
    → any ill_formed source ≡ false
    → strip_jsonc_comments (source_text source) ≡ plain_text source
unfolding strip_jsonc_comments source_text plain_text ill_formed strip_from
strip-source_text [] h = refl
strip-source_text (outside ch ∷ source) h =
    rw (strip-outside ch (source_text source) (ground arith))
      (ap (◌∷◌ ch) (strip-source_text source (ground arith)))
strip-source_text (literal parts ∷ source) h =
    rw
      (
        strip-quote (parts_text parts ++ source_text source),
        strip-parts parts (source_text source) (ground arith),
      )
      (ap (λ rest. b'"' ∷ (parts_text parts ++ rest)) (strip-source_text source (ground arith)))
strip-source_text (line_comment note ∷ source) h =
    rw (strip-line note (source_text source) (ground arith))
      (ap (◌∷◌ b'\n') (strip-source_text source (ground arith)))
strip-source_text (block_comment note ∷ source) h =
    rw (strip-block 0 note (source_text source) (ground arith))
      (strip-source_text source (ground arith))

abbrev pub is_comment : Piece → Bool
is_comment (line_comment note) = true
is_comment (block_comment note) = true
is_comment other = false

-- A text of pieces without comments: characters other than quotes and slashes, and strings.
abbrev pub IsJsonText : Text → Type 0
IsJsonText text =
    (source : List Piece) × (any ill_formed source ≡ false)
    × (any is_comment source ≡ false)
    × (text ≡ source_text source)

plain_text-source :
    (source : List Piece) → any is_comment source ≡ false → plain_text source ≡ source_text source
unfolding plain_text source_text
plain_text-source [] h = refl
plain_text-source (outside ch ∷ source) h = ap (◌∷◌ ch) (plain_text-source source h)
plain_text-source (literal parts ∷ source) h =
    ap (λ rest. b'"' ∷ (parts_text parts ++ rest)) (plain_text-source source h)
plain_text-source (line_comment note ∷ source) h = absurd (cc h)
plain_text-source (block_comment note ∷ source) h = absurd (cc h)

-- A text without comments stays as it is.
pub strip-IsJsonText : (text : Text) → IsJsonText text → strip_jsonc_comments text ≡ text
strip-IsJsonText text (source, formed, plainly, same) =
    ap strip_jsonc_comments same
    ∙ strip-source_text source formed
    ∙ plain_text-source source plainly
    ∙ sym same
