-- ===== src/Cli/Jsonc.antt =====
-- crates/vb-daemon/src/main.rs: `strip_jsonc_comments`, by bytes.
pub mod Comments
use vibe_bridge.Base.{ℕ, Bool, true, false, ◌&&◌, List, [], ◌∷◌, Text, ◌==◌, if◌then◌else◌}

-- Where the loop is: outside, in a string with its `escaped` flag, in a comment up to the end of
-- the line, or in one with its `prev`.
pub data Reading : Type 0 where
  plain : Reading
  in_string : Bool → Reading
  in_line : Reading
  in_block : ℕ → Reading

unfoldable pub strip_from : Reading → Text → Text
strip_from mode [] = []
strip_from plain (ch ∷ []) = ch ∷ []
strip_from plain (ch ∷ next ∷ rest) =
    let string = strip_from (in_string false) (next ∷ rest) in
    let same = strip_from plain (next ∷ rest) in
    let line = strip_from in_line rest in
    let block = strip_from (in_block 0) rest in
    if ch == b'"'
    then ch ∷ string
    else if ch == b'/' && next == b'/'
    then line
    else if ch == b'/' && next == b'*'
    then block
    else ch ∷ same
strip_from (in_string escaped) (ch ∷ rest) =
    let inside = strip_from (in_string false) rest in
    let escape = strip_from (in_string true) rest in
    let ended = strip_from plain rest in
    ch
    ∷ (if escaped
        then inside
        else if ch == b'\\'
        then escape
        else if ch == b'"'
        then ended
        else inside)
strip_from in_line (ch ∷ rest) =
    let ended = strip_from plain rest in
    let more = strip_from in_line rest in if ch == b'\n' then ch ∷ ended else more
strip_from (in_block prev) (ch ∷ rest) =
    let ended = strip_from plain rest in
    let more = strip_from (in_block ch) rest in if prev == b'*' && ch == b'/' then ended else more

unfoldable pub strip_jsonc_comments : Text → Text
unfolding strip_from
strip_jsonc_comments input = strip_from plain input
