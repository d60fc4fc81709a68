-- ===== src/Cli/Names.antt =====
-- crates/vb-daemon/src/main.rs: names and paths that the program makes safe or rewrites, by bytes.
-- A character above ASCII starts with a byte that continues none.
use vibe_bridge.Base.{
  ℕ, ◌≡◌, inl, inr, refl, Bool, true, false, Bool-cases, ◌||◌, ◌&&◌, [], ◌∷◌, ◌++◌, map, drop, Text,
  codes, Option, none, some, All, is_empty, in_range, is_continuation, lower_byte, ◌==◌,
  if◌then◌else◌,
}
use vibe_bridge.Core.Terminal.{starts_with}

unfoldable pub compact : Text → Text
compact value = map (λ b. if b == b'\r' || b == b'\n' then b' ' else b) value

unfoldable pub is_shim_char : ℕ → Bool
is_shim_char b =
    in_range b'0' b'9' b || in_range b'A' b'Z' b || in_range b'a' b'z' b || b == b'-' || b == b'_'

unfoldable pub shim_chars : Text → Text
unfolding is_shim_char
shim_chars [] = []
shim_chars (b ∷ rest) =
    if is_shim_char b
    then b ∷ shim_chars rest
    else if is_continuation b
    then shim_chars rest
    else b'_' ∷ shim_chars rest

unfoldable pub sanitize_runtime_shim_id : Text → Text
unfolding shim_chars
sanitize_runtime_shim_id value =
    if is_empty (shim_chars value) then codes "terminal" else shim_chars value

unfoldable pub strip_windows_verbatim_prefix : Text → Text
unfolding starts_with
strip_windows_verbatim_prefix path =
    if starts_with (codes "\\\\?\\") path
    then drop 4 path
    else if starts_with (codes "\\??\\") path
    then drop 4 path
    else path

unfoldable pub slashes : Text → Text
slashes text = map (λ b. if b == b'\\' then b'/' else b) text

-- The drive and what follows its colon.
unfoldable pub on_drive : Text → Option Text
unfolding lower_byte slashes
on_drive (drive ∷ colon ∷ rest) =
    if in_range b'a' b'z' (lower_byte drive) && colon == b':'
    then some (codes "/mnt/" ++ lower_byte drive ∷ slashes rest)
    else none
on_drive short = none

unfoldable pub windows_path_to_wsl_path : Text → Option Text
unfolding on_drive starts_with
windows_path_to_wsl_path raw =
    on_drive (if starts_with (codes "\\\\?\\") raw then drop 4 raw else raw)

-- A shim's identifier is not empty and has ASCII letters, digits, `-` and `_` only, so it is one
-- part of a path.
pub sanitize_runtime_shim_id-IsSafe :
    (value : Text)
    → (is_empty (sanitize_runtime_shim_id value) ≡ false)
      × All (λ b. is_shim_char b ≡ true) (sanitize_runtime_shim_id value)
unfolding sanitize_runtime_shim_id is_shim_char
sanitize_runtime_shim_id-IsSafe value = elim (Bool-cases (is_empty (shim_chars value))) [
  | inl nothing ↦ rw nothing (refl, literal_safe)
  | inr something ↦ rw (something, something) (refl, safe value)
]
  where
    literal_safe : All (λ b. is_shim_char b ≡ true) (codes "terminal")
    literal_safe = (refl, (refl, (refl, (refl, (refl, (refl, (refl, (refl, tt))))))))

    safe : (text : Text) → All (λ b. is_shim_char b ≡ true) (shim_chars text)
    safe [] = tt
    safe (b ∷ rest) = elim (Bool-cases (is_shim_char b)) [
      | inl fine ↦ rw fine (fine, safe rest)
      | inr other ↦ elim (Bool-cases (is_continuation b)) [
        | inl inside ↦ rw (other, inside) (safe rest)
        | inr start ↦ rw (other, start) (refl, safe rest)
      ]
    ]
