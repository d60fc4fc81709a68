-- ===== src/Cli/Base64.antt =====
-- crates/vb-daemon/src/main.rs: `base64_encode_bytes` and `base64_decode_bytes`. A `|` of shifted
-- bytes or sextets, whose bits do not overlap, is a sum; `>>` is a division and `& 0x3f` a remainder.
pub mod RoundTrip
use vibe_bridge.Base.{
  ℕ, zero, suc, ◌+◌, ◌-◌, ◌*◌, ◌/◌, ◌%◌, ◌^◌, Bool, true, false, ◌||◌, List, [], ◌∷◌, ◌++◌, Text,
  codes, length, get_or, retain, not, in_range, ltb, ◌==◌, if◌then◌else◌,
}

abbrev pub alphabet : Text
alphabet = codes "ABCDEFGHIJKLMNOPQRSTUVWXYZabcdefghijklmnopqrstuvwxyz0123456789+/"

unfoldable pub digit : ℕ → ℕ
digit i = get_or alphabet i 0

abbrev pub sextet : ℕ → ℕ → ℕ
sextet n k = n / 2 ^ k % 64

-- One round of the loop over `input.chunks(3)`, on a chunk of one, two or three bytes.
unfoldable pub base64_encode_bytes : List ℕ → Text
unfolding digit
base64_encode_bytes [] = []
base64_encode_bytes (b0 ∷ []) =
    let n = b0 * 2 ^ 16 in digit (sextet n 18) ∷ digit (sextet n 12) ∷ b'=' ∷ b'=' ∷ []
base64_encode_bytes (b0 ∷ b1 ∷ []) =
    let n = b0 * 2 ^ 16 + b1 * 2 ^ 8 in
    digit (sextet n 18) ∷ digit (sextet n 12) ∷ digit (sextet n 6) ∷ b'=' ∷ []
base64_encode_bytes (b0 ∷ b1 ∷ b2 ∷ rest) =
    let n = b0 * 2 ^ 16 + b1 * 2 ^ 8 + b2 in
    digit (sextet n 18)
    ∷ digit (sextet n 12)
    ∷ digit (sextet n 6)
    ∷ digit (n % 64)
    ∷ base64_encode_bytes rest

pub data Base64Error : Type 0 where
  bad_length early_padding too_much_padding : Base64Error
  invalid_byte : ℕ → Base64Error

pub data Decoded {ℓ} (A : Type ℓ) : Type ℓ where
  ok : A → Decoded A
  err : Base64Error → Decoded A

abbrev pub and_then {ℓ κ} : {A : Type ℓ} {B : Type κ} → Decoded A → (A → Decoded B) → Decoded B
and_then (ok a) f = f a
and_then (err e) f = err e

-- `u8::is_ascii_whitespace`.
abbrev pub is_ascii_whitespace : ℕ → Bool
is_ascii_whitespace b = b == 0x20 || b == 0x09 || b == 0x0A || b == 0x0C || b == 0x0D

unfoldable pub value_of : ℕ → Decoded ℕ
value_of b =
    if in_range b'A' b'Z' b
    then ok (b - b'A')
    else if in_range b'a' b'z' b
    then ok (b - b'a' + 26)
    else if in_range b'0' b'9' b
    then ok (b - b'0' + 52)
    else if b == b'+'
    then ok 62
    else if b == b'/'
    then ok 63
    else err (invalid_byte b)

-- The loop over a chunk of four, from the number of padding bytes seen: the values and the padding.
unfoldable pub values_of : ℕ → List ℕ → Decoded (List ℕ × ℕ)
unfolding value_of
values_of padding [] = ok ([], padding)
values_of padding (b ∷ chunk) =
    let pad = and_then (values_of (suc padding) chunk) (λ (vs, p). ok (0 ∷ vs, p)) in
    let digit_first =
      and_then (value_of b) (λ v. and_then (values_of padding chunk) (λ (vs, p). ok (v ∷ vs, p))) in
    if b == b'=' then pad else if ltb 0 padding then err early_padding else digit_first

-- The bytes of one chunk.
abbrev pub bytes_of : List ℕ → ℕ → List ℕ
bytes_of values padding =
    let n =
      get_or values 0 0 * 2 ^ 18
      + get_or values 1 0 * 2 ^ 12
      + get_or values 2 0 * 2 ^ 6
      + get_or values 3 0 in
    (n / 2 ^ 16 % 256)
    ∷ ((if ltb padding 2 then (n / 2 ^ 8 % 256) ∷ [] else [])
        ++ (if ltb padding 1 then (n % 256) ∷ [] else []))

unfoldable pub decode_chunk : List ℕ → Decoded (List ℕ)
unfolding values_of
decode_chunk chunk = and_then (values_of 0 chunk) (λ (values, padding).
    if ltb 2 padding then err too_much_padding else ok (bytes_of values padding))

-- `clean.chunks(4)`, where the length is a multiple of four.
unfoldable pub decode_chunks : List ℕ → Decoded (List ℕ)
unfolding decode_chunk
decode_chunks (a ∷ b ∷ c ∷ d ∷ rest) =
    and_then (decode_chunk (a ∷ b ∷ c ∷ d ∷ []))
      (λ out. and_then (decode_chunks rest) (λ more. ok (out ++ more)))
decode_chunks short = ok []

unfoldable pub base64_decode_bytes : Text → Decoded (List ℕ)
unfolding decode_chunks
base64_decode_bytes input =
    let clean = retain (λ b. not (is_ascii_whitespace b)) input in
    if length clean % 4 == 0 then decode_chunks clean else err bad_length
