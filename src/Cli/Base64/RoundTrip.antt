-- ===== src/Cli/Base64/RoundTrip.antt =====
-- `base64_decode_bytes` of crates/vb-daemon/src/main.rs undoes `base64_encode_bytes`.
use vibe_bridge.Base.{
  ℕ, ◌+◌, ◌*◌, ◌/◌, ◌%◌, ◌^◌, ◌<◌, ◌≤◌, ◌≡◌, ◌≢◌, refl, ap, Bool, true, false, ◌&&◌, List, [], ◌∷◌,
  Text, length, retain, not, All, IsBytes, ◌==◌, ==_iff, in_range, arith,
}
use vibe_bridge.Base.Tables.{table_passes, table_passes_lem}
use vibe_bridge.Cli.Base64.{
  digit, sextet, base64_encode_bytes, Decoded, ok, err, value_of, values_of, decode_chunk,
  decode_chunks, base64_decode_bytes, is_ascii_whitespace, and_then,
}

is_ok_of : ℕ → Decoded ℕ → Bool
is_ok_of i (ok v) = v == i
is_ok_of i (err e) = false

is_ok_of→eq : (i : ℕ) (d : Decoded ℕ) → is_ok_of i d ≡ true → d ≡ ok i
unfolding is_ok_of
is_ok_of→eq i (ok v) h = ap ok (ground arith)
is_ok_of→eq i (err e) h = cc

value_table : table_passes 64 (λ i. is_ok_of i (value_of (digit i))) ≡ true
unfolding table_passes is_ok_of digit value_of
value_table = refl

-- A character that `trim` and `split_whitespace` keep and that is no padding.
visible : ℕ → Bool
visible b = in_range 0x21 0x7E b && not (b == b'=') && not (b == b'"') && not (b == b'\\')

visible_table : table_passes 64 (λ i. visible (digit i)) ≡ true
unfolding table_passes visible digit
visible_table = refl

value-digit : (i : ℕ) → i < 64 → value_of (digit i) ≡ ok i
value-digit i h = is_ok_of→eq i _ (table_passes_lem _ 64 i h value_table)

visible-digit : (i : ℕ) → i < 64 → visible (digit i) ≡ true
visible-digit i h = table_passes_lem _ 64 i h visible_table

values_of-digit :
    (i : ℕ) (chunk : Text)
    → i < 64
    → values_of 0 (digit i ∷ chunk) ≡ and_then (values_of 0 chunk) (λ (vs, p). ok (i ∷ vs, p))
unfolding values_of visible
values_of-digit i chunk h =
    let e : (digit i == b'=') ≡ false = ground (arith, visible-digit i h) in
    rw (e, value-digit i h) refl

values4 :
    (i j k l : ℕ)
    → i < 64
    → j < 64
    → k < 64
    → l < 64
    → values_of 0 (digit i ∷ digit j ∷ digit k ∷ digit l ∷ []) ≡ ok (i ∷ j ∷ k ∷ l ∷ [], 0)
unfolding values_of
values4 i j k l hi hj hk hl =
    rw
      (
        values_of-digit i _ hi,
        values_of-digit j _ hj,
        values_of-digit k _ hk,
        values_of-digit l _ hl,
      )
      refl

values3 :
    (i j k : ℕ)
    → i < 64
    → j < 64
    → k < 64
    → values_of 0 (digit i ∷ digit j ∷ digit k ∷ b'=' ∷ []) ≡ ok (i ∷ j ∷ k ∷ 0 ∷ [], 1)
unfolding values_of
values3 i j k hi hj hk =
    rw (values_of-digit i _ hi, values_of-digit j _ hj, values_of-digit k _ hk) refl

values2 :
    (i j : ℕ)
    → i < 64
    → j < 64
    → values_of 0 (digit i ∷ digit j ∷ b'=' ∷ b'=' ∷ []) ≡ ok (i ∷ j ∷ 0 ∷ 0 ∷ [], 2)
unfolding values_of
values2 i j hi hj = rw (values_of-digit i _ hi, values_of-digit j _ hj) refl

-- Four sextets of a number of 24 bits are the number.
sextets :
    (n : ℕ)
    → n < 2 ^ 24
    → sextet n 18 * 2 ^ 18 + sextet n 12 * 2 ^ 12 + sextet n 6 * 2 ^ 6 + n % 64 ≡ n
sextets n h = omega arith

chunk3 :
    (b0 b1 b2 : ℕ)
    → b0 < 256
    → b1 < 256
    → b2 < 256
    → let n = b0 * 2 ^ 16 + b1 * 2 ^ 8 + b2 in
      decode_chunk
        (digit (sextet n 18) ∷ digit (sextet n 12) ∷ digit (sextet n 6) ∷ digit (n % 64) ∷ [])
      ≡ ok (b0 ∷ b1 ∷ b2 ∷ [])
unfolding decode_chunk
chunk3 b0 b1 b2 h0 h1 h2 =
    let n = b0 * 2 ^ 16 + b1 * 2 ^ 8 + b2 in
    let first : n / 2 ^ 16 % 256 ≡ b0 = omega arith in
    let second : n / 2 ^ 8 % 256 ≡ b1 = omega arith in
    let third : n % 256 ≡ b2 = omega arith in
    rw
      (
        values4 (sextet n 18) (sextet n 12) (sextet n 6) (n % 64) (omega arith) (omega arith)
            (omega arith) (omega arith),
        sextets n (omega arith),
        first,
        second,
        third,
      )
      refl

chunk2 :
    (b0 b1 : ℕ)
    → b0 < 256
    → b1 < 256
    → let n = b0 * 2 ^ 16 + b1 * 2 ^ 8 in
      decode_chunk (digit (sextet n 18) ∷ digit (sextet n 12) ∷ digit (sextet n 6) ∷ b'=' ∷ [])
      ≡ ok (b0 ∷ b1 ∷ [])
unfolding decode_chunk
chunk2 b0 b1 h0 h1 =
    let n = b0 * 2 ^ 16 + b1 * 2 ^ 8 in
    let whole : sextet n 18 * 2 ^ 18 + sextet n 12 * 2 ^ 12 + sextet n 6 * 2 ^ 6 + 0 ≡ n =
      omega arith in
    let first : n / 2 ^ 16 % 256 ≡ b0 = omega arith in
    let second : n / 2 ^ 8 % 256 ≡ b1 = omega arith in
    rw
      (
        values3 (sextet n 18) (sextet n 12) (sextet n 6) (omega arith) (omega arith) (omega arith),
        whole,
        first,
        second,
      )
      refl

chunk1 :
    (b0 : ℕ)
    → b0 < 256
    → let n = b0 * 2 ^ 16 in
      decode_chunk (digit (sextet n 18) ∷ digit (sextet n 12) ∷ b'=' ∷ b'=' ∷ []) ≡ ok (b0 ∷ [])
unfolding decode_chunk
chunk1 b0 h0 =
    let n = b0 * 2 ^ 16 in
    let first : (sextet n 18 * 2 ^ 18 + sextet n 12 * 2 ^ 12 + 0 + 0) / 2 ^ 16 % 256 ≡ b0 =
      omega arith in
    rw (values2 (sextet n 18) (sextet n 12) (omega arith) (omega arith), first) refl

decode_chunks-encode :
    (bytes : List ℕ) → IsBytes bytes → decode_chunks (base64_encode_bytes bytes) ≡ ok bytes
unfolding decode_chunks base64_encode_bytes
decode_chunks-encode [] h = refl
decode_chunks-encode (b0 ∷ []) h = rw (chunk1 b0 h.0) refl
decode_chunks-encode (b0 ∷ b1 ∷ []) h = rw (chunk2 b0 b1 h.0 h.1.0) refl
decode_chunks-encode (b0 ∷ b1 ∷ b2 ∷ rest) h =
    rw (chunk3 b0 b1 b2 h.0 h.1.0 h.1.1.0, decode_chunks-encode rest h.1.1.1) refl

-- What base64 text is made of: no whitespace, quote or backslash.
abbrev pub IsVisible : ℕ → Type 0
IsVisible b = (0x21 ≤ b) × (b ≤ 0x7E) × (b ≢ b'"') × (b ≢ b'\\')

digit-IsVisible : (i : ℕ) → i < 64 → IsVisible (digit i)
unfolding visible
digit-IsVisible i h = ground (arith, visible-digit i h)

four_digits :
    (a b c d : ℕ) (text : Text)
    → IsVisible a
    → IsVisible b
    → IsVisible c
    → IsVisible d
    → All IsVisible text
    → All IsVisible (a ∷ b ∷ c ∷ d ∷ text)
four_digits a b c d text ha hb hc hd h = (ha, (hb, (hc, (hd, h))))

sextet-IsVisible : (n k : ℕ) → IsVisible (digit (sextet n k))
sextet-IsVisible n k = digit-IsVisible (sextet n k) (omega arith)

last-IsVisible : (n : ℕ) → IsVisible (digit (n % 64))
last-IsVisible n = digit-IsVisible (n % 64) (omega arith)

padding-IsVisible : IsVisible b'='
padding-IsVisible = ground arith

pub base64_encode_bytes-IsVisible : (bytes : List ℕ) → All IsVisible (base64_encode_bytes bytes)
unfolding base64_encode_bytes
base64_encode_bytes-IsVisible [] = tt
base64_encode_bytes-IsVisible (b0 ∷ []) =
    let n = b0 * 2 ^ 16 in
    four_digits _ _ _ _ [] (sextet-IsVisible n 18) (sextet-IsVisible n 12) padding-IsVisible
      padding-IsVisible tt
base64_encode_bytes-IsVisible (b0 ∷ b1 ∷ []) =
    let n = b0 * 2 ^ 16 + b1 * 2 ^ 8 in
    four_digits _ _ _ _ [] (sextet-IsVisible n 18) (sextet-IsVisible n 12) (sextet-IsVisible n 6)
      padding-IsVisible tt
base64_encode_bytes-IsVisible (b0 ∷ b1 ∷ b2 ∷ rest) =
    let n = b0 * 2 ^ 16 + b1 * 2 ^ 8 + b2 in
    four_digits _ _ _ _ _ (sextet-IsVisible n 18) (sextet-IsVisible n 12) (sextet-IsVisible n 6)
      (last-IsVisible n) (base64_encode_bytes-IsVisible rest)

length-base64_encode_bytes : (bytes : List ℕ) → length (base64_encode_bytes bytes) % 4 ≡ 0
unfolding base64_encode_bytes
length-base64_encode_bytes [] = refl
length-base64_encode_bytes (b0 ∷ []) = refl
length-base64_encode_bytes (b0 ∷ b1 ∷ []) = refl
length-base64_encode_bytes (b0 ∷ b1 ∷ b2 ∷ rest) = omega (arith, length-base64_encode_bytes rest)

retain-IsVisible :
    (text : Text) → All IsVisible text → retain (λ b. not (is_ascii_whitespace b)) text ≡ text
retain-IsVisible [] h = refl
retain-IsVisible (b ∷ text) h =
    let keep : not (is_ascii_whitespace b) ≡ true = ground arith in
    rw (keep, retain-IsVisible text h.1) refl

-- Bytes of any number and any values are read back from their base64 text.
pub base64_decode_bytes-encode :
    (bytes : List ℕ) → IsBytes bytes → base64_decode_bytes (base64_encode_bytes bytes) ≡ ok bytes
unfolding base64_decode_bytes
base64_decode_bytes-encode bytes h =
    let even : (length (base64_encode_bytes bytes) % 4 == 0) ≡ true =
      (==_iff _ 0).1 (length-base64_encode_bytes bytes) in
    rw (retain-IsVisible _ (base64_encode_bytes-IsVisible bytes), even)
      (decode_chunks-encode bytes h)
