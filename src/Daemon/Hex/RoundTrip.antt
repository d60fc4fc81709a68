-- ===== src/Daemon/Hex/RoundTrip.antt =====
-- `hex_encode` and `hex_decode` of crates/vb-daemon/src/lib.rs against one another.
use Prim.Native.Nat.{bit_and, bit_or}
use vibe_bridge.Base.{
  ℕ, suc, ◌*◌, ◌/◌, ◌%◌, ◌<◌, ◌≡◌, refl, inl, inr, Bool-cases, ap, subst, Bool, true, false, ◌&&◌,
  ltb, List, [], ◌∷◌, Option, none, some, Text, map, lower_byte, length, ◌==◌, ==_iff, IsBytes,
  arith,
}
use vibe_bridge.Base.Tables.{table_passes, table_passes_lem}
use vibe_bridge.Daemon.Hex.{hex_nibble, push_byte, decode_pairs, hex_decode, hex_digit, hex_encode}

is_some_of : ℕ → Option ℕ → Bool
is_some_of v none = false
is_some_of v (some w) = v == w

is_some_of→eq : (v : ℕ) (o : Option ℕ) → is_some_of v o ≡ true → o ≡ some v
unfolding is_some_of
is_some_of→eq v none h = cc
is_some_of→eq v (some w) h = ap some (ground arith)

nibble_table : table_passes 16 (λ i. is_some_of i (hex_nibble (hex_digit i))) ≡ true
unfolding table_passes is_some_of hex_nibble hex_digit
nibble_table = refl

low_table : table_passes 256 (λ b. bit_and b 0x0f == b % 16) ≡ true
unfolding table_passes
low_table = refl

join_table : table_passes 256 (λ b. bit_or (b / 16 * 16 % 256) (b % 16) == b) ≡ true
unfolding table_passes
join_table = refl

nibble-digit : (i : ℕ) → i < 16 → hex_nibble (hex_digit i) ≡ some i
nibble-digit i h = is_some_of→eq i _ (table_passes_lem _ _ i h nibble_table)

low_nibble : (b : ℕ) → b < 256 → bit_and b 0x0f ≡ b % 16
low_nibble b h = (==_iff _ _).0 (table_passes_lem _ _ b h low_table)

join_nibbles : (b : ℕ) → b < 256 → bit_or (b / 16 * 16 % 256) (b % 16) ≡ b
join_nibbles b h = (==_iff _ _).0 (table_passes_lem _ _ b h join_table)

decode_pairs-hex_encode :
    (bytes : List ℕ) → IsBytes bytes → decode_pairs (hex_encode bytes) ≡ some bytes
unfolding decode_pairs hex_encode push_byte
decode_pairs-hex_encode [] h = refl
decode_pairs-hex_encode (b ∷ bytes) h =
    rw
      (
        low_nibble b h.0,
        nibble-digit (b / 16) (omega arith),
        nibble-digit (b % 16) (omega arith),
        decode_pairs-hex_encode bytes h.1,
      )
      (ap (λ x. some (x ∷ bytes)) (join_nibbles b h.0))

length-hex_encode : (bytes : List ℕ) → length (hex_encode bytes) ≡ 2 * length bytes
unfolding hex_encode
length-hex_encode [] = refl
length-hex_encode (b ∷ bytes) = omega (arith, length-hex_encode bytes)

-- Bytes of any number and any values are read back from their hexadecimal text.
pub hex_decode-hex_encode :
    (bytes : List ℕ) → IsBytes bytes → hex_decode (hex_encode bytes) ≡ some bytes
unfolding hex_decode
hex_decode-hex_encode bytes h =
    let even : (length (hex_encode bytes) % 2 == 0) ≡ true =
      (==_iff _ 0).1 (omega (arith, length-hex_encode bytes)) in
    rw even (decode_pairs-hex_encode bytes h)

-- A nibble is below 16 and `hex_digit` writes it as the digit in lower case.
digit_ok : ℕ → Option ℕ → Bool
digit_ok c none = true
digit_ok c (some n) = ltb n 16 && hex_digit n == lower_byte c

digit_table : table_passes 256 (λ c. digit_ok c (hex_nibble c)) ≡ true
unfolding table_passes digit_ok hex_nibble hex_digit lower_byte
digit_table = refl

digit-nibble : (c n : ℕ) → c < 256 → hex_nibble c ≡ some n → (n < 16) × (hex_digit n ≡ lower_byte c)
unfolding digit_ok
digit-nibble c n h e =
    let known = table_passes_lem _ _ c h digit_table in
    let at_n : digit_ok c (some n) ≡ true = subst (λ o. digit_ok c o ≡ true) e known in ground arith

halves_ok : ℕ → ℕ → Bool
halves_ok hi lo =
    let b : ℕ = bit_or (hi * 16 % 256) lo in b / 16 == hi && bit_and b 0x0f == lo && ltb b 256

halves_table : table_passes 16 (λ hi. table_passes 16 (halves_ok hi)) ≡ true
unfolding table_passes halves_ok
halves_table = refl

halves :
    (hi lo : ℕ) {b : ℕ}
    → hi < 16
    → lo < 16
    → b ≡ bit_or (hi * 16 % 256) lo
    → (b / 16 ≡ hi) × (bit_and b 0x0f ≡ lo) × (b < 256)
unfolding halves_ok
halves hi lo {b} p q e =
    let row = table_passes_lem _ _ hi p halves_table in
    let cell : halves_ok hi lo ≡ true = table_passes_lem _ _ lo q row in rw e (ground arith)

push_byte-inv :
    (first second : Option ℕ) (more : Option (List ℕ)) {bytes : List ℕ}
    → push_byte first second more ≡ some bytes
    → (hi lo : ℕ) × (out : List ℕ) × (first ≡ some hi)
      × (second ≡ some lo)
      × (more ≡ some out)
      × (bytes ≡ bit_or (hi * 16 % 256) lo ∷ out)
unfolding push_byte
push_byte-inv none second more e = cc
push_byte-inv (some hi) none more e = cc
push_byte-inv (some hi) (some lo) none e = cc
push_byte-inv (some hi) (some lo) (some out) e = (hi, lo, out, refl, refl, refl, cc)

none≢some : {A : Type 0} {a : A} → none ≡ some a → ⊥
none≢some e = cc

length-map : (xs : List ℕ) (f : ℕ → ℕ) → length (map f xs) ≡ length xs
length-map [] f = refl
length-map (x ∷ xs) f = ap suc (length-map xs f)

hex_encode-decode_pairs :
    (text : Text) (bytes : List ℕ)
    → IsBytes text
    → decode_pairs text ≡ some bytes
    → IsBytes bytes × (hex_encode bytes ≡ map lower_byte text)
unfolding decode_pairs hex_encode
hex_encode-decode_pairs [] bytes h e = ground arith
hex_encode-decode_pairs (a ∷ []) bytes h e = cc
hex_encode-decode_pairs (a ∷ b ∷ text) bytes h e =
    let (hi, lo, out, e_hi, e_lo, e_out, made) = push_byte-inv _ _ _ e in
    let (hi_lt, hi_eq) = digit-nibble a hi h.0 e_hi in
    let (lo_lt, lo_eq) = digit-nibble b lo h.1.0 e_lo in
    let (high, low, byte) = halves hi lo hi_lt lo_lt refl in
    let (rest_bytes, rest) = hex_encode-decode_pairs text out h.1.1 e_out in
    rw made ((byte, rest_bytes), cc (high, low, hi_eq, lo_eq, rest))

-- A text that decodes has an even length, stands for bytes, and is their hexadecimal text but for
-- the case of its letters; so two texts decode alike only if they differ in case alone.
pub hex_encode-hex_decode :
    (text : Text) (bytes : List ℕ)
    → IsBytes text
    → hex_decode text ≡ some bytes
    → (length text ≡ 2 * length bytes) × IsBytes bytes × (hex_encode bytes ≡ map lower_byte text)
unfolding hex_decode
hex_encode-hex_decode text bytes h e = elim (Bool-cases (length text % 2 == 0)) [
  | inl even ↦
      let (good, same) = hex_encode-decode_pairs text bytes h (rw even at e) in
      (
        omega (arith, ap length same, length-hex_encode bytes, length-map text lower_byte),
        good,
        same,
      )
  | inr odd ↦ absurd (none≢some (rw odd at e))
]
