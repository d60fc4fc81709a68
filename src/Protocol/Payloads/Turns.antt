-- ===== src/Protocol/Payloads/Turns.antt =====
-- TURN_APPEND of crates/vb-protocol/src/payloads.rs: cutting a text at a character boundary.
use vibe_bridge.Base.{
  ℕ, zero, suc, ◌≤◌, ◌<◌, ◌≡◌, refl, ◌∙◌, ◌⊎◌, inl, inr, true, false, some, Text, length, take,
  length-take, ltb, is_utf8, is_char_boundary, arith, Bool-cases, ltb→lt,
}
use vibe_bridge.Base.Utf8.{is_utf8-take, is_char_boundary-zero}
use native.Mathlib.Decide.{dec_le}
use vibe_bridge.Protocol.{TurnRoleByte, role_byte}
use vibe_bridge.Protocol.Payloads.{
  cut_back, truncated, encode_turn_append, role_of_byte, decode_turn_append,
}

-- `k` is the last character boundary of `text` up to `n`.
pub record IsLastBoundary (n : ℕ) (text : Text) (k : ℕ) : Type 0 where
  pub within : k ≤ n
  pub boundary : is_char_boundary k text ≡ true
  pub last : (j : ℕ) → k < j → j ≤ n → is_char_boundary j text ≡ false

lower :
    (n : ℕ) (text : Text) {k : ℕ}
    → is_char_boundary (suc n) text ≡ false
    → IsLastBoundary n text k
    → IsLastBoundary (suc n) text k
lower n text {k} broken b = record {
  within = omega (arith, b.within);
  boundary = b.boundary;
  last = λ j lo hi. elim (dec_le j n) [
    | yes below ↦ b.last j lo below
    | no above ↦ let same : j ≡ suc n = omega arith in rw same broken
  ];
}

cut_back-IsLastBoundary : (n : ℕ) (text : Text) → IsLastBoundary n text (cut_back n text)
unfolding cut_back
cut_back-IsLastBoundary zero text = record {
  within = omega arith;
  boundary = is_char_boundary-zero text;
  last = λ j lo hi. absurd (omega arith);
}
cut_back-IsLastBoundary (suc n) text = elim (Bool-cases (is_char_boundary (suc n) text)) [
  | inl here ↦
      rw here
        (record { within = omega arith; boundary = here; last = λ j lo hi. absurd (omega arith) })
  | inr broken ↦ rw broken (lower n text broken (cut_back-IsLastBoundary n text))
]

-- What is sent is the whole text if it takes 57 bytes at most, and else the longest part of it
-- from the start that ends between two characters and takes 57 bytes at most.
pub truncated_cases :
    (text : Text)
    → ((length text ≤ 57) × (truncated text ≡ text))
      ⊎ ((57 < length text) × (k : ℕ) × IsLastBoundary 57 text k × (truncated text ≡ take k text))
unfolding truncated
truncated_cases text = elim (Bool-cases (ltb 57 (length text))) [
  | inl long ↦ inr (ltb→lt _ _ long, cut_back 57 text, cut_back-IsLastBoundary 57 text, rw long)
  | inr short ↦ inl (ground arith, rw short)
]

truncated_fits :
    (text : Text)
    → is_utf8 text ≡ true
    → (length (truncated text) ≤ 57) × (is_utf8 (truncated text) ≡ true)
truncated_fits text valid = elim (truncated_cases text) [
  | inl (short, whole) ↦ rw whole (short, valid)
  | inr (long, k, b, cut) ↦ rw cut (
    omega (arith, b.within, length-take k text),
    is_utf8-take k text (omega (arith, b.within)) valid ∙ b.boundary,
  )
]

role_of_byte-role_byte : (r : TurnRoleByte) → role_of_byte (role_byte r) ≡ some r
unfolding role_of_byte role_byte
role_of_byte-role_byte TurnRoleByte.user = refl
role_of_byte-role_byte r = refl

-- On valid UTF-8 of any length, the payload takes 58 bytes at most and is read back as the role and
-- the part of the text that was sent: a cut never breaks a character.
pub decode-encode_turn_append :
    (role : TurnRoleByte) (text : Text)
    → is_utf8 text ≡ true
    → (length (encode_turn_append role text) ≤ 58)
      × (decode_turn_append (encode_turn_append role text) ≡ some (role, truncated text))
unfolding decode_turn_append encode_turn_append
decode-encode_turn_append role text valid =
    let (short, good) = truncated_fits text valid in
    (omega arith, ground (arith, role_of_byte-role_byte role))
