-- ===== src/Base/Bytes.antt =====
-- Bytes and little-endian integers: `to_le_bytes`, `from_le_bytes`, slices and `copy_from_slice`.
use Prim.Native.Nat.{ℕ, zero, suc, ◌+◌, ◌-◌, ◌*◌, ◌/◌, ◌%◌, ◌^◌, ◌<◌}
use mathlib.Core.Path.{◌≡◌, refl}
use mathlib.Core.List.{List, [], ◌∷◌, ◌++◌}
use native.Mathlib.Nat.{pow-suc}
use native.Mathlib.Omega.{arith}
use vibe_bridge.Base.Lists.{length, take, drop, All}

abbrev pub IsByte : ℕ → Type 0
IsByte b = b < 256

abbrev pub IsBytes : List ℕ → Type 0
IsBytes = All IsByte

-- `to_le_bytes` of an integer of `k` bytes.
abbrev pub to_le_bytes : ℕ → ℕ → List ℕ
to_le_bytes zero v = []
to_le_bytes (suc k) v = (v % 256) ∷ to_le_bytes k (v / 256)

abbrev pub from_le_bytes : List ℕ → ℕ
from_le_bytes [] = 0
from_le_bytes (b ∷ bs) = b + 256 * from_le_bytes bs

-- `&xs[a..b]`, for `a ≤ b ≤ xs.len()`.
abbrev pub slice {ℓ} : {A : Type ℓ} → ℕ → ℕ → List A → List A
slice a b xs = take (b - a) (drop a xs)

-- `buf[off..off + src.len()].copy_from_slice(src)`, where the range lies in `buf`.
abbrev pub copy_at {ℓ} : {A : Type ℓ} → ℕ → List A → List A → List A
copy_at off src buf = take off buf ++ (src ++ drop (off + length src) buf)

pub from_le_bytes-to_le_bytes : (k v : ℕ) → v < 256 ^ k → from_le_bytes (to_le_bytes k v) ≡ v
from_le_bytes-to_le_bytes zero v h = omega arith
from_le_bytes-to_le_bytes (suc k) v h =
    omega (arith, from_le_bytes-to_le_bytes k (v / 256) (omega arith))

pub length-to_le_bytes : (k v : ℕ) → length (to_le_bytes k v) ≡ k
length-to_le_bytes zero v = refl
length-to_le_bytes (suc k) v = omega (arith, length-to_le_bytes k (v / 256))

pub to_le_bytes-IsBytes : (k v : ℕ) → IsBytes (to_le_bytes k v)
to_le_bytes-IsBytes zero v = tt
to_le_bytes-IsBytes (suc k) v = (omega arith, to_le_bytes-IsBytes k (v / 256))

pub from_le_bytes-lt : (bs : List ℕ) → IsBytes bs → from_le_bytes bs < 256 ^ length bs
from_le_bytes-lt [] h = omega arith
from_le_bytes-lt (b ∷ bs) h = rw pow-suc (omega (arith, from_le_bytes-lt bs h.1))

pub to_le_bytes-from_le_bytes :
    (bs : List ℕ) → IsBytes bs → to_le_bytes (length bs) (from_le_bytes bs) ≡ bs
to_le_bytes-from_le_bytes [] h = refl
to_le_bytes-from_le_bytes (b ∷ bs) h =
    let low : (b + 256 * from_le_bytes bs) % 256 ≡ b = omega arith in
    let high : (b + 256 * from_le_bytes bs) / 256 ≡ from_le_bytes bs = omega arith in
    rw (low, high, to_le_bytes-from_le_bytes bs h.1)
