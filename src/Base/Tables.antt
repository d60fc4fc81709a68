-- ===== src/Base/Tables.antt =====
-- Facts about a small range of numbers, by evaluation.
use Prim.Native.Nat.{ℕ, zero, suc, ◌<◌}
use mathlib.Core.Path.{◌≡◌}
use mathlib.Core.Bool.{Bool, true, false}
use native.Mathlib.Omega.{arith}
use vibe_bridge.Base.Tests.{if◌then◌else◌}

-- A test that a table of the first `top` values passes.
unfoldable pub table_passes : ℕ → (ℕ → Bool) → Bool
table_passes zero test = true
table_passes (suc top) test = if test top then table_passes top test else false

pub table_passes_lem :
    (test : ℕ → Bool) (top i : ℕ) → i < top → table_passes top test ≡ true → test i ≡ true
unfolding table_passes
table_passes_lem test zero i small whole = absurd (omega arith)
table_passes_lem test (suc top) i small whole = ground (arith, table_passes_lem test top i)
