-- ===== src/Transport/Windows/Reopen/Handles.antt =====
-- The handles that `ReopenWinHidTransport` of crates/vb-transport/src/windows.rs opens are closed.
use vibe_bridge.Base.{ℕ, ◌≡◌, ◌+◌, List, [], ◌∷◌, Text, Option, none, some}
use vibe_bridge.Transport.{HidMessage}
use vibe_bridge.Transport.Windows.{Calls, Outcome, ok, err}
use vibe_bridge.Transport.Windows.Handles.{held, Counts}
use vibe_bridge.Transport.Windows.Reopen.{Reopen, reopen_send, reopen_recv}

module _ {W : Type 0} (os : Calls W) (live : W → ℕ) (c : Counts os live) where
  -- The open handles are `others` and the one that is kept.
  abbrev Balanced : ℕ → Reopen W → Type 0
  Balanced others s = live s.world ≡ others + held s.inner

  -- What `ensure` answers: a handle is kept, and it is counted.
  abbrev Ready : ℕ → Outcome ℕ × Reopen W → Type 0
  Ready others (ok handle, s) = live s.world ≡ others + 1
  Ready others (err e, s) = Balanced others s

-- Sends, and receives between them, on one transport.
unfoldable pub use_all :
    {W : Type 0} → Calls W → Text → List (Option HidMessage) → Reopen W → Reopen W
use_all os device [] s = s
use_all os device (some msg ∷ uses) s = use_all os device uses (reopen_send os device msg s).1
use_all os device (none ∷ uses) s = use_all os device uses (reopen_recv os device s).1
