-- ===== src/Daemon/Invariant.antt =====
-- The state of the daemon of crates/vb-daemon/src/lib.rs when none of its methods runs: what its
-- table of agents and its queue of session requests satisfy.
pub mod Agents
pub mod Sessions
pub mod Binding
pub mod Registering
pub mod Requests
pub mod BoardMessages
pub mod Table
use vibe_bridge.Base.{
  ℕ, ◌≤◌, ◌≡◌, ◌≢◌, Bool, true, false, List, [], ◌∷◌, Option, none, some, All, any, length,
  ℕ_discrete,
}
use vibe_bridge.Base.Map.{lookup, contains_key, Distinct, Each}
use vibe_bridge.Core.{BoardSid, PermissionRequest, PermissionDecision}
use vibe_bridge.Daemon.Terminal.Tail.{IsTerminal}
use vibe_bridge.Daemon.Agent.{Key, key_dec, key_of, RegisteredAgent}
use vibe_bridge.Daemon.State.{BridgeDaemon}
use vibe_bridge.Daemon.Board.{key_eq}
use vibe_bridge.Daemon.Requests.{max_retained_turns_per_agent}

-- No request waits for a decision that is already there.
abbrev pub Undecided : List PermissionRequest → List (ℕ × PermissionDecision) → Type 0
Undecided pending resolved = All (λ p. lookup ℕ_discrete p.req_id resolved ≡ none) pending

-- One entry of the table.
pub record IsAgent (key : Key) (a : RegisteredAgent) : Type 0 where
  pub key_eq : key_of a ≡ key
  pub sid : a.board_sid ≢ some 0
  pub terminal : IsTerminal a.terminal
  pub turns : length a.turns ≤ max_retained_turns_per_agent
  pub decided_once : Distinct a.resolved_permissions
  pub undecided : Undecided a.pending_permissions a.resolved_permissions

abbrev pub Table : Type 0
Table = List (Key × RegisteredAgent)

-- No two agents have the same board session.
abbrev pub Exclusive : Table → Type 0
Exclusive table =
    (j k : Key) (a b : RegisteredAgent) (sid : BoardSid)
    → lookup key_dec j table ≡ some a
    → lookup key_dec k table ≡ some b
    → a.board_sid ≡ some sid
    → b.board_sid ≡ some sid
    → j ≡ k

abbrev pub NoRepeat : List Key → Type 0
NoRepeat [] = Unit {0}
NoRepeat (k ∷ ks) = (any (λ pending. key_eq pending k) ks ≡ false) × NoRepeat ks

pub record IsConsistent (table : Table) (pending : List Key) : Type 0 where
  pub distinct : Distinct table
  pub agents : Each IsAgent table
  pub exclusive : Exclusive table
  pub known : All (λ k. contains_key key_dec k table ≡ true) pending
  pub once : NoRepeat pending

abbrev pub Inv : BridgeDaemon → Type 0
Inv d = IsConsistent d.registered d.pending_board_sessions
