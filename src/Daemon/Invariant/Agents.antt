-- ===== src/Daemon/Invariant/Agents.antt =====
-- The changes of a single agent in crates/vb-daemon/src/lib.rs keep its entry well formed.
use vibe_bridge.Base.{
  ℕ, ◌-◌, ◌≡◌, ◌≢◌, refl, sym, ap, subst, not, List, [], ◌∷◌, ◌++◌, Option, none, some, All-append,
  All-retain, retain, length, length-append, length-drop, ◌==◌, ℕ_discrete, arith,
}
use vibe_bridge.Base.Map.{
  insert, remove, Distinct, lookup-insert, lookup-remove, insert-Distinct, remove-Distinct,
}
use vibe_bridge.Core.{
  AgentSession, AgentStatus, PermissionRequest, PermissionDecision, ConversationTurn, TokenUsage,
}
use vibe_bridge.Protocol.{PermissionDecisionByte}
use vibe_bridge.Daemon.Terminal.{append_terminal_bytes, empty_terminal}
use vibe_bridge.Daemon.Terminal.Tail.{
  IsTerminal, empty_terminal-IsTerminal, append_terminal_bytes-Holds,
}
use vibe_bridge.Daemon.Agent.{Key, key_of, RegisteredAgent, from_session}
use vibe_bridge.Daemon.Agent.Messages.{permission_decision_from_byte}
use vibe_bridge.Daemon.State.{ok}
use vibe_bridge.Daemon.Board.{resolve_pending}
use vibe_bridge.Daemon.Envelope.{RegistrationAgentPayload, into_registered_agent}
use vibe_bridge.Daemon.Requests.{
  merge_existing, push_turn, queue_permission, drop_pending, forget_decision,
}
use vibe_bridge.Daemon.Invariant.{IsAgent, Undecided}

pub from_session-IsAgent : (s : AgentSession) → IsAgent (s.kind, s.agent_id) (from_session s)
unfolding from_session
from_session-IsAgent s = record {
  key_eq = refl;
  sid = λ e. cc;
  terminal = empty_terminal-IsTerminal;
  turns = omega arith;
  decided_once = tt;
  undecided = tt;
}

-- An agent as it stands before anything happened to it.
pub record IsFresh (a : RegisteredAgent) : Type 0 where
  pub sid : a.board_sid ≡ none
  pub terminal : a.terminal ≡ empty_terminal
  pub turns : a.turns ≡ []
  pub pending : a.pending_permissions ≡ []
  pub resolved : a.resolved_permissions ≡ []

pub IsFresh-IsAgent : (a : RegisteredAgent) → IsFresh a → IsAgent (key_of a) a
IsFresh-IsAgent a f = record {
  key_eq = refl;
  sid = λ e. cc (f.sid);
  terminal = subst IsTerminal (sym f.terminal) empty_terminal-IsTerminal;
  turns = omega (arith, ap length f.turns);
  decided_once = subst Distinct (sym f.resolved) tt;
  undecided = subst (λ ps. Undecided ps a.resolved_permissions) (sym f.pending) tt;
}

-- A fresh registration has no session, no history and no permissions.
pub into_registered_agent-IsFresh :
    (p : RegistrationAgentPayload) (a : RegisteredAgent)
    → into_registered_agent p ≡ ok a
    → IsFresh a
unfolding into_registered_agent
into_registered_agent-IsFresh p a e = ground arith

pub merge_existing-IsAgent :
    {key : Key} (existing agent : RegisteredAgent)
    → key_of agent ≡ key
    → IsAgent key existing
    → IsAgent key (merge_existing existing agent)
unfolding merge_existing
merge_existing-IsAgent existing agent e v = record {
  key_eq = e;
  sid = v.sid;
  terminal = v.terminal;
  turns = v.turns;
  decided_once = v.decided_once;
  undecided = v.undecided;
}

pub push_turn-IsAgent :
    {key : Key} (event : ConversationTurn) (a : RegisteredAgent)
    → IsAgent key a
    → IsAgent key (push_turn event a)
unfolding push_turn
push_turn-IsAgent event a v = record {
  key_eq = v.key_eq;
  sid = v.sid;
  terminal = v.terminal;
  turns =
      let all = a.turns ++ (event ∷ []) in
      ground (arith, length-append a.turns (event ∷ []), length-drop (length all - 50) all);
  decided_once = v.decided_once;
  undecided = v.undecided;
}

Undecided-remove :
    (id : ℕ) (ps : List PermissionRequest) (m : List (ℕ × PermissionDecision))
    → Distinct m
    → Undecided ps m
    → Undecided ps (remove ℕ_discrete id m)
Undecided-remove id [] m d h = tt
Undecided-remove id (p ∷ ps) m d h =
    (ground (arith, lookup-remove ℕ_discrete id p.req_id m d), Undecided-remove id ps m d h.1)

Undecided-insert :
    (id : ℕ) (v : PermissionDecision) (ps : List PermissionRequest)
    (m : List (ℕ × PermissionDecision))
    → Undecided ps m
    → Undecided (retain (λ p. not (p.req_id == id)) ps) (insert ℕ_discrete id v m)
Undecided-insert id v [] m h = tt
Undecided-insert id v (p ∷ ps) m h =
    ground (arith, lookup-insert ℕ_discrete id p.req_id v m, Undecided-insert id v ps m h.1)

pub queue_permission-IsAgent :
    {key : Key} (event : PermissionRequest) (a : RegisteredAgent)
    → IsAgent key a
    → IsAgent key (queue_permission event a)
unfolding queue_permission
queue_permission-IsAgent event a v = record {
  key_eq = v.key_eq;
  sid = v.sid;
  terminal = v.terminal;
  turns = v.turns;
  decided_once = remove-Distinct ℕ_discrete event.req_id a.resolved_permissions v.decided_once;
  undecided =
      All-append _ a.pending_permissions (event ∷ [])
        (Undecided-remove event.req_id a.pending_permissions a.resolved_permissions v.decided_once
          v.undecided)
        (
          ground (
            arith,
            lookup-remove ℕ_discrete event.req_id event.req_id a.resolved_permissions
                v.decided_once,
          ),
          tt,
        );
}

pub drop_pending-IsAgent :
    {key : Key} (id : ℕ) (a : RegisteredAgent) → IsAgent key a → IsAgent key (drop_pending id a)
unfolding drop_pending
drop_pending-IsAgent id a v = record {
  key_eq = v.key_eq;
  sid = v.sid;
  terminal = v.terminal;
  turns = v.turns;
  decided_once = v.decided_once;
  undecided = All-retain _ _ a.pending_permissions v.undecided;
}

pub forget_decision-IsAgent :
    {key : Key} (id : ℕ) (a : RegisteredAgent) → IsAgent key a → IsAgent key (forget_decision id a)
unfolding forget_decision
forget_decision-IsAgent id a v = record {
  key_eq = v.key_eq;
  sid = v.sid;
  terminal = v.terminal;
  turns = v.turns;
  decided_once = remove-Distinct ℕ_discrete id a.resolved_permissions v.decided_once;
  undecided =
      Undecided-remove id a.pending_permissions a.resolved_permissions v.decided_once v.undecided;
}

pub resolve_pending-IsAgent :
    {key : Key} (id : ℕ) (d : PermissionDecisionByte) (a : RegisteredAgent)
    → IsAgent key a
    → IsAgent key (resolve_pending id d a)
unfolding resolve_pending
resolve_pending-IsAgent id d a v = record {
  key_eq = v.key_eq;
  sid = v.sid;
  terminal = v.terminal;
  turns = v.turns;
  decided_once =
      insert-Distinct ℕ_discrete id (permission_decision_from_byte d) a.resolved_permissions
        v.decided_once;
  undecided =
      Undecided-insert id (permission_decision_from_byte d) a.pending_permissions
        a.resolved_permissions v.undecided;
}

pub append-IsAgent :
    {key : Key} (bytes : List ℕ) (a : RegisteredAgent)
    → IsAgent key a
    → IsAgent key (record a { terminal = append_terminal_bytes a.terminal bytes })
append-IsAgent bytes a v = record {
  key_eq = v.key_eq;
  sid = v.sid;
  terminal = (append_terminal_bytes-Holds a.terminal bytes v.terminal).valid;
  turns = v.turns;
  decided_once = v.decided_once;
  undecided = v.undecided;
}

pub status-IsAgent :
    {key : Key} (s : AgentStatus) (a : RegisteredAgent)
    → IsAgent key a
    → IsAgent key (record a { status = s })
status-IsAgent s a v = record {
  key_eq = v.key_eq;
  sid = v.sid;
  terminal = v.terminal;
  turns = v.turns;
  decided_once = v.decided_once;
  undecided = v.undecided;
}

pub usage-IsAgent :
    {key : Key} (u : TokenUsage) (a : RegisteredAgent)
    → IsAgent key a
    → IsAgent key (record a { usage = u })
usage-IsAgent u a v = record {
  key_eq = v.key_eq;
  sid = v.sid;
  terminal = v.terminal;
  turns = v.turns;
  decided_once = v.decided_once;
  undecided = v.undecided;
}

pub sid-IsAgent :
    {key : Key} (sid : Option ℕ) (a : RegisteredAgent)
    → sid ≢ some 0
    → IsAgent key a
    → IsAgent key (record a { board_sid = sid })
sid-IsAgent sid a pos v = record {
  key_eq = v.key_eq;
  sid = pos;
  terminal = v.terminal;
  turns = v.turns;
  decided_once = v.decided_once;
  undecided = v.undecided;
}
