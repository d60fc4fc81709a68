-- ===== src/Daemon/Invariant/BoardMessages.antt =====
-- `handle_board_message` of crates/vb-daemon/src/lib.rs keeps the invariant.
use vibe_bridge.Base.{
  ℕ, ◌≡◌, ◌≢◌, refl, inl, inr, Bool, true, false, List, [], ◌∷◌, Option, none, some, if◌then◌else◌,
  Option-cases, Bool-cases, arith, ◌==◌, ℕ_discrete,
}
use vibe_bridge.Base.Map.{find_where, find_where-lookup}
use vibe_bridge.Core.{broadcast}
use vibe_bridge.Protocol.{Cmd, PermissionDecisionByte}
use vibe_bridge.Protocol.Payloads.{decode_permission_response}
use vibe_bridge.Transport.{HidMessage}
use vibe_bridge.Daemon.Agent.{Key, key_dec, sid_eq}
use vibe_bridge.Daemon.State.{BridgeDaemon}
use vibe_bridge.Daemon.Board.{
  clear_board_sid_owners, accept_response, handle_session_response, handle_session_invalid,
  focus_board_sid, resolve_pending, resolve_owner, resolve_decoded, handle_permission_response,
  dispatch_board_message, handle_board_message,
}
use vibe_bridge.Daemon.Invariant.{IsConsistent, Inv}
use vibe_bridge.Daemon.Invariant.Agents.{resolve_pending-IsAgent}
use vibe_bridge.Daemon.Invariant.Sessions.{clear-IsConsistent}
use vibe_bridge.Daemon.Invariant.Binding.{accept_response-cons, bound_state-IsConsistent}
use vibe_bridge.Daemon.Invariant.Requests.{write-Inv}

pub branch-Inv :
    {R : Type 0} (b : Bool) (x y : BridgeDaemon × R)
    → Inv x.0
    → Inv y.0
    → Inv (if b then x else y).0
branch-Inv true x y u v = u
branch-Inv false x y u v = v

accept-Inv :
    (d : BridgeDaemon) (sid : ℕ) (pending : List Key)
    → sid ≢ 0
    → Inv d
    → IsConsistent d.registered pending
    → Inv (accept_response d sid pending).0
unfolding accept_response clear_board_sid_owners
accept-Inv d sid [] pos v w = v
accept-Inv d sid (key ∷ rest) pos v w =
    let (a, found, same) = accept_response-cons d sid key rest w in
    rw same (bound_state-IsConsistent d sid key rest a pos w found)

pub session_response-Inv :
    (d : BridgeDaemon) (sid : ℕ) (payload : List ℕ)
    → Inv d
    → Inv (handle_session_response d sid payload).0
unfolding handle_session_response
session_response-Inv d sid payload v = elim (ℕ_discrete sid 0) [
  | yes e ↦ let z : (sid == 0) ≡ true = ground arith in rw (handle_session_response, z) v
  | no n ↦
      let z : (sid == 0) ≡ false = ground arith in
      rw (handle_session_response, z)
        (branch-Inv _ _ _ v (accept-Inv d sid d.pending_board_sessions n v v))
]

session_invalid-Inv :
    (d : BridgeDaemon) (sid : ℕ) (payload : List ℕ)
    → Inv d
    → Inv (handle_session_invalid d sid payload).0
unfolding handle_session_invalid clear_board_sid_owners
session_invalid-Inv d sid payload v =
    branch-Inv (sid == broadcast) _ _ v (clear-IsConsistent d sid none d.pending_board_sessions v)

focus-Inv : (d : BridgeDaemon) (sid : ℕ) → Inv d → Inv (focus_board_sid d sid)
unfolding focus_board_sid
focus-Inv d sid v = elim (Bool-cases (sid == 0)) [
  | inl e ↦ rw (focus_board_sid, e) v
  | inr n ↦ rw (focus_board_sid, n) v
]

resolve_owner-Inv :
    (d : BridgeDaemon) (sid : ℕ) (r : ℕ × PermissionDecisionByte)
    → Inv d
    → Inv
        (resolve_owner d sid r (find_where (λ key a. sid_eq a.board_sid (some sid)) d.registered)).0
unfolding resolve_owner resolve_pending
resolve_owner-Inv d sid (id, decision) v =
    elim (Option-cases (find_where (λ key a. sid_eq a.board_sid (some sid)) d.registered)) [
      | inl nobody ↦ rw (resolve_owner, nobody) v
      | inr ((key, a), found) ↦
          let (there, owns) = find_where-lookup key_dec _ d.registered key a v.distinct found in
          rw (resolve_owner, found)
            (write-Inv d key a _ v there refl (resolve_pending-IsAgent id decision a))
    ]

resolve_decoded-Inv :
    (d : BridgeDaemon) (sid : ℕ) (o : Option (ℕ × PermissionDecisionByte))
    → Inv d
    → Inv (resolve_decoded d sid o).0
unfolding resolve_decoded
resolve_decoded-Inv d sid none v = v
resolve_decoded-Inv d sid (some r) v = resolve_owner-Inv d sid r v

permission_response-Inv :
    (d : BridgeDaemon) (sid : ℕ) (payload : List ℕ)
    → Inv d
    → Inv (handle_permission_response d sid payload).0
unfolding handle_permission_response
permission_response-Inv d sid payload v =
    branch-Inv (sid == 0) _ _ v (resolve_decoded-Inv d sid (decode_permission_response payload) v)

dispatch-Inv :
    (cmd : Cmd) (d : BridgeDaemon) (sid : ℕ) (payload : List ℕ)
    → Inv d
    → Inv (dispatch_board_message d cmd sid payload).0
unfolding dispatch_board_message
dispatch-Inv Cmd.session_response d sid payload v = session_response-Inv d sid payload v
dispatch-Inv Cmd.session_focus d sid payload v = focus-Inv d sid v
dispatch-Inv Cmd.permission_res d sid payload v = permission_response-Inv d sid payload v
dispatch-Inv Cmd.session_invalid d sid payload v = session_invalid-Inv d sid payload v
dispatch-Inv Cmd.encoder_event d sid payload v = v
dispatch-Inv Cmd.key_event d sid payload v = v
dispatch-Inv _ d sid payload v = v

pub board_message-Inv :
    (d : BridgeDaemon) (msg : HidMessage) → Inv d → Inv (handle_board_message d msg).0
unfolding handle_board_message
board_message-Inv d msg v = dispatch-Inv msg.cmd d msg.sid msg.payload v
