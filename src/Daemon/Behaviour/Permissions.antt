-- ===== src/Daemon/Behaviour/Permissions.antt =====
-- Permissions in crates/vb-daemon/src/lib.rs, from the agent's request to the board's decision and
-- back.
use vibe_bridge.Base.{
  ℕ, ◌^◌, ◌<◌, ◌≡◌, refl, subst, append-nil, false, not, List, [], ◌∷◌, none, some, retain, any,
  ◌==◌, ℕ_discrete, arith,
}
use vibe_bridge.Base.Map.{
  Each-lookup, lookup, insert, lookup-insert, lookup-remove, insert-Distinct,
}
use vibe_bridge.Core.{PermissionRequest, PermissionDecision}
use vibe_bridge.Core.Labels.{decision_as_str}
use vibe_bridge.Protocol.{PermissionDecisionByte}
use vibe_bridge.Protocol.Payloads.{encode_permission_response, decode_permission_response}
use vibe_bridge.Protocol.Payloads.Numbers.{decode-encode_permission_response}
use vibe_bridge.Daemon.Agent.{Key, key_dec, RegisteredAgent}
use vibe_bridge.Daemon.Agent.Messages.{permission_decision_from_byte}
use vibe_bridge.Daemon.State.{BridgeDaemon, ok, put_agent}
use vibe_bridge.Daemon.Board.{
  handle_permission_response, resolve_pending, resolve_owner, resolve_decoded,
}
use vibe_bridge.Daemon.Requests.{
  permission_poll, forget_decision, permission_decision, permission_pending,
}
use vibe_bridge.Daemon.Invariant.{IsAgent, Inv}
use vibe_bridge.Daemon.Behaviour.Sessions.{owner_found, owner_nonzero}

none_pending :
    (id : ℕ) (ps : List PermissionRequest)
    → any (λ p. p.req_id == id) (retain (λ p. not (p.req_id == id)) ps) ≡ false
none_pending id [] = refl
none_pending id (p ∷ ps) = ground (arith, none_pending id ps)

response_stored :
    (d : BridgeDaemon) (sid : ℕ) (key : Key) (a : RegisteredAgent) (id : ℕ)
    (decision : PermissionDecisionByte)
    → Inv d
    → id < 2 ^ 64
    → lookup key_dec key d.registered ≡ some a
    → a.board_sid ≡ some sid
    → handle_permission_response d sid (encode_permission_response id decision)
      ≡ (put_agent d key (resolve_pending id decision a), ok tt)
unfolding handle_permission_response
response_stored d sid key a id decision v bound found has =
    let read =
      subst (λ bytes. decode_permission_response bytes ≡ some (id, decision))
        (append-nil (encode_permission_response id decision))
        (decode-encode_permission_response id decision [] bound) in
    rw
      (
        handle_permission_response,
        owner_nonzero d sid key a v found has,
        read,
        resolve_decoded,
        owner_found d sid key a v found has,
        resolve_owner,
      )
      refl

poll_decided :
    (d : BridgeDaemon) (key : Key) (a : RegisteredAgent) (id : ℕ) (decision : PermissionDecision)
    → lookup key_dec key d.registered ≡ some a
    → lookup ℕ_discrete id a.resolved_permissions ≡ some decision
    → permission_poll d key id ≡ (
      put_agent d key (forget_decision id a),
      ok (permission_decision id (decision_as_str decision)),
    )
unfolding permission_poll
poll_decided d key a id decision found there = rw (permission_poll, found, there) refl

poll_undecided :
    (d : BridgeDaemon) (key : Key) (a : RegisteredAgent) (id : ℕ)
    → lookup key_dec key d.registered ≡ some a
    → lookup ℕ_discrete id a.resolved_permissions ≡ none
    → permission_poll d key id
      ≡ (d, ok (permission_pending id (any (λ p. p.req_id == id) a.pending_permissions)))
unfolding permission_poll
poll_undecided d key a id found there = rw (permission_poll, found, there) refl

lookup-put :
    (d : BridgeDaemon) (key : Key) (b : RegisteredAgent)
    → lookup key_dec key (put_agent d key b).registered ≡ some b
lookup-put d key b = ground (arith, lookup-insert key_dec key key b d.registered)

-- In a consistent state, let the board send a decision (encoded, for a request id below 2 ^ 64) on
-- the session of an agent. The response is accepted, the agent's next poll for that id answers with
-- the decision, and a further poll answers that nothing is decided and nothing waits, and changes
-- nothing: the decision is handed out once.
pub decision_delivered_once :
    (d : BridgeDaemon) (sid : ℕ) (key : Key) (a : RegisteredAgent) (id : ℕ)
    (decision : PermissionDecisionByte)
    → Inv d
    → id < 2 ^ 64
    → lookup key_dec key d.registered ≡ some a
    → a.board_sid ≡ some sid
    → let (d1, answer) =
        handle_permission_response d sid (encode_permission_response id decision) in
      let (d2, first) = permission_poll d1 key id in
      let (d3, second) = permission_poll d2 key id in
      (answer ≡ ok tt)
      × (first
          ≡ ok (permission_decision id (decision_as_str (permission_decision_from_byte decision))))
      × (second ≡ ok (permission_pending id false))
      × (d3 ≡ d2)
unfolding resolve_pending forget_decision
decision_delivered_once d sid key a id decision v bound found has =
    let stored = response_stored d sid key a id decision v bound found has in
    let d1 = put_agent d key (resolve_pending id decision a) in
    let good = Each-lookup key_dec IsAgent key a d.registered v.agents found in
    let first =
      poll_decided d1 key (resolve_pending id decision a) id
        (permission_decision_from_byte decision) (lookup-put d key (resolve_pending id decision a))
        (ground (
          arith,
          lookup-insert ℕ_discrete id id (permission_decision_from_byte decision)
              a.resolved_permissions,
        )) in
    let b = forget_decision id (resolve_pending id decision a) in
    let second = poll_undecided (put_agent d1 key b) key b id (lookup-put d1 key b) (
      ground (
        arith,
        lookup-remove ℕ_discrete id id
            (insert ℕ_discrete id (permission_decision_from_byte decision) a.resolved_permissions)
            (insert-Distinct ℕ_discrete id (permission_decision_from_byte decision)
              a.resolved_permissions good.decided_once),
      )) in
    rw (stored, first, second, none_pending id a.pending_permissions) (refl, refl, refl, refl)
