-- ===== src/Discovery/Metadata/Agreement.antt =====
-- The status that a session's metadata has and the activities that the poller of
-- crates/vb-host/src/agent_discovery.rs reports agree.
use vibe_bridge.Base.{
  ◌≡◌, refl, ap, sym, ◌∙◌, Bool, true, false, Bool-cases, inl, inr, List, [], ◌∷◌, Text, codes,
  Option, none, some, Option-cases, text_eq, text_eq→eq, if◌then◌else◌,
}
use vibe_bridge.Core.{AgentKind, AgentStatus, AgentActivityKind, AgentActivity}
use vibe_bridge.Json.{Value}
use vibe_bridge.Discovery.Status.{
  type_of, payload_of, bind, codex_event_named, codex_event_status, codex_response_status,
  claude_named, claude_status, event_activity, response_activity, codex_named,
  codex_line_activity_status, claude_activity, claude_line_activity_status, activity_status,
  line_to_activity, line_activities,
}
use vibe_bridge.Discovery.Metadata.{
  SessionMetadata, or_kept, updated, update_codex_metadata, update_claude_metadata, read_lines,
}

abbrev status_of : Option (AgentActivityKind × AgentStatus) → Option AgentStatus
status_of none = none
status_of (some (activity, status)) = some status

abbrev Known : Option AgentStatus → Type 0
Known (some AgentStatus.unknown) = ⊥
Known other = Unit

choose : (b : Bool) (x y : Option AgentStatus) → Known x → Known y → Known (if b then x else y)
choose true x y hx hy = hx
choose false x y hx hy = hy

event_named-Known : (payload : Value) (event : Text) → Known (codex_event_named payload event)
unfolding codex_event_named
event_named-Known payload event = search (choose, tt) depth 12

claude_named-Known : (value : Value) (line_type : Text) → Known (claude_named value line_type)
unfolding claude_named
claude_named-Known value line_type = search (choose, tt) depth 12

event-status :
    (event : Option Text) (status : Option AgentStatus)
    → Known status
    → status_of (bind status (event_activity event)) ≡ status
unfolding event_activity
event-status event none h = refl
event-status event (some AgentStatus.running) h = refl
event-status event (some AgentStatus.waiting_input) h = refl
event-status event (some AgentStatus.idle) h = refl
event-status event (some AgentStatus.done) h = refl
event-status event (some AgentStatus.error) h = refl
event-status event (some AgentStatus.unknown) h = absurd h

claude-status :
    (line_type : Option Text) (status : Option AgentStatus)
    → Known status
    → status_of (bind status (claude_activity line_type)) ≡ status
unfolding claude_activity
claude-status line_type none h = refl
claude-status line_type (some AgentStatus.running) h = refl
claude-status line_type (some AgentStatus.waiting_input) h = refl
claude-status line_type (some AgentStatus.idle) h = refl
claude-status line_type (some AgentStatus.done) h = refl
claude-status line_type (some AgentStatus.error) h = refl
claude-status line_type (some AgentStatus.unknown) h = absurd h

response-status :
    (payload : Value) (status : Option AgentStatus)
    → status_of (bind status (response_activity payload)) ≡ status
unfolding response_activity
response-status payload none = refl
response-status payload (some status) = refl

bind-Known :
    (o : Option Text) (f : Text → Option AgentStatus)
    → ((t : Text) → Known (f t))
    → Known (bind o f)
bind-Known none f h = tt
bind-Known (some t) f h = h t

claude-line : (value : Value) → status_of (claude_line_activity_status value) ≡ claude_status value
unfolding claude_line_activity_status claude_status
claude-line value =
    claude-status (type_of value) (claude_status value)
      (bind-Known (type_of value) (claude_named value) (claude_named-Known value))

codex-event :
    (payload : Value)
    → status_of (bind (codex_event_status payload) (event_activity (type_of payload)))
      ≡ codex_event_status payload
unfolding codex_event_status
codex-event payload =
    event-status (type_of payload) (codex_event_status payload)
      (bind-Known (type_of payload) (codex_event_named payload) (event_named-Known payload))

-- The status that a line of Codex gives the metadata is its activity's.
codex-line :
    (metadata : SessionMetadata) (value : Value) (line_type : Option Text)
    → type_of value ≡ line_type
    → (update_codex_metadata metadata value).status
      ≡ or_kept metadata.status (status_of (bind line_type (codex_named value)))
unfolding update_codex_metadata codex_named text_eq
codex-line metadata value none e = rw e refl
codex-line metadata value (some t) e = elim (Bool-cases (text_eq t (codes "session_meta"))) [
  | inl meta ↦
      let same : t ≡ codes "session_meta" = text_eq→eq t (codes "session_meta") meta in
      rw (e, same) refl
  | inr no_meta ↦ elim (Bool-cases (text_eq t (codes "event_msg"))) [
    | inl event ↦ rw (e, no_meta, event, codex-event (payload_of value)) refl
    | inr no_event ↦ elim (Bool-cases (text_eq t (codes "response_item"))) [
      | inl response ↦
          rw
            (
              e,
              no_meta,
              no_event,
              response,
              response-status (payload_of value) (codex_response_status (payload_of value)),
            )
            refl
      | inr no_response ↦ rw (e, no_meta, no_event, no_response) refl
    ]
  ]
]

-- The status of the last activity, or the status before when there is none.
unfoldable pub last_status : Option AgentStatus → List AgentActivity → Option AgentStatus
last_status before [] = before
last_status before (activity ∷ activities) = last_status (some activity.status) activities

module _ (parse : Text → Option Value) (step : SessionMetadata → Value → SessionMetadata)
    (kind : AgentKind)
    (agree : (m : SessionMetadata) (value : Value)
      → (step m value).status ≡ or_kept m.status (status_of (activity_status kind value)))
    (agent_id path : Text) where
  read_lines-last_status :
      (lines : List Text) (m : SessionMetadata)
      → (read_lines parse step m lines).status
        ≡ last_status m.status (line_activities parse kind agent_id path lines)
  unfolding read_lines updated last_status line_activities line_to_activity
  read_lines-last_status [] m = refl
  read_lines-last_status (line ∷ lines) m =
      let step_to : (o : Option Value)
          → parse line ≡ o
          → (read_lines parse step (updated step m (parse line)) lines).status
            ≡ (read_lines parse step (updated step m o) lines).status =
        λ o' e. ap (λ o. (read_lines parse step (updated step m o) lines).status) e in
      elim (Option-cases (parse line)) [
        | inl invalid ↦ step_to none invalid ∙ rw invalid (read_lines-last_status lines m)
        | inr (value, valid) ↦ elim (Option-cases (activity_status kind value)) [
          | inl quiet ↦
              step_to (some value) valid
              ∙ rw (valid, quiet, read_lines-last_status lines (step m value), agree m value, quiet)
                  refl
          | inr (found, active) ↦
              step_to (some value) valid
              ∙ rw
                  (
                    valid,
                    active,
                    read_lines-last_status lines (step m value),
                    agree m value,
                    active,
                  )
                  refl
        ]
      ]

-- The status that discovery gives a session of Claude or of Codex is that of the last activity that
-- the poller reports of the same lines; lines without an activity leave it.
pub metadata-last_status :
    (parse : Text → Option Value) (agent_id path : Text) (lines : List Text) (m : SessionMetadata)
    → ((read_lines parse update_claude_metadata m lines).status
        ≡ last_status m.status (line_activities parse AgentKind.claude agent_id path lines))
      × ((read_lines parse update_codex_metadata m lines).status
          ≡ last_status m.status (line_activities parse AgentKind.codex agent_id path lines))
unfolding activity_status update_claude_metadata codex_line_activity_status
metadata-last_status parse agent_id path lines m = (
  read_lines-last_status parse update_claude_metadata AgentKind.claude
      (λ before value. ap (or_kept before.status) (sym (claude-line value))) agent_id path lines m,
  read_lines-last_status parse update_codex_metadata AgentKind.codex
      (λ before value. codex-line before value (type_of value) refl) agent_id path lines m,
)
