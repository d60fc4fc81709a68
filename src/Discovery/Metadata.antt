-- ===== src/Discovery/Metadata.antt =====
-- crates/vb-host/src/agent_discovery.rs: what a transcript says of its session: identifier, folder
-- and status.
pub mod Agreement
use vibe_bridge.Base.{
  Bool, true, false, List, [], ◌∷◌, Text, codes, Option, none, some, is_empty, trim, if◌then◌else◌,
}
use vibe_bridge.Core.{AgentStatus}
use vibe_bridge.Json.{Value, get_value, as_str}
use vibe_bridge.Discovery.Status.{
  type_of, payload_of, is_text, codex_event_status, codex_response_status, claude_status,
}

pub record SessionMetadata : Type 0 where
  pub agent_id : Option Text
  pub cwd : Option Text
  pub status : Option AgentStatus

-- `set_if_text`: the slot's next value.
unfoldable pub set_if_text : Option Text → Option Value → Option Text
set_if_text slot value = elim (as_str value) [
  | none ↦ slot
  | some text ↦ if is_empty (trim text) then slot else some (trim text)
]

abbrev pub or_kept {ℓ} : {A : Type ℓ} → Option A → Option A → Option A
or_kept kept none = kept
or_kept kept (some a) = some a

unfoldable pub update_codex_metadata : SessionMetadata → Value → SessionMetadata
unfolding set_if_text codex_event_status codex_response_status
update_codex_metadata metadata value =
    let payload = payload_of value in
    if is_text (codes "session_meta") (type_of value)
    then record metadata {
      agent_id = set_if_text metadata.agent_id (get_value (codes "id") payload);
      cwd = set_if_text metadata.cwd (get_value (codes "cwd") payload);
    }
    else if is_text (codes "event_msg") (type_of value)
    then record metadata { status = or_kept metadata.status (codex_event_status payload) }
    else if is_text (codes "response_item") (type_of value)
    then record metadata { status = or_kept metadata.status (codex_response_status payload) }
    else metadata

unfoldable pub update_claude_metadata : SessionMetadata → Value → SessionMetadata
unfolding set_if_text claude_status
update_claude_metadata metadata value = record {
  agent_id = set_if_text metadata.agent_id (get_value (codes "sessionId") value);
  cwd = set_if_text metadata.cwd (get_value (codes "cwd") value);
  status = or_kept metadata.status (claude_status value);
}

unfoldable pub updated :
    (SessionMetadata → Value → SessionMetadata) → SessionMetadata → Option Value → SessionMetadata
updated updater metadata none = metadata
updated updater metadata (some value) = updater metadata value

-- The loop over the lines of a transcript, from the metadata so far; a line that is not JSON is
-- passed over.
unfoldable pub read_lines :
    (Text → Option Value)
    → (SessionMetadata → Value → SessionMetadata)
    → SessionMetadata
    → List Text
    → SessionMetadata
unfolding updated
read_lines parse updater metadata [] = metadata
read_lines parse updater metadata (line ∷ lines) =
    read_lines parse updater (updated updater metadata (parse line)) lines
