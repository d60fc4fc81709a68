-- ===== src/Examples/Host.antt =====
-- Examples for crates/vb-transport/src/windows.rs and crates/vb-host/src/agent_discovery.rs.
use vibe_bridge.Base.{
  ℕ, ◌+◌, ◌-◌, suc, ◌≡◌, ◌≤◌, refl, Bool, true, false, List, [], ◌∷◌, ◌++◌, Text, codes, Option,
  none, some, length, drop, text_eq, if◌then◌else◌, arith, ◌==◌,
}
use vibe_bridge.Core.{AgentKind, AgentStatus, AgentSession}
use vibe_bridge.Json.{Value, string, object, field, no_fields}
use vibe_bridge.Protocol.{Cmd}
use vibe_bridge.Transport.{HidMessage, TransportError}
use vibe_bridge.Transport.Windows.{Calls, Outcome, ok, err}
use vibe_bridge.Transport.Windows.Reopen.{Reopen, with_transport, reopen_hid}
use vibe_bridge.Transport.Windows.Handles.{Counts}
use vibe_bridge.Transport.Windows.Reopen.Recovery.{flush_reopen-after_error}
use vibe_bridge.Daemon.Agent.{Key}
use vibe_bridge.Daemon.State.{BridgeDaemon, new_daemon}
use vibe_bridge.Daemon.Outbox.{flush_board_outbox}
use vibe_bridge.Discovery.Metadata.{
  SessionMetadata, read_lines, update_claude_metadata, update_codex_metadata,
}
use vibe_bridge.Discovery.Metadata.Agreement.{last_status, metadata-last_status}
use vibe_bridge.Discovery.Status.{line_activities}
use vibe_bridge.Discovery.Active.{filter_sessions_by_active_counts}
use vibe_bridge.Discovery.Active.Processes.{Assigned, filter_sessions-Assigned}
use vibe_bridge.Discovery.Poller.{Files, Found, polled, poll_with_sessions, new_poller}
use vibe_bridge.Discovery.Poller.Growth.{poll-growth}

-- A system whose every write fails, with a device that opens; the world counts the openings.
abbrev broken_calls : Calls ℕ
broken_calls = record {
  create_file = λ path w. (some (suc w), suc w);
  last_error = λ w. 5;
  create_event = λ w. (true, w);
  write_file = λ handle raw w. (false, w);
  read_file = λ handle w. (false, w);
  wait = λ ms w. (0, w);
  cancel_io = λ w. w;
  overlapped_result = λ wait w. (true, w);
  transferred = λ w. 64;
  buffer = λ w. [];
  close_event = λ w. w;
  close_handle = λ handle w. w;
  env_device = λ w. none;
  hid_paths = λ w. (ok [], w);
}

abbrev waiting_daemon : BridgeDaemon
waiting_daemon = record new_daemon {
  board_outbox = record { cmd = Cmd.session_heartbeat; sid = 0; payload = 1 ∷ [] } ∷ [];
}

flush_reopen-after_error_example :
    flush_board_outbox
      (reopen_hid broken_calls (codes "p"))
      waiting_daemon
      (record { inner = none; world = 7 })
    ≡ (
      waiting_daemon,
      record { log = []; world = record { inner = none; world = 7 }; failed = none },
    )
unfolding flush_board_outbox vibe_bridge.Daemon.Outbox.flush_loop
    vibe_bridge.Daemon.Outbox.after_message vibe_bridge.Daemon.Outbox.send_frames
    vibe_bridge.Protocol.Split.split_host_to_board vibe_bridge.Protocol.Split.chunks
    vibe_bridge.Daemon.Outbox.after_send vibe_bridge.Transport.Windows.Reopen.reopen_send text_eq
    vibe_bridge.Transport.Windows.opened vibe_bridge.Cli.Args.digits
flush_reopen-after_error_example =
    flush_reopen-after_error broken_calls (codes "p") waiting_daemon
      (record { inner = some 3; world = 6 })
      (TransportError.io (codes "WriteFile failed with Win32 error 5")) refl

-- A line is read as an activity of Codex, and the metadata's status is that of the activity.
abbrev started : Value
started = object (
    field (codes "type") (string (codes "event_msg")) (
      field (codes "payload")
        (object (field (codes "type") (string (codes "task_started")) no_fields)) no_fields))

abbrev parse_started : Text → Option Value
parse_started line = if text_eq line (codes "{}") then some started else none

abbrev no_metadata : SessionMetadata
no_metadata = record { agent_id = none; cwd = none; status = none }

metadata-last_status_example :
    ((read_lines parse_started update_claude_metadata no_metadata (codes "{}" ∷ [])).status
      ≡ last_status none (
          line_activities parse_started AgentKind.claude (codes "a") (codes "p") (codes "{}" ∷ [])))
    × ((read_lines parse_started update_codex_metadata no_metadata (codes "{}" ∷ [])).status
        ≡ last_status none (
            line_activities parse_started AgentKind.codex
              (codes "a")
              (codes "p")
              (codes "{}" ∷ [])))
metadata-last_status_example =
    metadata-last_status parse_started (codes "a") (codes "p") (codes "{}" ∷ []) no_metadata

-- A file that holds a text.
abbrev file_of : Text → Files
file_of text = record {
  len = λ path. some (length text);
  read_from = λ path offset. some (drop offset text);
}

abbrev found_session : AgentSession
found_session = record {
  agent_id = codes "a";
  kind = AgentKind.codex;
  name = codes "a";
  cwd = [];
  status = AgentStatus.running;
  terminal_hwnd = none;
  transcript_path = codes "p";
}

poll-growth_example :
    (first second : Found) × ((poll_with_sessions
        (file_of (codes "{}\n"))
        parse_started
        (found_session ∷ [])
        new_poller).1
      ≡ polled first)
    × ((poll_with_sessions
          (file_of (codes "{}\n{}"))
          parse_started
          (found_session ∷ [])
          (poll_with_sessions
            (file_of (codes "{}\n"))
            parse_started
            (found_session ∷ [])
            new_poller).0).1
        ≡ polled second)
    × ((poll_with_sessions
          (file_of (codes "{}\n{}"))
          parse_started
          (found_session ∷ [])
          new_poller).1
        ≡ polled (record {
          activities = first.activities ++ second.activities;
          turns = first.turns ++ second.turns;
        }))
unfolding vibe_bridge.Base.Map.lookup
poll-growth_example =
    poll-growth (file_of (codes "{}\n")) (file_of (codes "{}\n{}")) parse_started found_session
      new_poller (codes "{}") (codes "{}") (refl, λ offset h. refl) (refl, λ offset h. refl) refl
      refl

abbrev codex_slot : Key
codex_slot = (AgentKind.codex, codes "/w")

filter_sessions-Assigned_example :
    Assigned
      (filter_sessions_by_active_counts
        (λ s. 0)
        0
        (found_session ∷ found_session ∷ [])
        (codex_slot ∷ []))
      (codex_slot ∷ [])
filter_sessions-Assigned_example =
    filter_sessions-Assigned (λ s. 0) 0 (found_session ∷ found_session ∷ []) (codex_slot ∷ []) refl

-- A system whose world counts the open handles: files open, and events are made, but writes fail and
-- reads give frames that do not decode.
abbrev counting_calls : Calls ℕ
counting_calls = record {
  create_file = λ path w. (some 3, w + 1);
  last_error = λ w. 5;
  create_event = λ w. (true, w + 1);
  write_file = λ handle raw w. (false, w);
  read_file = λ handle w. (true, w);
  wait = λ ms w. (0, w);
  cancel_io = λ w. w;
  overlapped_result = λ wait w. (true, w);
  transferred = λ w. 64;
  buffer = λ w. [];
  close_event = λ w. w - 1;
  close_handle = λ handle w. w - 1;
  env_device = λ w. none;
  hid_paths = λ w. (ok [], w);
}

abbrev counting : Counts counting_calls (λ w. w)
counting = record {
  create_file = λ path w. refl;
  create_event = λ w. refl;
  close_event = λ w. refl;
  close_handle = λ handle w. refl;
  write_file = λ handle raw w. refl;
  read_file = λ handle w. refl;
  wait = λ ms w. refl;
  cancel_io = λ w. refl;
  overlapped_result = λ wait w. refl;
  hid_paths = λ w. refl;
}

-- A send and a receive, both with a reopening.
abbrev some_uses : List (Option HidMessage)
some_uses = some (record { cmd = Cmd.session_heartbeat; sid = 0; payload = [] }) ∷ none ∷ []
