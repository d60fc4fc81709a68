-- ===== src/Lib.antt =====
-- vibe-bridge connects coding agents on a computer with a small board over USB HID. This library
-- models its core in Rust: the types (crates/vb-core), the wire protocol (crates/vb-protocol), the
-- bridge daemon with its command line (crates/vb-daemon), the transport over Windows' HID devices
-- (crates/vb-transport) and the reading of transcripts (crates/vb-host/src/agent_discovery.rs).
--
-- How the parts interact: clients register agents with the daemon by JSON lines, and a poller
-- discovers others. The daemon asks the board for a session id for each agent, keeps the agents in a
-- table, and describes them to the board by messages that it puts into an outbox. A flush cuts each
-- message into frames of at most 58 payload bytes and sends them over the transport. The board answers
-- with session ids, focus changes and permission decisions, which the agents' hooks poll. The daemon's
-- program also changes the settings of Windows Terminal so that each profile runs its shell under the
-- program's shim, which launches the original command line as an agent.
--
-- Files:
--   Base: texts as lists of UTF-8 bytes, byte and list routines, maps as association lists.
--   Core, Core/Labels, Core/Terminal: crates/vb-core/src/lib.rs; `classify_terminal_process`,
--     `AgentKind::from_label` and the types keep their names.
--   Protocol: crates/vb-protocol/src/lib.rs (`Cmd`, the status bytes); Protocol/Codec and
--     Protocol/Split: codec.rs (`encode`, `decode`, `split_host_to_board`); Protocol/Payloads:
--     payloads.rs (`encode_*`, `decode_*`).
--   Transport: crates/vb-transport/src/lib.rs (`HidMessage`, `TransportError`).
--   Daemon/State, Daemon/Agent, Daemon/Terminal, Daemon/Agent/Messages: `BridgeDaemon`,
--     `RegisteredAgent`, its VT100 buffer and the messages that describe it.
--   Daemon/Board: `handle_board_message` and what it calls; Daemon/Envelope, Daemon/Requests,
--     Daemon/TerminalStream and Daemon/Dispatch: `handle_json_line`, one function for each message
--     type.
--   Daemon/Passive, Daemon/Heartbeat, Daemon/Outbox, Daemon/Hex: the methods for discovered sessions,
--     the heartbeat thread, `flush_board_outbox`, and `hex_encode` with `hex_decode`.
--   Daemon/History: the events under the daemon's lock, as a list. Daemon/Invariant: the invariant of
--     its state and the operations that keep it. Daemon/Behaviour: what the operations do.
--   Transport/Windows, Transport/Windows/Device, Transport/Windows/Reopen: windows.rs of vb-transport
--     (`WinHidTransport`, `resolve_win_hid_device`, `ReopenWinHidTransport`); Reopen/Recovery: how it
--     goes on after errors, and the daemon's flush over it; Windows/Handles and Reopen/Handles: the
--     handles that are open.
--   Json: values of serde_json, as far as the code reads and changes them.
--   Cli: crates/vb-daemon/src/main.rs. Cli/Base64, Cli/Quote, Cli/Jsonc, Cli/Names and Cli/Wsl: the
--     functions on texts; Cli/Profile and Cli/Profile/Settings: the command lines of profiles and the
--     settings of Windows Terminal; Cli/Args, Cli/Args/Launch and Cli/Args/Install: the parsers of
--     arguments and the arguments that one command makes for another; Cli/Log: what is logged. The
--     modules below them hold what is proved; Quote/Windows has the rules by which a Windows program
--     splits its command line (those of the arguments, also for the program's path at its start), and
--     Quote/Shell those of the shells for quoted text.
--   Discovery: agent_discovery.rs. Discovery/Status, Discovery/Turns and Discovery/Metadata: what a
--     line of a transcript says; Discovery/Poller: `AgentSourcePoller`; Discovery/Active: which transcripts
--     running processes have (`filter_sessions_by_active_counts`).
--   Examples: concrete runs.
--
-- The operations are functions from the state to the new state and the result. Machine integers are
-- native numbers whose range is a hypothesis where it counts; `u8` counts that saturate are cut at 255.
-- A hash map is an association list whose order stands for the unspecified order of iteration. The
-- reading of a line by serde_json and the printing of settings, the poller's answers to the daemon and
-- the transport below the flush are parameters, and so are the Windows calls with the world that they
-- change (`Calls`), what the files answer (`Files`), the shim's folder and the script for WSL.
-- The fuels: that of `chunks` is the length of the list, of which every chunk takes one at least; that
-- of the digits of a number is the number, of which each digit takes a part; that of `arguments`, the
-- splitting by the rules of Windows, bounds the number of arguments. `with_transport` makes two
-- attempts, as the code does.
--
-- Not modelled: sockets, threads, sleeping and the output of logs; the text of JSON answers; ConPTY,
-- the platform layer and the enumeration of devices, which call the operating system; the search for
-- transcripts in directories, the scan of processes and the counts by window titles in
-- agent_discovery.rs, where the times of files and the clock are parameters; the changes of files
-- and of the registry, the processes and the hooks of crates/vb-daemon/src/main.rs; the desktop shell;
-- and the Python package.
pub mod Base
pub mod Core
pub mod Protocol
pub mod Transport
pub mod Daemon
pub mod Json
pub mod Cli
pub mod Discovery
pub mod Examples
