-- ===== src/Daemon/Behaviour/Streams.antt =====
-- "terminal.stream" in crates/vb-daemon/src/lib.rs: which screens the bytes of a terminal reach.
use vibe_bridge.Base.{
  ℕ, ◌≡◌, refl, inl, inr, Bool, true, false, ◌||◌, List, [], ◌∷◌, Option, none, some, is_empty, ite,
  if◌then◌else◌, IsBytes, Option-cases, arith,
}
use vibe_bridge.Base.Map.{
  lookup, lookup-insert, keys_where, member, Unrepeated, member-keys_where, keys_where-Unrepeated,
  contains_key,
}
use vibe_bridge.Daemon.Hex.{hex_encode}
use vibe_bridge.Daemon.Hex.RoundTrip.{hex_decode-hex_encode}
use vibe_bridge.Daemon.Terminal.{append_terminal_bytes}
use vibe_bridge.Daemon.Agent.{Key, key_dec, RegisteredAgent}
use vibe_bridge.Daemon.State.{BridgeDaemon, ok}
use vibe_bridge.Daemon.Board.{key_eq}
use vibe_bridge.Daemon.Requests.{terminal_stream_accepted}
use vibe_bridge.Daemon.TerminalStream.{
  mirror_to, mirror_all, is_attached_to, stream_bytes, terminal_stream,
}
use vibe_bridge.Daemon.Invariant.{Inv}

-- An entry with the bytes behind its screen.
abbrev pub with_bytes : List ℕ → Option RegisteredAgent → Option RegisteredAgent
with_bytes bytes none = none
with_bytes bytes (some a) = some (record a { terminal = append_terminal_bytes a.terminal bytes })

lookup-mirror_to :
    (bytes : List ℕ) (d : BridgeDaemon) (key j : Key)
    → lookup key_dec j (mirror_to bytes d key).registered
      ≡ ite
          (key_dec key j)
          (with_bytes bytes (lookup key_dec j d.registered))
          (lookup key_dec j d.registered)
unfolding mirror_to
lookup-mirror_to bytes d key j = elim (Option-cases (lookup key_dec key d.registered)) [
  | inl gone ↦ rw (mirror_to, gone) (ground (arith, gone))
  | inr (a, found) ↦
      rw (mirror_to, found)
        (ground (
          arith,
          found,
          lookup-insert key_dec key j
              (record a { terminal = append_terminal_bytes a.terminal bytes }) d.registered,
        ))
]

lookup-mirror_all :
    (bytes : List ℕ) (keys : List Key) (d : BridgeDaemon) (j : Key)
    → Unrepeated key_dec keys
    → lookup key_dec j (mirror_all bytes d keys).registered ≡ (
        if member key_dec j keys
        then with_bytes bytes (lookup key_dec j d.registered)
        else lookup key_dec j d.registered)
unfolding mirror_all member
lookup-mirror_all bytes [] d j once = refl
lookup-mirror_all bytes (key ∷ keys) d j once = ground (
  arith,
  lookup-mirror_to bytes d key j,
  lookup-mirror_all bytes keys (mirror_to bytes d key) j once.1,
)

-- The agent that sends, and those that are attached to it.
abbrev pub receives : BridgeDaemon → Key → Key → Bool
receives d key j =
    key_eq key j
    || (elim (lookup key_dec j d.registered) [ none ↦ false | some b ↦ is_attached_to key j b ])

-- In a consistent state, let a registered agent that is not attached to itself send the hexadecimal
-- text of some bytes, one at least. The request is accepted, the bytes are appended once to the
-- screens of that agent and of each agent attached to it, and every other agent is as it was.
pub stream_reaches :
    (d : BridgeDaemon) (key j : Key) (a : RegisteredAgent) (bytes : List ℕ)
    → Inv d
    → lookup key_dec key d.registered ≡ some a
    → is_attached_to key key a ≡ false
    → IsBytes bytes
    → is_empty bytes ≡ false
    → let (d', answer) = terminal_stream d key (hex_encode bytes) in
      (answer ≡ ok terminal_stream_accepted)
      × (lookup key_dec j d'.registered ≡ (
          if receives d key j
          then with_bytes bytes (lookup key_dec j d.registered)
          else lookup key_dec j d.registered))
unfolding terminal_stream stream_bytes member
stream_reaches d key j a bytes v found alone good more =
    let attached = keys_where (is_attached_to key) d.registered in
    let here : contains_key key_dec key d.registered ≡ true = ground arith in
    let once : Unrepeated key_dec (key ∷ attached) = (
      ground (arith, member-keys_where key_dec (is_attached_to key) key d.registered v.distinct),
      keys_where-Unrepeated key_dec (is_attached_to key) d.registered v.distinct,
    ) in
    rw (terminal_stream, hex_decode-hex_encode bytes good, stream_bytes, here, more)
      (
        refl,
        ground (
          arith,
          lookup-mirror_all bytes (key ∷ attached) d j once,
          member-keys_where key_dec (is_attached_to key) j d.registered v.distinct,
        ),
      )
