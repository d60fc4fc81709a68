-- ===== src/Transport/Windows/Device.antt =====
-- crates/vb-transport/src/windows.rs: which device is opened. The identifiers are read from its path.
use vibe_bridge.Base.{
  ℕ, ◌+◌, ◌*◌, Bool, false, ◌&&◌, List, [], ◌∷◌, Text, codes, Option, none, some, length, take,
  drop, is_empty, text_eq, trim, to_ascii_lowercase, ◌==◌, if◌then◌else◌,
}
use vibe_bridge.Core.Terminal.{starts_with}
use vibe_bridge.Daemon.Hex.{hex_nibble}
use vibe_bridge.Transport.{TransportError}
use vibe_bridge.Transport.Windows.{Calls, Outcome, ok, err, open_path}

abbrev pub vibe_usb_vid : ℕ
vibe_usb_vid = 0x359f

abbrev pub vibe_usb_pid : ℕ
vibe_usb_pid = 0x2120

pub record WinHidDeviceInfo : Type 0 where
  pub path : Text
  pub vid : Option ℕ
  pub pid : Option ℕ

-- `u16::from_str_radix(_, 16)` on four characters at most, which cannot overflow.
unfoldable pub hex_value : ℕ → Text → Option ℕ
unfolding hex_nibble
hex_value value [] = some value
hex_value value (ch ∷ rest) = elim (hex_nibble ch) [
  | none ↦ none
  | some d ↦ hex_value (value * 16 + d) rest
]

abbrev pub from_hex : Text → Option ℕ
from_hex [] = none
from_hex (ch ∷ rest) =
    if ch == b'+'
    then (if is_empty rest then none else hex_value 0 rest)
    else hex_value 0 (ch ∷ rest)

-- The four characters after the first place of the marker.
unfoldable pub extract_hex_after : Text → Text → Option ℕ
unfolding hex_value starts_with
extract_hex_after marker [] = none
extract_hex_after marker (ch ∷ rest) =
    let value = take 4 (drop (length marker) (ch ∷ rest)) in
    let later = extract_hex_after marker rest in
    if starts_with marker (ch ∷ rest)
    then (if length value == 4 then from_hex value else none)
    else later

unfoldable pub device_info : Text → WinHidDeviceInfo
unfolding extract_hex_after
device_info path =
    let lower = to_ascii_lowercase path in
    record {
      path = path;
      vid = extract_hex_after (codes "vid_") lower;
      pid = extract_hex_after (codes "pid_") lower;
    }

abbrev pub is_id : ℕ → Option ℕ → Bool
is_id id none = false
is_id id (some found) = found == id

-- The first device of the board's kind.
unfoldable pub find_device : List Text → Option Text
unfolding device_info
find_device [] = none
find_device (path ∷ paths) =
    let info = device_info path in
    if is_id vibe_usb_vid info.vid && is_id vibe_usb_pid info.pid
    then some path
    else find_device paths

module _ {W : Type 0} (os : Calls W) where
  unfoldable pub found_device : Outcome (List Text) × W → Outcome (Option Text) × W
  unfolding find_device
  found_device (err e, w) = (err e, w)
  found_device (ok paths, w) = (ok (find_device paths), w)

  unfoldable pub env_or_list : Option Text → W → Outcome (Option Text) × W
  unfolding found_device
  env_or_list none w = found_device (os.hid_paths w)
  env_or_list (some path) w =
      if is_empty (trim path) then found_device (os.hid_paths w) else (ok (some path), w)

  abbrev pub resolve_win_hid_device : W → Outcome (Option Text) × W
  resolve_win_hid_device w = env_or_list (os.env_device w) w

  unfoldable pub open_found : Outcome (Option Text) × W → Outcome ℕ × W
  open_found (err e, w) = (err e, w)
  open_found (ok none, w) =
      (err (TransportError.io (codes "no Vibe HID 359f:2120 device found")), w)
  open_found (ok (some path), w) = open_path os path w

  -- `open_device`, with `open_auto`.
  unfoldable pub open_device : Text → W → Outcome ℕ × W
  unfolding open_found env_or_list
  open_device device w =
      if text_eq device (codes "auto")
      then open_found (resolve_win_hid_device w)
      else open_path os device w
