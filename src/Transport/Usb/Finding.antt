-- ===== src/Transport/Usb/Finding.antt =====
-- How UsbTransport (transport/usb_transport.py) finds its devices.

pub mod First
use adb_shell.Common.{
  ℕ, List, [], ◌∷◌, Bool, true, false, ◌&&◌, ◌||◌, Option, none, some, map, ◌==◌, if◌then◌else◌,
}
use adb_shell.Errors.{Result, ok, err, usb_device_not_found}
use adb_shell.Exec.{Exec, pure, raise, lift, zoom, ◌>>=◌, ◌>>◌}
use adb_shell.Transport.Usb.{
  Libusb, UsbTransport, OnBus, new_usb, port_path, same_path, open_usb, flush_buffers,
}

-- CLASS, SUBCLASS and PROTOCOL; usb1.CLASS_VENDOR_SPEC is 255.
abbrev pub adb_interface : ℕ × ℕ × ℕ
adb_interface = (255, 0x42, 0x01)

-- The argument `port_path`: a path of sysfs, or the numbers themselves; empty ones are falsy.
pub data PortPath : Type 0 where
  sysfs ports : List ℕ → PortPath

module _ {W V G H : Type 0} (l : Libusb W V G H) where
  -- get_interface
  abbrev pub get_interface : G → ℕ × ℕ × ℕ
  get_interface setting = l.interface_of setting

  abbrev pub same_interface : ℕ × ℕ × ℕ → ℕ × ℕ × ℕ → Bool
  same_interface a b = a.0 == b.0 && a.1 == b.1 && a.2 == b.2

  -- The loop of `matcher` over the settings of a device.
  unfoldable pub first_setting : ℕ × ℕ × ℕ → List G → Option G
  first_setting interface [] = none
  first_setting interface (g ∷ gs) =
      if same_interface (get_interface g) interface then some g else first_setting interface gs

  unfoldable pub interface_matcher : ℕ × ℕ × ℕ → V → Option G
  unfolding first_setting
  interface_matcher interface device = first_setting interface (l.settings device)

  -- A matcher of transports, or `None`.
  abbrev pub Matcher : Type 0
  Matcher = Option (UsbTransport V G H → Exec W Bool)

  abbrev pub matches : Matcher → UsbTransport V G H → Exec W Bool
  matches none u = pure true
  matches (some test) u = test u

  abbrev pub serial_matcher : List ℕ → UsbTransport V G H → Exec W Bool
  serial_matcher serial u = do sn ← l.serial_number u.device; pure (same_path sn serial)

  abbrev pub path_matcher : List ℕ → UsbTransport V G H → Exec W Bool
  path_matcher path u = pure (same_path (port_path l u.device) path)

  -- The generator `_find_devices`, with what its caller does where it yields, given the rest of it, and
  -- where it ends.
  unfoldable pub find_devices :
      {A : Type 0}
      → (V → Option G)
      → Matcher
      → Option ℕ
      → (UsbTransport V G H → Exec W A → Exec W A)
      → Exec W A
      → List V
      → Exec W A
  find_devices setting_matcher device_matcher timeout yielded ended [] = ended
  find_devices setting_matcher device_matcher timeout yielded ended (v ∷ vs) =
      let rest = find_devices setting_matcher device_matcher timeout yielded ended vs in
      elim (setting_matcher v) [
        | none ↦ rest
        | some g ↦ do
          ours ← matches device_matcher (new_usb v g timeout)
          if ours then yielded (new_usb v g timeout) rest else rest
      ]

  -- next(generator), where the StopIteration of one that ends is caught
  unfoldable pub find_first : (V → Option G) → Matcher → Option ℕ → Exec W (UsbTransport V G H)
  find_first setting_matcher device_matcher timeout = do
    vs ← l.devices
    find_devices setting_matcher device_matcher timeout (λ u rest. pure u)
        (raise usb_device_not_found) vs

  -- SYSFS_PORT_SPLIT_RE, [,/:.-]
  abbrev pub is_separator : ℕ → Bool
  is_separator c = c == b',' || (c == b'/' || (c == b':' || (c == b'.' || c == b'-')))

  abbrev pub onto_first : ℕ → List (List ℕ) → List (List ℕ)
  onto_first c [] = (c ∷ []) ∷ []
  onto_first c (part ∷ parts) = (c ∷ part) ∷ parts

  -- SYSFS_PORT_SPLIT_RE.split(text)
  unfoldable pub split_path : List ℕ → List (List ℕ)
  split_path [] = [] ∷ []
  split_path (c ∷ text) =
      if is_separator c then [] ∷ split_path text else onto_first c (split_path text)

  module _ (parse_int : List ℕ → Result ℕ) where
    -- [int(part) for part in parts]
    unfoldable pub all_ints : List (List ℕ) → Exec W (List ℕ)
    all_ints [] = pure []
    all_ints (part ∷ parts) = do n ← lift (parse_int part); ns ← all_ints parts; pure (n ∷ ns)

    unfoldable pub port_path_matcher : PortPath → Exec W (List ℕ)
    unfolding all_ints split_path
    port_path_matcher (sysfs text) = all_ints (split_path text)
    port_path_matcher (ports path) = pure path

    -- An empty serial is falsy too.
    abbrev pub find_serial :
        (V → Option G) → Option (List ℕ) → Option ℕ → Exec W (UsbTransport V G H)
    find_serial setting_matcher none timeout = find_first setting_matcher none timeout
    find_serial setting_matcher (some []) timeout = find_first setting_matcher none timeout
    find_serial setting_matcher (some (c ∷ cs)) timeout =
        find_first setting_matcher (some (serial_matcher (c ∷ cs))) timeout

    abbrev pub find_path : (V → Option G) → PortPath → Option ℕ → Exec W (UsbTransport V G H)
    find_path setting_matcher port_path timeout = do
      path ← port_path_matcher port_path
      find_first setting_matcher (some (path_matcher path)) timeout

    unfoldable pub find :
        (V → Option G) → Option PortPath → Option (List ℕ) → Option ℕ → Exec W (UsbTransport V G H)
    find setting_matcher none serial timeout = find_serial setting_matcher serial timeout
    find setting_matcher (some (sysfs [])) serial timeout =
        find_serial setting_matcher serial timeout
    find setting_matcher (some (ports [])) serial timeout =
        find_serial setting_matcher serial timeout
    find setting_matcher (some path) serial timeout = find_path setting_matcher path timeout

    unfoldable pub find_adb :
        Option (List ℕ) → Option PortPath → Option ℕ → Exec W (UsbTransport V G H)
    find_adb serial port_path timeout =
        find (interface_matcher adb_interface) port_path serial timeout

    -- The caller has the transport `dev`, opened and with nothing left to read.
    unfoldable pub find_and_open :
        ℕ
        → (V → Option G)
        → Option PortPath
        → Option (List ℕ)
        → Option ℕ
        → List (List ℕ)
        → Exec W (OnBus W V G H)
    find_and_open fuel setting_matcher port_path serial timeout cache = do
      dev ← find setting_matcher port_path serial timeout
      opened dev
      where
        opened : UsbTransport V G H → Exec W (OnBus W V G H)
        opened dev w =
            let (r, b) =
              (do open_usb l; flush_buffers l fuel)
                (record { usb = dev; handle_cache = cache; world = w }) in
            (elim r [ ok _ ↦ ok b | err e ↦ err e ], b.world)

  -- A generator that is run to its end.
  unfoldable pub find_all_adb_devices : Option ℕ → Exec W (List (UsbTransport V G H))
  find_all_adb_devices timeout = do
    vs ← l.devices
    find_devices (interface_matcher adb_interface) none timeout
        (λ u rest. do us ← rest; pure (u ∷ us)) (pure []) vs
