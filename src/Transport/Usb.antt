-- ===== src/Transport/Usb.antt =====
-- UsbTransport of transport/usb_transport.py: one device, behind a handle of libusb. Messages, and what is
-- only asked for them, are left out.
pub mod Handles
pub mod Finding
use adb_shell.Common.{
  ℕ, zero, suc, ◌+◌, ◌/◌, List, [], ◌∷◌, Bool, true, false, not, Option, none, some, ◌==◌, ◌||◌,
  ◌&&◌, if◌then◌else◌,
}
use Prim.Native.Nat.{bit_and}
use adb_shell.Errors.{
  Error, Result, ok, err, UsbFault, timed_out, not_found, usb_error, usb_read_failed,
  usb_write_failed, assertion_error, attribute_error, type_error, out_of_fuel,
}
use adb_shell.Exec.{Exec, pure, raise, lift, gets, modify, zoom, finally, ◌>>=◌, ◌>>◌}

-- getAddress() and getMaxPacketSize() of an endpoint
pub record Endpoint : Type 0 where
  pub address : ℕ
  pub max_packet_size : ℕ

-- What is called of usb1, platform and warnings. `W` is the bus and all that libusb keeps, `V` a device, `G` one of
-- its settings and `H` an open handle.
pub record Libusb (W V G H : Type 0) : Type 0 where
  -- usb1.ENDPOINT_DIR_MASK, and what looking up usb1.USB_ENDPOINT_DIR_MASK comes to
  pub endpoint_dir_mask : ℕ
  pub usb_endpoint_dir_mask : Result ℕ
  -- platform.system() == 'Windows'
  pub is_windows : Bool
  -- warnings.warn(text, category), with the number that the source gives for a category
  pub warn : ℕ → Exec W (Unit {0})
  -- USB1_CTX.getDeviceIterator(skip_on_error=True)
  pub devices : Exec W (List V)
  -- of a device: iterSettings, getBusNumber, getPortNumberList, getSerialNumber, open
  pub settings : V → List G
  pub bus_number : V → ℕ
  pub port_numbers : V → List ℕ
  pub serial_number : V → Exec W (List ℕ)
  pub open_device : V → Exec W H
  -- of a setting: getClass, getSubClass, getProtocol, getNumber, iterEndpoints
  pub interface_of : G → ℕ × ℕ × ℕ
  pub number : G → ℕ
  pub endpoints : G → List Endpoint
  -- of a handle
  pub kernel_driver_active : ℕ → H → Exec W Bool
  pub detach_kernel_driver : ℕ → H → Exec W (Unit {0})
  pub claim_interface : ℕ → H → Exec W (Unit {0})
  pub release_interface : Option ℕ → H → Exec W (Unit {0})
  pub close_handle : H → Exec W (Unit {0})
  pub read_bulk : Option ℕ → ℕ → ℕ → H → Exec W (List ℕ)
  pub write_bulk : Option ℕ → List ℕ → ℕ → H → Exec W ℕ

-- The transport. Times are in microseconds.
pub record UsbTransport (V G H : Type 0) : Type 0 where
  pub device : V
  pub setting : G
  pub handle : Option H
  pub interface_number : Option ℕ
  pub read_endpoint : Option ℕ
  pub write_endpoint : Option ℕ
  pub default_transport_timeout_s : ℕ
  pub max_read_packet_len : ℕ

-- The transport, the port paths in _HANDLE_CACHE whose transports are alive, and the bus.
pub record OnBus (W V G H : Type 0) : Type 0 where
  pub usb : UsbTransport V G H
  pub handle_cache : List (List ℕ)
  pub world : W

abbrev pub default_timeout : ℕ
default_timeout = 10000000

abbrev pub timeout_or_default : Option ℕ → ℕ
timeout_or_default none = default_timeout
timeout_or_default (some n) = n

abbrev pub new_usb : {V G H : Type 0} → V → G → Option ℕ → UsbTransport V G H
new_usb device setting default_transport_timeout_s = record {
  device = device;
  setting = setting;
  handle = none;
  interface_number = none;
  read_endpoint = none;
  write_endpoint = none;
  default_transport_timeout_s = timeout_or_default default_transport_timeout_s;
  max_read_packet_len = 0;
}

-- int(timeout * 1000), in milliseconds
abbrev pub timeout_ms : Option ℕ → ℕ → ℕ
timeout_ms none default = default / 1000
timeout_ms (some n) default = n / 1000

-- The loop of `connect` over the endpoints: the last of each direction stays.
unfoldable pub sort_endpoints : ℕ → List Endpoint → Option ℕ → Option ℕ → Option ℕ × Option ℕ
sort_endpoints mask [] read write = (read, write)
sort_endpoints mask (e ∷ es) read write =
    let outwards = bit_and e.address mask == 0 in
    sort_endpoints mask es (if outwards then read else some e.address)
      (if outwards then some e.address else write)

-- assert x is not None
abbrev pub assert_some : {S A : Type 0} → Option A → Exec S A
assert_some none = raise assertion_error
assert_some (some a) = pure a

abbrev pub is_usb_error : Error → Bool
is_usb_error (usb_error _) = true
is_usb_error _ = false

-- `except usb1.USBError as e: raise UsbReadFailedError(..., e)`, and the same of a write
abbrev pub read_failed : {A : Type 0} → Result A → Result A
read_failed (err (usb_error e)) = err (usb_read_failed (some e))
read_failed r = r

abbrev pub write_failed : {A : Type 0} → Result A → Result A
write_failed (err (usb_error e)) = err (usb_write_failed (some e))
write_failed r = r

-- except usb1.USBError: log it
abbrev pub logged : Result (Unit {0}) → Result (Unit {0})
logged (err (usb_error e)) = ok tt
logged r = r

-- Equal lists of numbers.
unfoldable pub same_path : List ℕ → List ℕ → Bool
same_path [] [] = true
same_path (a ∷ xs) (b ∷ ys) = a == b && same_path xs ys
same_path _ _ = false

unfoldable pub convert : {S A B : Type 0} → (Result A → Result B) → Exec S A → Exec S B
convert f m s = let (r, s') = m s in (f r, s')

module _ {W V G H : Type 0} (l : Libusb W V G H) where
  abbrev pub on_world : {A : Type 0} → Exec W A → Exec (OnBus W V G H) A
  on_world m = zoom (λ b. b.world) (λ w b. record b { world = w }) m

  abbrev pub set_usb : (UsbTransport V G H → UsbTransport V G H) → Exec (OnBus W V G H) (Unit {0})
  set_usb f = modify (λ b. record b { usb = f b.usb })

  abbrev pub release : Option ℕ → Option H → Exec (OnBus W V G H) (Unit {0})
  release interface none = pure tt
  release interface (some h) =
      on_world (convert logged (do l.release_interface interface h; l.close_handle h))

  -- The handle is cleared whatever happens.
  unfoldable pub close : Exec (OnBus W V G H) (Unit {0})
  close = do
    handle ← gets (λ b. b.usb.handle)
    interface ← gets (λ b. b.usb.interface_number)
    finally (release interface handle) (set_usb (λ u. record u { handle = none }))

  abbrev pub detach_if : Bool → ℕ → H → Exec W (Unit {0})
  detach_if true interface h = l.detach_kernel_driver interface h
  detach_if false interface h = pure tt

  -- `except usb1.USBErrorNotFound: warnings.warn(text, iface_number)`
  abbrev pub warned : ℕ → Result (Unit {0}) → Exec W (Unit {0})
  warned interface (err (usb_error not_found)) = l.warn interface
  warned interface r = lift r

  -- The kernel's driver is asked for unless the system is Windows.
  unfoldable pub detach_driver : ℕ → H → Exec W (Unit {0})
  detach_driver interface h w =
      let (r, w') =
        (if l.is_windows
            then pure tt
            else (do active ← l.kernel_driver_active interface h; detach_if active interface h))
          w in
      warned interface r w'

  unfoldable pub connect : Exec (OnBus W V G H) (Unit {0})
  connect = do
    setting ← gets (λ b. b.usb.setting)
    let (read, write) = sort_endpoints l.endpoint_dir_mask (l.endpoints setting) none none
    read_endpoint ← assert_some read
    write_endpoint ← assert_some write
    device ← gets (λ b. b.usb.device)
    h ← on_world (l.open_device device)
    let interface = l.number setting
    on_world (detach_driver interface h)
    set_usb (λ u. record u {
      handle = some h;
      read_endpoint = some read_endpoint;
      write_endpoint = some write_endpoint;
      interface_number = some interface;
    })
    on_world (l.claim_interface interface h)

  abbrev pub read_with : ℕ → Option ℕ → UsbTransport V G H → Option H → Exec W (List ℕ)
  read_with numbytes timeout u none = raise (usb_read_failed none)
  read_with numbytes timeout u (some h) =
      convert read_failed
        (l.read_bulk u.read_endpoint numbytes (timeout_ms timeout u.default_transport_timeout_s) h)

  unfoldable pub bulk_read : ℕ → Option ℕ → Exec (OnBus W V G H) (List ℕ)
  bulk_read numbytes transport_timeout_s = do
    u ← gets (λ b. b.usb)
    on_world (read_with numbytes transport_timeout_s u u.handle)

  abbrev pub write_with : List ℕ → Option ℕ → UsbTransport V G H → Option H → Exec W ℕ
  write_with payload timeout u none = raise (usb_write_failed none)
  write_with payload timeout u (some h) =
      convert write_failed
        (l.write_bulk u.write_endpoint payload (timeout_ms timeout u.default_transport_timeout_s) h)

  unfoldable pub bulk_write : List ℕ → Option ℕ → Exec (OnBus W V G H) ℕ
  bulk_write payload transport_timeout_s = do
    u ← gets (λ b. b.usb)
    on_world (write_with payload transport_timeout_s u u.handle)

  -- `while True` of `_flush_buffers`, with at most `fuel` reads; the timeout of a read is 10 seconds.
  abbrev pub after_flush :
      Result (List ℕ) → Exec (OnBus W V G H) (Unit {0}) → Exec (OnBus W V G H) (Unit {0})
  after_flush (ok _) rest = rest
  after_flush (err (usb_read_failed (some timed_out))) rest = pure tt
  after_flush (err e) rest = raise e

  unfoldable pub flush_buffers : ℕ → Exec (OnBus W V G H) (Unit {0})
  flush_buffers zero b = (err out_of_fuel, b)
  flush_buffers (suc fuel) b =
      let (r, b') = bulk_read b.usb.max_read_packet_len (some 10000000) b in
      let rest : Exec (OnBus W V G H) (Unit {0}) = flush_buffers fuel in after_flush r rest b'

  abbrev pub port_path : V → List ℕ
  port_path device = l.bus_number device ∷ l.port_numbers device

  abbrev pub is_cached : List ℕ → List (List ℕ) → Bool
  is_cached path [] = false
  is_cached path (p ∷ ps) = same_path p path || is_cached path ps

  -- The loop of `_open` over the endpoints, which writes to the transport as it goes.
  unfoldable pub note_endpoints : List Endpoint → Exec (OnBus W V G H) (Unit {0})
  note_endpoints [] = pure tt
  note_endpoints (e ∷ es) = do
    mask ← lift l.usb_endpoint_dir_mask
    set_usb (λ u.
        if bit_and e.address mask == 0
        then record u { write_endpoint = some e.address }
        else record u { read_endpoint = some e.address; max_read_packet_len = e.max_packet_size })
    note_endpoints es

  -- A transport in the cache is asked for `Close`, which no UsbTransport has.
  unfoldable pub open_usb : Exec (OnBus W V G H) (Unit {0})
  open_usb = do
    b ← gets (λ b. b)
    let path = port_path b.usb.device
    if is_cached path b.handle_cache then raise attribute_error else pure tt
    set_usb (λ u. record u { read_endpoint = none; write_endpoint = none })
    note_endpoints (l.endpoints b.usb.setting)
    u ← gets (λ b. b.usb)
    assert_some u.read_endpoint
    assert_some u.write_endpoint
    h ← on_world (l.open_device u.device)
    let interface = l.number u.setting
    on_world (detach_driver interface h)
    on_world (l.claim_interface interface h)
    set_usb (λ u. record u { handle = some h; interface_number = some interface })
    modify (λ b. record b { handle_cache = path ∷ b.handle_cache })
