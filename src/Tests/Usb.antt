-- ===== src/Tests/Usb.antt =====
-- USB devices, numbered, on a bus that counts the packets that wait.
use adb_shell.Common.{
  ◌≤◌, ◌&&◌, not, ltb, ℕ, zero, suc, ◌≡◌, ◌≢◌, refl, List, [], ◌∷◌, false, Option, none, some, ◌==◌,
  if◌then◌else◌, arith,
}
use adb_shell.Errors.{Result, ok, err, usb_error, not_found, timed_out, type_error}
use adb_shell.Exec.{◌>>=◌, zoom}
use adb_shell.Transport.Usb.{
  Libusb, OnBus, new_usb, sort_endpoints, connect, detach_driver, convert, same_path, flush_buffers,
}
use adb_shell.Transport.Usb.Handles.{
  Calls, here, next, connect_call, reachable_ready, Waits, flush_buffers_lem,
}
use adb_shell.Transport.Usb.Finding.{find_adb, find, find_first, find_devices, interface_matcher}
use adb_shell.Transport.Usb.Finding.First.{Outcome, find_adb_lem}

abbrev take_one : ℕ → Result (List ℕ) × ℕ
take_one zero = (err (usb_error timed_out), 0)
take_one (suc n) = (ok (7 ∷ []), n)

-- A bulk transfer at endpoint 129 with room for 64 bytes, and any other.
abbrev read_at : Option ℕ → ℕ → ℕ → Result (List ℕ) × ℕ
read_at none room w = (err (usb_error not_found), w)
read_at (some e) room w =
    if e == 129 && not (ltb room 64) then take_one w else (err (usb_error not_found), w)

abbrev bus : Libusb ℕ ℕ (Unit {0}) (Unit {0})
bus = record {
  endpoint_dir_mask = 128;
  usb_endpoint_dir_mask = ok 128;
  is_windows = false;
  warn = λ n w. (err type_error, w);
  devices = λ w. (ok (1 ∷ 2 ∷ 3 ∷ []), w);
  settings = λ v. tt ∷ [];
  bus_number = λ v. 1;
  port_numbers = λ v. v ∷ [];
  serial_number = λ v w. (ok (v ∷ []), w);
  open_device = λ v w. (ok tt, w);
  interface_of = λ g. (255, 66, 1);
  number = λ g. 0;
  endpoints = λ g.
      record { address = 129; max_packet_size = 64 }
      ∷ record { address = 2; max_packet_size = 64 }
      ∷ [];
  kernel_driver_active = λ n h w. (ok false, w);
  detach_kernel_driver = λ n h w. (ok tt, w);
  claim_interface = λ n h w. (ok tt, w);
  release_interface = λ n h w. (ok tt, w);
  close_handle = λ h w. (ok tt, w);
  read_bulk = λ e n k h w. read_at e n w;
  write_bulk = λ e payload k h w. (ok 0, w);
}

abbrev fresh : OnBus ℕ ℕ (Unit {0}) (Unit {0})
fresh = record { usb = new_usb 2 tt none; handle_cache = []; world = 3 }

abbrev connected : OnBus ℕ ℕ (Unit {0}) (Unit {0})
connected = record fresh {
  usb = record (new_usb 2 tt none) {
    handle = some tt;
    read_endpoint = some 129;
    write_endpoint = some 2;
    interface_number = some 0;
  };
}

history : Calls bus fresh connected
unfolding connect detach_driver convert ◌>>=◌ zoom sort_endpoints
history = next here connect_call

reachable_ready_example :
    (connected.usb.read_endpoint ≢ none)
    × (connected.usb.write_endpoint ≢ none)
    × (connected.usb.interface_number ≢ none)
reachable_ready_example = reachable_ready bus 2 tt none [] 3 connected tt history refl

-- What `_open` notes of the endpoints.
abbrev opened : OnBus ℕ ℕ (Unit {0}) (Unit {0})
opened = record connected { usb = record connected.usb { max_read_packet_len = 64 } }

has_room : (room : ℕ) → 64 ≤ room → ltb room 64 ≡ false
has_room room h = ground arith

bus-Waits : Waits bus (λ w. w) tt 129 64
bus-Waits = record {
  some_left = λ room k w m long patient h. (7 ∷ [], m, rw (has_room room long, h) refl, refl);
  none_left = λ room k w long patient h. (0, rw (has_room room long, h) refl, refl);
}

flush_buffers_lem_example :
    (w : ℕ) × (flush_buffers bus 5 opened ≡ (ok tt, record opened { world = w })) × (w ≡ 0)
flush_buffers_lem_example =
    flush_buffers_lem bus (λ w. w) tt 129 64 bus-Waits 5 3 opened refl refl (omega arith) refl
      (omega arith)

tells : (v w : ℕ) → (bus.serial_number v w).0 ≡ ok (v ∷ [])
tells v w = refl

find_adb_lem_example :
    Outcome bus
      (2 ∷ [])
      (λ v. v ∷ [])
      none
      tells
      (1 ∷ 2 ∷ 3 ∷ [])
      (find_adb bus (λ p. ok 0) (some (2 ∷ [])) none none 3).0
find_adb_lem_example =
    find_adb_lem bus (λ p. ok 0) 2 [] (λ v. v ∷ []) none tells 3 3 (1 ∷ 2 ∷ 3 ∷ []) refl

found_two : (find_adb bus (λ p. ok 0) (some (2 ∷ [])) none none 3).0 ≡ ok (new_usb 2 tt none)
unfolding find_adb find find_first find_devices interface_matcher same_path ◌>>=◌
found_two = refl
