-- ===== src/Transport/Usb/Handles.antt =====
-- The states of UsbTransport (transport/usb_transport.py), and its errors.
use adb_shell.Common.{ℕ, zero, suc, ◌≤◌, ◌<◌, ◌≡◌, ◌≢◌, refl, ◌∙◌, List, Option, none, some, arith}
use mathlib.Core.Path.{subst}
use adb_shell.Errors.{ok, err, timed_out, usb_error}
use adb_shell.Exec.{Exec, zoom, ◌>>=◌}
use adb_shell.Exec.Rules.{
  Keeps, Keeps-bind, Keeps-gets, Keeps-zoom, Keeps-pure, Keeps-raise, Keeps-finally,
}
use adb_shell.Transport.Usb.{
  Libusb, UsbTransport, OnBus, new_usb, assert_some, convert, on_world, release, close, connect,
  bulk_read, bulk_write, flush_buffers,
}

-- With a handle, both endpoints and the interface are known.
abbrev pub Knows : {H : Type 0} → Option H → Option ℕ → Type 0
Knows none n = Unit {0}
Knows (some h) n = n ≢ none

abbrev pub IsReady : {V G H : Type 0} → UsbTransport V G H → Type 0
IsReady u =
    Knows u.handle u.read_endpoint
    × Knows u.handle u.write_endpoint
    × Knows u.handle u.interface_number

Knows-some :
    {H : Type 0} {handle : Option H} {n : Option ℕ} (h : H)
    → handle ≡ some h
    → Knows handle n
    → n ≢ none
Knows-some {n} h e k = subst (λ o. Knows o n) e k

module _ {W V G H : Type 0} (l : Libusb W V G H) where
  -- One call of a method, which returned or raised, and what it left.
  pub data Call (b : OnBus W V G H) : OnBus W V G H → Type 0 where
    close_call : Call b (close l b).1
    connect_call : Call b (connect l b).1
    read_call : (numbytes : ℕ) (timeout : Option ℕ) → Call b (bulk_read l numbytes timeout b).1
    write_call : (payload : List ℕ) (timeout : Option ℕ) → Call b (bulk_write l payload timeout b).1

  pub data Calls (b : OnBus W V G H) : OnBus W V G H → Type 0 where
    here : Calls b b
    next : {c d : OnBus W V G H} → Calls b c → Call c d → Calls b d

  abbrev Holds : OnBus W V G H → Type 0
  Holds b = IsReady b.usb

  world-Keeps : {A : Type 0} (m : Exec W A) → Keeps Holds (on_world l m)
  world-Keeps m = Keeps-zoom _ _ m (λ b h. h)

  release-Keeps :
      (interface : Option ℕ) (handle : Option H) → Keeps Holds (release l interface handle)
  release-Keeps interface none = Keeps-pure tt
  release-Keeps interface (some h) = world-Keeps _

  close-Keeps : Keeps Holds (close l)
  unfolding close
  close-Keeps = Keeps-bind _ _ (Keeps-gets _) (λ handle. Keeps-bind _ _ (Keeps-gets _) (λ interface.
      Keeps-finally _ _ (release-Keeps interface handle) (record { at = λ b h. (tt, tt, tt) })))

  assert-Keeps : {A : Type 0} (o : Option A) → Keeps Holds (assert_some o)
  assert-Keeps none = Keeps-raise _
  assert-Keeps (some a) = Keeps-pure a

  connect-Keeps : Keeps Holds (connect l)
  unfolding connect
  connect-Keeps = Keeps-bind _ _ (Keeps-gets _) (λ setting. Keeps-bind _ _ (assert-Keeps _) (λ r.
      Keeps-bind _ _ (assert-Keeps _) (λ w. Keeps-bind _ _ (Keeps-gets _) (λ device.
        Keeps-bind _ _ (world-Keeps _) (λ h. Keeps-bind _ _ (world-Keeps _) (λ _.
          Keeps-bind _ _ (record { at = λ b k. ((λ e. cc), (λ e. cc), (λ e. cc)) })
            (λ _. world-Keeps _)))))))

  read-Keeps : (numbytes : ℕ) (timeout : Option ℕ) → Keeps Holds (bulk_read l numbytes timeout)
  unfolding bulk_read
  read-Keeps numbytes timeout = Keeps-bind _ _ (Keeps-gets _) (λ u. world-Keeps _)

  write-Keeps : (payload : List ℕ) (timeout : Option ℕ) → Keeps Holds (bulk_write l payload timeout)
  unfolding bulk_write
  write-Keeps payload timeout = Keeps-bind _ _ (Keeps-gets _) (λ u. world-Keeps _)

  call_keeps : {b c : OnBus W V G H} → Call b c → Holds b → Holds c
  call_keeps {b} close_call h = close-Keeps.at b h
  call_keeps {b} connect_call h = connect-Keeps.at b h
  call_keeps {b} (read_call numbytes timeout) h = (read-Keeps numbytes timeout).at b h
  call_keeps {b} (write_call payload timeout) h = (write-Keeps payload timeout).at b h

  calls_keep : {b c : OnBus W V G H} → Calls b c → Holds b → Holds c
  calls_keep here h = h
  calls_keep (next cs c) h = call_keeps c (calls_keep cs h)

  -- After any sequence of `connect`, `bulk_read`, `bulk_write` and `close` on a new UsbTransport, whether they
  -- returned or raised: a transport with a handle knows both of its endpoints and its interface, so that no
  -- call of libusb is given `None` for them.
  pub reachable_ready :
      (v : V) (g : G) (timeout : Option ℕ) (cache : List (List ℕ)) (w : W) (b : OnBus W V G H)
      (h : H)
      → Calls (record { usb = new_usb v g timeout; handle_cache = cache; world = w }) b
      → b.usb.handle ≡ some h
      → (b.usb.read_endpoint ≢ none)
        × (b.usb.write_endpoint ≢ none)
        × (b.usb.interface_number ≢ none)
  reachable_ready v g timeout cache w b h cs e =
      let (r, s, i) = calls_keep cs (tt, tt, tt) in
      (Knows-some h e r, Knows-some h e s, Knows-some h e i)

-- `waiting` counts the packets that the device has ready at one endpoint, none of them longer than `size`. A
-- bulk transfer at this endpoint, with room for that many bytes and with a timeout, takes one packet, or
-- times out if there is none. Of a transfer at another endpoint, or with less room, nothing is said.
pub record Waits {W V G H : Type 0} (l : Libusb W V G H) (waiting : W → ℕ) (h : H)
    (endpoint size : ℕ) : Type 0 where
  pub some_left :
      (room timeout : ℕ) (w : W) (m : ℕ)
      → size ≤ room
      → 0 < timeout
      → waiting w ≡ suc m
      → (chunk : List ℕ) × (w' : W) × (l.read_bulk (some endpoint) room timeout h w
          ≡ (ok chunk, w'))
        × (waiting w' ≡ m)
  pub none_left :
      (room timeout : ℕ) (w : W)
      → size ≤ room
      → 0 < timeout
      → waiting w ≡ 0
      → (w' : W) × (l.read_bulk (some endpoint) room timeout h w ≡ (err (usb_error timed_out), w'))
        × (waiting w' ≡ 0)

module _ {W V G H : Type 0} (l : Libusb W V G H) (waiting : W → ℕ) (h : H) (endpoint size : ℕ)
    (p : Waits l waiting h endpoint size) where
  flush_none :
      (fuel : ℕ) (b : OnBus W V G H) (w' : W)
      → b.usb.handle ≡ some h
      → l.read_bulk b.usb.read_endpoint b.usb.max_read_packet_len 10000 h b.world
        ≡ (err (usb_error timed_out), w')
      → flush_buffers l (suc fuel) b ≡ (ok tt, record b { world = w' })
  unfolding flush_buffers bulk_read convert ◌>>=◌ zoom
  flush_none fuel b w' e r = rw (e, r) refl

  flush_some :
      (fuel : ℕ) (b : OnBus W V G H) (chunk : List ℕ) (w' : W)
      → b.usb.handle ≡ some h
      → l.read_bulk b.usb.read_endpoint b.usb.max_read_packet_len 10000 h b.world ≡ (ok chunk, w')
      → flush_buffers l (suc fuel) b ≡ flush_buffers l fuel (record b { world = w' })
  unfolding flush_buffers bulk_read convert ◌>>=◌ zoom
  flush_some fuel b chunk w' e r = rw (e, r) refl

  -- On an open handle, where the transport reads at the endpoint of these packets and has noted a length that
  -- none of them exceeds: with more rounds than packets, `_flush_buffers` returns, no packet waits any more,
  -- and the transport is as it was.
  pub flush_buffers_lem :
      (fuel n : ℕ) (b : OnBus W V G H)
      → b.usb.handle ≡ some h
      → b.usb.read_endpoint ≡ some endpoint
      → size ≤ b.usb.max_read_packet_len
      → waiting b.world ≡ n
      → n < fuel
      → (w : W) × (flush_buffers l fuel b ≡ (ok tt, record b { world = w })) × (waiting w ≡ 0)
  flush_buffers_lem zero n b e at room c few = absurd (omega arith)
  flush_buffers_lem (suc fuel) zero b e at room c few =
      let (w, r, none_waits) =
        p.none_left b.usb.max_read_packet_len 10000 b.world room (omega arith) c in
      (w, flush_none fuel b w e (rw at r), none_waits)
  flush_buffers_lem (suc fuel) (suc n) b e at room c few =
      let (chunk, w, r, fewer) =
        p.some_left b.usb.max_read_packet_len 10000 b.world n room (omega arith) c in
      let (w', q, none_waits) =
        flush_buffers_lem fuel n (record b { world = w }) e at room fewer (omega arith) in
      (w', flush_some fuel b chunk w e (rw at r) ∙ q, none_waits)
