-- ===== src/Transport/Tls/Upgrade.antt =====
-- The states of TlsTransport (transport/tls_transport.py): the flag _is_tls against the socket.
use adb_shell.Common.{ℕ, ◌≡◌, ◌↔◌, refl, List, Option, none, some, Bool, true, false, inl, inr}
use adb_shell.Errors.{tcp_timeout, Result-cases, ok}
use adb_shell.Exec.{Exec, ◌>>=◌, zoom}
use adb_shell.Exec.Rules.{Keeps, Keeps-bind, Keeps-gets, Keeps-zoom}
use adb_shell.Transport.Sockets.{
  Sockets, Connection, plain, secure, suppress, translate, is_os_error, is_handshake_error,
}
use adb_shell.Transport.Tls.{
  TlsTransport, new_tls, on_world, upgrade_socket, close, connect, tls_upgrade, bulk_read,
  bulk_write,
}

-- The flag says whether the socket is wrapped.
abbrev pub Matches : {C S : Type 0} → Option (Connection C S) → Bool → Type 0
Matches none is_tls = is_tls ≡ false
Matches (some (plain c)) is_tls = is_tls ≡ false
Matches (some (secure c)) is_tls = is_tls ≡ true

abbrev pub IsMatched : {W C S : Type 0} → TlsTransport W C S → Type 0
IsMatched t = Matches t.connection t.is_tls

-- A socket that was just created takes a timeout.
pub record IsFresh {W C S : Type 0} (s : Sockets W C S) : Type 0 where
  pub takes_timeout :
      (host : List ℕ) (port : ℕ) (timeout : Option ℕ) (w : W) (c : C)
      → (s.create_connection host port timeout w).0 ≡ ok c
      → (s.set_timeout none (plain c) (s.create_connection host port timeout w).1).0 ≡ ok tt

pub matched_iff :
    {C S : Type 0} (connection : Option (Connection C S)) (is_tls : Bool)
    → Matches connection is_tls
    → (is_tls ≡ true) ↔ ((c : S) × (connection ≡ some (secure c)))
matched_iff none is_tls h = ((λ e. absurd cc), (λ (c, e). absurd cc))
matched_iff (some (plain x)) is_tls h = ((λ e. absurd cc), (λ (c, e). absurd cc))
matched_iff (some (secure x)) is_tls h = ((λ e. (x, refl)), (λ (c, e). h))

module _ {W C S : Type 0} (s : Sockets W C S) where
  -- One call of a method, which returned or raised, and the transport that it left.
  pub data Call (t : TlsTransport W C S) : TlsTransport W C S → Type 0 where
    close_call : Call t (close s t).1
    connect_call : (timeout : Option ℕ) → Call t (connect s timeout t).1
    upgrade_call : (cert key : List ℕ) (timeout : ℕ) → Call t (tls_upgrade s cert key timeout t).1
    read_call : (numbytes : ℕ) (timeout : Option ℕ) → Call t (bulk_read s numbytes timeout t).1
    write_call : (payload : List ℕ) (timeout : Option ℕ) → Call t (bulk_write s payload timeout t).1

  pub data Calls (t : TlsTransport W C S) : TlsTransport W C S → Type 0 where
    here : Calls t t
    next : {u v : TlsTransport W C S} → Calls t u → Call u v → Calls t v

  -- Either the socket is gone, or an error came out and nothing has changed.
  closed :
      (t : TlsTransport W C S) (connection : Option (Connection C S))
      → t.connection ≡ connection
      → Matches connection t.is_tls
      → IsMatched (close s t).1
  unfolding close ◌>>=◌ zoom
  closed t none e h = rw e refl
  closed t (some c) e h =
      let w1 = (suppress is_os_error (s.shutdown c) t.world).1 in
      elim (Result-cases (suppress is_os_error (s.shutdown c) t.world).0) [
        | inr (x, q) ↦ rw (e, q) h
        | inl (u, q) ↦ elim (Result-cases (suppress is_os_error (s.close c) w1).0) [
          | inr (x, q') ↦ rw (e, q, q') h
          | inl (u', q') ↦ rw (e, q, q') refl
        ]
      ]

  connect-IsMatched :
      (fresh : IsFresh s) (timeout : Option ℕ) (t : TlsTransport W C S)
      → IsMatched t
      → IsMatched (connect s timeout t).1
  unfolding connect ◌>>=◌ zoom
  connect-IsMatched fresh timeout t h =
      elim (Result-cases (s.create_connection t.host t.port timeout t.world).0) [
        | inr (e, q) ↦ rw q h
        | inl (c, q) ↦ rw (q, fresh.takes_timeout t.host t.port timeout t.world c q) refl
      ]

  on_world-Keeps : {A : Type 0} (m : Exec W A) → Keeps IsMatched (on_world s m)
  on_world-Keeps m = Keeps-zoom _ _ m (λ t h. h)

  upgraded :
      (cert key : List ℕ) (timeout : ℕ) (t : TlsTransport W C S)
      (connection : Option (Connection C S)) (is_tls : Bool)
      → IsMatched t
      → IsMatched (upgrade_socket s cert key timeout connection is_tls t).1
  unfolding ◌>>=◌
  upgraded cert key timeout t none is_tls h = h
  upgraded cert key timeout t (some c) true h = h
  upgraded cert key timeout t (some c) false h =
      (Keeps-bind (on_world s (s.ssl_context cert key)) _ (on_world-Keeps _) (λ _.
          Keeps-bind (on_world s (s.set_timeout (some timeout) c)) _ (on_world-Keeps _) (λ _.
            Keeps-bind
              (on_world s (translate is_handshake_error tcp_timeout (s.wrap_socket cert key c))) _
              (on_world-Keeps _)
              (λ wrapped.
                Keeps-bind (on_world s (s.set_timeout none (secure wrapped))) _ (on_world-Keeps _)
                  (λ _. record { at = λ t h. refl }))))).at
        t h

  tls_upgrade-IsMatched :
      (cert key : List ℕ) (timeout : ℕ) (t : TlsTransport W C S)
      → IsMatched t
      → IsMatched (tls_upgrade s cert key timeout t).1
  unfolding tls_upgrade ◌>>=◌
  tls_upgrade-IsMatched cert key timeout t h = upgraded cert key timeout t t.connection t.is_tls h

  read-Keeps : (numbytes : ℕ) (timeout : Option ℕ) → Keeps IsMatched (bulk_read s numbytes timeout)
  unfolding bulk_read
  read-Keeps numbytes timeout = Keeps-bind _ _ (Keeps-gets _) (λ c. on_world-Keeps _)

  write-Keeps :
      (payload : List ℕ) (timeout : Option ℕ) → Keeps IsMatched (bulk_write s payload timeout)
  unfolding bulk_write
  write-Keeps payload timeout = Keeps-bind _ _ (Keeps-gets _) (λ c. on_world-Keeps _)

  module _ (fresh : IsFresh s) where
    call_keeps : {t u : TlsTransport W C S} → Call t u → IsMatched t → IsMatched u
    call_keeps {t} close_call h = closed t t.connection refl h
    call_keeps {t} (connect_call timeout) h = connect-IsMatched fresh timeout t h
    call_keeps {t} (upgrade_call cert key timeout) h = tls_upgrade-IsMatched cert key timeout t h
    call_keeps {t} (read_call numbytes timeout) h = (read-Keeps numbytes timeout).at t h
    call_keeps {t} (write_call payload timeout) h = (write-Keeps payload timeout).at t h

    calls_keep : {t u : TlsTransport W C S} → Calls t u → IsMatched t → IsMatched u
    calls_keep here h = h
    calls_keep (next cs c) h = call_keeps c (calls_keep cs h)

  -- Where a socket that was just created takes a timeout: after any sequence of calls on a new
  -- TlsTransport, whether they returned or raised, _is_tls is true exactly if the transport holds a
  -- socket that is wrapped in TLS.
  pub reachable_matched :
      (fresh : IsFresh s) (host : List ℕ) (port : ℕ) (w : W) (t : TlsTransport W C S)
      → Calls (new_tls host port w) t
      → (t.is_tls ≡ true) ↔ ((c : S) × (t.connection ≡ some (secure c)))
  reachable_matched fresh host port w t cs =
      matched_iff t.connection t.is_tls (calls_keep fresh cs refl)
