-- ===== src/Transport/TlsAsync/States.antt =====
-- The states of TlsTransportAsync (transport/tls_transport_async.py): the flag _is_tls, the reader and
-- the writer.
use adb_shell.Common.{ℕ, ◌≡◌, ◌↔◌, refl, List, Option, none, some, Bool, true, false}
use adb_shell.Exec.{Exec, ◌>>=◌, ◌>>◌, modify, zoom}
use adb_shell.Exec.Rules.{Keeps, Keeps-bind, Keeps-gets, Keeps-zoom}
use adb_shell.Transport.Sockets.{Connection, plain, secure}
use adb_shell.Transport.AsyncStreams.{AsyncStreams}
use adb_shell.Transport.Tls.Upgrade.{Matches, matched_iff}
use adb_shell.Transport.TlsAsync.{
  TlsTransportAsync, new_tls, on_world, upgrade_writer, close, connect, tls_upgrade, bulk_read,
  bulk_write,
}

-- The reader and the writer come and go together.
abbrev pub Pairs : {R X : Type 0} → Option R → Option X → Type 0
Pairs none none = Unit {0}
Pairs (some r) (some x) = Unit {0}
Pairs _ _ = ⊥

abbrev pub IsMatched : {W R C S : Type 0} → TlsTransportAsync W R C S → Type 0
IsMatched t = Matches t.writer t.is_tls × Pairs t.reader t.writer

paired_iff :
    {R X : Type 0} (reader : Option R) (writer : Option X)
    → Pairs reader writer
    → (reader ≡ none) ↔ (writer ≡ none)
paired_iff none none h = ((λ e. refl), (λ e. refl))
paired_iff none (some x) h = absurd h
paired_iff (some r) none h = absurd h
paired_iff (some r) (some x) h = ((λ e. absurd cc), (λ e. absurd cc))

module _ {W R C S P : Type 0} (s : AsyncStreams W R C S P) where
  -- One call of a method, which returned or raised, and the transport that it left.
  pub data Call (t : TlsTransportAsync W R C S) : TlsTransportAsync W R C S → Type 0 where
    close_call : Call t (close s t).1
    connect_call : (timeout : Option ℕ) → Call t (connect s timeout t).1
    upgrade_call : (cert key : List ℕ) (timeout : ℕ) → Call t (tls_upgrade s cert key timeout t).1
    read_call : (numbytes : ℕ) (timeout : Option ℕ) → Call t (bulk_read s numbytes timeout t).1
    write_call : (payload : List ℕ) (timeout : Option ℕ) → Call t (bulk_write s payload timeout t).1

  pub data Calls (t : TlsTransportAsync W R C S) : TlsTransportAsync W R C S → Type 0 where
    here : Calls t t
    next : {u v : TlsTransportAsync W R C S} → Calls t u → Call u v → Calls t v

  on_world-Keeps : {A : Type 0} (m : Exec W A) → Keeps IsMatched (on_world s m)
  on_world-Keeps m = Keeps-zoom _ _ m (λ t h. h)

  close-Keeps : Keeps IsMatched (close s)
  unfolding close
  close-Keeps =
      Keeps-bind _ _ (Keeps-gets _)
        (λ c. Keeps-bind _ _ (on_world-Keeps _) (λ _. record { at = λ t h. (refl, tt) }))

  settled :
      (r : R) (c : C)
      → Keeps (IsMatched {W = W} {R = R} {C = C} {S = S}) (do
        modify (λ t. record t { reader = some r; writer = some (plain c) })
        modify (λ t. record t { is_tls = false }))
  unfolding ◌>>=◌
  settled r c = record { at = λ t h. (refl, tt) }

  connect-Keeps : (timeout : Option ℕ) → Keeps IsMatched (connect s timeout)
  unfolding connect
  connect-Keeps timeout = Keeps-bind _ _ (Keeps-gets _) (λ host.
      Keeps-bind _ _ (Keeps-gets _)
        (λ port. Keeps-bind _ _ (on_world-Keeps _) (λ (r, c). settled r c)))

  module _ (r : R) where
    abbrev Reads : TlsTransportAsync W R C S → Type 0
    Reads t = IsMatched t × (t.reader ≡ some r)

    world-Reads : {A : Type 0} (m : Exec W A) → Keeps Reads (on_world s m)
    world-Reads m = Keeps-zoom _ _ m (λ t h. h)

    -- The flag is set behind the new writer, with nothing that raises in between.
    spliced :
        (protocol : P) (x : S)
        → Keeps Reads (do
          modify (λ t. record t { writer = some (secure x) })
          on_world s (modify (s.set_stream_writer protocol (secure x)))
          modify (λ t. record t { is_tls = true }))
    unfolding ◌>>=◌ zoom
    spliced protocol x = record { at = λ t (h, e). ((refl, rw e tt), e) }

    upgrade-Reads :
        (cert key : List ℕ) (timeout : ℕ) (c : Connection C S)
        → Keeps Reads (upgrade_writer s cert key timeout (some c) (some r) false)
    upgrade-Reads cert key timeout c = Keeps-bind _ _ (world-Reads _) (λ _.
        Keeps-bind _ _ (world-Reads _)
          (λ protocol. Keeps-bind _ _ (world-Reads _) (λ x. spliced protocol x)))

  upgraded :
      (cert key : List ℕ) (timeout : ℕ) (writer : Option (Connection C S)) (reader : Option R)
      (is_tls : Bool) (t : TlsTransportAsync W R C S)
      → t.reader ≡ reader
      → IsMatched t
      → IsMatched (upgrade_writer s cert key timeout writer reader is_tls t).1
  upgraded cert key timeout none reader is_tls t e h = h
  upgraded cert key timeout (some c) none is_tls t e h = h
  upgraded cert key timeout (some c) (some r) true t e h = h
  upgraded cert key timeout (some c) (some r) false t e h =
      ((upgrade-Reads r cert key timeout c).at t (h, e)).0

  tls_upgrade-IsMatched :
      (cert key : List ℕ) (timeout : ℕ) (t : TlsTransportAsync W R C S)
      → IsMatched t
      → IsMatched (tls_upgrade s cert key timeout t).1
  unfolding tls_upgrade ◌>>=◌
  tls_upgrade-IsMatched cert key timeout t h =
      upgraded cert key timeout t.writer t.reader t.is_tls t refl h

  read-Keeps : (numbytes : ℕ) (timeout : Option ℕ) → Keeps IsMatched (bulk_read s numbytes timeout)
  unfolding bulk_read
  read-Keeps numbytes timeout = Keeps-bind _ _ (Keeps-gets _) (λ r. on_world-Keeps _)

  write-Keeps :
      (payload : List ℕ) (timeout : Option ℕ) → Keeps IsMatched (bulk_write s payload timeout)
  unfolding bulk_write
  write-Keeps payload timeout = Keeps-bind _ _ (Keeps-gets _) (λ c. on_world-Keeps _)

  call_keeps : {t u : TlsTransportAsync W R C S} → Call t u → IsMatched t → IsMatched u
  call_keeps {t} close_call h = close-Keeps.at t h
  call_keeps {t} (connect_call timeout) h = (connect-Keeps timeout).at t h
  call_keeps {t} (upgrade_call cert key timeout) h = tls_upgrade-IsMatched cert key timeout t h
  call_keeps {t} (read_call numbytes timeout) h = (read-Keeps numbytes timeout).at t h
  call_keeps {t} (write_call payload timeout) h = (write-Keeps payload timeout).at t h

  calls_keep : {t u : TlsTransportAsync W R C S} → Calls t u → IsMatched t → IsMatched u
  calls_keep here h = h
  calls_keep (next cs c) h = call_keeps c (calls_keep cs h)

  -- After any sequence of calls on a new TlsTransportAsync, whether they returned or raised: _is_tls is
  -- true exactly if the writer writes to a transport in TLS, and there is a reader exactly if there is a
  -- writer.
  pub async_matched :
      (host : List ℕ) (port : ℕ) (w : W) (t : TlsTransportAsync W R C S)
      → Calls (new_tls host port w) t
      → ((t.is_tls ≡ true) ↔ ((c : S) × (t.writer ≡ some (secure c))))
        × ((t.reader ≡ none) ↔ (t.writer ≡ none))
  async_matched host port w t cs =
      let (m, p) = calls_keep cs (refl, tt) in
      (matched_iff t.writer t.is_tls m, paired_iff t.reader t.writer p)
