-- ===== src/Tests/Sockets.antt =====
-- The TCP and TLS transports over sockets that count what they send.
use adb_shell.Common.{ℕ, ◌≡◌, ◌↔◌, refl, List, [], ◌∷◌, ◌++◌, Option, some, true, length, take, min}
use adb_shell.Errors.{ok}
use adb_shell.Exec.{◌>>=◌, zoom}
use adb_shell.Transport.Sockets.{Sockets, Connection, secure, translate}
use adb_shell.Transport.Tls
use adb_shell.Transport.Tls.{TlsTransport, new_tls}
use adb_shell.Transport.Tls.Upgrade.{
  connect_call, upgrade_call, Calls, here, next, IsFresh, reachable_matched,
}

-- The world is what went out; a send takes two bytes at most.
abbrev short_sends : Sockets (List ℕ) (Unit {0}) (Unit {0})
short_sends = record {
  create_connection = λ host port timeout w. (ok tt, w);
  set_timeout = λ timeout c w. (ok tt, w);
  set_non_blocking = λ c w. (ok tt, w);
  shutdown = λ c w. (ok tt, w);
  close = λ c w. (ok tt, w);
  recv = λ n c w. (ok (take n (1 ∷ [])), w);
  send = λ payload c w. (ok (min 2 (length payload)), w ++ take (min 2 (length payload)) payload);
  wait_read = λ timeout c w. (ok true, w);
  wait_write = λ timeout c w. (ok true, w);
  ssl_context = λ cert key w. (ok tt, w);
  wrap_socket = λ cert key c w. (ok tt, w);
}

short_sends-IsFresh : IsFresh short_sends
short_sends-IsFresh = record { takes_timeout = λ host port timeout w c e. refl }

abbrev tls_new : TlsTransport (List ℕ) (Unit {0}) (Unit {0})
tls_new = new_tls (b'h' ∷ []) 5555 []

abbrev tls_done : TlsTransport (List ℕ) (Unit {0}) (Unit {0})
tls_done = record tls_new { connection = some (secure tt); is_tls = true }

history : Calls short_sends tls_new tls_done
unfolding Tls.connect Tls.tls_upgrade ◌>>=◌ zoom translate
history = next (next here (connect_call (some 9))) (upgrade_call [] [] 10000000)

reachable_matched_example : (true ≡ true) ↔ (
    (c : Unit {0}) × (◌≡◌ {A = Option (Connection (Unit {0}) (Unit {0}))}
      (some (secure tt))
      (some (secure c))))
reachable_matched_example =
    reachable_matched short_sends short_sends-IsFresh (b'h' ∷ []) 5555 [] tls_done history
