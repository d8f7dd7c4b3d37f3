-- ===== src/IoManager/Invariant.antt =====
-- _AdbIOManager (adb_device.py) and the validity of its packet store.
use adb_shell.Common.{
  ℕ, zero, suc, ◌≡◌, refl, List, [], ◌∷◌, Bool, Option, none, some, Option-cases, inl, inr,
}
use adb_shell.Errors.{Error, out_of_fuel, device_auth, invalid_response}
use adb_shell.Exec.{Exec, ◌>>=◌, zoom, modify}
use adb_shell.Exec.Rules.{
  Keeps, Keeps-zoom, Keeps-pure, Keeps-raise, Keeps-lift, Keeps-if, Keeps-bind, keeps_rules,
}
use adb_shell.Constants.{Command}
use adb_shell.TransactionInfo.{AdbInfo}
use adb_shell.PacketStore
use adb_shell.PacketStore.{PacketStore, Packet, pop_at}
use adb_shell.PacketStore.Dicts.{IsValid, clear_all-IsValid}
use adb_shell.PacketStore.Get.{size, put-IsValid, clear-IsValid, pop_at-IsValid}
use adb_shell.Transport.{Transport, Signer, Credentials}
use adb_shell.IoManager.{IoManager, on_transport, on_store, close}
use adb_shell.IoManager.Read.{
  find_for, drain_from, drain, sort_packet, found_or_next, read_round, done_or, unless_late_io,
  read_loop, read,
}
use adb_shell.IoManager.Connect.{
  refuse, upgrade_with, do_stls_upgrade, try_keys, await_cnxn, run_callback, accepted_or, offer_key,
  authenticate, handshake, reset, connect,
}

module _ {D : Type 0} where
  abbrev pub IsSound : IoManager D → Type 0
  IsSound io = IsValid io.store

  pub on_transport-IsSound : {A : Type 0} (m : Exec D A) → Keeps IsSound (on_transport m)
  on_transport-IsSound m = Keeps-zoom _ _ m (λ io h. h)

  on_store-IsSound :
      {A : Type 0} (m : Exec PacketStore A) → Keeps IsValid m → Keeps IsSound (on_store m)
  on_store-IsSound m k = Keeps-zoom _ _ m (λ io h. k.at io.store h)

modify-IsValid :
    (f : PacketStore → PacketStore)
    → ((s : PacketStore) → IsValid s → IsValid (f s))
    → Keeps IsValid (modify f)
modify-IsValid f h = record { at = h }

pop_at-Keeps : (k0 k1 : ℕ) → Keeps IsValid (PacketStore.get (some k0) (some k1))
unfolding PacketStore.get
pop_at-Keeps k0 k1 = record { at = pop_at-IsValid k0 k1 }

drain_from-Keeps :
    (fuel : ℕ) (expected : List Command) (info : AdbInfo) (allow_zeros : Bool)
    → Keeps IsValid (drain_from fuel expected info allow_zeros)
unfolding drain_from
drain_from-Keeps zero expected info allow_zeros = record { at = λ s v. v }
drain_from-Keeps (suc fuel) expected info allow_zeros = record {
  at = λ s v. elim (Option-cases (find_for info allow_zeros s)) [
    | inl e ↦ rw (e, drain_from) v
    | inr ((k0, k1), e) ↦
        rw (e, drain_from)
          ((Keeps-bind _ _ (pop_at-Keeps k0 k1) (λ p.
              Keeps-if _ _ _ (Keeps-pure (some p))
                (drain_from-Keeps fuel expected info allow_zeros))).at
            s v)
  ];
}

drain-Keeps :
    (expected : List Command) (info : AdbInfo) (allow_zeros : Bool)
    → Keeps IsValid (drain expected info allow_zeros)
unfolding drain
drain-Keeps expected info allow_zeros = record {
  at = λ s v. (drain_from-Keeps (suc (size s)) expected info allow_zeros).at s v;
}

put-Keeps :
    (arg0 arg1 : ℕ) (cmd : Command) (payload : List ℕ)
    → Keeps IsValid (modify (PacketStore.put arg0 arg1 cmd payload))
put-Keeps arg0 arg1 cmd payload = modify-IsValid _ (λ s v. put-IsValid arg0 arg1 s v cmd payload)

clear-Keeps : (arg0 arg1 : ℕ) → Keeps IsValid (modify (PacketStore.clear arg0 arg1))
clear-Keeps arg0 arg1 = modify-IsValid _ (λ s v. clear-IsValid arg0 arg1 s v)

clear_all-Keeps : Keeps IsValid (modify (λ s. PacketStore.clear_all))
clear_all-Keeps = modify-IsValid _ (λ s v. clear_all-IsValid)

ruleset io_rules = (
  keeps_rules, on_transport-IsSound, on_store-IsSound, drain-Keeps, put-Keeps, clear-Keeps,
  clear_all-Keeps,
)

module _ {D : Type 0} (t : Transport D) where
  sort_packet-Keeps :
      (expected : List Command) (info : AdbInfo) (allow_zeros : Bool) (p : Packet)
      → Keeps IsSound (sort_packet t expected info allow_zeros p)
  unfolding sort_packet
  sort_packet-Keeps expected info allow_zeros p = search io_rules

  pub close-Keeps : Keeps IsSound (close t)
  unfolding close
  close-Keeps = search io_rules

  pub found_or_next-Keeps :
      (fuel : ℕ) (expected : List Command) (info : AdbInfo) (allow_zeros : Bool)
      (found : Option Packet)
      → Keeps IsSound (found_or_next t fuel expected info allow_zeros found)
  unfolding found_or_next
  found_or_next-Keeps fuel expected info allow_zeros (some p) = Keeps-pure (some p)
  found_or_next-Keeps fuel expected info allow_zeros none =
      Keeps-bind _ _ (on_transport-IsSound _) (sort_packet-Keeps expected info allow_zeros)

  pub read_round-Keeps :
      (fuel : ℕ) (expected : List Command) (info : AdbInfo) (allow_zeros : Bool)
      → Keeps IsSound (read_round t fuel expected info allow_zeros)
  unfolding read_round
  read_round-Keeps fuel expected info allow_zeros =
      Keeps-bind _ _ (on_store-IsSound _ (drain-Keeps expected info allow_zeros))
        (found_or_next-Keeps fuel expected info allow_zeros)

  done_or-Keeps :
      (found : Option Packet) (rest : Exec (IoManager D) Packet)
      → Keeps IsSound rest
      → Keeps IsSound (done_or t found rest)
  done_or-Keeps (some p) rest k = Keeps-pure p
  done_or-Keeps none rest k = k

  read_loop-Keeps :
      (rounds fuel start : ℕ) (expected : List Command) (info : AdbInfo) (allow_zeros : Bool)
      → Keeps IsSound (read_loop t rounds fuel start expected info allow_zeros)
  unfolding read_loop unless_late_io
  read_loop-Keeps zero fuel start expected info allow_zeros = Keeps-raise out_of_fuel
  read_loop-Keeps (suc rounds) fuel start expected info allow_zeros =
      Keeps-bind _ _ (read_round-Keeps fuel expected info allow_zeros) (λ found.
        done_or-Keeps found _ (
          Keeps-bind _ _ (on_transport-IsSound _)
            (λ _. read_loop-Keeps rounds fuel start expected info allow_zeros)))

  pub read-Keeps :
      (fuel : ℕ) (expected : List Command) (info : AdbInfo) (allow_zeros : Bool)
      → Keeps IsSound (read t fuel expected info allow_zeros)
  unfolding read
  read-Keeps fuel expected info allow_zeros =
      Keeps-bind _ _ (on_store-IsSound _ (drain-Keeps expected info allow_zeros)) (λ found.
        done_or-Keeps found _ (
          Keeps-bind _ _ (on_transport-IsSound _)
            (λ start. read_loop-Keeps fuel fuel start expected info allow_zeros)))

-- The steps of `connect` behind the reset touch the store only through the user's callback.
module _ {D : Type 0} (t : Transport D) (credentials : Credentials) {P : IoManager D → Type 0}
    (transport_keeps : (io : IoManager D) (d : D) → P io → P (record io { transport = d })) where
  on_transport-Keeps : {A : Type 0} (m : Exec D A) → Keeps P (on_transport m)
  on_transport-Keeps m = Keeps-zoom _ _ m (λ io h. transport_keeps io (m io.transport).1 h)

  refuse-Keeps : {A : Type 0} (e : Error) → Keeps P (refuse t credentials {A = A} e)
  unfolding refuse
  refuse-Keeps e = Keeps-bind _ _ (on_transport-Keeps _) (λ _. Keeps-raise e)

  upgrade_with-Keeps :
      (pem : List ℕ) (info : AdbInfo) (up : Option (List ℕ → List ℕ → Exec D (Unit {0})))
      → Keeps P (upgrade_with t credentials pem info up)
  unfolding upgrade_with
  upgrade_with-Keeps pem info none = refuse-Keeps device_auth
  upgrade_with-Keeps pem info (some upgrade) =
      Keeps-bind _ _ (Keeps-lift _)
        (λ c. Keeps-bind _ _ (on_transport-Keeps _) (λ _. on_transport-Keeps _))

  do_stls_upgrade-Keeps :
      (pem : Option (List ℕ)) (info : AdbInfo) → Keeps P (do_stls_upgrade t credentials pem info)
  unfolding do_stls_upgrade
  do_stls_upgrade-Keeps none info = refuse-Keeps device_auth
  do_stls_upgrade-Keeps (some pem) info = upgrade_with-Keeps pem info t.tls_upgrade

  try_keys-Keeps :
      (fuel : ℕ) (keys : List Signer) (p : Packet) (info : AdbInfo)
      → Keeps P (try_keys t credentials fuel keys p info)
  unfolding try_keys
  try_keys-Keeps fuel [] p info = Keeps-pure none
  try_keys-Keeps fuel (key ∷ keys) p info =
      Keeps-if _ _ _
        (Keeps-bind _ _ (Keeps-lift _) (λ signed. Keeps-bind _ _ (on_transport-Keeps _) (λ _.
          Keeps-bind _ _ (on_transport-Keeps _)
            (λ q. Keeps-if _ _ _ (Keeps-pure _) (try_keys-Keeps fuel keys q info)))))
        (refuse-Keeps invalid_response)

  await_cnxn-Keeps :
      (fuel : ℕ) (timeout : Option ℕ) (info : AdbInfo)
      → Keeps P (await_cnxn t credentials fuel timeout info)
  unfolding await_cnxn
  await_cnxn-Keeps fuel timeout info = search (keeps_rules, on_transport-Keeps)

  module _ (callback : Option (Exec (IoManager D) (Unit {0})))
      (callback_keeps : Keeps P (run_callback t credentials callback)) where
    offer_key-Keeps :
        (fuel : ℕ) (key : Signer) (timeout : Option ℕ) (info : AdbInfo)
        → Keeps P (offer_key t credentials fuel key timeout callback info)
    unfolding offer_key
    offer_key-Keeps fuel key timeout info = Keeps-bind _ _ (Keeps-lift _) (λ pubkey.
        Keeps-bind _ _ callback_keeps
          (λ _. Keeps-bind _ _ (on_transport-Keeps _) (λ _. await_cnxn-Keeps fuel timeout info)))

    accepted_or-Keeps :
        (offer : Exec (IoManager D) ℕ) (accepted : Option ℕ)
        → Keeps P offer
        → Keeps P (accepted_or t credentials offer accepted)
    accepted_or-Keeps offer (some maxdata) k = Keeps-pure maxdata
    accepted_or-Keeps offer none k = k

    authenticate-Keeps :
        (fuel : ℕ) (keys : List Signer) (timeout : Option ℕ) (info : AdbInfo) (p : Packet)
        → Keeps P (authenticate t credentials fuel keys timeout callback info p)
    unfolding authenticate
    authenticate-Keeps fuel [] timeout info p = refuse-Keeps device_auth
    authenticate-Keeps fuel (key ∷ keys) timeout info p =
        Keeps-bind _ _ (try_keys-Keeps fuel (key ∷ keys) p info)
          (λ accepted. accepted_or-Keeps _ accepted (offer_key-Keeps fuel key timeout info))

    handshake-Keeps :
        (fuel : ℕ) (banner : List ℕ) (keys : List Signer) (timeout : Option ℕ) (info : AdbInfo)
        (pem : Option (List ℕ))
        → Keeps P (handshake t credentials fuel banner keys timeout callback info pem)
    unfolding handshake
    handshake-Keeps fuel banner keys timeout info pem = Keeps-bind _ _ (on_transport-Keeps _) (λ _.
        Keeps-bind _ _ (on_transport-Keeps _) (λ _. Keeps-bind _ _ (on_transport-Keeps _) (λ p.
          Keeps-if _ _ _
            (Keeps-bind _ _ (do_stls_upgrade-Keeps pem info)
              (λ _. await_cnxn-Keeps fuel timeout info))
            (Keeps-if _ _ _ (authenticate-Keeps fuel keys timeout info p) (Keeps-pure p.arg1)))))

    -- What holds of the cleared store holds at the end.
    connect-Keeps :
        (fuel : ℕ) (banner : List ℕ) (keys : List Signer) (timeout : Option ℕ) (info : AdbInfo)
        (pem : Option (List ℕ)) (io : IoManager D)
        → ((d : D) → P (record { store = PacketStore.clear_all; transport = d }))
        → P (connect t credentials fuel banner keys timeout callback info pem io).1
    unfolding connect reset ◌>>=◌ zoom
    connect-Keeps fuel banner keys timeout info pem io cleared =
        (handshake-Keeps fuel banner keys timeout info pem).at _ (cleared (t.close io.transport))

module _ {D : Type 0} (t : Transport D) (credentials : Credentials) where
  -- The store is valid after `connect` from any manager, if the callback keeps it so.
  pub connect-IsSound :
      (fuel : ℕ) (banner : List ℕ) (keys : List Signer) (timeout : Option ℕ)
      (callback : Option (Exec (IoManager D) (Unit {0}))) (info : AdbInfo) (pem : Option (List ℕ))
      → Keeps IsSound (run_callback t credentials callback)
      → Keeps IsSound (connect t credentials fuel banner keys timeout callback info pem)
  connect-IsSound fuel banner keys timeout callback info pem k = record {
    at = λ io h.
        connect-Keeps t credentials (λ io d p. p) callback k fuel banner keys timeout info pem io
          (λ d. clear_all-IsValid);
  }

  -- The same, of the part of `connect` that follows the reset.
  pub handshake-IsSound :
      (fuel : ℕ) (banner : List ℕ) (keys : List Signer) (timeout : Option ℕ)
      (callback : Option (Exec (IoManager D) (Unit {0}))) (info : AdbInfo) (pem : Option (List ℕ))
      → Keeps IsSound (run_callback t credentials callback)
      → Keeps IsSound (handshake t credentials fuel banner keys timeout callback info pem)
  handshake-IsSound fuel banner keys timeout callback info pem k =
      handshake-Keeps t credentials (λ io d p. p) callback k fuel banner keys timeout info pem

-- Whatever the store held before, and whether `connect` returns or raises, the store is empty after
-- it, if the callback does not touch the store: no packet of an old connection is left.
pub connect_clears_store :
    {D : Type 0} (t : Transport D) (credentials : Credentials) (fuel : ℕ) (banner : List ℕ)
    (keys : List Signer) (timeout : Option ℕ) (callback : Option (Exec (IoManager D) (Unit {0})))
    (info : AdbInfo) (pem : Option (List ℕ)) (io : IoManager D)
    → Keeps (λ io. io.store ≡ PacketStore.clear_all) (run_callback t credentials callback)
    → (connect t credentials fuel banner keys timeout callback info pem io).1.store
      ≡ PacketStore.clear_all
connect_clears_store t credentials fuel banner keys timeout callback info pem io k =
    connect-Keeps t credentials (λ io d p. p) callback k fuel banner keys timeout info pem io
      (λ d. refl)
