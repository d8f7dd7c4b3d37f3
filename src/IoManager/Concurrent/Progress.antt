-- ===== src/IoManager/Concurrent/Progress.antt =====
-- Tasks of _AdbIOManager (adb_device.py, adb_device_async.py) in any order: the locks exclude each
-- other's holders, and cannot make all tasks wait.
use adb_shell.Common.{
  ℕ, ◌≡◌, ◌≢◌, refl, sym, ap, ◌∙◌, Bool, true, false, Option, none, some, arith, ◌==◌, inl, inr,
  Bool-cases,
}
use mathlib.Core.Path.{subst}
use adb_shell.Transport.{Transport, Credentials}
use adb_shell.IoManager.Concurrent.{
  Request, Pc, find_wait, find_inside, timer, transport_wait, again_wait, again_inside, receiving,
  put_wait, put_inside, clear_wait, clear_inside, clock, send_wait, send_inside, close_wait,
  connect_wait, connect_inside, connect_store_wait, connect_store_inside, connecting, close_inside,
  close_store_wait, close_store_inside, returned, finished, raised, Shared, Out, acquire_store,
  acquire_transport, move, System, update, begins, IsInitial, Step, pick, Reach, here, later,
}
use adb_shell.IoManager.Concurrent.Locks.{
  holds_transport, holds_store, owns, Handed, Fair, FairOut, move_fair,
}

-- The locks belong to those who stand behind them.
pub record IsLocked {D : Type 0} (s : System D) : Type 0 where
  pub transport_owner : (k : ℕ) → holds_transport (s.tasks k) ≡ owns s.shared.transport_lock k
  pub store_owner : (k : ℕ) → holds_store (s.tasks k) ≡ owns s.shared.store_lock k

at_first : (pc : Pc) → begins pc ≡ true → (holds_transport pc ≡ false) × (holds_store pc ≡ false)
at_first pc e = ground (arith, e)

initial-IsLocked : {D : Type 0} (s : System D) → IsInitial s → IsLocked s
initial-IsLocked s i = record {
  transport_owner =
      λ k. (at_first (s.tasks k) (i.first_line k)).0 ∙ ap (λ l. owns l k) (sym i.transport_free);
  store_owner =
      λ k. (at_first (s.tasks k) (i.first_line k)).1 ∙ ap (λ l. owns l k) (sym i.store_free);
}

same_task : (k j : ℕ) → (k == j) ≡ true → k ≡ j
same_task k j e = ground arith

other_task : (k j : ℕ) → (k == j) ≡ false → j ≢ k
other_task k j e = ground arith

-- One lock, over the move of task k.
lock_kept :
    (f : Pc → Bool) (tasks : ℕ → Pc) (k j : ℕ) (pc : Pc) (lock lock' : Option ℕ)
    → Handed k lock lock' (f pc)
    → f (tasks j) ≡ owns lock j
    → f (update tasks k pc j) ≡ owns lock' j
lock_kept f tasks k j pc lock lock' h e = elim (Bool-cases (k == j)) [
  | inl q ↦ rw q (h.own ∙ ap (λ i. owns lock' i) (same_task k j q))
  | inr q ↦ rw q (e ∙ sym (h.others j (other_task k j q)))
]

module _ {D : Type 0} (t : Transport D) (credentials : Credentials) (fuel : ℕ)
    (requests : ℕ → Request) where
  fair_out :
      (k : ℕ) (s : Shared D) (out : Out D) (pc : Pc) (s' : Shared D)
      → out ≡ some (pc, s')
      → FairOut k s out
      → Fair k s (pc, s')
  fair_out k s out pc s' e h = subst (λ o. FairOut k s o) e h

  IsLocked-once :
      {s s' : System D} → Step t credentials fuel requests s s' → IsLocked s → IsLocked s'
  IsLocked-once {s} (pick k {pc} {shared} e) h =
      let (ft, fs) = fair_out k s.shared _ pc shared e (
        move_fair t credentials fuel k (requests k) (s.tasks k) s.shared (h.transport_owner k)
          (h.store_owner k)) in
      record {
        transport_owner =
            λ j. lock_kept holds_transport s.tasks k j pc _ _ ft (h.transport_owner j);
        store_owner = λ j. lock_kept holds_store s.tasks k j pc _ _ fs (h.store_owner j);
      }

  IsLocked-ever :
      {s s' : System D} → Reach t credentials fuel requests s s' → IsLocked s → IsLocked s'
  IsLocked-ever here h = h
  IsLocked-ever (later r x) h = IsLocked-once x (IsLocked-ever r h)

-- A task that has come to its end.
abbrev pub is_over : Pc → Bool
is_over (returned p) = true
is_over finished = true
is_over (raised e) = true
is_over _ = false

own_is_own : (j : ℕ) → owns (some j) j ≡ true
own_is_own j = ground arith

one_owner : (lock : Option ℕ) (j k : ℕ) → true ≡ owns lock j → true ≡ owns lock k → j ≡ k
one_owner none j k e e' = absurd cc
one_owner (some i) j k e e' = ground (arith, e, e')

module _ {D : Type 0} (t : Transport D) (credentials : Credentials) (fuel : ℕ) where
  abbrev Moves : ℕ → Request → Pc → Shared D → Type 0
  Moves k q pc s = (out : Pc × Shared D) × (move t credentials fuel k q pc s ≡ some out)

  store_in :
      (k : ℕ) (pc : Pc) (s : Shared D) (lock : Option ℕ)
      → lock ≡ none
      → (out : Pc × Shared D) × (acquire_store k pc s lock ≡ some out)
  store_in k pc s lock e = rw e ((pc, record s { store_lock = some k }), refl)

  transport_in :
      (k : ℕ) (pc : Pc) (s : Shared D) (lock : Option ℕ)
      → lock ≡ none
      → (out : Pc × Shared D) × (acquire_transport k pc s lock ≡ some out)
  transport_in k pc s lock e = rw e ((pc, record s { transport_lock = some k }), refl)

  -- Under the store's lock nobody waits.
  under_store :
      (k : ℕ) (q : Request) (pc : Pc) (s : Shared D) → holds_store pc ≡ true → Moves k q pc s
  unfolding move
  under_store k q find_inside s e = (_, refl)
  under_store k q (again_inside start) s e = (_, refl)
  under_store k q (put_inside start p) s e = (_, refl)
  under_store k q (clear_inside start p) s e = (_, refl)
  under_store k q close_store_inside s e = (_, refl)
  under_store k q (connect_store_inside login) s e = (_, refl)
  under_store k q _ s e = absurd cc

  -- Under the transport's lock a task waits for the store's lock at most.
  under_transport :
      (k : ℕ) (q : Request) (pc : Pc) (s : Shared D)
      → holds_transport pc ≡ true
      → s.store_lock ≡ none
      → Moves k q pc s
  unfolding move
  under_transport k q (again_wait start) s e free =
      store_in k (again_inside start) s s.store_lock free
  under_transport k q (again_inside start) s e free = (_, refl)
  under_transport k q (receiving start) s e free = (_, refl)
  under_transport k q (put_wait start p) s e free =
      store_in k (put_inside start p) s s.store_lock free
  under_transport k q (put_inside start p) s e free = (_, refl)
  under_transport k q (clear_wait start p) s e free =
      store_in k (clear_inside start p) s s.store_lock free
  under_transport k q (clear_inside start p) s e free = (_, refl)
  under_transport k q (send_inside m info) s e free = (_, refl)
  under_transport k q close_inside s e free = (_, refl)
  under_transport k q close_store_wait s e free = store_in k close_store_inside s s.store_lock free
  under_transport k q close_store_inside s e free = (_, refl)
  under_transport k q (connect_inside login) s e free = (_, refl)
  under_transport k q (connect_store_wait login) s e free =
      store_in k (connect_store_inside login) s s.store_lock free
  under_transport k q (connect_store_inside login) s e free = (_, refl)
  under_transport k q (connecting login) s e free = (_, refl)
  under_transport k q _ s e free = absurd cc

  under_none :
      (k : ℕ) (q : Request) (pc : Pc) (s : Shared D)
      → is_over pc ≡ false
      → holds_transport pc ≡ false
      → holds_store pc ≡ false
      → s.transport_lock ≡ none
      → s.store_lock ≡ none
      → Moves k q pc s
  unfolding move
  under_none k q find_wait s o a b tf sf = store_in k find_inside s s.store_lock sf
  under_none k q timer s o a b tf sf = (_, refl)
  under_none k q (transport_wait start) s o a b tf sf =
      transport_in k (again_wait start) s s.transport_lock tf
  under_none k q (clock start) s o a b tf sf = (_, refl)
  under_none k q (send_wait m info) s o a b tf sf =
      transport_in k (send_inside m info) s s.transport_lock tf
  under_none k q close_wait s o a b tf sf = transport_in k close_inside s s.transport_lock tf
  under_none k q (connect_wait login) s o a b tf sf =
      transport_in k (connect_inside login) s s.transport_lock tf
  under_none k q _ s o a b tf sf = absurd cc

module _ {D : Type 0} (t : Transport D) (credentials : Credentials) (fuel : ℕ)
    (requests : ℕ → Request) where
  to_next :
      (k : ℕ) (s : System D)
      → Moves t credentials fuel k (requests k) (s.tasks k) s.shared
      → (s' : System D) × Step t credentials fuel requests s s'
  to_next k s ((pc, shared), e) = (_, pick k e)

  by_owner :
      (s : System D) (k : ℕ) (store_lock transport_lock : Option ℕ)
      → IsLocked s
      → is_over (s.tasks k) ≡ false
      → s.shared.store_lock ≡ store_lock
      → s.shared.transport_lock ≡ transport_lock
      → (s' : System D) × Step t credentials fuel requests s s'
  by_owner s k (some j) transport_lock h o sf tf = to_next j s (
      under_store t credentials fuel j (requests j) (s.tasks j) s.shared
        (h.store_owner j ∙ ap (λ l. owns l j) sf ∙ own_is_own j))
  by_owner s k none (some j) h o sf tf = to_next j s (
      under_transport t credentials fuel j (requests j) (s.tasks j) s.shared
        (h.transport_owner j ∙ ap (λ l. owns l j) tf ∙ own_is_own j) sf)
  by_owner s k none none h o sf tf = to_next k s (
      under_none t credentials fuel k (requests k) (s.tasks k) s.shared o
        (h.transport_owner k ∙ ap (λ l. owns l k) tf) (h.store_owner k ∙ ap (λ l. owns l k) sf) tf
        sf)

  -- Tasks that begin at the first lines of `read`, `send`, `connect` and `close` with both locks free, whatever the
  -- transport does and in whatever order they go on: no two tasks stand under the transport's lock at once,
  -- and no two under the store's.
  pub mutual_exclusion :
      (s s' : System D) (j k : ℕ)
      → IsInitial s
      → Reach t credentials fuel requests s s'
      → (holds_transport (s'.tasks j) ≡ true → holds_transport (s'.tasks k) ≡ true → j ≡ k)
        × (holds_store (s'.tasks j) ≡ true → holds_store (s'.tasks k) ≡ true → j ≡ k)
  mutual_exclusion s s' j k i r =
      let h = IsLocked-ever t credentials fuel requests r (initial-IsLocked s i) in
      (
        λ a b.
            one_owner s'.shared.transport_lock j k (sym a ∙ h.transport_owner j)
              (sym b ∙ h.transport_owner k),
        λ a b.
            one_owner s'.shared.store_lock j k (sym a ∙ h.store_owner j) (sym b ∙ h.store_owner k),
      )

  -- Tasks that begin at the first lines of `read`, `send`, `connect` and `close` with both locks free: in whatever
  -- order they go on, there is no deadlock. As long as a task is not over, some task has a move.
  pub no_deadlock :
      (s s' : System D) (k : ℕ)
      → IsInitial s
      → Reach t credentials fuel requests s s'
      → is_over (s'.tasks k) ≡ false
      → (s'' : System D) × Step t credentials fuel requests s' s''
  no_deadlock s s' k i r o =
      by_owner s' k s'.shared.store_lock s'.shared.transport_lock
        (IsLocked-ever t credentials fuel requests r (initial-IsLocked s i)) o refl refl
