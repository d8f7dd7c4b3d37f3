-- ===== src/IoManager/Read/Drain.antt =====
-- The loop over the packet store in `read` of _AdbIOManager (adb_device.py).
use adb_shell.Common.{
  ℕ, zero, suc, ◌<◌, ◌≡◌, refl, List, [], ◌∷◌, Bool, true, false, Option, none, some, arith,
  if◌then◌else◌, Bool-cases, Option-cases, inl, inr, ◌∙◌, ap,
}
use adb_shell.Errors.{Result, ok}
use adb_shell.Exec.{◌>>=◌}
use adb_shell.Constants.{Command}
use adb_shell.TransactionInfo.{AdbInfo, args_match}
use adb_shell.PacketStore
use adb_shell.PacketStore.{PacketStore, Packet, Queue, Entry, is_nonempty, pop_at}
use adb_shell.PacketStore.Dicts.{IsValid}
use adb_shell.PacketStore.View.{
  entry, queue_at, or_empty, pop_at_lem, entry-pop_at, packet_of, same_pair,
}
use adb_shell.PacketStore.Find.{
  find_sound, find_complete, find_allow_zeros_sound, find_allow_zeros_complete,
}
use adb_shell.PacketStore.Get.{size, pop_at-IsValid, size-pop_at}
use adb_shell.IoManager.{is_expected}
use adb_shell.IoManager.Read.{find_for, drain_from, drain}

module _ (expected : List Command) (info : AdbInfo) (allow_zeros : Bool) where
  -- A pair of ids, or a packet, of the stream that is read.
  abbrev pub IsOurs : ℕ → ℕ → Type 0
  IsOurs arg0 arg1 = args_match info arg0 arg1 allow_zeros ≡ true

  abbrev pub IsForeign : ℕ → ℕ → Type 0
  IsForeign arg0 arg1 = args_match info arg0 arg1 allow_zeros ≡ false

  abbrev pub IsWanted : Packet → Type 0
  IsWanted p = (is_expected p.cmd expected ≡ true) × IsOurs p.arg0 p.arg1

pub find_for_sound :
    (info : AdbInfo) (allow_zeros : Bool) (l : ℕ) (s : PacketStore) (k0 k1 : ℕ)
    → info.local_id ≡ some l
    → IsValid s
    → find_for info allow_zeros s ≡ some (k0, k1)
    → (args_match info k0 k1 allow_zeros ≡ true) × (is_nonempty (queue_at k0 k1 s) ≡ true)
unfolding find_for args_match
find_for_sound info true l s k0 k1 h v e =
    ground (arith, find_allow_zeros_sound info.remote_id info.local_id s k0 k1 v e)
find_for_sound info false l s k0 k1 h v e =
    ground (arith, find_sound info.remote_id info.local_id s k0 k1 v e)

find_for_complete :
    (info : AdbInfo) (allow_zeros : Bool) (l : ℕ) (s : PacketStore) (k0 k1 : ℕ)
    → info.local_id ≡ some l
    → find_for info allow_zeros s ≡ none
    → args_match info k0 k1 allow_zeros ≡ true
    → is_nonempty (queue_at k0 k1 s) ≡ false
unfolding find_for args_match
find_for_complete info true l s k0 k1 h e m =
    ground (arith, find_allow_zeros_complete info.remote_id info.local_id s k0 k1 e)
find_for_complete info false l s k0 k1 h e m =
    ground (arith, find_complete info.remote_id info.local_id s k0 k1 e)

-- A queue with a packet has a first one.
head_of :
    (k0 k1 : ℕ) (s : PacketStore)
    → is_nonempty (queue_at k0 k1 s) ≡ true
    → (e : Entry) × (q : Queue) × (entry k0 k1 s ≡ some (e ∷ q))
head_of k0 k1 s h = go (entry k0 k1 s) refl h
  where
    go :
        (o : Option Queue)
        → entry k0 k1 s ≡ o
        → is_nonempty (or_empty o) ≡ true
        → (e : Entry) × (q : Queue) × (entry k0 k1 s ≡ some (e ∷ q))
    go none p n = cc
    go (some []) p n = cc
    go (some (e ∷ q)) p n = (e, q, p)

-- Our packets only: two pairs of ids that the same test tells apart are not the same pair.
pub foreign-ne-ours :
    (info : AdbInfo) (allow_zeros : Bool) (k0 k1 b0 b1 : ℕ)
    → args_match info k0 k1 allow_zeros ≡ true
    → args_match info b0 b1 allow_zeros ≡ false
    → same_pair k0 k1 b0 b1 ≡ false
foreign-ne-ours info allow_zeros k0 k1 b0 b1 p q = ground arith

module _ (expected : List Command) (info : AdbInfo) (allow_zeros : Bool) where
  -- What the loop over the store leaves and returns.
  pub record Drained (s : PacketStore) (r : Result (Option Packet)) (s' : PacketStore)
      : Type 0 where
    pub found : Option Packet
    pub returned : r ≡ ok found
    pub valid : IsValid s'
    pub others :
        (b0 b1 : ℕ) → IsForeign expected info allow_zeros b0 b1 → entry b0 b1 s' ≡ entry b0 b1 s
    pub wanted : (p : Packet) → found ≡ some p → IsWanted expected info allow_zeros p
    pub emptied : found ≡ none → find_for info allow_zeros s' ≡ none

  drain_nothing :
      (fuel : ℕ) (s : PacketStore)
      → find_for info allow_zeros s ≡ none
      → drain_from (suc fuel) expected info allow_zeros s ≡ (ok none, s)
  unfolding drain_from
  drain_nothing fuel s e = ground arith

  drain_step :
      (fuel : ℕ) (s : PacketStore) (k0 k1 : ℕ) (cmd : Command) (payload : List ℕ) (q : Queue)
      → find_for info allow_zeros s ≡ some (k0, k1)
      → entry k0 k1 s ≡ some ((cmd, payload) ∷ q)
      → drain_from (suc fuel) expected info allow_zeros s ≡ (
          if is_expected cmd expected
          then (ok (some (packet_of cmd k0 k1 payload)), (pop_at k0 k1 s).1)
          else drain_from fuel expected info allow_zeros (pop_at k0 k1 s).1)
  unfolding drain_from PacketStore.get ◌>>=◌
  drain_step fuel s k0 k1 cmd payload q e g = ground (arith, pop_at_lem k0 k1 s g)

  module _ (s : PacketStore) (k0 k1 : ℕ) (cmd : Command) (payload : List ℕ) (q : Queue) where
    -- Taking one of our packets leaves the other streams alone.
    pop_others :
        IsOurs expected info allow_zeros k0 k1
        → entry k0 k1 s ≡ some ((cmd, payload) ∷ q)
        → (b0 b1 : ℕ) → IsForeign expected info allow_zeros b0 b1
        → entry b0 b1 (pop_at k0 k1 s).1 ≡ entry b0 b1 s
    pop_others ours g b0 b1 f =
        ground
          (arith, entry-pop_at k0 k1 s g b0 b1, foreign-ne-ours info allow_zeros k0 k1 b0 b1 ours f)

    hit :
        IsValid s
        → IsOurs expected info allow_zeros k0 k1
        → entry k0 k1 s ≡ some ((cmd, payload) ∷ q)
        → is_expected cmd expected ≡ true
        → Drained s (ok (some (packet_of cmd k0 k1 payload))) (pop_at k0 k1 s).1
    hit v ours g x = record {
      found = some (packet_of cmd k0 k1 payload);
      returned = refl;
      valid = pop_at-IsValid k0 k1 s v;
      others = pop_others ours g;
      wanted = λ p e. ground arith;
      emptied = λ e. cc;
    }

    miss :
        IsOurs expected info allow_zeros k0 k1
        → entry k0 k1 s ≡ some ((cmd, payload) ∷ q)
        → {r : Result (Option Packet)} {s' : PacketStore} → Drained (pop_at k0 k1 s).1 r s'
        → Drained s r s'
    miss ours g d = record {
      found = d.found;
      returned = d.returned;
      valid = d.valid;
      others = λ b0 b1 f. d.others b0 b1 f ∙ pop_others ours g b0 b1 f;
      wanted = d.wanted;
      emptied = d.emptied;
    }

  module _ (l : ℕ) (own : info.local_id ≡ some l) where
    drain_from_lem :
        (fuel : ℕ) (s : PacketStore)
        → IsValid s
        → size s < fuel
        → let (r, s') = drain_from fuel expected info allow_zeros s in Drained s r s'
    drain_from_lem zero s v h = absurd (omega arith)
    drain_from_lem (suc fuel) s v h = elim (Option-cases (find_for info allow_zeros s)) [
      | inl e ↦ rw (drain_nothing fuel s e) (record {
        found = none;
        returned = refl;
        valid = v;
        others = λ b0 b1 f. refl;
        wanted = λ p q. cc;
        emptied = λ q. e;
      })
      | inr ((k0, k1), e) ↦
          let (ours, n) = find_for_sound info allow_zeros l s k0 k1 own v e in
          let ((cmd, payload), q, g) = head_of k0 k1 s n in
          let rest =
            drain_from_lem fuel (pop_at k0 k1 s).1 (pop_at-IsValid k0 k1 s v)
              (omega (arith, size-pop_at k0 k1 s n)) in
          elim (Bool-cases (is_expected cmd expected)) [
            | inl x ↦
                rw (drain_step fuel s k0 k1 cmd payload q e g, x)
                  (hit s k0 k1 cmd payload q v ours g x)
            | inr x ↦
                rw (drain_step fuel s k0 k1 cmd payload q e g, x)
                  (miss s k0 k1 cmd payload q ours g rest)
          ]
    ]

    pub drain_lem :
        (s : PacketStore)
        → IsValid s
        → let (r, s') = drain expected info allow_zeros s in Drained s r s'
    unfolding drain
    drain_lem s v = drain_from_lem (suc (size s)) s v (omega arith)

-- With nothing to find, the loop ends at once.
pub drain_idle :
    (expected : List Command) (info : AdbInfo) (allow_zeros : Bool) (s : PacketStore)
    → find_for info allow_zeros s ≡ none
    → drain expected info allow_zeros s ≡ (ok none, s)
unfolding drain
drain_idle expected info allow_zeros s e = drain_nothing expected info allow_zeros (size s) s e

pair_eq : {A B : Type 0} {p : A × B} {a : A} → p.0 ≡ a → p ≡ (a, p.1)
pair_eq {p} e = ap (λ x. (x, p.1)) e

-- For a stream with a local id and in a valid store, the loop over the store at the start of `read`
-- ends and raises nothing. It leaves
-- every queue of another stream as it was. It returns an expected packet of its own stream, or
-- nothing, and then no packet of its own stream is left waiting.
pub drain_cases :
    (expected : List Command) (info : AdbInfo) (allow_zeros : Bool) (l : ℕ) (s : PacketStore)
    → info.local_id ≡ some l
    → IsValid s
    → (found : Option Packet) × (s' : PacketStore) × (drain expected info allow_zeros s
        ≡ (ok found, s'))
      × IsValid s'
      × ((b0 b1 : ℕ) → IsForeign expected info allow_zeros b0 b1 → entry b0 b1 s' ≡ entry b0 b1 s)
      × ((p : Packet) → found ≡ some p → IsWanted expected info allow_zeros p)
      × (found ≡ none
          → (b0 b1 : ℕ) → IsOurs expected info allow_zeros b0 b1
          → is_nonempty (queue_at b0 b1 s') ≡ false)
drain_cases expected info allow_zeros l s own v =
    let d = drain_lem expected info allow_zeros l own s v in
    let s' = (drain expected info allow_zeros s).1 in
    (
      d.found,
      s',
      pair_eq d.returned,
      d.valid,
      d.others,
      d.wanted,
      λ e b0 b1 ours. find_for_complete info allow_zeros l s' b0 b1 own (d.emptied e) ours,
    )
