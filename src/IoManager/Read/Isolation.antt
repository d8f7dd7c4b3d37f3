-- ===== src/IoManager/Read/Isolation.antt =====
-- `read` of _AdbIOManager (adb_device.py) and the streams that it is not reading.
use adb_shell.Common.{
  ℕ, zero, suc, ◌≡◌, refl, List, [], ◌∷◌, ◌++◌, Bool, true, false, Option, none, some, ap, sym, ◌∙◌,
  if◌then◌else◌, arith,
}
use mathlib.Core.List.{append-nil, append_assoc}
use adb_shell.Errors.{Result, ok, err, out_of_fuel}
use adb_shell.Exec.{Exec, zoom, modify}
use adb_shell.Exec.Rules.{
  Keeps, Keeps-zoom, Keeps-pure, Keeps-if, Yields, OfValue, OfValue-ok, Yields-pure, Yields-raise,
  Yields-if, Yields-Any, Yields-bind,
}
use adb_shell.Constants.{Command, same_command, clse}
use adb_shell.TransactionInfo.{AdbInfo}
use adb_shell.PacketStore
use adb_shell.PacketStore.{PacketStore, Packet, Queue}
use adb_shell.PacketStore.Dicts.{IsValid}
use adb_shell.PacketStore.View.{entry, or_empty, queue_at, same_pair, entry-put, entry-clear}
use adb_shell.PacketStore.Get.{put-IsValid, clear-IsValid}
use adb_shell.Transport.{Transport}
use adb_shell.IoManager.{IoManager, is_expected, on_transport, on_store}
use adb_shell.IoManager.Packets.{read_packet}
use adb_shell.IoManager.Read.{
  drain, sort_packet, found_or_next, read_round, done_or, unless_late_io, read_loop, read,
}
use adb_shell.IoManager.Read.Drain.{
  IsOurs, IsForeign, IsWanted, Drained, drain_lem, foreign-ne-ours,
}

-- `t` holds what `s` holds, and more behind it.
abbrev pub Grew : Queue → Queue → Type 0
Grew s t = (more : Queue) × (t ≡ s ++ more)

pub Grew-refl : (q : Queue) → Grew q q
Grew-refl q = ([], sym (append-nil q))

pub Grew-trans : (a b c : Queue) → Grew a b → Grew b c → Grew a c
Grew-trans a b c (x, p) (y, q) = (x ++ y, q ∙ ap (λ w. w ++ y) p ∙ append_assoc a x y)

-- What `put` at one pair of ids adds to the queue at another.
abbrev arrived : Bool → Command → List ℕ → Option Queue → Queue
arrived false cmd payload old = []
arrived true cmd payload (some queue) = (cmd, payload) ∷ []
arrived true cmd payload none = if same_command cmd clse then [] else (cmd, payload) ∷ []

pub Grew-put :
    (a0 a1 b0 b1 : ℕ) (cmd : Command) (payload : List ℕ) (s : PacketStore)
    → Grew (queue_at b0 b1 s) (queue_at b0 b1 (PacketStore.put a0 a1 cmd payload s))
Grew-put a0 a1 b0 b1 cmd payload s = (
  arrived (same_pair a0 a1 b0 b1) cmd payload (entry b0 b1 s),
  ground (arith, entry-put a0 a1 b0 b1 cmd payload s, append-nil (queue_at b0 b1 s)),
)

module _ (expected : List Command) (info : AdbInfo) (allow_zeros : Bool) (s0 : PacketStore) where
  -- Every queue of another stream holds what it held in `s0`, and more behind it.
  pub record IsKept (s : PacketStore) : Type 0 where
    pub valid : IsValid s
    pub others :
        (b0 b1 : ℕ)
        → IsForeign expected info allow_zeros b0 b1
        → Grew (queue_at b0 b1 s0) (queue_at b0 b1 s)

  put-IsKept :
      (arg0 arg1 : ℕ) (cmd : Command) (payload : List ℕ) (s : PacketStore)
      → IsKept s
      → IsKept (PacketStore.put arg0 arg1 cmd payload s)
  put-IsKept arg0 arg1 cmd payload s k = record {
    valid = put-IsValid arg0 arg1 s k.valid cmd payload;
    others =
        λ b0 b1 f. Grew-trans _ _ _ (k.others b0 b1 f) (Grew-put arg0 arg1 b0 b1 cmd payload s);
  }

  drain-IsKept :
      (s : PacketStore) {r : Result (Option Packet)} {s' : PacketStore}
      → IsKept s
      → Drained expected info allow_zeros s r s'
      → IsKept s'
  drain-IsKept s k d = record {
    valid = d.valid;
    others =
        λ b0 b1 f. let (more, e) = k.others b0 b1 f in (more, ap or_empty (d.others b0 b1 f) ∙ e);
  }

  clear-IsKept :
      (arg0 arg1 : ℕ) (s : PacketStore)
      → IsOurs expected info allow_zeros arg0 arg1
      → IsKept s
      → IsKept (PacketStore.clear arg0 arg1 s)
  clear-IsKept arg0 arg1 s ours k = record {
    valid = clear-IsValid arg0 arg1 s k.valid;
    others = λ b0 b1 f.
        let (more, e) = k.others b0 b1 f in
        (
          more,
          ground (
            arith,
            e,
            entry-clear arg0 arg1 b0 b1 s,
            foreign-ne-ours info allow_zeros arg0 arg1 b0 b1 ours f,
          ),
        );
  }

module _ {D : Type 0} (t : Transport D) (expected : List Command) (info : AdbInfo)
    (allow_zeros : Bool) (l : ℕ) (own : info.local_id ≡ some l) (s0 : PacketStore) where
  abbrev Kept : IoManager D → Type 0
  Kept io = IsKept expected info allow_zeros s0 io.store

  -- What is read from the transport leaves the store alone.
  on_transport-Kept : {A : Type 0} (m : Exec D A) → Keeps Kept (on_transport m)
  on_transport-Kept m = Keeps-zoom _ _ m (λ io h. h)

  abbrev Found : Option Packet → Type 0
  Found o = (p : Packet) → o ≡ some p → IsWanted expected info allow_zeros p

  Drained-value :
      (s : PacketStore) (r : Result (Option Packet)) (s' : PacketStore)
      → Drained expected info allow_zeros s r s'
      → OfValue Found r
  Drained-value s (ok a) s' d = λ p e. d.wanted p (ground (arith, d.returned))
  Drained-value s (err e) s' d = tt

  drain-Yields : Yields Kept Found (on_store (drain expected info allow_zeros))
  unfolding zoom
  drain-Yields = record {
    at = λ io k.
        let d = drain_lem expected info allow_zeros l own io.store k.valid in
        (drain-IsKept expected info allow_zeros s0 io.store k d, Drained-value io.store _ _ d);
  }

  store-Keeps :
      (f : PacketStore → PacketStore)
      → ((s : PacketStore)
          → IsKept expected info allow_zeros s0 s
          → IsKept expected info allow_zeros s0 (f s))
      → Keeps Kept (on_store (modify f))
  store-Keeps f h = Keeps-zoom _ _ (modify f) (λ io k. h io.store k)

  nothing : Found none
  nothing p e = cc

  wanted_packet :
      (p : Packet)
      → is_expected p.cmd expected ≡ true
      → IsOurs expected info allow_zeros p.arg0 p.arg1
      → Found (some p)
  wanted_packet p x ours q e = ground arith

  sort_packet-Yields : (p : Packet) → Yields Kept Found (sort_packet t expected info allow_zeros p)
  unfolding sort_packet
  sort_packet-Yields p =
      Yields-if _ _ _
        (λ ours.
          Yields-bind _ _
            (Yields-Any _ (
              Keeps-if _ _ _
                (store-Keeps _
                  (λ s. clear-IsKept expected info allow_zeros s0 p.arg0 p.arg1 s ours))
                (Keeps-pure tt)))
            (λ _ _.
              Yields-if _ _ _ (λ x. Yields-pure (some p) (wanted_packet p x ours))
                (λ x. Yields-pure none nothing)))
        (λ foreign.
          Yields-bind _ _
            (Yields-Any _ (
              store-Keeps _
                (put-IsKept expected info allow_zeros s0 p.arg0 p.arg1 p.cmd p.payload)))
            (λ _ _. Yields-pure none nothing))

  found_or_next-Yields :
      (fuel : ℕ) (o : Option Packet)
      → Found o
      → Yields Kept Found (found_or_next t fuel expected info allow_zeros o)
  unfolding found_or_next
  found_or_next-Yields fuel (some p) w = Yields-pure (some p) w
  found_or_next-Yields fuel none w =
      Yields-bind _ _ (Yields-Any _ (on_transport-Kept (read_packet t fuel info)))
        (λ p _. sort_packet-Yields p)

  read_round-Yields : (fuel : ℕ) → Yields Kept Found (read_round t fuel expected info allow_zeros)
  unfolding read_round
  read_round-Yields fuel = Yields-bind _ _ drain-Yields (found_or_next-Yields fuel)

  abbrev Wanted : Packet → Type 0
  Wanted = IsWanted expected info allow_zeros

  done_or-Yields :
      (o : Option Packet) (rest : Exec (IoManager D) Packet)
      → Found o
      → Yields Kept Wanted rest
      → Yields Kept Wanted (done_or t o rest)
  done_or-Yields (some p) rest w h = Yields-pure p (w p refl)
  done_or-Yields none rest w h = h

  read_loop-Yields :
      (rounds fuel start : ℕ)
      → Yields Kept Wanted (read_loop t rounds fuel start expected info allow_zeros)
  unfolding read_loop unless_late_io
  read_loop-Yields zero fuel start = Yields-raise out_of_fuel
  read_loop-Yields (suc rounds) fuel start = Yields-bind _ _ (read_round-Yields fuel) (λ o w.
      done_or-Yields o _ w (
        Yields-bind _ _ (Yields-Any _ (on_transport-Kept _))
          (λ _ _. read_loop-Yields rounds fuel start)))

  pub read-Yields : (fuel : ℕ) → Yields Kept Wanted (read t fuel expected info allow_zeros)
  unfolding read
  read-Yields fuel = Yields-bind _ _ drain-Yields (λ o w. done_or-Yields o _ w (
      Yields-bind _ _ (Yields-Any _ (on_transport-Kept _))
        (λ start _. read_loop-Yields fuel fuel start)))

-- For a stream with a local id and from a valid store, whether `read` returns or raises and whatever
-- the transport does: the store is valid; a packet that is returned is expected and of the stream of
-- `info`; and every queue of another stream keeps its packets in order, with new ones only behind
-- them.
pub read_isolation :
    {D : Type 0} (t : Transport D) (fuel : ℕ) (expected : List Command) (info : AdbInfo)
    (allow_zeros : Bool) (l : ℕ) (io : IoManager D)
    → info.local_id ≡ some l
    → IsValid io.store
    → let (r, io') = read t fuel expected info allow_zeros io in
      IsValid io'.store
      × ((p : Packet) → r ≡ ok p → IsWanted expected info allow_zeros p)
      × ((b0 b1 : ℕ)
          → IsForeign expected info allow_zeros b0 b1
          → Grew (queue_at b0 b1 io.store) (queue_at b0 b1 io'.store))
read_isolation t fuel expected info allow_zeros l io own v =
    let start : IsKept expected info allow_zeros io.store io.store = record {
      valid = v;
      others = λ b0 b1 f. Grew-refl (queue_at b0 b1 io.store);
    } in
    let (k, w) = (read-Yields t expected info allow_zeros l own io.store fuel).at io start in
    (k.valid, λ p e. OfValue-ok (IsWanted expected info allow_zeros) w e, k.others)
