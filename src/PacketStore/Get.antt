-- ===== src/PacketStore/Get.antt =====
-- Validity of _AdbPacketStore (hidden_helpers.py) under its operations, and its size.
use adb_shell.Common.{
  ℕ, ◌+◌, ◌≤◌, ◌<◌, ◌≡◌, refl, List, [], ◌∷◌, ◌++◌, Bool, true, false, some, arith, if◌then◌else◌,
  Bool-cases, Option-cases, inl, inr, length,
}
use adb_shell.Common.Dict
use adb_shell.Common.Dict.{Dict}
use adb_shell.Constants.{Command, same_command, clse}
use adb_shell.PacketStore.{PacketStore, Entry, Queue, is_nonempty, put, clear, pop_at}
use adb_shell.PacketStore.Dicts.{
  IsValid, put-IsDict, remove-IsDict, nonempty-put, write-IsValid, delete-IsValid,
}
use adb_shell.PacketStore.View.{entry_lem, queue_at}

IsValid-if : (b : Bool) {s t : PacketStore} → IsValid s → IsValid t → IsValid (if b then s else t)
IsValid-if true v w = v
IsValid-if false v w = w

module _ (a0 a1 : ℕ) (s : PacketStore) (v : IsValid s) where
  -- Writing one queue into an inner dictionary that is there.
  enqueue-IsValid :
      (d : Dict Queue) (q : Queue)
      → Dict.get a1 s ≡ some d
      → IsValid (Dict.put a1 (Dict.put a0 q d) s)
  enqueue-IsValid d q g =
      write-IsValid a1 s v (Dict.put a0 q d) (put-IsDict a0 q d (v.inner a1 d g).0)
        (nonempty-put a0 q d)

  -- What `clear` writes back.
  shrink-IsValid :
      (d : Dict Queue)
      → Dict.get a1 s ≡ some d
      → let d' = Dict.remove a0 d in
        IsValid (if is_nonempty d' then Dict.put a1 d' s else Dict.remove a1 s)
  shrink-IsValid d e = elim (Bool-cases (is_nonempty (Dict.remove a0 d))) [
    | inl n ↦ rw n (write-IsValid a1 s v _ (remove-IsDict a0 d (v.inner a1 d e).0) n)
    | inr n ↦ rw n (delete-IsValid a1 s v)
  ]

  pub put-IsValid : (cmd : Command) (payload : List ℕ) → IsValid (put a0 a1 cmd payload s)
  unfolding put
  put-IsValid cmd payload = elim (Option-cases (Dict.get a1 s)) [
    | inl e ↦
        rw (e, put)
          (IsValid-if (same_command cmd clse) v
            (write-IsValid a1 s v ((a0, (cmd, payload) ∷ []) ∷ []) (Dict.get-nil a0, tt) refl))
    | inr (d, e) ↦ elim (Option-cases (Dict.get a0 d)) [
      | inl f ↦
          rw (e, put)
            (rw f
              (IsValid-if (same_command cmd clse) v (enqueue-IsValid d ((cmd, payload) ∷ []) e)))
      | inr (q, f) ↦ rw (e, put) (rw f (enqueue-IsValid d (q ++ (cmd, payload) ∷ []) e))
    ]
  ]

  pub clear-IsValid : IsValid (clear a0 a1 s)
  unfolding clear
  clear-IsValid = elim (Option-cases (Dict.get a1 s)) [
    | inl e ↦ rw (e, clear) v
    | inr (d, e) ↦ elim (Option-cases (Dict.get a0 d)) [
      | inl f ↦ rw (e, clear) (rw f v)
      | inr (q, f) ↦ rw (e, clear) (rw f (shrink-IsValid d e))
    ]
  ]

pub pop_at-IsValid : (a0 a1 : ℕ) (s : PacketStore) → IsValid s → IsValid (pop_at a0 a1 s).1
unfolding pop_at
pop_at-IsValid a0 a1 s v = elim (Option-cases (Dict.get a1 s)) [
  | inl e ↦ rw (e, pop_at) v
  | inr (d, e) ↦ elim (Option-cases (Dict.get a0 d)) [
    | inl f ↦ rw (e, pop_at) (rw f v)
    | inr ([], f) ↦ rw (e, pop_at) (rw f v)
    | inr ((cmd, payload) ∷ q, f) ↦
        let w = enqueue-IsValid a0 a1 s v d q e in
        rw (e, pop_at) (rw f (IsValid-if (same_command cmd clse) (clear-IsValid a0 a1 _ w) w))
  ]
]

-- The packets in a store.
unfoldable pub size_inner : Dict Queue → ℕ
size_inner [] = 0
size_inner ((k, q) ∷ d) = length q + size_inner d

unfoldable pub size : PacketStore → ℕ
unfolding size_inner
size [] = 0
size ((k, d) ∷ s) = size_inner d + size s

size_inner-put :
    (k : ℕ) (q q' : Queue) (d : Dict Queue)
    → Dict.get k d ≡ some q
    → size_inner (Dict.put k q' d) + length q ≡ size_inner d + length q'
unfolding size_inner Dict.put Dict.get
size_inner-put k q q' [] e = cc
size_inner-put k q q' ((j, x) ∷ d) e = ground (arith, size_inner-put k q q' d)

size-put :
    (k : ℕ) (d d' : Dict Queue) (s : PacketStore)
    → Dict.get k s ≡ some d
    → size (Dict.put k d' s) + size_inner d ≡ size s + size_inner d'
unfolding size Dict.put Dict.get
size-put k d d' [] e = cc
size-put k d d' ((j, x) ∷ s) e = ground (arith, size-put k d d' s)

size_inner-remove : (k : ℕ) (d : Dict Queue) → size_inner (Dict.remove k d) ≤ size_inner d
unfolding size_inner Dict.remove
size_inner-remove k [] = omega arith
size_inner-remove k ((j, x) ∷ d) = ground (arith, size_inner-remove k d)

size-remove : (k : ℕ) (s : PacketStore) → size (Dict.remove k s) ≤ size s
unfolding size Dict.remove
size-remove k [] = omega arith
size-remove k ((j, x) ∷ s) = ground (arith, size-remove k s)

size-clear : (a0 a1 : ℕ) (s : PacketStore) → size (clear a0 a1 s) ≤ size s
unfolding clear
size-clear a0 a1 s = grind (arith, size-put, size-remove, size_inner-remove)

size_write :
    (a0 a1 : ℕ) (s : PacketStore) (d : Dict Queue) (x : Entry) (q : Queue)
    → Dict.get a1 s ≡ some d
    → Dict.get a0 d ≡ some (x ∷ q)
    → size (Dict.put a1 (Dict.put a0 q d) s) < size s
size_write a0 a1 s d x q e f =
    omega (arith, size-put a1 d (Dict.put a0 q d) s e, size_inner-put a0 (x ∷ q) q d f)

-- Taking a packet from a queue that is not empty leaves fewer packets in the store.
pub size-pop_at :
    (a0 a1 : ℕ) (s : PacketStore)
    → is_nonempty (queue_at a0 a1 s) ≡ true
    → size (pop_at a0 a1 s).1 < size s
unfolding pop_at
size-pop_at a0 a1 s h = grind (arith, size_write, size-clear, entry_lem a0 a1 s)
