-- ===== src/PacketStore/Find.antt =====
-- `find` and `find_allow_zeros` of _AdbPacketStore (hidden_helpers.py).
use adb_shell.Common.{
  ℕ, ◌≡◌, refl, [], ◌∷◌, Bool, true, false, ◌||◌, Option, none, some, ◌==◌, arith, ==_refl,
  Option-cases, inl, inr,
}
use adb_shell.Common.Dict
use adb_shell.Common.Dict.{Dict}
use adb_shell.PacketStore.{
  PacketStore, Queue, is_nonempty, first_where, first_pair, find_inner, find, find_allow_zeros,
  wanted,
}
use adb_shell.PacketStore.Dicts.{IsDict, IsValid}
use adb_shell.PacketStore.View.{entry, queue_at, or_empty}

-- `first_where` finds a key that passes the test and holds a packet.
first_where_sound :
    (test : ℕ → Bool) (d : Dict Queue) (k : ℕ)
    → IsDict d
    → first_where test d ≡ some k
    → (test k ≡ true) × (is_nonempty (or_empty (Dict.get k d)) ≡ true)
unfolding first_where Dict.get
first_where_sound test [] k h e = cc
first_where_sound test ((j, q) ∷ d) k (new, h) e =
    ground (arith, first_where_sound test d k h, ==_refl j)

first_where_complete :
    (test : ℕ → Bool) (d : Dict Queue) (k : ℕ)
    → first_where test d ≡ none
    → test k ≡ true
    → is_nonempty (or_empty (Dict.get k d)) ≡ false
unfolding first_where Dict.get
first_where_complete test [] k e t = refl
first_where_complete test ((j, q) ∷ d) k e t = ground (arith, first_where_complete test d k)

get_head {ℓ} : {V : Type ℓ} (j : ℕ) (v : V) (d : Dict V) → Dict.get j ((j, v) ∷ d) ≡ some v
unfolding Dict.get
get_head j v d = ground (arith, ==_refl j)

-- What is found past the head is found in the whole.
get_tail {ℓ} :
    {V : Type ℓ} (j k : ℕ) (v w : V) (d : Dict V)
    → Dict.get j d ≡ none
    → Dict.get k d ≡ some w
    → Dict.get k ((j, v) ∷ d) ≡ some w
unfolding Dict.get
get_tail j k v w d new e = ground arith

queue_tail :
    (j k0 k1 : ℕ) (d : Dict Queue) (s : PacketStore)
    → Dict.get j s ≡ none
    → is_nonempty (queue_at k0 k1 s) ≡ true
    → is_nonempty (queue_at k0 k1 ((j, d) ∷ s)) ≡ true
unfolding entry Dict.get
queue_tail j k0 k1 d s new q = ground arith

queue_head :
    (j k0 : ℕ) (d : Dict Queue) (s : PacketStore)
    → queue_at k0 j ((j, d) ∷ s) ≡ or_empty (Dict.get k0 d)
unfolding entry Dict.get
queue_head j k0 d s = ground (arith, ==_refl j)

first_pair_sound :
    (test : ℕ → Bool) (s : PacketStore) (k0 k1 : ℕ)
    → IsDict s
    → ((k : ℕ) (d : Dict Queue) → Dict.get k s ≡ some d → IsDict d)
    → first_pair test s ≡ some (k0, k1)
    → (test k0 ≡ true) × (is_nonempty (queue_at k0 k1 s) ≡ true)
unfolding first_pair
first_pair_sound test [] k0 k1 h inner e = cc
first_pair_sound test ((j, d) ∷ s) k0 k1 (new, h) inner e =
    elim (Option-cases (first_where test d)) [
      | inl f ↦
          let (t, q) =
            first_pair_sound test s k0 k1 h (λ k x g. inner k x (get_tail j k d x s new g))
              (ground arith) in
          (t, queue_tail j k0 k1 d s new q)
      | inr (k, f) ↦
          ground
            (arith, first_where_sound test d k (inner j d (get_head j d s)) f, queue_head j k0 d s)
    ]

first_pair_complete :
    (test : ℕ → Bool) (s : PacketStore) (k0 k1 : ℕ)
    → first_pair test s ≡ none
    → test k0 ≡ true
    → is_nonempty (queue_at k0 k1 s) ≡ false
unfolding first_pair entry Dict.get
first_pair_complete test [] k0 k1 e t = refl
first_pair_complete test ((j, d) ∷ s) k0 k1 e t =
    ground (arith, first_pair_complete test s k0 k1, first_where_complete test d k0)

-- `key` is what `find` was asked for: the id itself, or anything for `None`.
abbrev pub Wanted : Option ℕ → ℕ → Type 0
Wanted arg key = wanted arg key ≡ true

-- In a valid store, what `find` returns is a pair of ids that it was asked for, with a packet waiting.
pub find_sound :
    (arg0 arg1 : Option ℕ) (s : PacketStore) (k0 k1 : ℕ)
    → IsValid s
    → find arg0 arg1 s ≡ some (k0, k1)
    → Wanted arg0 k0 × Wanted arg1 k1 × (is_nonempty (queue_at k0 k1 s) ≡ true)
unfolding find find_inner entry
find_sound arg0 none s k0 k1 v e =
    let (t, q) = first_pair_sound (wanted arg0) s k0 k1 v.keys (λ k d g. (v.inner k d g).0) e in
    (t, refl, q)
find_sound none (some a1) s k0 k1 v e = elim (Option-cases (Dict.get a1 s)) [
  | inl g ↦ ground arith
  | inr (d, g) ↦ ground (arith, first_where_sound (wanted none) d k0 (v.inner a1 d g).0)
]
find_sound (some a0) (some a1) s k0 k1 v e = grind arith

-- `find` returns nothing only when no packet waits at any pair that it was asked for.
pub find_complete :
    (arg0 arg1 : Option ℕ) (s : PacketStore) (k0 k1 : ℕ)
    → find arg0 arg1 s ≡ none
    → Wanted arg0 k0
    → Wanted arg1 k1
    → is_nonempty (queue_at k0 k1 s) ≡ false
unfolding find find_inner entry
find_complete arg0 none s k0 k1 e w0 w1 = first_pair_complete (wanted arg0) s k0 k1 e w0
find_complete none (some a1) s k0 k1 e w0 w1 = elim (Option-cases (Dict.get a1 s)) [
  | inl g ↦ ground arith
  | inr (d, g) ↦ ground (arith, first_where_complete (wanted none) d k0)
]
find_complete (some a0) (some a1) s k0 k1 e w0 w1 = grind arith

-- A pair of ids that matches what `find_allow_zeros` was asked for, with zeros allowed.
abbrev pub WantedOrZero : Option ℕ → ℕ → Type 0
WantedOrZero arg key = (wanted arg key || key == 0) ≡ true

-- In a valid store, `find_allow_zeros` returns a pair whose ids are each the one that it was asked
-- for or zero, with a packet waiting.
pub find_allow_zeros_sound :
    (arg0 arg1 : Option ℕ) (s : PacketStore) (k0 k1 : ℕ)
    → IsValid s
    → find_allow_zeros arg0 arg1 s ≡ some (k0, k1)
    → WantedOrZero arg0 k0 × WantedOrZero arg1 k1 × (is_nonempty (queue_at k0 k1 s) ≡ true)
unfolding find_allow_zeros
find_allow_zeros_sound arg0 arg1 s k0 k1 v e = grind (
  arith,
  find_sound arg0 arg1 s k0 k1 v,
  find_sound arg0 (some 0) s k0 k1 v,
  find_sound (some 0) arg1 s k0 k1 v,
  find_sound (some 0) (some 0) s k0 k1 v,
)

-- `find_allow_zeros` returns nothing only when no packet waits at any pair whose ids are each the one
-- that it was asked for or zero.
pub find_allow_zeros_complete :
    (arg0 arg1 : Option ℕ) (s : PacketStore) (k0 k1 : ℕ)
    → find_allow_zeros arg0 arg1 s ≡ none
    → WantedOrZero arg0 k0
    → WantedOrZero arg1 k1
    → is_nonempty (queue_at k0 k1 s) ≡ false
unfolding find_allow_zeros
find_allow_zeros_complete arg0 arg1 s k0 k1 e w0 w1 = grind (
  arith,
  find_complete arg0 arg1 s k0 k1,
  find_complete arg0 (some 0) s k0 k1,
  find_complete (some 0) arg1 s k0 k1,
  find_complete (some 0) (some 0) s k0 k1,
)
