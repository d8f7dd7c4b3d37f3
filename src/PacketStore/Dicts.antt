-- ===== src/PacketStore/Dicts.antt =====
-- Well-formed dictionaries of _AdbPacketStore (hidden_helpers.py): each key once, and no inner
-- dictionary empty.
use adb_shell.Common.{ℕ, ◌≡◌, refl, [], ◌∷◌, true, none, some, ◌==◌, arith, Bool-cases, inl, inr}
use adb_shell.Common.Dict
use adb_shell.Common.Dict.{Dict, get-put, get-remove, get-nil}
use mathlib.Core.Path.{subst}
use adb_shell.PacketStore.{PacketStore, Queue, clear_all, is_nonempty}

-- Each key once.
abbrev pub IsDict {ℓ} : {V : Type ℓ} → Dict V → Type ℓ
IsDict [] = Unit
IsDict ((k, v) ∷ d) = (Dict.get k d ≡ none) × IsDict d

module _ {ℓ} {V : Type ℓ} where
  pub put-IsDict : (k : ℕ) (v : V) (d : Dict V) → IsDict d → IsDict (Dict.put k v d)
  unfolding Dict.put
  put-IsDict k v [] h = (unfold Dict.get in refl, tt)
  put-IsDict k v ((j, w) ∷ d) (new, h) = elim (Bool-cases (j == k)) [
    | inl e ↦ rw e (new, h)
    | inr e ↦ rw e (rw (get-put k j v d) (ground arith), put-IsDict k v d h)
  ]

  pub remove-IsDict : (k : ℕ) (d : Dict V) → IsDict d → IsDict (Dict.remove k d)
  unfolding Dict.remove
  remove-IsDict k [] h = tt
  remove-IsDict k ((j, w) ∷ d) (new, h) = elim (Bool-cases (j == k)) [
    | inl e ↦ rw e (remove-IsDict k d h)
    | inr e ↦ rw e (rw (get-remove k j d) (ground arith), remove-IsDict k d h)
  ]

-- The shape that every operation keeps.
pub record IsValid (s : PacketStore) : Type 0 where
  pub keys : IsDict s
  pub inner : (k : ℕ) (d : Dict Queue) → Dict.get k s ≡ some d → IsDict d × (is_nonempty d ≡ true)

pub nonempty-put {ℓ} :
    {V : Type ℓ} (k : ℕ) (v : V) (d : Dict V) → is_nonempty (Dict.put k v d) ≡ true
unfolding Dict.put
nonempty-put k v [] = refl
nonempty-put k v ((j, w) ∷ d) = ground arith

pub clear_all-IsValid : IsValid clear_all
unfolding clear_all
clear_all-IsValid = record { keys = tt; inner = λ k d e. cc (get-nil {V = Dict Queue} k) }

module _ (a1 : ℕ) (s : PacketStore) (v : IsValid s) where
  -- Writing a proper inner dictionary, and deleting one.
  pub write-IsValid : (d : Dict Queue) → IsDict d → is_nonempty d ≡ true → IsValid (Dict.put a1 d s)
  write-IsValid d h n = record {
    keys = put-IsDict a1 d s v.keys;
    inner = λ k x e. elim (Bool-cases (a1 == k)) [
      | inl same ↦
          let p : d ≡ x = ground (arith, get-put a1 k d s) in
          subst (λ y. IsDict y × (is_nonempty y ≡ true)) p (h, n)
      | inr other ↦ v.inner k x (ground (arith, get-put a1 k d s))
    ];
  }

  pub delete-IsValid : IsValid (Dict.remove a1 s)
  delete-IsValid = record {
    keys = remove-IsDict a1 s v.keys;
    inner = λ k x e. v.inner k x (ground (arith, get-remove a1 k s));
  }
