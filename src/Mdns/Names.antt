-- ===== src/Mdns/Names.antt =====
-- Texts as keys: Python's `==` and `endswith` on `str`, and `dict` with such keys, in insertion order.
use adb_shell.Common.{
  ℕ, ◌+◌, ◌-◌, ◌≡◌, refl, List, [], ◌∷◌, Bool, true, false, ◌&&◌, Option, none, some, ◌==◌, ◌↔◌,
  length, take, drop, if◌then◌else◌, arith,
}

abbrev pub Name : Type 0
Name = List ℕ

unfoldable pub name_eq : Name → Name → Bool
name_eq [] [] = true
name_eq (a ∷ xs) (b ∷ ys) = a == b && name_eq xs ys
name_eq _ _ = false

pub name_eq_refl : (a : Name) → name_eq a a ≡ true
unfolding name_eq
name_eq_refl [] = refl
name_eq_refl (a ∷ xs) = ground (arith, name_eq_refl xs)

pub eq-name_eq : (a b : Name) → name_eq a b ≡ true → a ≡ b
unfolding name_eq
eq-name_eq [] [] h = refl
eq-name_eq [] (b ∷ ys) h = absurd cc
eq-name_eq (a ∷ xs) [] h = absurd cc
eq-name_eq (a ∷ xs) (b ∷ ys) h = ground (arith, eq-name_eq xs ys)

pub name_eq_iff : (a b : Name) → (name_eq a b ≡ true) ↔ (a ≡ b)
name_eq_iff a b = (eq-name_eq a b, λ e. rw e (name_eq_refl b))

abbrev pub Named : Type 0 → Type 0
Named V = List (Name × V)

module _ {V : Type 0} where
  unfoldable pub get : Name → Named V → Option V
  get k [] = none
  get k ((j, v) ∷ d) = if name_eq j k then some v else get k d

  -- `d[k] = v`: a key that is there keeps its place
  unfoldable pub put : Name → V → Named V → Named V
  put k v [] = (k, v) ∷ []
  put k v ((j, w) ∷ d) = if name_eq j k then (j, v) ∷ d else (j, w) ∷ put k v d

  -- `d.pop(k, None)`
  unfoldable pub remove : Name → Named V → Named V
  remove k [] = []
  remove k ((j, w) ∷ d) = if name_eq j k then remove k d else (j, w) ∷ remove k d

  -- `list(d.values())`
  abbrev pub values : Named V → List V
  values [] = []
  values ((k, v) ∷ d) = v ∷ values d

  pub get-put :
      (k j : Name) (v : V) (d : Named V)
      → get j (put k v d) ≡ (if name_eq k j then some v else get j d)
  unfolding get put
  get-put k j v [] = refl
  get-put k j v ((i, w) ∷ d) =
      ground (arith, name_eq_iff k j, name_eq_iff i k, name_eq_iff i j, get-put k j v d)

  pub get-remove :
      (k j : Name) (d : Named V) → get j (remove k d) ≡ (if name_eq k j then none else get j d)
  unfolding get remove
  get-remove k j [] = ground arith
  get-remove k j ((i, w) ∷ d) =
      ground (arith, name_eq_iff k j, name_eq_iff i k, name_eq_iff i j, get-remove k j d)

-- name.endswith(suffix)
unfoldable pub ends_with : Name → Name → Bool
ends_with suffix name = name_eq (drop (length name - length suffix) name) suffix

-- b"." + type_
abbrev pub dotted : Name → Name
dotted type = b'.' ∷ type

-- name[: -(len(type_) + 1)] if name.endswith("." + type_) else name
unfoldable pub short_name : Name → Name → Name
unfolding ends_with
short_name type name =
    if ends_with (dotted type) name then take (length name - (length type + 1)) name else name
