-- ===== src/PacketStore.antt =====
-- _AdbPacketStore of hidden_helpers.py: a dictionary of dictionaries of queues, under `arg1` and then
-- `arg0`. A queue is a list, oldest first.
pub mod Dicts
pub mod View
pub mod Find
pub mod Get
use adb_shell.Common.{
  ℕ, zero, ◌+◌, List, [], ◌∷◌, ◌++◌, Bool, true, false, ◌&&◌, not, Option, none, some, ◌==◌,
  if◌then◌else◌,
}
use adb_shell.Common.Dict
use adb_shell.Common.Dict.{Dict}
use adb_shell.Errors.{Result, ok, err, key_error, type_error, queue_empty}
use adb_shell.Exec.{Exec}
use adb_shell.Constants.{Command, same_command, clse}

abbrev pub Entry : Type 0
Entry = Command × List ℕ

abbrev pub Queue : Type 0
Queue = List Entry

abbrev pub PacketStore : Type 0
PacketStore = Dict (Dict Queue)

-- cmd, arg0, arg1, data
pub record Packet : Type 0 where
  pub cmd : Command
  pub arg0 : ℕ
  pub arg1 : ℕ
  pub payload : List ℕ

-- not queue.empty()
abbrev pub is_nonempty {ℓ} : {A : Type ℓ} → List A → Bool
is_nonempty [] = false
is_nonempty (x ∷ xs) = true

-- `__init__` and `clear_all`
unfoldable pub clear_all : PacketStore
clear_all = []

-- `next(key0 for key0, val0 in inner.items() if test(key0) and not val0.empty())`
unfoldable pub first_where : (ℕ → Bool) → Dict Queue → Option ℕ
first_where test [] = none
first_where test ((key0, val0) ∷ inner) =
    if test key0 && is_nonempty val0 then some key0 else first_where test inner

-- The same through every inner dictionary, in order.
unfoldable pub first_pair : (ℕ → Bool) → PacketStore → Option (ℕ × ℕ)
first_pair test [] = none
first_pair test ((key1, val1) ∷ s) =
    let rest = first_pair test s in
    elim (first_where test val1) [ some key0 ↦ some (key0, key1) | none ↦ rest ]

-- `arg0 == None` is a wildcard.
abbrev pub wanted : Option ℕ → ℕ → Bool
wanted none key = true
wanted (some k) key = key == k

unfoldable pub find_inner : Option ℕ → ℕ → Dict Queue → Option (ℕ × ℕ)
find_inner none arg1 inner = elim (first_where (wanted none) inner) [
  | some key0 ↦ some (key0, arg1)
  | none ↦ none
]
find_inner (some arg0) arg1 inner = elim (Dict.get arg0 inner) [
  | some queue ↦ if is_nonempty queue then some (arg0, arg1) else none
  | none ↦ none
]

unfoldable pub find : Option ℕ → Option ℕ → PacketStore → Option (ℕ × ℕ)
find arg0 none s = first_pair (wanted arg0) s
find arg0 (some arg1) s = elim (Dict.get arg1 s) [
  | none ↦ none
  | some inner ↦ find_inner arg0 arg1 inner
]

abbrev pub or_else {ℓ} : {A : Type ℓ} → Option A → Option A → Option A
or_else (some a) b = some a
or_else none b = b

unfoldable pub find_allow_zeros : Option ℕ → Option ℕ → PacketStore → Option (ℕ × ℕ)
find_allow_zeros arg0 arg1 s = or_else (find arg0 arg1 s) (
    or_else (find arg0 (some 0) s)
      (or_else (find (some 0) arg1 s) (or_else (find (some 0) (some 0) s) none)))

-- `(arg0, arg1) in self`
unfoldable pub contains : Option ℕ → Option ℕ → PacketStore → Bool
contains arg0 arg1 s = elim (find arg0 arg1 s) [ some _ ↦ true | none ↦ false ]

-- __len__
unfoldable pub count_inner : Dict Queue → ℕ
count_inner [] = 0
count_inner ((key0, val0) ∷ inner) = (if is_nonempty val0 then 1 else 0) + count_inner inner

unfoldable pub len : PacketStore → ℕ
unfolding count_inner
len [] = 0
len ((key1, val1) ∷ s) = count_inner val1 + len s

-- An inner dictionary that becomes empty is deleted.
unfoldable pub clear : ℕ → ℕ → PacketStore → PacketStore
clear arg0 arg1 s = elim (Dict.get arg1 s) [
  | none ↦ s
  | some inner ↦ elim (Dict.get arg0 inner) [
    | none ↦ s
    | some _ ↦
        let inner' = Dict.remove arg0 inner in
        if is_nonempty inner' then Dict.put arg1 inner' s else Dict.remove arg1 s
  ]
]

-- `self._dict[arg1][arg0].get_nowait()` and what follows it in `get`.
unfoldable pub pop_at : ℕ → ℕ → Exec PacketStore Packet
pop_at arg0 arg1 s = elim (Dict.get arg1 s) [
  | none ↦ (err key_error, s)
  | some inner ↦ elim (Dict.get arg0 inner) [
    | none ↦ (err key_error, s)
    | some [] ↦ (err queue_empty, s)
    | some ((cmd, payload) ∷ queue) ↦
        let s' = Dict.put arg1 (Dict.put arg0 queue inner) s in
        (
          ok (record { cmd = cmd; arg0 = arg0; arg1 = arg1; payload = payload }),
          if same_command cmd clse then clear arg0 arg1 s' else s',
        )
  ]
]

-- Looking up a wildcard that matches nothing is the TypeError of taking `None` apart.
unfoldable pub get : Option ℕ → Option ℕ → Exec PacketStore Packet
get (some arg0) (some arg1) s = pop_at arg0 arg1 s
get arg0 arg1 s = elim (find arg0 arg1 s) [
  | none ↦ (err type_error, s)
  | some (key0, key1) ↦ pop_at key0 key1 s
]

-- A `CLSE` packet makes no new entry.
unfoldable pub put : ℕ → ℕ → Command → List ℕ → PacketStore → PacketStore
put arg0 arg1 cmd payload s = elim (Dict.get arg1 s) [
  | none ↦ if same_command cmd clse then s else Dict.put arg1 ((arg0, (cmd, payload) ∷ []) ∷ []) s
  | some inner ↦ elim (Dict.get arg0 inner) [
    | none ↦
        if same_command cmd clse
        then s
        else Dict.put arg1 (Dict.put arg0 ((cmd, payload) ∷ []) inner) s
    | some queue ↦ Dict.put arg1 (Dict.put arg0 (queue ++ (cmd, payload) ∷ []) inner) s
  ]
]
