-- ===== src/Tests/Store.antt =====
-- The packet store, the transactions and the send buffer on small inputs.
use adb_shell.Common.{◌≡◌, refl, [], ◌∷◌, none, some}
use adb_shell.Constants.{okay, wrte, clse, same_command}
use adb_shell.Common.Dict
use adb_shell.PacketStore.{PacketStore, put, pop_at, clear, clear_all}
use adb_shell.PacketStore.Dicts.{IsValid, clear_all-IsValid}
use adb_shell.PacketStore.View.{entry, entry-put, entry-clear, entry-pop_at}
use adb_shell.PacketStore.Get.{put-IsValid}

-- A `WRTE` and an `OKAY` of the stream 5-1, and a `WRTE` of the stream 6-2.
abbrev waiting : PacketStore
waiting = put 6 2 wrte (3 ∷ []) (put 5 1 okay [] (put 5 1 wrte (9 ∷ []) clear_all))

waiting-IsValid : IsValid waiting
waiting-IsValid =
    put-IsValid 6 2 _
      (put-IsValid 5 1 _ (put-IsValid 5 1 _ clear_all-IsValid wrte (9 ∷ [])) okay []) wrte (3 ∷ [])

entry-put_example : entry 6 2 (put 6 2 clse [] waiting) ≡ some ((wrte, 3 ∷ []) ∷ (clse, []) ∷ [])
unfolding entry put Dict.get Dict.put same_command clear_all
entry-put_example = entry-put 6 2 6 2 clse [] waiting

entry-pop_at_example : entry 5 1 (pop_at 5 1 waiting).1 ≡ some ((okay, []) ∷ [])
unfolding entry put Dict.get Dict.put same_command clear_all
entry-pop_at_example = entry-pop_at 5 1 waiting refl 5 1

entry-clear_example : entry 6 2 (clear 6 2 waiting) ≡ none
entry-clear_example = entry-clear 6 2 6 2 waiting
