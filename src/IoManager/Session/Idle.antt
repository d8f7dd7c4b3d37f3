-- ===== src/IoManager/Session/Idle.antt =====
-- A packet store (hidden_helpers.py) with nothing for one stream.
use adb_shell.Common.{
  ℕ, ◌≡◌, refl, ◌≢◌, List, Bool, true, false, none, some, arith, Option-cases, inl, inr,
}
use adb_shell.Common.Dict.{Dict, get-nil}
use adb_shell.Constants.{Command}
use adb_shell.TransactionInfo.{AdbInfo, args_match}
use adb_shell.PacketStore.{PacketStore, is_nonempty, put, clear, clear_all, Queue}
use adb_shell.PacketStore.Dicts.{IsValid, clear_all-IsValid}
use adb_shell.PacketStore.View.{queue_at, entry, entry-put, entry-clear}
use adb_shell.PacketStore.Get.{put-IsValid, clear-IsValid}
use adb_shell.IoManager.Read.{find_for}
use adb_shell.IoManager.Read.Drain.{find_for_sound}

-- No packet waits for the local id `l`, nor for the id 0.
pub record IsIdle (l : ℕ) (s : PacketStore) : Type 0 where
  pub valid : IsValid s
  pub none_for : (k0 : ℕ) → is_nonempty (queue_at k0 l s) ≡ false
  pub none_for_zero : (k0 : ℕ) → is_nonempty (queue_at k0 0 s) ≡ false

module _ (l : ℕ) where
  pub find_idle :
      (info : AdbInfo) (allow_zeros : Bool) (s : PacketStore)
      → info.local_id ≡ some l
      → IsIdle l s
      → find_for info allow_zeros s ≡ none
  unfolding args_match
  find_idle info true s own idle = elim (Option-cases (find_for info true s)) [
    | inl e ↦ e
    | inr ((k0, k1), e) ↦ absurd (
        ground (
          arith,
          find_for_sound info true l s k0 k1 own idle.valid e,
          idle.none_for k0,
          idle.none_for_zero k0,
        ))
  ]
  find_idle info false s own idle = elim (Option-cases (find_for info false s)) [
    | inl e ↦ e
    | inr ((k0, k1), e) ↦ absurd (
        ground (
          arith,
          find_for_sound info false l s k0 k1 own idle.valid e,
          idle.none_for k0,
          idle.none_for_zero k0,
        ))
  ]

  -- A packet of another stream that is put away leaves the store idle, and so does `clear`.
  pub put-IsIdle :
      (arg0 arg1 : ℕ) (cmd : Command) (payload : List ℕ) (s : PacketStore)
      → arg1 ≢ l
      → arg1 ≢ 0
      → IsIdle l s
      → IsIdle l (put arg0 arg1 cmd payload s)
  put-IsIdle arg0 arg1 cmd payload s other nonzero idle = record {
    valid = put-IsValid arg0 arg1 s idle.valid cmd payload;
    none_for = λ k0. ground (arith, entry-put arg0 arg1 k0 l cmd payload s, idle.none_for k0);
    none_for_zero =
        λ k0. ground (arith, entry-put arg0 arg1 k0 0 cmd payload s, idle.none_for_zero k0);
  }

  pub clear-IsIdle : (arg0 arg1 : ℕ) (s : PacketStore) → IsIdle l s → IsIdle l (clear arg0 arg1 s)
  clear-IsIdle arg0 arg1 s idle = record {
    valid = clear-IsValid arg0 arg1 s idle.valid;
    none_for = λ k0. ground (arith, entry-clear arg0 arg1 k0 l s, idle.none_for k0);
    none_for_zero = λ k0. ground (arith, entry-clear arg0 arg1 k0 0 s, idle.none_for_zero k0);
  }

nothing : (k0 k1 : ℕ) → entry k0 k1 clear_all ≡ none
unfolding entry clear_all
nothing k0 k1 = ground (arith, get-nil {V = Dict Queue} k1)

pub clear_all-IsIdle : (l : ℕ) → IsIdle l clear_all
clear_all-IsIdle l = record {
  valid = clear_all-IsValid;
  none_for = λ k0. rw (nothing k0 l) refl;
  none_for_zero = λ k0. rw (nothing k0 0) refl;
}
