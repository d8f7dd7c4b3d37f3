-- ===== src/Device/Session/Pulling.antt =====
-- The packets that a pulled file comes in: the loop of `_pull` of AdbDevice (adb_device.py), over a
-- stream of any cut.
use adb_shell.Common.{
  ℕ, zero, suc, ◌+◌, ◌≤◌, ◌<◌, ◌≡◌, refl, sym, ap, ◌∙◌, List, [], ◌∷◌, ◌++◌, map, true, Option,
  none, some, length, All, arith,
}
use mathlib.Core.Path.{subst}
use mathlib.Core.List.{append_assoc, append-nil}
use adb_shell.Errors.{Result, ok}
use adb_shell.Exec.{zoom}
use adb_shell.Constants.{data_chunk, done, same_filesync}
use adb_shell.TransactionInfo.{AdbInfo}
use adb_shell.PacketStore.{is_nonempty}
use adb_shell.Transport.{Transport}
use adb_shell.Transport.Stream.{Duplex}
use adb_shell.IoManager.Session.Wires.{Fits}
use adb_shell.FileSyncInfo.{FileSyncInfo}
use adb_shell.Device.{AdbDevice}
use adb_shell.Device.Streams.{join}
use adb_shell.Device.FileSync.{is_expected_id, read_one}
use adb_shell.Device.Files.{Transfer, pull_loop}
use adb_shell.Device.Session.{Piece, acknowledged}
use adb_shell.Device.Session.Lines.{OnLine}
use adb_shell.Device.Session.Closing.{chunks}
use adb_shell.Device.Session.Feeding.{fed, okays, after_ok, IsFull}
use adb_shell.Device.Session.Buffering.{IsReading}
use adb_shell.Device.Session.Replies.{packet, IsShort, reply_of, read_one_lem}

-- What the device sends of a file: its blocks, and `DONE`.
unfoldable pub file_packets : List (List ℕ) → List ℕ
file_packets [] = packet done []
file_packets (b ∷ bs) = packet data_chunk b ++ file_packets bs

-- The calls of the callback.
abbrev pub reported : Option ℕ → List (List ℕ) → List (ℕ × ℕ)
reported none bs = []
reported (some total) bs = map (λ b. (length b, total)) bs

no_calls : (total : Option ℕ) → reported total [] ≡ []
no_calls none = refl
no_calls (some n) = refl

calls_of :
    (total : Option ℕ) (b : List ℕ) (bs : List (List ℕ))
    → reported total (b ∷ []) ++ reported total bs ≡ reported total (b ∷ bs)
calls_of none b bs = refl
calls_of (some n) b bs = refl

module _ {D : Type 0} (total : Option ℕ) where
  abbrev ended : AdbDevice D → List ℕ → List (ℕ × ℕ) → Result (Unit {0}) × Transfer D
  ended d stream progress = (ok tt, record { device = d; stream = stream; progress = progress })

  no_blocks :
      (s : Transfer D) (d : AdbDevice D)
      → ended d s.stream s.progress ≡ ended d (s.stream ++ []) (s.progress ++ reported total [])
  no_blocks s d = rw (append-nil s.stream, no_calls total, append-nil s.progress) refl

  more_blocks :
      (b : List ℕ) (bs : List (List ℕ)) (s : Transfer D) (d : AdbDevice D)
      → ended d
          ((s.stream ++ b) ++ join bs)
          ((s.progress ++ reported total (b ∷ [])) ++ reported total bs)
        ≡ ended d (s.stream ++ join (b ∷ bs)) (s.progress ++ reported total (b ∷ bs))
  unfolding join
  more_blocks b bs s d = rw (
    append_assoc s.stream b (join bs),
    append_assoc s.progress (reported total (b ∷ [])) (reported total bs),
    calls_of total b bs,
  )

some_data :
    (chunk buffer rest : List ℕ) → is_nonempty chunk ≡ true → buffer ++ (chunk ++ rest) ≡ [] → ⊥
some_data (b ∷ bs) [] rest h e = cc
some_data chunk (b ∷ bs) rest h e = cc
some_data [] [] rest h e = cc

module _ {D : Type 0} (t : Transport D) (incoming sent : D → List ℕ) (start span : ℕ)
    (x : Duplex t incoming sent start span) (l n : ℕ) (default : Option ℕ) (info : AdbInfo) (r : ℕ)
    (own : info.local_id ≡ some l) (far : info.remote_id ≡ some r) (fuel : ℕ) (big : 24 ≤ fuel)
    (patient : span ≤ info.read_timeout_s) (ack_fits : Fits fuel (acknowledged l r)) where
  abbrev Reading : ℕ → List ℕ → List ℕ → List ℕ → FileSyncInfo → AdbDevice D → Type 0
  Reading m i o total f d =
      IsReading t incoming sent start span x l n default info r own far fuel big patient ack_fits 2
        m i o total f d

  none_left :
      (left : List Piece) (k m : ℕ) (i o buffer : List ℕ) (d : AdbDevice D)
      → OnLine t incoming sent start span x l n default (fed l r left i) (o ++ okays l r k) d
      → buffer ++ join (chunks left) ≡ []
      → k + length left ≡ m
      → All (IsFull l r fuel) left
      → OnLine t incoming sent start span x l n default i (o ++ okays l r m) d
  unfolding fed join
  none_left [] k m i o buffer d on nothing counted full =
      subst (λ j. OnLine t incoming sent start span x l n default i (o ++ okays l r j) d)
        (omega (arith, counted)) on
  none_left (c ∷ cs) k m i o buffer d on nothing counted (hc, hcs) =
      absurd (some_data c.chunk buffer (join (chunks cs)) hc.1 nothing)

  -- The host has read all the pieces, and answered each.
  all_answered :
      (m : ℕ) (i o : List ℕ) (f : FileSyncInfo) (d : AdbDevice D)
      → Reading m i o [] f d
      → OnLine t incoming sent start span x l n default i (o ++ okays l r m) d
  all_answered m i o f d h =
      none_left h.left h.okayed m i o f.recv_buffer d h.on h.stream h.counted h.full

  -- The steps of a round of the loop.
  round :
      (rounds : ℕ) (total : Option ℕ) (f g : FileSyncInfo) (b : List ℕ) (s : Transfer D)
      (d' : AdbDevice D)
      → read_one t fuel (data_chunk ∷ done ∷ []) info f s.device
        ≡ (ok (reply_of data_chunk b, g), d')
      → pull_loop t fuel (suc rounds) info f total s
        ≡ pull_loop t fuel rounds info g total (record s {
          device = d';
          stream = s.stream ++ b;
          progress = s.progress ++ reported total (b ∷ []);
        })
  unfolding pull_loop zoom same_filesync
  round rounds none f g b s d' e =
      after_ok _ _ s (record s { device = d' }) (reply_of data_chunk b, g)
        (ap (λ y. (y.0, record s { device = y.1 })) e)
      ∙ after_ok _ _ _ (record s { device = d'; stream = s.stream ++ b }) tt refl
      ∙ after_ok _ _ _ (record s { device = d'; stream = s.stream ++ b }) tt refl
      ∙ ap
          (λ p.
            pull_loop t fuel rounds info g none
              (record s { device = d'; stream = s.stream ++ b; progress = p }))
          (sym (append-nil s.progress))
  round rounds (some total) f g b s d' e =
      after_ok _ _ s (record s { device = d' }) (reply_of data_chunk b, g)
        (ap (λ y. (y.0, record s { device = y.1 })) e)
      ∙ after_ok _ _ _ (record s { device = d'; stream = s.stream ++ b }) tt refl
      ∙ after_ok _ _ _ _ tt refl

  last_round :
      (rounds : ℕ) (total : Option ℕ) (f g : FileSyncInfo) (s : Transfer D) (d' : AdbDevice D)
      → read_one t fuel (data_chunk ∷ done ∷ []) info f s.device ≡ (ok (reply_of done [], g), d')
      → pull_loop t fuel (suc rounds) info f total s ≡ (ok tt, record s { device = d' })
  unfolding pull_loop zoom same_filesync
  last_round rounds total f g s d' e =
      after_ok _ _ s (record s { device = d' }) (reply_of done [], g)
        (ap (λ y. (y.0, record s { device = y.1 })) e)

  -- The blocks of a file end up in the stream, and the callback is called for each.
  pub pull_loop_lem :
      (rounds : ℕ) (total : Option ℕ) (blocks : List (List ℕ)) (m : ℕ) (i o : List ℕ)
      (f : FileSyncInfo) (s : Transfer D)
      → Reading m i o (file_packets blocks) f s.device
      → length blocks < rounds
      → All IsShort blocks
      → m ≤ fuel
      → (d' : AdbDevice D) × (pull_loop t fuel rounds info f total s ≡ (
        ok tt,
        record {
          device = d';
          stream = s.stream ++ join blocks;
          progress = s.progress ++ reported total blocks;
        },
      ))
        × OnLine t incoming sent start span x l n default i (o ++ okays l r m) d'
  unfolding file_packets join same_filesync is_expected_id
  pull_loop_lem zero total blocks m i o f s h enough short few = absurd (omega (arith, enough))
  pull_loop_lem (suc rounds) total [] m i o f s h enough short few =
      let (g, d', run, after) =
        read_one_lem t incoming sent start span x l n default info r own far fuel big patient
          ack_fits (data_chunk ∷ done ∷ []) done [] [] m i o f s.device refl refl (omega arith) few
          (subst (λ y. Reading m i o y f s.device) (sym (append-nil (packet done []))) h) in
      (
        d',
        last_round rounds total f g s d' run ∙ no_blocks total s d',
        all_answered m i o g d' after,
      )
  pull_loop_lem (suc rounds) total (b ∷ bs) m i o f s h enough (hb, hbs) few =
      let (g, d1, run, after) =
        read_one_lem t incoming sent start span x l n default info r own far fuel big patient
          ack_fits (data_chunk ∷ done ∷ []) data_chunk b (file_packets bs) m i o f s.device refl
          refl hb few h in
      let (d', rest, on) =
        pull_loop_lem rounds total bs m i o g
          (record s {
            device = d1;
            stream = s.stream ++ b;
            progress = s.progress ++ reported total (b ∷ []);
          })
          after (omega (arith, enough)) hbs few in
      (d', round rounds total f g b s d1 run ∙ rest ∙ more_blocks total b bs s d', on)
