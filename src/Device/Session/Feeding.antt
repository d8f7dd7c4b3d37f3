-- ===== src/Device/Session/Feeding.antt =====
-- FileSync packets out of the `WRTE`s of a stream: `_filesync_read_buffered` and `_filesync_read` of
-- AdbDevice (adb_device.py).
use adb_shell.Common.{
  ℕ, zero, suc, ◌+◌, ◌≤◌, ◌≡◌, refl, ap, ◌∙◌, List, [], ◌∷◌, ◌++◌, true, false, Option, some,
  length, All, ltb, ltb→lt, Bool-cases, inl, inr, arith,
}
use mathlib.Core.Path.{subst}
use mathlib.Core.List.{append_assoc, append-nil}
use adb_shell.Errors.{ok}
use adb_shell.Exec.{Exec, ◌>>=◌}
use adb_shell.Exec.Rules.{bind-eq}
use adb_shell.Exec.Gives.{Gives}
use adb_shell.Constants.{wrte, same_command}
use adb_shell.TransactionInfo.{AdbInfo}
use adb_shell.PacketStore.{is_nonempty}
use adb_shell.Transport.{Transport}
use adb_shell.Transport.Stream.{Duplex}
use adb_shell.IoManager.{is_expected}
use adb_shell.IoManager.Session.Wires.{Fits, bytes_of, wires}
use adb_shell.FileSyncInfo.{FileSyncInfo}
use adb_shell.Device.{AdbDevice}
use adb_shell.Device.Streams.{join, read_until}
use adb_shell.Device.FileSync.{fill}
use adb_shell.Device.Session.{Piece, IsPiece, written, acknowledged}
use adb_shell.Device.Session.Lines.{OnLine, read_wrte}
use adb_shell.Device.Session.Closing.{chunks}

-- The `WRTE`s of the device, and what it sends behind them.
unfoldable pub fed : ℕ → ℕ → List Piece → List ℕ → List ℕ
fed l r [] rest = rest
fed l r (c ∷ cs) rest = wires c.before ++ (bytes_of (written l r c.chunk) ++ fed l r cs rest)

-- The `OKAY`s of the host.
unfoldable pub okays : ℕ → ℕ → ℕ → List ℕ
okays l r zero = []
okays l r (suc k) = bytes_of (acknowledged l r) ++ okays l r k

pub okays-add : (l r j k : ℕ) → okays l r j ++ okays l r k ≡ okays l r (j + k)
unfolding okays
okays-add l r zero k = ap (okays l r) (omega arith)
okays-add l r (suc j) k =
    append_assoc (bytes_of (acknowledged l r)) (okays l r j) (okays l r k)
    ∙ ap (λ o. bytes_of (acknowledged l r) ++ o) (okays-add l r j k)
    ∙ ap (okays l r) more
  where
    more : suc (j + k) ≡ suc j + k
    more = omega arith

no_less : (a b : ℕ) → a ≤ b → ltb b a ≡ false
no_less a b h = elim (Bool-cases (ltb b a)) [
  | inl e ↦ absurd (omega (arith, ltb→lt b a e, h))
  | inr e ↦ e
]

-- A piece with data in it.
abbrev pub IsFull : ℕ → ℕ → ℕ → Piece → Type 0
IsFull l r fuel c = IsPiece l r fuel c × (is_nonempty c.chunk ≡ true)

-- The next action, from where the last one came.
pub after_ok :
    {S A B : Type 0} (m : Exec S A) (f : A → Exec S B) (s s' : S) (a : A)
    → m s ≡ (ok a, s')
    → (m >>= f) s ≡ f a s'
after_ok m f s s' a e = bind-eq m f s (ap (λ x. x.0) e) ∙ ap (λ x. f a x.1) e

module _ {D : Type 0} (t : Transport D) (incoming sent : D → List ℕ) (start span : ℕ)
    (x : Duplex t incoming sent start span) (l n : ℕ) (default : Option ℕ) (info : AdbInfo) (r : ℕ)
    (own : info.local_id ≡ some l) (far : info.remote_id ≡ some r) (fuel : ℕ) (big : 24 ≤ fuel)
    (patient : span ≤ info.read_timeout_s) (ack_fits : Fits fuel (acknowledged l r)) where
  abbrev On : List ℕ → List ℕ → AdbDevice D → Type 0
  On = OnLine t incoming sent start span x l n default

  -- What is left of the pieces behind an action that took some of them.
  pub record Took (cs : List Piece) (i o total : List ℕ) (b : List ℕ) (d : AdbDevice D)
      : Type 0 where
    pub left : List Piece
    pub okayed : ℕ
    pub on : On (fed l r left i) (o ++ okays l r okayed) d
    pub stream : b ++ join (chunks left) ≡ total
    pub counted : okayed + length left ≡ length cs
    pub full : All (IsFull l r fuel) left

  none_taken :
      (cs : List Piece) (i o b : List ℕ) (d : AdbDevice D)
      → On (fed l r cs i) o d
      → All (IsFull l r fuel) cs
      → Took cs i o (b ++ join (chunks cs)) b d
  unfolding okays
  none_taken cs i o b d on full = record {
    left = cs;
    okayed = 0;
    on = rw (append-nil o) on;
    stream = refl;
    counted = omega arith;
    full = full;
  }

  one_taken :
      (c : Piece) (cs : List Piece) (i o b b' : List ℕ) (d : AdbDevice D)
      → Took cs i (o ++ bytes_of (acknowledged l r)) ((b ++ c.chunk) ++ join (chunks cs)) b' d
      → Took (c ∷ cs) i o (b ++ join (chunks (c ∷ cs))) b' d
  unfolding okays join
  one_taken c cs i o b b' d k = record {
    left = k.left;
    okayed = suc k.okayed;
    on = rw (← append_assoc o (bytes_of (acknowledged l r)) (okays l r k.okayed)) k.on;
    stream = k.stream ∙ append_assoc b c.chunk (join (chunks cs));
    counted = omega (arith, k.counted);
    full = k.full;
  }

  fill_stop :
      (rounds size : ℕ) (f : FileSyncInfo) (d : AdbDevice D)
      → ltb (length f.recv_buffer) size ≡ false
      → fill t fuel rounds size info f d ≡ (ok f, d)
  unfolding fill
  fill_stop zero size f d e = rw e refl
  fill_stop (suc rounds) size f d e = rw e refl

  fill_more :
      (rounds size : ℕ) (f : FileSyncInfo) (chunk : List ℕ) (d d' : AdbDevice D)
      → ltb (length f.recv_buffer) size ≡ true
      → read_until t fuel (wrte ∷ []) info d ≡ (ok (wrte, chunk), d')
      → fill t fuel (suc rounds) size info f d
        ≡ fill t fuel rounds size info (record f { recv_buffer = f.recv_buffer ++ chunk }) d'
  unfolding fill
  fill_more rounds size f chunk d d' more e = rw more (after_ok _ _ d d' (wrte, chunk) e)

  piece_read :
      (c : Piece) (cs : List Piece) (i o : List ℕ)
      → IsFull l r fuel c
      → Gives
          (On (fed l r (c ∷ cs) i) o)
          (wrte, c.chunk)
          (On (fed l r cs i) (o ++ bytes_of (acknowledged l r)))
          (read_until t fuel (wrte ∷ []) info)
  unfolding fed is_expected same_command
  piece_read c cs i o h =
      read_wrte t incoming sent start span x l n default info r own fuel big patient far (wrte ∷ [])
        wrte c.chunk c.before (fed l r cs i) o h.0.fits refl h.0.others refl ack_fits

  -- What `fill` comes to.
  abbrev pub Filled : ℕ → ℕ → FileSyncInfo → List Piece → List ℕ → List ℕ → AdbDevice D → Type 0
  Filled rounds size f cs i o d =
      (b : List ℕ) × (d' : AdbDevice D) × (fill t fuel rounds size info f d
        ≡ (ok (record f { recv_buffer = b }), d'))
      × (size ≤ length b)
      × Took cs i o (f.recv_buffer ++ join (chunks cs)) b d'

  fill_done :
      (rounds size : ℕ) (f : FileSyncInfo) (cs : List Piece) (i o : List ℕ) (d : AdbDevice D)
      → On (fed l r cs i) o d
      → All (IsFull l r fuel) cs
      → ltb (length f.recv_buffer) size ≡ false
      → Filled rounds size f cs i o d
  fill_done rounds size f cs i o d on full e = (
    f.recv_buffer,
    d,
    fill_stop rounds size f d e,
    ground arith,
    none_taken cs i o f.recv_buffer d on full,
  )

  fill_on :
      (rounds size : ℕ) (f : FileSyncInfo) (c : Piece) (cs : List Piece) (i o : List ℕ)
      (d d' : AdbDevice D)
      → ltb (length f.recv_buffer) size ≡ true
      → read_until t fuel (wrte ∷ []) info d ≡ (ok (wrte, c.chunk), d')
      → Filled rounds size
          (record f { recv_buffer = f.recv_buffer ++ c.chunk })
          cs
          i
          (o ++ bytes_of (acknowledged l r))
          d'
      → Filled (suc rounds) size f (c ∷ cs) i o d
  fill_on rounds size f c cs i o d d' e got (b, d'', run, long, took) = (
    b,
    d'',
    fill_more rounds size f c.chunk d d' e got ∙ run,
    long,
    one_taken c cs i o f.recv_buffer b d'' took,
  )

  -- Enough pieces are read for `size` bytes.
  pub fill_lem :
      (rounds size : ℕ) (f : FileSyncInfo) (cs : List Piece) (i o : List ℕ) (d : AdbDevice D)
      → On (fed l r cs i) o d
      → size ≤ length (f.recv_buffer ++ join (chunks cs))
      → length cs ≤ rounds
      → All (IsFull l r fuel) cs
      → Filled rounds size f cs i o d
  unfolding join
  fill_lem rounds size f [] i o d on enough few full =
      fill_done rounds size f [] i o d on full
        (no_less size _ (subst (λ y. size ≤ length y) (append-nil f.recv_buffer) enough))
  fill_lem zero size f (c ∷ cs) i o d on enough few full = absurd (omega (arith, few))
  fill_lem (suc rounds) size f (c ∷ cs) i o d on enough few (h, hs) =
      elim (Bool-cases (ltb (length f.recv_buffer) size)) [
        | inr e ↦ fill_done (suc rounds) size f (c ∷ cs) i o d on (h, hs) e
        | inl e ↦
            let (d', got, on') = (piece_read c cs i o h).at d on in
            fill_on rounds size f c cs i o d d' e got (
              fill_lem rounds size (record f { recv_buffer = f.recv_buffer ++ c.chunk }) cs i
                (o ++ bytes_of (acknowledged l r)) d' on'
                (rw (append_assoc f.recv_buffer c.chunk (join (chunks cs))) enough)
                (omega (arith, few)) hs)
      ]
