-- ===== src/IoManager/Packets/RoundTrip.antt =====
-- _read_packet_from_device (adb_device.py) over a transport that delivers a stream.
use adb_shell.Common.{
  ℕ, zero, suc, ◌+◌, ◌-◌, ◌≤◌, ◌<◌, ◌^◌, ◌≡◌, refl, sym, ap, ◌∙◌, List, [], ◌∷◌, ◌++◌, true, false,
  some, length, take, drop, ◌==◌, if◌then◌else◌, arith, length-append, Bool-cases, inl, inr,
  take-append_ge, drop-append_ge, take-append_exact, drop-append_exact,
}
use mathlib.Core.Path.{subst}
use mathlib.Core.List.{append-nil, append_assoc}
use adb_shell.Errors.{ok, err, invalid_checksum}
use adb_shell.Exec.{Exec, ◌>>=◌}
use adb_shell.TransactionInfo.{AdbInfo}
use adb_shell.Constants.{Command, id_to_wire}
use adb_shell.Constants.Wire.{wire_to_id_iff}
use adb_shell.Message.{Header, new_message, pack, unpack, checksum}
use adb_shell.Message.RoundTrip.{unpack-pack, header}
use adb_shell.PacketStore.View.{packet_of}
use adb_shell.Transport.{Transport}
use adb_shell.Transport.Stream.{Delivers}
use adb_shell.IoManager.Packets.{unless_late, read_rest, read_bytes, read_payload, read_packet}

-- Cutting a list at, or past, the end of its first part.
module _ (n : ℕ) (whole chunk rest : List ℕ) (split : whole ≡ chunk ++ rest) where
  take_at : n ≡ length chunk → take n whole ≡ chunk
  take_at e = rw (split, e) (take-append_exact chunk rest)

  drop_at : n ≡ length chunk → drop n whole ≡ rest
  drop_at e = rw (split, e) (drop-append_exact chunk rest)

  take_past : length chunk ≤ n → take n whole ≡ chunk ++ take (n - length chunk) rest
  take_past h = rw split (take-append_ge n chunk rest h)

  drop_past : length chunk ≤ n → drop n whole ≡ drop (n - length chunk) rest
  drop_past h = rw split (drop-append_ge n chunk rest h)

module _ {D : Type 0} (t : Transport D) (incoming : D → List ℕ) (start span : ℕ)
    (s : Delivers t incoming start span) (info : AdbInfo)
    (patient : span ≤ info.read_timeout_s) where
  -- The clock is never late.
  unless_late_lem :
      {A : Type 0} (at : ℕ) (m : Exec D A) (d : D)
      → start ≤ at
      → unless_late t at info.read_timeout_s m d ≡ m (t.time d).1
  unfolding unless_late ◌>>=◌
  unless_late_lem at m d h = ground (arith, s.to_end d)

  last_piece :
      (fuel at n : ℕ) (so_far : List ℕ) (d : D) (chunk : List ℕ) (d1 : D)
      → t.bulk_read (suc n) info.transport_timeout_s d ≡ (ok chunk, d1)
      → (suc n == length chunk) ≡ true
      → read_rest t (suc fuel) info at (suc n) so_far d ≡ (ok (so_far ++ chunk), d1)
  unfolding read_rest ◌>>=◌
  last_piece fuel at n so_far d chunk d1 e all = ground arith

  next_piece :
      (fuel at n : ℕ) (so_far : List ℕ) (d : D) (chunk : List ℕ) (d1 : D)
      → start ≤ at
      → t.bulk_read (suc n) info.transport_timeout_s d ≡ (ok chunk, d1)
      → (suc n == length chunk) ≡ false
      → read_rest t (suc fuel) info at (suc n) so_far d
        ≡ read_rest t fuel info at (suc n - length chunk) (so_far ++ chunk) (t.time d1).1
  unfolding read_rest ◌>>=◌
  next_piece fuel at n so_far d chunk d1 h e left = ground (
    arith,
    unless_late_lem at (read_rest t fuel info at (suc n - length chunk) (so_far ++ chunk)) d1 h,
  )

  -- `n` bytes, which the stream has, are read and taken off it.
  read_rest_lem :
      (fuel at n : ℕ) (so_far : List ℕ) (d : D)
      → start ≤ at
      → n ≤ fuel
      → n ≤ length (incoming d)
      → (d' : D) × (read_rest t fuel info at n so_far d ≡ (ok (so_far ++ take n (incoming d)), d'))
        × (incoming d' ≡ drop n (incoming d))
  read_rest_lem fuel at zero so_far d h hf hn = (d, unfold read_rest in rw append-nil, refl)
  read_rest_lem zero at (suc n) so_far d h hf hn = absurd (omega arith)
  read_rest_lem (suc fuel) at (suc n) so_far d h hf hn =
      let (chunk, d1, e, pos, le, split) =
        s.read_lem (suc n) info.transport_timeout_s d (omega arith) hn in
      let d2 = (t.time d1).1 in
      let same : incoming d2 ≡ incoming d1 = s.time_keeps d1 in
      let left : length (incoming d) ≡ length chunk + length (incoming d1) =
        ap length split ∙ length-append chunk (incoming d1) in
      elim (Bool-cases (suc n == length chunk)) [
        | inl all ↦
            let exact : suc n ≡ length chunk = ground arith in
            (
              d1,
              last_piece fuel at n so_far d chunk d1 e all
                  ∙ ap (λ l. (ok (so_far ++ l), d1))
                      (sym (take_at (suc n) (incoming d) chunk (incoming d1) split exact)),
              sym (drop_at (suc n) (incoming d) chunk (incoming d1) split exact),
            )
        | inr more ↦
            let (d', r, i) =
              read_rest_lem fuel at (suc n - length chunk) (so_far ++ chunk) d2 h (omega arith)
                (rw same (omega arith)) in
            (
              d',
              next_piece fuel at n so_far d chunk d1 h e more
                  ∙ r
                  ∙ ap (λ l. (ok l, d'))
                      (append_assoc so_far chunk (take (suc n - length chunk) (incoming d2))
                        ∙ ap (λ l. so_far ++ l)
                            (ap (λ l. chunk ++ take (suc n - length chunk) l) same
                              ∙ sym (take_past (suc n) (incoming d) chunk (incoming d1) split le))),
              i
                  ∙ ap (drop (suc n - length chunk)) same
                  ∙ sym (drop_past (suc n) (incoming d) chunk (incoming d1) split le),
            )
      ]

  both_empty : (xs ys : List ℕ) → length xs ≡ 0 → length ys ≡ length xs → checksum xs ≡ checksum ys
  both_empty [] [] h e = refl
  both_empty [] (y ∷ ys) h e = absurd (omega arith)
  both_empty (x ∷ xs) ys h e = absurd (omega arith)

  read_bytes_lem :
      (fuel : ℕ) (front rest : List ℕ) (d : D)
      → length front ≤ fuel
      → incoming d ≡ front ++ rest
      → (d' : D) × (read_bytes t fuel (length front) info d ≡ (ok front, d')) × (incoming d' ≡ rest)
  unfolding read_bytes ◌>>=◌
  read_bytes_lem fuel front rest d hf e =
      let (n, d1) = t.time d in
      let same : incoming d1 ≡ front ++ rest = s.time_keeps d ∙ e in
      let (d2, r, i) =
        read_rest_lem fuel n (length front) [] d1 (s.from_start d) hf
          (omega (arith, ap length same, length-append front rest)) in
      (
        d2,
        r ∙ ap (λ l. (ok l, d2)) (take_at (length front) (incoming d1) front rest same refl),
        i ∙ drop_at (length front) (incoming d1) front rest same refl,
      )

  -- The data behind a header, against the length and the checksum that the header announces.
  read_payload_lem :
      (fuel : ℕ) (c : Command) (h : Header) (received rest : List ℕ) (d : D)
      → length received ≤ fuel
      → h.data_length ≡ length received
      → (h.data_length ≡ 0 → h.data_checksum ≡ checksum received)
      → incoming d ≡ received ++ rest
      → (d' : D) × (read_payload t fuel info c h d ≡ (
        if checksum received == h.data_checksum
            then ok (packet_of c h.arg0 h.arg1 received)
            else err invalid_checksum,
        d',
      ))
        × (incoming d' ≡ rest)
  read_payload_lem fuel c h [] rest d hf hl hz e = (d, unfold read_payload in ground (arith, hz), e)
  read_payload_lem fuel c h (b ∷ bs) rest d hf hl hz e =
      let (d', r, i) = read_bytes_lem fuel (b ∷ bs) rest d hf e in
      (d', unfold read_payload ◌>>=◌ in ground (arith, hl, r), i)

  -- A header that `pack` wrote, and behind it as many bytes as it announces.
  read_packet_lem :
      (fuel : ℕ) (c : Command) (a b : ℕ) (payload received rest packed : List ℕ) (d : D)
      → unpack packed ≡ ok (header c a b payload)
      → length packed ≡ 24
      → length received ≡ length payload
      → 24 ≤ fuel
      → length payload ≤ fuel
      → incoming d ≡ packed ++ (received ++ rest)
      → (d' : D) × (read_packet t fuel info d ≡ (
        if checksum received == checksum payload
            then ok (packet_of c a b received)
            else err invalid_checksum,
        d',
      ))
        × (incoming d' ≡ rest)
  read_packet_lem fuel c a b payload received rest packed d u n same hf hp e =
      let (d1, r1, i1) = read_bytes_lem fuel packed (received ++ rest) d (omega arith) e in
      let (d2, r2, i2) =
        read_payload_lem fuel c (header c a b payload) received rest d1 (omega arith) (omega arith)
          (λ z. both_empty payload received z same) i1 in
      (
        d2,
        unfold read_packet ◌>>=◌ in
            ground (arith, n, r1, u, (wire_to_id_iff (id_to_wire c) c).1 refl, r2),
        i2,
      )

-- From a transport that delivers a stream, with a clock whose readings stay within the limit on a read,
-- and with as many rounds as the header and the data have bytes: where the stream begins with the header
-- of a message whose ids and length fit 32 bits and as many bytes as its data,
-- `_read_packet_from_device` takes exactly those off the stream, however the transport cuts them. It
-- returns the command, the ids and the bytes if their checksum is that of the data, and raises
-- `InvalidChecksumError` if not.
pub packet_received :
    {D : Type 0} (t : Transport D) (incoming : D → List ℕ) (start span : ℕ)
    (s : Delivers t incoming start span) (info : AdbInfo) (fuel : ℕ) (c : Command) (a b : ℕ)
    (payload received rest packed : List ℕ) (d : D)
    → span ≤ info.read_timeout_s
    → a < 2 ^ 32
    → b < 2 ^ 32
    → length payload < 2 ^ 32
    → pack (new_message c (some a) (some b) payload) ≡ ok packed
    → length received ≡ length payload
    → 24 ≤ fuel
    → length payload ≤ fuel
    → incoming d ≡ packed ++ (received ++ rest)
    → (d' : D) × (read_packet t fuel info d ≡ (
      if checksum received == checksum payload
          then ok (packet_of c a b received)
          else err invalid_checksum,
      d',
    ))
      × (incoming d' ≡ rest)
packet_received t incoming start span s info fuel c a b payload received rest packed d patient ha hb
      hl p same hf hp e =
    let (packed', p', n, u) = unpack-pack c a b payload ha hb hl in
    let one : packed' ≡ packed = cc (p, p') in
    read_packet_lem t incoming start span s info patient fuel c a b payload received rest packed d
      (subst (λ l. unpack l ≡ ok (header c a b payload)) one u) (subst (λ l. length l ≡ 24) one n)
      same hf hp e
