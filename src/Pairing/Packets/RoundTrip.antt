-- ===== src/Pairing/Packets/RoundTrip.antt =====
-- Packing and unpacking of pairing/connection.py against each other.
use adb_shell.Common.{
  ℕ, zero, suc, ◌-◌, ◌≤◌, ◌<◌, ◌≡◌, refl, sym, ap, ◌∙◌, List, [], ◌∷◌, ◌++◌, length, replicate,
  length-append, length-replicate, All, arith, ltb, if◌then◌else◌,
}
use adb_shell.Errors.{ok, err, struct_error}
use adb_shell.Pairing.Packets.{
  PeerInfo, max_payload_size, peer_info_size, peer_info_data_size, big_endian, pack_header,
  unpack_header, new_peer_info, pack_peer_info, unpack_peer_info, rstrip, strip_after,
}

-- A header that `_pack_header` writes for a packet that is not empty and not too long is read back.
pub unpack_header-pack_header :
    (packet_type payload_size : ℕ)
    → packet_type < 256
    → 0 < payload_size
    → payload_size ≤ max_payload_size
    → (blob : List ℕ) × (pack_header packet_type payload_size ≡ ok blob)
      × (unpack_header blob ≡ ok (packet_type, payload_size))
unfolding pack_header unpack_header big_endian
unpack_header-pack_header packet_type payload_size small pos fits =
    (1 ∷ packet_type ∷ big_endian payload_size, ground arith, ground arith)

-- `_unpack_header` accepts only what `_pack_header` writes for a packet that is not empty and not too
-- long; any other six bytes, and any other number of bytes, are refused.
pub pack_header-unpack_header :
    (blob : List ℕ) (packet_type payload_size : ℕ)
    → All (λ b. b < 256) blob
    → unpack_header blob ≡ ok (packet_type, payload_size)
    → (pack_header packet_type payload_size ≡ ok blob)
      × (0 < payload_size)
      × (payload_size ≤ max_payload_size)
unfolding pack_header unpack_header big_endian
pack_header-unpack_header [] t n bytes e = cc
pack_header-unpack_header (a ∷ []) t n bytes e = cc
pack_header-unpack_header (a ∷ b ∷ []) t n bytes e = cc
pack_header-unpack_header (a ∷ b ∷ c ∷ []) t n bytes e = cc
pack_header-unpack_header (a ∷ b ∷ c ∷ d ∷ []) t n bytes e = cc
pack_header-unpack_header (a ∷ b ∷ c ∷ d ∷ f ∷ []) t n bytes e = cc
pack_header-unpack_header (a ∷ b ∷ c ∷ d ∷ f ∷ g ∷ []) t n bytes e = ground (arith, e)
pack_header-unpack_header (a ∷ b ∷ c ∷ d ∷ f ∷ g ∷ h ∷ bs) t n bytes e = cc

-- Cut off trailing zeros, and what was cut off.
rstrip_cons :
    (x : ℕ) (ys zs : List ℕ) (n : ℕ)
    → length ys ≤ n
    → ys ++ replicate (n - length ys) 0 ≡ zs
    → (length (strip_after x ys) ≤ suc n)
      × (strip_after x ys ++ replicate (suc n - length (strip_after x ys)) 0 ≡ x ∷ zs)
rstrip_cons x [] zs n h e = ground (arith, e)
rstrip_cons x (y ∷ ys) zs n h e =
    (omega arith, ap (λ k. x ∷ (y ∷ ys) ++ replicate k 0) (omega arith) ∙ ap (λ l. x ∷ l) e)

rstrip_pad :
    (xs : List ℕ)
    → (length (rstrip xs) ≤ length xs)
      × (rstrip xs ++ replicate (length xs - length (rstrip xs)) 0 ≡ xs)
unfolding rstrip
rstrip_pad [] = (omega arith, refl)
rstrip_pad (x ∷ xs) = let (h, e) = rstrip_pad xs in rstrip_cons x (rstrip xs) xs (length xs) h e

rstrip_keeps : (x : ℕ) (xs : List ℕ) → rstrip (x ∷ xs) ≡ strip_after x (rstrip xs)
unfolding rstrip
rstrip_keeps x xs = refl

rstrip-zeros : (n : ℕ) → rstrip (replicate n 0) ≡ []
unfolding rstrip
rstrip-zeros zero = refl
rstrip-zeros (suc n) = rw (rstrip-zeros n)

-- Zeros behind do not matter.
rstrip-pad : (xs : List ℕ) (n : ℕ) → rstrip (xs ++ replicate n 0) ≡ rstrip xs
unfolding rstrip
rstrip-pad [] n = rstrip-zeros n
rstrip-pad (x ∷ xs) n = ap (strip_after x) (rstrip-pad xs n)

rstrip_bound : (xs : List ℕ) → length (rstrip xs) ≤ length xs
rstrip_bound xs = (rstrip_pad xs).0

unpack_blob :
    (peer_type : ℕ) (rest stripped : List ℕ)
    → rstrip rest ≡ stripped
    → length rest ≡ peer_info_data_size
    → length stripped ≤ peer_info_data_size
    → unpack_peer_info (peer_type ∷ rest)
      ≡ ok (record { peer_type = peer_type; payload = stripped })
unfolding unpack_peer_info new_peer_info
unpack_blob peer_type rest stripped e long fits = ground (arith, e)

pack_bytes :
    (b : ℕ) (xs bs : List ℕ)
    → b < 256
    → xs ≡ bs
    → (if ltb b 256 then ok (b ∷ xs) else err struct_error) ≡ ok (b ∷ bs)
pack_bytes b xs bs small e = ground arith

no_blob : (p : PeerInfo) → unpack_peer_info [] ≡ ok p → pack_peer_info p ≡ ok []
unfolding unpack_peer_info
no_blob p e = absurd (ground (arith, e))

unpacked :
    (b : ℕ) (bs : List ℕ) (p : PeerInfo)
    → unpack_peer_info (b ∷ bs) ≡ ok p
    → (length bs ≡ peer_info_data_size) × (record { peer_type = b; payload = rstrip bs } ≡ p)
unfolding unpack_peer_info new_peer_info
unpacked b bs p e = ground (arith, e)

-- `PeerInfo.unpack` reads back what `PeerInfo.pack` writes, but for the zero bytes at the end of the
-- data, which are lost; a packed PeerInfo has 8192 bytes. The type is to be a byte, and the data at
-- most 8191 bytes long, as `__init__` requires.
pub unpack_peer_info-pack_peer_info :
    (peer_type : ℕ) (payload : List ℕ)
    → peer_type < 256
    → length payload ≤ peer_info_data_size
    → let p : PeerInfo = record { peer_type = peer_type; payload = payload } in
      (blob : List ℕ) × (new_peer_info peer_type payload ≡ ok p)
      × (pack_peer_info p ≡ ok blob)
      × (length blob ≡ peer_info_size)
      × (unpack_peer_info blob ≡ ok (record { peer_type = peer_type; payload = rstrip payload }))
unfolding new_peer_info pack_peer_info
unpack_peer_info-pack_peer_info peer_type payload small fits =
    let n : ℕ = peer_info_data_size - length payload in
    let pad : List ℕ = replicate n 0 in
    let long : length (payload ++ pad) ≡ peer_info_data_size =
      omega (arith, length-append payload pad, length-replicate {A = ℕ} n 0) in
    (
      peer_type ∷ payload ++ pad,
      ground arith,
      ground arith,
      omega (arith, long),
      unpack_blob peer_type (payload ++ pad) (rstrip payload) (rstrip-pad payload n) long
          (omega (arith, rstrip_bound payload)),
    )

-- What `PeerInfo.unpack` returns is packed again to the very blob of bytes that it was read from, so no
-- two blobs are read as the same PeerInfo.
pub pack_peer_info-unpack_peer_info :
    (blob : List ℕ) (p : PeerInfo)
    → All (λ b. b < 256) blob
    → unpack_peer_info blob ≡ ok p
    → pack_peer_info p ≡ ok blob
unfolding pack_peer_info
pack_peer_info-unpack_peer_info [] p bytes e = no_blob p e
pack_peer_info-unpack_peer_info (b ∷ bs) p bytes e =
    let (long, same) = unpacked b bs p e in
    let (h, pad) = rstrip_pad bs in
    let padded : rstrip bs ++ replicate (peer_info_data_size - length (rstrip bs)) 0 ≡ bs =
      ap (λ k. rstrip bs ++ replicate (k - length (rstrip bs)) 0) (sym long) ∙ pad in
    rw (← same) (
      pack_bytes b (rstrip bs ++ replicate (peer_info_data_size - length (rstrip bs)) 0) bs bytes.0
        padded)
