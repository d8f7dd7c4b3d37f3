-- ===== src/Auth/KeyFiles/Generated.antt =====
-- What `keygen` of auth/keygen.py leaves in its two files.
use adb_shell.Common.{
  ℕ, ◌≡◌, ◌≢◌, refl, ap, ◌∙◌, List, [], ◌∷◌, ◌++◌, Option, some, arith, length, length-append, inl,
  All,
}
use adb_shell.Errors.{ok}
use adb_shell.Exec.{◌>>=◌}
use adb_shell.Message.Struct.{IsByte}
use adb_shell.Auth.Base64
use adb_shell.Auth.Base64.RoundTrip.{decode-encode}
use adb_shell.Auth.Keygen.{
  PublicNumbers, RsaPublicKey, struct_size, encode_numbers, unpack_struct, decode_pubkey,
}
use adb_shell.Auth.Keygen.Encoded.{IsKey, Holds, unpack_struct-encode_numbers}
use adb_shell.Auth.KeyFiles.{
  System, public_suffix, or_unknown, user_name, get_user_info, encode_pubkey, decode_pubkey_file,
  write_public_keyfile, keygen,
}

-- Files that keep what is written to them; `content` is none where there is no file.
pub record Stores {W : Type 0} (s : System W) (content : List ℕ → W → Option (List ℕ))
    : Type 0 where
  pub read_lem :
      (path bytes : List ℕ) (w : W)
      → content path w ≡ some bytes
      → s.read_file path w ≡ (ok bytes, w)
  pub open_lem :
      (path : List ℕ) (w : W)
      → (w' : W) × (s.open_empty path w ≡ (ok tt, w'))
        × (content path w' ≡ some [])
        × ((other : List ℕ) → other ≢ path → content other w' ≡ content other w)
  pub append_lem :
      (path bytes before : List ℕ) (w : W)
      → content path w ≡ some before
      → (w' : W) × (s.append path bytes w ≡ (ok tt, w'))
        × (content path w' ≡ some (before ++ bytes))
        × ((other : List ℕ) → other ≢ path → content other w' ≡ content other w)

no_suffix : (path : List ℕ) → path ≢ path ++ public_suffix
no_suffix path e = omega (arith, ap length e, length-append path public_suffix)

-- The text that is decoded is the struct's base64 form and what follows it.
decode_text :
    (blob text : List ℕ) (fields : RsaPublicKey)
    → length blob ≡ struct_size
    → All IsByte blob
    → unpack_struct blob ≡ ok fields
    → fields.size_words ≡ 64
    → decode_pubkey (Base64.encode blob ++ text) ≡ ok fields
unfolding decode_pubkey
decode_text blob text fields long bytes e words =
    rw (decode-encode blob text bytes (inl (λ z. omega (arith, long))), e) (ground (arith, words))

module _ {W : Type 0} (s : System W) (content : List ℕ → W → Option (List ℕ))
    (stores : Stores s content) where
  info_lem :
      (name host : List ℕ) (w : W)
      → user_name s.getlogin ≡ ok name
      → s.gethostname ≡ ok host
      → get_user_info s w ≡ (ok (b' ' ∷ name ++ (b'@' ∷ or_unknown host)), w)
  unfolding get_user_info ◌>>=◌
  info_lem name host w e e' = rw (e, e') refl

  encode_pubkey_lem :
      (path pem blob : List ℕ) (key : PublicNumbers) (w : W)
      → content path w ≡ some pem
      → s.load_pem pem ≡ ok key
      → encode_numbers s.modinv key ≡ ok blob
      → encode_pubkey s path w ≡ (ok blob, w)
  unfolding encode_pubkey ◌>>=◌
  encode_pubkey_lem path pem blob key w here loaded encoded =
      rw (stores.read_lem path pem w here, loaded, encoded) refl

  -- Make a file empty, and write to it.
  fresh_file :
      (path bytes : List ℕ) (w : W)
      → (w1 w2 : W) × (s.open_empty path w ≡ (ok tt, w1))
        × (s.append path bytes w1 ≡ (ok tt, w2))
        × (content path w2 ≡ some bytes)
        × ((other : List ℕ) → other ≢ path → content other w2 ≡ content other w)
  fresh_file path bytes w =
      let (w1, opened, empty, same) = stores.open_lem path w in
      let (w2, written, grown, same') = stores.append_lem path bytes [] w1 empty in
      (w1, w2, opened, written, grown, λ other ne. same' other ne ∙ same other ne)

  module _ (name host : List ℕ) (logged_in : user_name s.getlogin ≡ ok name)
      (hosted : s.gethostname ≡ ok host) where
    abbrev user_info : List ℕ
    user_info = b' ' ∷ name ++ (b'@' ∷ or_unknown host)

    write_lem :
        (path public pem blob : List ℕ) (key : PublicNumbers) (w : W)
        → content path w ≡ some pem
        → s.load_pem pem ≡ ok key
        → encode_numbers s.modinv key ≡ ok blob
        → length blob ≡ struct_size
        → (w' : W) × (write_public_keyfile s path public w ≡ (ok tt, w'))
          × (content public w' ≡ some (Base64.encode blob ++ user_info))
          × ((other : List ℕ) → other ≢ public → content other w' ≡ content other w)
    unfolding write_public_keyfile ◌>>=◌
    write_lem path public pem blob key w here loaded encoded long =
        let (w1, w2, opened, written, grown, same) = fresh_file public (Base64.encode blob) w in
        let (w3, more, grown', same') =
          stores.append_lem public user_info (Base64.encode blob) w2 grown in
        (
          w3,
          rw (encode_pubkey_lem path pem blob key w here loaded encoded)
              (ground (arith, long, opened, written, info_lem name host w2 logged_in hosted, more)),
          grown',
          λ other ne. same' other ne ∙ same other ne,
        )

  -- Over files that keep what is written to them, for a generated key that the format can hold (its
  -- PEM text loads, its modulus is not zero and has at most 2048 bits, and `_modinv` inverts its low
  -- word), a user whose name is known or whose lookup raises an OSError, and a host with a name or
  -- none: `keygen` returns; the PEM text stands in the file, and `decode_pubkey_file` reads the fields of
  -- that very key from the public file, whatever the names in it are.
  pub keygen_lem :
      (filepath pem name host : List ℕ) (key : PublicNumbers) (w w1 : W)
      → s.generate w ≡ (ok pem, w1)
      → s.load_pem pem ≡ ok key
      → IsKey s.modinv key
      → user_name s.getlogin ≡ ok name
      → s.gethostname ≡ ok host
      → (w' : W) × (fields : RsaPublicKey) × (keygen s filepath w ≡ (ok tt, w'))
        × (content filepath w' ≡ some pem)
        × (decode_pubkey_file s (filepath ++ public_suffix) w' ≡ (ok fields, w'))
        × Holds key fields
  unfolding keygen decode_pubkey_file ◌>>=◌
  keygen_lem filepath pem name host key w w1 generated loaded is_key logged_in hosted =
      let public = filepath ++ public_suffix in
      let (blob, fields, encoded, long, bytes, unpacked, holds) =
        unpack_struct-encode_numbers s.modinv key is_key in
      let (w2, w3, opened, written, private, _) = fresh_file filepath pem w1 in
      let (w4, made, text, same) =
        write_lem name host logged_in hosted filepath public pem blob key w3 private loaded encoded
          long in
      (
        w4,
        fields,
        rw (generated, opened, written) made,
        same filepath (no_suffix filepath) ∙ private,
        rw
            (
              stores.read_lem public _ w4 text,
              decode_text blob (user_info name host logged_in hosted) fields long bytes unpacked
                  holds.words,
            )
            refl,
        holds,
      )
