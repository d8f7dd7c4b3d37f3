-- ===== src/Auth/Base64/RoundTrip.antt =====
-- base64.b64decode against base64.b64encode.
use adb_shell.Common.{
  ℕ, ◌+◌, ◌*◌, ◌/◌, ◌%◌, ◌<◌, ◌≡◌, ◌≢◌, refl, ap, ◌∙◌, List, [], ◌∷◌, ◌++◌, some, false, All, arith,
  ◌⊎◌, inl, inr, length,
}
use adb_shell.Errors.{Result, ok, err}
use adb_shell.Auth.Base64.{
  digit, digit_value, encode, decode, decode_from, Quad, start, one, two, three, going, advance,
  filled, prepend, follow,
}

digit_value-digit : (v : ℕ) → v < 64 → digit_value (digit v) ≡ some v
unfolding digit digit_value
digit_value-digit v h = ground arith

digit_no_padding : (v : ℕ) → v < 64 → digit v ≢ b'='
unfolding digit
digit_no_padding v h = ground arith

advance-digit : (q : Quad) (v : ℕ) → v < 64 → advance q (digit v) ≡ filled q v
unfolding advance
advance-digit q v h = ground (arith, digit_value-digit v h, digit_no_padding v h)

decode_digit :
    (q q' : Quad) (v : ℕ) (bytes rest : List ℕ)
    → v < 64
    → filled q v ≡ going bytes q'
    → decode_from (digit v ∷ rest) q ≡ prepend bytes (decode_from rest q')
unfolding decode_from
decode_digit q q' v bytes rest h e =
    ap (λ a. follow a (λ q. decode_from rest q)) (advance-digit q v h ∙ e)

prepend_nil : (r : Result (List ℕ)) → prepend [] r ≡ r
prepend_nil (ok l) = refl
prepend_nil (err e) = refl

-- Two digits, and three, and four, and what they stand for.
two_digits :
    (a b : ℕ) (rest : List ℕ)
    → a < 256
    → b < 256
    → decode_from (digit (a / 4) ∷ digit (a % 4 * 16 + b / 16) ∷ rest) start
      ≡ prepend (a ∷ []) (decode_from rest (two (b / 16) false))
two_digits a b rest ha hb =
    decode_digit start (one (a / 4)) (a / 4) [] (digit (a % 4 * 16 + b / 16) ∷ rest) (omega arith)
      refl
    ∙ prepend_nil _
    ∙ decode_digit (one (a / 4)) (two (b / 16) false) (a % 4 * 16 + b / 16) (a ∷ []) rest
        (omega arith) (ground arith)

third_digit :
    (b c : ℕ) (rest : List ℕ)
    → b < 256
    → c < 256
    → decode_from (digit (b % 16 * 4 + c / 64) ∷ rest) (two (b / 16) false)
      ≡ prepend (b ∷ []) (decode_from rest (three (c / 64)))
third_digit b c rest hb hc =
    decode_digit (two (b / 16) false) (three (c / 64)) (b % 16 * 4 + c / 64) (b ∷ []) rest
      (omega arith) (ground arith)

fourth_digit :
    (c : ℕ) (rest : List ℕ)
    → c < 256
    → decode_from (digit (c % 64) ∷ rest) (three (c / 64))
      ≡ prepend (c ∷ []) (decode_from rest start)
fourth_digit c rest hc =
    decode_digit (three (c / 64)) start (c % 64) (c ∷ []) rest (omega arith) (ground arith)

-- Padding ends the data, whatever follows.
padded_one : (left : ℕ) (rest : List ℕ) → decode_from (b'=' ∷ b'=' ∷ rest) (two left false) ≡ ok []
unfolding decode_from advance
padded_one left rest = refl

padded_two : (left : ℕ) (rest : List ℕ) → decode_from (b'=' ∷ rest) (three left) ≡ ok []
unfolding decode_from advance
padded_two left rest = refl

-- The last group, of one byte and of two.
last_one :
    (a : ℕ) (rest : List ℕ)
    → a < 256
    → decode_from (digit (a / 4) ∷ digit (a % 4 * 16) ∷ b'=' ∷ b'=' ∷ rest) start ≡ ok (a ∷ [])
last_one a rest ha =
    ap (λ v. decode_from (digit (a / 4) ∷ digit v ∷ b'=' ∷ b'=' ∷ rest) start) (omega arith)
    ∙ two_digits a 0 (b'=' ∷ b'=' ∷ rest) ha (omega arith)
    ∙ ap (prepend (a ∷ [])) (padded_one 0 rest)

last_two :
    (a b : ℕ) (rest : List ℕ)
    → a < 256
    → b < 256
    → decode_from
        (digit (a / 4) ∷ digit (a % 4 * 16 + b / 16) ∷ digit (b % 16 * 4) ∷ b'=' ∷ rest)
        start
      ≡ ok (a ∷ b ∷ [])
last_two a b rest ha hb =
    two_digits a b (digit (b % 16 * 4) ∷ b'=' ∷ rest) ha hb
    ∙ ap (λ v. prepend (a ∷ []) (decode_from (digit v ∷ b'=' ∷ rest) (two (b / 16) false)))
        (omega arith)
    ∙ ap (prepend (a ∷ [])) (third_digit b 0 (b'=' ∷ rest) hb (omega arith))
    ∙ ap (λ r. prepend (a ∷ []) (prepend (b ∷ []) r)) (padded_two 0 rest)

full_group :
    (a b c : ℕ) (rest : List ℕ)
    → a < 256
    → b < 256
    → c < 256
    → decode_from
        (digit (a / 4)
          ∷ digit (a % 4 * 16 + b / 16)
          ∷ digit (b % 16 * 4 + c / 64)
          ∷ digit (c % 64)
          ∷ rest)
        start
      ≡ prepend (a ∷ []) (prepend (b ∷ []) (prepend (c ∷ []) (decode_from rest start)))
full_group a b c rest ha hb hc =
    two_digits a b (digit (b % 16 * 4 + c / 64) ∷ digit (c % 64) ∷ rest) ha hb
    ∙ ap (prepend (a ∷ [])) (third_digit b c (digit (c % 64) ∷ rest) hb hc)
    ∙ ap (λ r. prepend (a ∷ []) (prepend (b ∷ []) r)) (fourth_digit c rest hc)

-- A number of bytes that does not fill its last group of three.
abbrev pub HasPadding : List ℕ → Type 0
HasPadding bytes = length bytes % 3 ≢ 0

-- What was encoded is decoded again; where the last group is padded, text behind it does not matter.
pub decode-encode :
    (bytes text : List ℕ)
    → All (λ b. b < 256) bytes
    → HasPadding bytes ⊎ (text ≡ [])
    → decode (encode bytes ++ text) ≡ ok bytes
unfolding encode decode
decode-encode [] text h (inl padded) = absurd (omega (arith, padded))
decode-encode [] text h (inr e) = rw e (unfold decode_from in refl)
decode-encode (a ∷ []) text (ha, _) p = last_one a text ha
decode-encode (a ∷ b ∷ []) text (ha, (hb, _)) p = last_two a b text ha hb
decode-encode (a ∷ b ∷ c ∷ bytes) text (ha, (hb, (hc, h))) (inl padded) =
    full_group a b c (encode bytes ++ text) ha hb hc
    ∙ ap (λ r. prepend (a ∷ []) (prepend (b ∷ []) (prepend (c ∷ []) r)))
        (decode-encode bytes text h (inl (λ e. padded (omega arith))))
decode-encode (a ∷ b ∷ c ∷ bytes) text (ha, (hb, (hc, h))) (inr e) =
    full_group a b c (encode bytes ++ text) ha hb hc
    ∙ ap (λ r. prepend (a ∷ []) (prepend (b ∷ []) (prepend (c ∷ []) r)))
        (decode-encode bytes text h (inr e))
