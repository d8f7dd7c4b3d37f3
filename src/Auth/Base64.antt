-- ===== src/Auth/Base64.antt =====
-- base64.b64encode and base64.b64decode of Python's standard library, as auth/keygen.py uses them: the
-- decoder skips every other character, and stops at the padding.
pub mod RoundTrip
use adb_shell.Common.{
  ℕ, ◌+◌, ◌-◌, ◌*◌, ◌/◌, ◌%◌, List, [], ◌∷◌, ◌++◌, Option, none, some, Bool, true, false, ◌==◌, ltb,
  leb, ◌&&◌, if◌then◌else◌,
}
use adb_shell.Errors.{Result, ok, err, value_error}

-- The character of six bits, and back.
unfoldable pub digit : ℕ → ℕ
digit v =
    if ltb v 26
    then v + 65
    else if ltb v 52
    then v + 71
    else if ltb v 62
    then v - 4
    else if v == 62
    then b'+'
    else b'/'

unfoldable pub digit_value : ℕ → Option ℕ
digit_value c =
    if leb b'A' c && leb c b'Z'
    then some (c - 65)
    else if leb b'a' c && leb c b'z'
    then some (c - 71)
    else if leb b'0' c && leb c b'9'
    then some (c + 4)
    else if c == b'+'
    then some 62
    else if c == b'/'
    then some 63
    else none

unfoldable pub encode : List ℕ → List ℕ
encode [] = []
encode (a ∷ []) = digit (a / 4) ∷ digit (a % 4 * 16) ∷ b'=' ∷ b'=' ∷ []
encode (a ∷ b ∷ []) = digit (a / 4) ∷ digit (a % 4 * 16 + b / 16) ∷ digit (b % 16 * 4) ∷ b'=' ∷ []
encode (a ∷ b ∷ c ∷ rest) =
    digit (a / 4)
    ∷ digit (a % 4 * 16 + b / 16)
    ∷ digit (b % 16 * 4 + c / 64)
    ∷ digit (c % 64)
    ∷ encode rest

-- How many characters of a group of four there were, with the bits that are left over; behind two of
-- them, whether there was a padding character.
pub data Quad : Type 0 where
  start : Quad
  one : ℕ → Quad
  two : ℕ → Bool → Quad
  three : ℕ → Quad

-- What a character does: it ends the data, or it gives bytes.
pub data After : Type 0 where
  finished : After
  going : List ℕ → Quad → After

abbrev pub filled : Quad → ℕ → After
filled start v = going [] (one v)
filled (one left) v = going ((left * 4 + v / 16) ∷ []) (two (v % 16) false)
filled (two left padded) v = going ((left * 16 + v / 4) ∷ []) (three (v % 4))
filled (three left) v = going ((left * 64 + v) ∷ []) start

abbrev pub padding : Quad → After
padding start = going [] start
padding (one left) = going [] (one left)
padding (two left false) = going [] (two left true)
padding (two left true) = finished
padding (three left) = finished

abbrev pub taken : Quad → Option ℕ → After
taken q none = going [] q
taken q (some v) = filled q v

unfoldable pub advance : Quad → ℕ → After
advance q c = if c == b'=' then padding q else taken q (digit_value c)

-- A group that is not complete is an error.
abbrev pub at_end : Quad → Result (List ℕ)
at_end start = ok []
at_end _ = err value_error

abbrev pub prepend : List ℕ → Result (List ℕ) → Result (List ℕ)
prepend front (ok rest) = ok (front ++ rest)
prepend front (err e) = err e

abbrev pub follow : After → (Quad → Result (List ℕ)) → Result (List ℕ)
follow finished rest = ok []
follow (going bytes q) rest = prepend bytes (rest q)

unfoldable pub decode_from : List ℕ → Quad → Result (List ℕ)
decode_from [] q = at_end q
decode_from (c ∷ cs) q = follow (advance q c) (λ q'. decode_from cs q')

unfoldable pub decode : List ℕ → Result (List ℕ)
decode cs = decode_from cs start
