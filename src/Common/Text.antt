-- ===== src/Common/Text.antt =====
-- `str` as a list of code points: `encode('utf8')` and the decimal digits of `'{}'.format(n)`.
use Prim.Native.Nat.{ℕ, zero, suc, ◌+◌, ◌/◌, ◌%◌, ◌^◌}
use mathlib.Core.List.{List, [], ◌∷◌, ◌++◌}
use adb_shell.Common.Tests.{ltb, if◌then◌else◌}

abbrev pub utf8_char : ℕ → List ℕ
utf8_char c =
    if ltb c 0x80
    then c ∷ []
    else if ltb c 0x800
    then (0xC0 + c / 2 ^ 6) ∷ (0x80 + c % 2 ^ 6) ∷ []
    else if ltb c 0x10000
    then (0xE0 + c / 2 ^ 12) ∷ (0x80 + c / 2 ^ 6 % 2 ^ 6) ∷ (0x80 + c % 2 ^ 6) ∷ []
    else (0xF0 + c / 2 ^ 18)
      ∷ (0x80 + c / 2 ^ 12 % 2 ^ 6)
      ∷ (0x80 + c / 2 ^ 6 % 2 ^ 6)
      ∷ (0x80 + c % 2 ^ 6)
      ∷ []

-- s.encode('utf8'), on texts without surrogates
unfoldable pub encode : List ℕ → List ℕ
encode [] = []
encode (c ∷ s) = utf8_char c ++ encode s

-- The digits of n, at most `fuel` of them, before what follows.
unfoldable pub digits_before : ℕ → ℕ → List ℕ → List ℕ
digits_before zero n rest = rest
digits_before (suc fuel) n rest =
    let more = digits_before fuel (n / 10) ((b'0' + n % 10) ∷ rest) in
    if ltb n 10 then (b'0' + n) ∷ rest else more

-- A number has no more than n + 1 digits.
unfoldable pub decimal : ℕ → List ℕ
unfolding digits_before
decimal n = digits_before (n + 1) n []
