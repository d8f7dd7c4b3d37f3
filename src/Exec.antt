-- ===== src/Exec.antt =====
-- Methods that change an object and may raise: what was written before a raise stays written, so
-- the state comes back beside the error too.
pub mod Rules
pub mod Gives
use adb_shell.Common.{◌≡◌, refl}
use adb_shell.Errors.{Error, Result, ok, err, out_of_fuel}

abbrev pub Exec {ℓ} : Type ℓ → Type ℓ → Type ℓ
Exec S A = S → Result A × S

module _ {ℓ} {S A : Type ℓ} where
  abbrev pub gets : (S → A) → Exec S A
  gets view state = (ok (view state), state)

  abbrev pub raise : Error → Exec S A
  raise error state = (err error, state)

  abbrev pub pure : A → Exec S A
  pure value state = (ok value, state)

  abbrev pub lift : Result A → Exec S A
  lift result state = (result, state)

module _ {ℓ} {S A B : Type ℓ} where
  abbrev pub continue : Result A → (A → Exec S B) → Exec S B
  continue (ok value) next state = next value state
  continue (err error) next state = (err error, state)

  infixl 10 ◌>>=◌ ◌>>◌
  unfoldable pub ◌>>=◌ : Exec S A → (A → Exec S B) → Exec S B
  ◌>>=◌ m next state = continue (m state).0 next (m state).1

  abbrev pub ◌>>◌ : Exec S A → Exec S B → Exec S B
  m >> n = m >>= λ _. n

module _ {ℓ} {S : Type ℓ} where
  -- a statement that only writes to the state
  abbrev pub modify : (S → S) → Exec S (Unit {ℓ})
  modify f s = (ok tt, f s)

-- `try: m finally: k`: `k` runs either way; an exception of `k` replaces that of `m`.
abbrev pub settle {ℓ} : {A B : Type ℓ} → Result A → Result B → Result A
settle r (ok _) = r
settle r (err e) = err e

module _ {ℓ} {S A B : Type ℓ} where
  unfoldable pub finally : Exec S A → Exec S B → Exec S A
  finally m k s = let (r, s') = m s in let (q, s'') = k s' in (settle r q, s'')

-- The model's own error is no exception: no `except` catches it.
abbrev pub replaced : Error → Error → Error
replaced e out_of_fuel = out_of_fuel
replaced e x = e

abbrev pub recast {ℓ} : {A : Type ℓ} → Error → Result A → Result A
recast e (ok a) = ok a
recast e (err x) = err (replaced e x)

-- `try: m except Exception: raise e`
unfoldable pub or_raise {ℓ} : {S A : Type ℓ} → Error → Exec S A → Exec S A
or_raise e m s = let (r, s') = m s in (recast e r, s')

-- An action of a part of the state, run on the whole.
unfoldable pub zoom {ℓ} : {S T A : Type ℓ} → (T → S) → (S → T → T) → Exec S A → Exec T A
zoom part with_part m t = let (r, s) = m (part t) in (r, with_part s t)
