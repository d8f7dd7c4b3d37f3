-- ===== src/Exec/Rules.antt =====
-- Statements about actions, with a rule for each way to build an action.
use adb_shell.Common.{◌≡◌, ◌≢◌, ap, refl, Bool, true, false, if◌then◌else◌}
use mathlib.Core.Path.{subst}
use adb_shell.Errors.{Error, Result, ok, err, out_of_fuel}
use adb_shell.Exec.{Exec, ◌>>=◌, continue, pure, raise, lift, gets, zoom, finally}

-- `P` holds afterwards, whether the action returns or raises.
pub record Keeps {S A : Type 0} (P : S → Type 0) (m : Exec S A) : Type 0 where
  pub at : (s : S) → P s → P (m s).1

module _ {S A : Type 0} {P : S → Type 0} where
  pub Keeps-gets : (view : S → A) → Keeps P (gets view)
  Keeps-gets view = record { at = λ state holds. holds }

  pub Keeps-lift : (r : Result A) → Keeps P (lift r)
  Keeps-lift r = record { at = λ state holds. holds }

  pub Keeps-raise : (e : Error) → Keeps P (raise {A = A} e)
  Keeps-raise e = record { at = λ state holds. holds }

  pub Keeps-pure : (value : A) → Keeps P (pure value)
  Keeps-pure value = record { at = λ state holds. holds }

  pub Keeps-if : (b : Bool) (m n : Exec S A) → Keeps P m → Keeps P n → Keeps P (if b then m else n)
  Keeps-if true m n hm hn = hm
  Keeps-if false m n hm hn = hn

module _ {S A B : Type 0} where
  -- What is known when two actions in a row return: the first returned, and the second ran behind it.
  abbrev pub InTurn : Exec S A → (A → Exec S B) → S → B → Type 0
  InTurn m f s b =
      (a : A) × ((m s).0 ≡ ok a) × ((f a (m s).1).0 ≡ ok b) × (((m >>= f) s).1 ≡ (f a (m s).1).1)

  continue-ok :
      (r : Result A) (f : A → Exec S B) (s : S) (b : B)
      → (continue r f s).0 ≡ ok b
      → (a : A) × (r ≡ ok a) × ((f a s).0 ≡ ok b) × ((continue r f s).1 ≡ (f a s).1)
  continue-ok (ok a) f s b e = (a, refl, e, refl)
  continue-ok (err x) f s b e = absurd cc

  continue-eq :
      (r : Result A) (f : A → Exec S B) (s : S) (a : A) → r ≡ ok a → continue r f s ≡ f a s
  continue-eq r f s a e = ap (λ q. continue q f s) e

  -- An action that returns, and what follows it.
  pub bind-eq :
      (m : Exec S A) (f : A → Exec S B) (s : S) {a : A} → (m s).0 ≡ ok a → (m >>= f) s ≡ f a (m s).1
  unfolding ◌>>=◌
  bind-eq m f s {a} e = continue-eq (m s).0 f (m s).1 a e

  pub bind-ok :
      (m : Exec S A) (f : A → Exec S B) (s : S) (b : B) → ((m >>= f) s).0 ≡ ok b → InTurn m f s b
  unfolding ◌>>=◌
  bind-ok m f s b e = continue-ok (m s).0 f (m s).1 b e

module _ {S A B : Type 0} {P : S → Type 0} where
  keeps_continue :
      (r : Result A) (f : A → Exec S B)
      → ((a : A) → Keeps P (f a))
      → (s : S) → P s
      → P (continue r f s).1
  keeps_continue (ok a) f hf s h = (hf a).at s h
  keeps_continue (err e) f hf s h = h

  pub Keeps-bind :
      (m : Exec S A) (next : A → Exec S B)
      → Keeps P m
      → ((value : A) → Keeps P (next value))
      → Keeps P (m >>= next)
  unfolding ◌>>=◌
  Keeps-bind m next first second = record {
    at = λ s h. keeps_continue (m s).0 next second (m s).1 (first.at s h);
  }

  pub Keeps-finally : (m : Exec S A) (k : Exec S B) → Keeps P m → Keeps P k → Keeps P (finally m k)
  unfolding finally
  Keeps-finally m k hm hk = record { at = λ s h. hk.at (m s).1 (hm.at s h) }

-- An action of a part keeps what its effect on the part keeps.
pub Keeps-zoom :
    {S T A : Type 0} {P : T → Type 0} (part : T → S) (with_part : S → T → T) (m : Exec S A)
    → ((t : T) → P t → P (with_part (m (part t)).1 t))
    → Keeps P (zoom part with_part m)
unfolding zoom
Keeps-zoom part with_part m h = record { at = h }

pub ruleset keeps_rules =
    (Keeps-if, Keeps-bind, Keeps-finally, Keeps-gets, Keeps-lift, Keeps-raise, Keeps-pure)

-- Of an exception nothing is said.
abbrev pub OfValue : {A : Type 0} → (A → Type 0) → Result A → Type 0
OfValue Q (ok a) = Q a
OfValue Q (err e) = Unit

pub OfValue-ok : {A : Type 0} (Q : A → Type 0) {r : Result A} {a : A} → OfValue Q r → r ≡ ok a → Q a
OfValue-ok Q h e = subst (OfValue Q) e h

-- `P` holds afterwards, and a value that is returned has `Q`.
pub record Yields {S A : Type 0} (P : S → Type 0) (Q : A → Type 0) (m : Exec S A) : Type 0 where
  pub at : (s : S) → P s → P (m s).1 × OfValue Q (m s).0

module _ {S A : Type 0} {P : S → Type 0} {Q : A → Type 0} where
  pub Yields-pure : (a : A) → Q a → Yields P Q (pure a)
  Yields-pure a h = record { at = λ s p. (p, h) }

  pub Yields-raise : (e : Error) → Yields P Q (raise e)
  Yields-raise e = record { at = λ s p. (p, tt) }

  pub Yields-if :
      (b : Bool) (m n : Exec S A)
      → (b ≡ true → Yields P Q m)
      → (b ≡ false → Yields P Q n)
      → Yields P Q (if b then m else n)
  Yields-if true m n hm hn = hm refl
  Yields-if false m n hm hn = hn refl

-- A value of which nothing is said.
abbrev pub Any : {A : Type 0} → A → Type 0
Any a = Unit {0}

of_Any : {A : Type 0} (r : Result A) → OfValue Any r
of_Any (ok a) = tt
of_Any (err e) = tt

pub Yields-Any : {S A : Type 0} {P : S → Type 0} (m : Exec S A) → Keeps P m → Yields P Any m
Yields-Any m h = record { at = λ s p. (h.at s p, of_Any (m s).0) }

pub Yields-Keeps :
    {S A : Type 0} {P : S → Type 0} {Q : A → Type 0} (m : Exec S A) → Yields P Q m → Keeps P m
Yields-Keeps m h = record { at = λ s p. (h.at s p).0 }

module _ {S A B : Type 0} {P : S → Type 0} {Q : A → Type 0} {R : B → Type 0} where
  Yields-continue :
      (r : Result A) (f : A → Exec S B) (s : S)
      → ((a : A) → Q a → Yields P R (f a))
      → P s
      → OfValue Q r
      → P (continue r f s).1 × OfValue R (continue r f s).0
  Yields-continue (ok a) f s hf p q = (hf a q).at s p
  Yields-continue (err e) f s hf p q = (p, tt)

  pub Yields-bind :
      (m : Exec S A) (f : A → Exec S B)
      → Yields P Q m
      → ((a : A) → Q a → Yields P R (f a))
      → Yields P R (m >>= f)
  unfolding ◌>>=◌
  Yields-bind m f hm hf = record {
    at = λ s p. let (r, s') = m s in let (p', q) = hm.at s p in Yields-continue r f s' hf p' q;
  }

err_inj : {A : Type 0} {x y : Error} → ◌≡◌ {A = Result A} (err x) (err y) → x ≡ y
err_inj e = cc

-- From a state with `P`, no loop of the action runs out of its rounds.
pub record Ends {S A : Type 0} (P : S → Type 0) (m : Exec S A) : Type 0 where
  pub at : (s : S) → P s → (m s).0 ≢ err out_of_fuel

module _ {S A : Type 0} {P : S → Type 0} where
  pub Ends-pure : (a : A) → Ends P (pure a)
  Ends-pure a = record { at = λ s h e. cc }

  pub Ends-raise : (x : Error) → x ≢ out_of_fuel → Ends P (raise {A = A} x)
  Ends-raise x ne = record { at = λ s h e. absurd (ne (err_inj e)) }

  pub Ends-lift : (r : Result A) → r ≢ err out_of_fuel → Ends P (lift r)
  Ends-lift r ne = record { at = λ s h. ne }

  pub Ends-if : (b : Bool) (m n : Exec S A) → Ends P m → Ends P n → Ends P (if b then m else n)
  Ends-if true m n hm hn = hm
  Ends-if false m n hm hn = hn

  pub Keeps-and : {Q : S → Type 0} (m : Exec S A) → Keeps P m → Keeps Q m → Keeps (λ s. P s × Q s) m
  Keeps-and m p q = record { at = λ s h. (p.at s h.0, q.at s h.1) }

  pub Ends-weaken : {Q : S → Type 0} (m : Exec S A) → ((s : S) → Q s → P s) → Ends P m → Ends Q m
  Ends-weaken m f h = record { at = λ s q. h.at s (f s q) }

module _ {S A B : Type 0} {P : S → Type 0} where
  Ends-continue :
      (r : Result A) (next : A → Exec S B) (s : S)
      → r ≢ err out_of_fuel
      → ((a : A) → Ends P (next a))
      → P s
      → (continue r next s).0 ≢ err out_of_fuel
  Ends-continue (ok a) next s first second h e = (second a).at s h e
  Ends-continue (err x) next s first second h e = absurd (first (ap err (err_inj e)))

  pub Ends-bind :
      (m : Exec S A) (next : A → Exec S B)
      → Ends P m
      → Keeps P m
      → ((a : A) → Ends P (next a))
      → Ends P (m >>= next)
  unfolding ◌>>=◌
  Ends-bind m next first keeps second = record {
    at = λ s h. Ends-continue (m s).0 next (m s).1 (first.at s h) second (keeps.at s h);
  }
