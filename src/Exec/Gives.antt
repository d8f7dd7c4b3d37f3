-- ===== src/Exec/Gives.antt =====
-- What an action does to the end: it returns, with this value, in a state like this. There is a rule
-- for each way to build an action.
use adb_shell.Common.{◌≡◌, refl, ap, ◌∙◌, Bool, true, false, if◌then◌else◌}
use adb_shell.Errors.{ok}
use adb_shell.Exec.{Exec, ◌>>=◌, pure, gets, modify, zoom}
use adb_shell.Exec.Rules.{bind-eq}

-- From a state with `P`, the action returns `a`, in a state with `Q`.
pub record Gives {S A : Type 0} (P : S → Type 0) (a : A) (Q : S → Type 0) (m : Exec S A)
    : Type 0 where
  pub at : (s : S) → P s → (s' : S) × (m s ≡ (ok a, s')) × Q s'

module _ {S A : Type 0} {P : S → Type 0} where
  pub Gives-pure : (a : A) → Gives P a P (pure a)
  Gives-pure a = record { at = λ s p. (s, refl, p) }

  pub Gives-gets : (view : S → A) (a : A) → ((s : S) → P s → view s ≡ a) → Gives P a P (gets view)
  Gives-gets view a h = record { at = λ s p. (s, ap (λ x. (ok x, s)) (h s p), p) }

  pub Gives-true :
      {Q : S → Type 0} {a : A} (b : Bool) (m n : Exec S A)
      → b ≡ true
      → Gives P a Q m
      → Gives P a Q (if b then m else n)
  Gives-true true m n e h = h
  Gives-true false m n e h = cc

  pub Gives-false :
      {Q : S → Type 0} {a : A} (b : Bool) (m n : Exec S A)
      → b ≡ false
      → Gives P a Q n
      → Gives P a Q (if b then m else n)
  Gives-false true m n e h = cc
  Gives-false false m n e h = h

  -- The same action under another name, or from more, or to less.
  pub Gives-eq :
      {Q : S → Type 0} {a : A} (m n : Exec S A)
      → ((s : S) → P s → n s ≡ m s)
      → Gives P a Q m
      → Gives P a Q n
  Gives-eq m n e h = record { at = λ s p. let (s', r, q) = h.at s p in (s', e s p ∙ r, q) }

  pub Gives-to :
      {Q R : S → Type 0} {a : A} (m : Exec S A)
      → ((s : S) → Q s → R s)
      → Gives P a Q m
      → Gives P a R m
  Gives-to m f h = record { at = λ s p. let (s', r, q) = h.at s p in (s', r, f s' q) }

module _ {S A B : Type 0} {P Q R : S → Type 0} {a : A} {b : B} where
  pub Gives-bind :
      (m : Exec S A) (f : A → Exec S B) → Gives P a Q m → Gives Q b R (f a) → Gives P b R (m >>= f)
  Gives-bind m f hm hf = record {
    at = λ s p.
        let (s', e, q) = hm.at s p in
        let (s'', e', r) = hf.at s' q in
        (s'', bind-eq m f s (ap (λ x. x.0) e) ∙ ap (λ x. f a x.1) e ∙ e', r);
  }

-- An action of which only something is known of what it returns.
pub Gives-some :
    {S A B : Type 0} {P Q R : S → Type 0} {V : A → Type 0} {b : B} (m : Exec S A) (f : A → Exec S B)
    → ((s : S) → P s → (a : A) × (s' : S) × (m s ≡ (ok a, s')) × V a × Q s')
    → ((a : A) → V a → Gives Q b R (f a))
    → Gives P b R (m >>= f)
Gives-some m f hm hf = record {
  at = λ s p.
      let (a, s', e, v, q) = hm s p in
      let (s'', e', r) = (hf a v).at s' q in
      (s'', bind-eq m f s (ap (λ x. x.0) e) ∙ ap (λ x. f a x.1) e ∙ e', r);
}

pub Gives-modify :
    {S : Type 0} {P Q : S → Type 0} (f : S → S)
    → ((s : S) → P s → Q (f s))
    → Gives P tt Q (modify f)
Gives-modify f h = record { at = λ s p. (f s, refl, h s p) }

-- An action of a part, from what is known of the part and of the whole.
pub Gives-zoom :
    {S T A : Type 0} {P Q : S → Type 0} {P' Q' : T → Type 0} {a : A} (part : T → S)
    (with_part : S → T → T) (m : Exec S A)
    → ((t : T) → P' t → P (part t))
    → ((t : T) (s : S) → P' t → Q s → Q' (with_part s t))
    → Gives P a Q m
    → Gives P' a Q' (zoom part with_part m)
unfolding zoom
Gives-zoom part with_part m down up h = record {
  at = λ t p.
      let (s, e, q) = h.at (part t) (down t p) in
      (with_part s t, ap (λ x. (x.0, with_part x.1 t)) e, up t s p q);
}
