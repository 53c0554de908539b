-- ===== src/Result/Rules.antt =====
-- Rules for what an action ensures: one for each way to build an action. `Q` is what holds of the
-- result and the state when it returns, `E` of the error and the state when it throws.
use mathlib.Core.Path.{subst}
use cred_bridge.Prelude.{◌≡◌, refl, sym, ap, Bool, true, false, not, Option, none, some}
use cred_bridge.Result.{
  Error, Result, ok, err, Exec, pure, throw, lift, or_throw, try_catch, throw_if, when, branch,
  if_some, ◌>>=◌,
}

abbrev pub Post : {S A : Type 0} → (A → S → Type 0) → (Error → S → Type 0) → Result A → S → Type 0
Post Q E (ok a) s = Q a s
Post Q E (err x) s = E x s

pub record Ensures {S A : Type 0} (m : Exec S A) (s : S) (Q : A → S → Type 0)
    (E : Error → S → Type 0) : Type 0 where
  pub at : Post Q E (m s).0 (m s).1

module _ {S A : Type 0} (Q : A → S → Type 0) (E : Error → S → Type 0) where
  try_catch-Post :
      (r : Result A) (h : Error → Exec S A) (s : S)
      → Post Q (λ x s'. Ensures (h x) s' Q E) r s
      → Post Q E
          (elim r as (λ _. Result A × S) [ ok a ↦ (ok a, s) | err x ↦ h x s ]).0
          (elim r as (λ _. Result A × S) [ ok a ↦ (ok a, s) | err x ↦ h x s ]).1
  try_catch-Post (ok a) h s q = q
  try_catch-Post (err x) h s q = q.at

  bind-Post :
      {B : Type 0} (r : Result B) (f : B → Exec S A) (s : S)
      → Post (λ a s'. Ensures (f a) s' Q E) E r s
      → Post Q E
          (elim r as (λ _. Result A × S) [ ok a ↦ f a s | err x ↦ (err x, s) ]).0
          (elim r as (λ _. Result A × S) [ ok a ↦ f a s | err x ↦ (err x, s) ]).1
  bind-Post (ok a) f s q = q.at
  bind-Post (err x) f s q = q

  -- A result, split.
  pub result-Post :
      (r : Result A) (s : S)
      → ((a : A) → r ≡ ok a → Q a s)
      → ((x : Error) → r ≡ err x → E x s)
      → Post Q E r s
  result-Post (ok a) s q f = q a refl
  result-Post (err x) s q f = f x refl

  weaken-Post :
      (Q' : A → S → Type 0) (E' : Error → S → Type 0) (r : Result A) (s : S)
      → ((a : A) (s' : S) → Q' a s' → Q a s')
      → ((x : Error) (s' : S) → E' x s' → E x s')
      → Post Q' E' r s
      → Post Q E r s
  weaken-Post Q' E' (ok a) s f g p = f a s p
  weaken-Post Q' E' (err x) s f g p = g x s p

module _ {S A : Type 0} {Q : A → S → Type 0} {E : Error → S → Type 0} where
  pub Ensures-pure : (a : A) (s : S) → Q a s → Ensures (pure a) s Q E
  unfolding pure
  Ensures-pure a s q = record { at = q }

  pub Ensures-throw : (x : Error) (s : S) → E x s → Ensures (throw x) s Q E
  unfolding throw
  Ensures-throw x s q = record { at = q }

  pub Ensures-lift :
      (r : Result A) (s : S)
      → ((a : A) → r ≡ ok a → Q a s)
      → ((x : Error) → r ≡ err x → E x s)
      → Ensures (lift r) s Q E
  unfolding lift
  Ensures-lift (ok a) s q f = record { at = q a refl }
  Ensures-lift (err x) s q f = record { at = f x refl }

  pub Ensures-or_throw :
      (o : Option A) (x : Error) (s : S)
      → ((a : A) → o ≡ some a → Q a s)
      → (o ≡ none → E x s)
      → Ensures (or_throw o x) s Q E
  unfolding or_throw
  Ensures-or_throw none x s q f = record { at = f refl }
  Ensures-or_throw (some a) x s q f = record { at = q a refl }

  pub Ensures-found :
      (a : A) (o : Option A) (x : Error) (s : S) → o ≡ some a → Q a s → Ensures (or_throw o x) s Q E
  unfolding or_throw
  Ensures-found a o x s h q = subst (λ o. Ensures (or_throw o x) s Q E) (sym h) (record { at = q })

  pub Ensures-branch :
      (b : Bool) (m n : Exec S A) (s : S)
      → (b ≡ true → Ensures m s Q E)
      → (b ≡ false → Ensures n s Q E)
      → Ensures (branch b m n) s Q E
  unfolding branch
  Ensures-branch true m n s p q = record { at = (p refl).at }
  Ensures-branch false m n s p q = record { at = (q refl).at }

  pub Ensures-try_catch :
      (m : Exec S A) (h : Error → Exec S A) (s : S)
      → Ensures m s Q (λ x s'. Ensures (h x) s' Q E)
      → Ensures (try_catch m h) s Q E
  unfolding try_catch
  Ensures-try_catch m h s q = record { at = try_catch-Post Q E (m s).0 h (m s).1 q.at }

  -- What is ensured holds of the outcome.
  pub Ensures-returned :
      (m : Exec S A) (s s' : S) (a : A) → Ensures m s Q E → m s ≡ (ok a, s') → Q a s'
  Ensures-returned m s s' a q p = subst (λ (o : Result A × S). Post Q E o.0 o.1) p q.at

  pub Ensures-threw :
      (m : Exec S A) (s s' : S) (x : Error) → Ensures m s Q E → m s ≡ (err x, s') → E x s'
  Ensures-threw m s s' x q p = subst (λ (o : Result A × S). Post Q E o.0 o.1) p q.at

module _ {S : Type 0} {Q : Unit {0} → S → Type 0} {E : Error → S → Type 0} where
  pub Ensures-throw_if :
      (b : Bool) (x : Error) (s : S)
      → (b ≡ true → E x s)
      → (b ≡ false → Q tt s)
      → Ensures (throw_if b x) s Q E
  unfolding throw_if
  Ensures-throw_if true x s p q = record { at = p refl }
  Ensures-throw_if false x s p q = record { at = q refl }

  pub Ensures-when :
      (b : Bool) (m : Exec S (Unit {0})) (s : S)
      → (b ≡ true → Ensures m s Q E)
      → (b ≡ false → Q tt s)
      → Ensures (when b m) s Q E
  unfolding when
  Ensures-when true m s p q = record { at = (p refl).at }
  Ensures-when false m s p q = record { at = q refl }

module _ {S A B : Type 0} {Q : B → S → Type 0} {E : Error → S → Type 0} where
  pub Ensures-if_some :
      (o : Option A) (f : A → Exec S B) (n : Exec S B) (s : S)
      → ((a : A) → o ≡ some a → Ensures (f a) s Q E)
      → (o ≡ none → Ensures n s Q E)
      → Ensures (if_some o f n) s Q E
  unfolding if_some
  Ensures-if_some none f n s p q = record { at = (q refl).at }
  Ensures-if_some (some a) f n s p q = record { at = (p a refl).at }

  -- What is there is used.
  pub Ensures-if_present :
      (a : A) (o : Option A) (f : A → Exec S B) (n : Exec S B) (s : S)
      → o ≡ some a
      → Ensures (f a) s Q E
      → Ensures (if_some o f n) s Q E
  unfolding if_some
  Ensures-if_present a o f n s h q =
      subst (λ o. Ensures (if_some o f n) s Q E) (sym h) (record { at = q.at })

  -- The first action ensures that the rest of the block ensures the goal.
  pub Ensures-bind :
      (m : Exec S A) (f : A → Exec S B) (s : S)
      → Ensures m s (λ a s'. Ensures (f a) s' Q E) E
      → Ensures (m >>= f) s Q E
  unfolding ◌>>=◌
  Ensures-bind m f s q = record { at = bind-Post Q E (m s).0 f (m s).1 q.at }

module _ {S A : Type 0} {Q Q' : A → S → Type 0} {E E' : Error → S → Type 0} where
  pub Ensures-weaken :
      (m : Exec S A) (s : S)
      → Ensures m s Q' E'
      → ((a : A) (s' : S) → Q' a s' → Q a s')
      → ((x : Error) (s' : S) → E' x s' → E x s')
      → Ensures m s Q E
  Ensures-weaken m s p f g = record { at = weaken-Post Q E Q' E' (m s).0 (m s).1 f g p.at }

module _ {S A : Type 0} (P : S → Type 0) where
  outcome-state : (r : Result A) (s : S) → Post (λ _ s'. P s') (λ _ s'. P s') r s → P s
  outcome-state (ok a) s h = h
  outcome-state (err x) s h = h

module _ {S A : Type 0} {P : S → Type 0} where
  -- What is ensured on both ways out holds of the state.
  pub Ensures-outcome :
      (m : Exec S A) (s : S) → Ensures m s (λ _ s'. P s') (λ _ s'. P s') → P (m s).1
  Ensures-outcome m s q = outcome-state P (m s).0 (m s).1 q.at

module _ {S A B : Type 0} where
  -- A step that returned hands on its value and its state.
  pub bind_returned :
      (m : Exec S A) (f : A → Exec S B) (s s' : S) (a : A) → m s ≡ (ok a, s') → (m >>= f) s ≡ f a s'
  unfolding ◌>>=◌
  bind_returned m f s s' a h =
      ap
        (λ (o : Result A × S). elim o.0 as (λ _. Result B × S) [
          | ok a ↦ f a o.1
          | err x ↦ (err x, o.1)
        ])
        h

module _ {S : Type 0} where
  pub when_set : (b : Bool) (m : Exec S (Unit {0})) (s : S) → b ≡ false → when (not b) m s ≡ m s
  unfolding when
  when_set false m s h = refl
  when_set true m s h = cc

  pub passed : (x : Error) (s : S) → throw_if (not true) x s ≡ (ok tt, s)
  unfolding throw_if
  passed x s = refl

module _ {S A : Type 0} where
  -- It throws, and leaves the state as it was.
  abbrev pub Refuses : Exec S A → S → Type 0
  Refuses m s = (x : Error) × (m s ≡ (err x, s))

  refused-Refuses :
      (r : Result A) (s t : S)
      → Post (λ _ _. ⊥) (λ _ s'. s' ≡ s) r t
      → (x : Error) × (◌≡◌ {A = Result A × S} (r, t) (err x, s))
  refused-Refuses (ok a) s t h = absurd h
  refused-Refuses (err x) s t h = (x, ap (λ s'. (err x, s')) h)

  pub Ensures-Refuses :
      (m : Exec S A) (s : S) → Ensures m s (λ _ _. ⊥) (λ _ s'. s' ≡ s) → Refuses m s
  Ensures-Refuses m s q = refused-Refuses (m s).0 s (m s).1 q.at
