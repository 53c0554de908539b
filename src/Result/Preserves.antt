-- ===== src/Result/Preserves.antt =====
-- Invariants of actions: one rule for each way to build an action.
use cred_bridge.Prelude.{Bool, true, false, Option, none, some}
use cred_bridge.Result.Rules.{Post, Ensures}
use cred_bridge.Result.{
  Error, Result, ok, err, Exec, pure, throw, lift, or_throw, try_catch, throw_if, when, branch,
  if_some, ◌>>=◌,
}

-- What holds before `m` holds after it, whether it returns or throws.
pub record Preserves {S A : Type 0} (P : S → Type 0) (m : Exec S A) : Type 0 where
  pub at : (before : S) → P before → P (m before).1

module _ {S A : Type 0} {P : S → Type 0} where
  pub Preserves-throw : (x : Error) → Preserves P (throw {S = S} {A = A} x)
  unfolding throw
  Preserves-throw x = record { at = λ s p. p }

  pub Preserves-lift : (r : Result A) → Preserves P (lift r)
  unfolding lift
  Preserves-lift r = record { at = λ s p. p }

  pub Preserves-pure : (a : A) → Preserves P (pure a)
  unfolding pure
  Preserves-pure a = record { at = λ s p. p }

  pub Preserves-or_throw : (o : Option A) (x : Error) → Preserves P (or_throw o x)
  unfolding or_throw
  Preserves-or_throw none x = record { at = λ s p. p }
  Preserves-or_throw (some a) x = record { at = λ s p. p }

  pub Preserves-branch :
      (b : Bool) (m n : Exec S A) → Preserves P m → Preserves P n → Preserves P (branch b m n)
  unfolding branch
  Preserves-branch true m n p q = record { at = p.at }
  Preserves-branch false m n p q = record { at = q.at }

  catch-state :
      (r : Result A) (h : Error → Exec S A) (s : S)
      → ((x : Error) → Preserves P (h x))
      → P s
      → P (elim r as (λ _. Result A × S) [ ok a ↦ (ok a, s) | err x ↦ h x s ]).1
  catch-state (ok a) h s k p = p
  catch-state (err x) h s k p = (k x).at s p

  pub Preserves-try_catch :
      (m : Exec S A) (h : Error → Exec S A)
      → Preserves P m
      → ((x : Error) → Preserves P (h x))
      → Preserves P (try_catch m h)
  unfolding try_catch
  Preserves-try_catch m h k l = record { at = λ s p. catch-state (m s).0 h (m s).1 l (k.at s p) }

module _ {S : Type 0} {P : S → Type 0} where
  pub Preserves-throw_if : (b : Bool) (x : Error) → Preserves P (throw_if b x)
  unfolding throw_if
  Preserves-throw_if true x = record { at = λ s p. p }
  Preserves-throw_if false x = record { at = λ s p. p }

  pub Preserves-when : (b : Bool) (m : Exec S (Unit {0})) → Preserves P m → Preserves P (when b m)
  unfolding when
  Preserves-when true m k = record { at = k.at }
  Preserves-when false m k = record { at = λ s p. p }

module _ {S A B : Type 0} {P : S → Type 0} where
  bind-state :
      (r : Result A) (f : A → Exec S B) (s : S)
      → ((a : A) → Preserves P (f a))
      → P s
      → P (elim r as (λ _. Result B × S) [ ok a ↦ f a s | err x ↦ (err x, s) ]).1
  bind-state (ok a) f s k p = (k a).at s p
  bind-state (err x) f s k p = p

  pub Preserves-bind :
      (first : Exec S A) (rest : A → Exec S B)
      → Preserves P first
      → ((a : A) → Preserves P (rest a))
      → Preserves P (first >>= rest)
  unfolding ◌>>=◌
  Preserves-bind first rest k l = record {
    at = λ s p. bind-state (first s).0 rest (first s).1 l (k.at s p);
  }

  pub Preserves-if_some :
      (o : Option A) (f : A → Exec S B) (n : Exec S B)
      → ((a : A) → Preserves P (f a))
      → Preserves P n
      → Preserves P (if_some o f n)
  unfolding if_some
  Preserves-if_some none f n k l = record { at = l.at }
  Preserves-if_some (some a) f n k l = record { at = (k a).at }

module _ {S A : Type 0} (P : S → Type 0) where
  kept-Post : (r : Result A) (s : S) → P s → Post (λ _ s'. P s') (λ _ s'. P s') r s
  kept-Post (ok a) s h = h
  kept-Post (err x) s h = h

module _ {S A : Type 0} {P : S → Type 0} where
  pub Ensures-kept :
      (m : Exec S A) (s : S) → Preserves P m → P s → Ensures m s (λ _ s'. P s') (λ _ s'. P s')
  Ensures-kept m s k h = record { at = kept-Post P (m s).0 (m s).1 (k.at s h) }

pub ruleset preserves_rules = (
  Preserves-pure, Preserves-throw, Preserves-lift, Preserves-or_throw, Preserves-branch,
  Preserves-try_catch, Preserves-throw_if, Preserves-when, Preserves-bind, Preserves-if_some,
)
