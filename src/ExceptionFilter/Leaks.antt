-- ===== src/ExceptionFilter/Leaks.antt =====
-- In production the reply to an internal error tells nothing of it.
use mathlib.Core.Path.{subst}
use cred_bridge.Prelude.{ℕ, ◌≤◌, ◌≡◌, ◌∙◌, sym, ap, true, some, none, leb, arith}
use cred_bridge.Env.{Env}
use cred_bridge.ExceptionFilter.{
  Exception, Reply, internal, status_of, message_of, is_prod, catch_exception,
}

abbrev quiet_reply : ℕ → Reply
quiet_reply n = record { status = n; message = some internal; stack = none }

module _ (e : Env) (prod : is_prod e ≡ true) where
  at_least : (a b : ℕ) → a ≤ b → leb a b ≡ true
  at_least a b h = ground arith

  quiet : (x : Exception) → 500 ≤ status_of x → catch_exception e x ≡ quiet_reply (status_of x)
  unfolding catch_exception
  quiet x h = rw (prod, at_least 500 (status_of x) h)

  -- In production, the replies to two exceptions of one status are the same where that status is 500
  -- or more, whatever was thrown; and at any status they are the same where the messages are.
  pub nothing_leaks :
      (x y : Exception)
      → status_of x ≡ status_of y
      → (500 ≤ status_of x → catch_exception e x ≡ catch_exception e y)
        × (message_of x ≡ message_of y → catch_exception e x ≡ catch_exception e y)
  unfolding catch_exception
  nothing_leaks x y same = (
    (λ severe.
        quiet x severe ∙ ap quiet_reply same ∙ sym (quiet y (subst (λ n. 500 ≤ n) same severe))),
    λ says. rw (prod, same, says),
  )
