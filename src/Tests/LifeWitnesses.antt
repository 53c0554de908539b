-- ===== src/Tests/LifeWitnesses.antt =====
-- The life and the sale of a receivable and the wait for a confirmation at concrete inputs.
use cred_bridge.Prelude.{ℕ, ◌≡◌, refl, List, [], ◌∷◌, true, arith}
use cred_bridge.Result.{ok}
use cred_bridge.Result.Rules.{Post}
use cred_bridge.Schema.{Receivable}
use cred_bridge.World.{World}
use cred_bridge.Stellar.Sdk.{Sdk, success, other}
use cred_bridge.Stellar.Submit.{wait_for_confirmation}
use cred_bridge.Stellar.Submit.Polling.{polls}
use cred_bridge.Stellar.Submit.Noticed.{confirmation_noticed}
use cred_bridge.Receivables.Lifecycle.{Follows, IsRow}
use cred_bridge.Receivables.Lifecycle.Histories.{
  Operation, approving, settling, is_closed, run_all, run_all-Follows, closed_for_good,
}
use cred_bridge.Tests.Store.{lookup}
use cred_bridge.Tests.World.{env, env-DatabaseLaws, world, invoice}
use cred_bridge.Tests.Chain.{sdk, net, env-IsMonotone}

-- The status is open at the first question, and success at the next ones.
abbrev slow : Sdk env
slow = record sdk { status = λ before hash. elim before [ [] ↦ ok other | _ ↦ ok success ] }

confirmation_noticed_example :
    Post
      (λ _ s. s.requests ≡ polls 2 "hash" net.requests)
      (λ _ _. ⊥)
      (wait_for_confirmation env slow "hash" net).0
      (wait_for_confirmation env slow "hash" net).1
confirmation_noticed_example =
    confirmation_noticed env slow 1 "hash" net env-IsMonotone
      (omega arith, refl, (omega arith, refl))

abbrev history : List Operation
history = approving "invoice" "operator" ∷ settling "invoice" ∷ []

abbrev registered : World env
registered = record world { receivables = record invoice { status = "pending" } ∷ [] }

run_all-Follows_example : Follows env registered (run_all env history registered)
run_all-Follows_example = run_all-Follows env env-DatabaseLaws history registered

abbrev declined : Receivable ℕ
declined = record invoice { status = "rejected" }

abbrev declined_world : World env
declined_world = record world { receivables = declined ∷ [] }

is_declined : IsRow env "invoice" declined declined_world
unfolding lookup
is_declined = refl

closed_for_good_example :
    (r : Receivable ℕ) × IsRow env "invoice" r (run_all env history declined_world)
    × (is_closed r.status ≡ true)
closed_for_good_example =
    closed_for_good env env-DatabaseLaws history declined_world "invoice" declined is_declined refl
