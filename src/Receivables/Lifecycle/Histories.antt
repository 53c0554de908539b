-- ===== src/Receivables/Lifecycle/Histories.antt =====
-- Histories: sequences of operations on receivables, and where they can lead.
use cred_bridge.Prelude.{String, ◌≡◌, refl, Bool, true, ◌||◌, ◌==◌, List, [], ◌∷◌}
use cred_bridge.Result.Rules.{Ensures-outcome}
use cred_bridge.Schema.{Receivable}
use cred_bridge.Env.{Env, DatabaseLaws}
use cred_bridge.World.{World}
use cred_bridge.Receivables.{tokenize, request_assignment, assign, submit_assignment}
use cred_bridge.Admin.{approve_receivable, reject_receivable}
use cred_bridge.Settlements.{settle_invoice}
use cred_bridge.Receivables.Lifecycle.{
  Step, validated, rejected, tokenized, requested, assigned, assigned_as_requested, settled, Life,
  start, next, IsRow, Follows, Follows-refl,
}
use cred_bridge.Receivables.Lifecycle.Handlers.{
  tokenize-Follows, request_assignment-Follows, assign-Follows, submit_assignment-Follows,
  approve_receivable-Follows, reject_receivable-Follows, settle_invoice-Follows,
}

-- An operation on a receivable, with its arguments.
pub data Operation : Type 0 where
  tokenizing requesting settling : String → Operation
  assigning approving rejecting : String → String → Operation
  submitting : String → String → String → Operation

-- The statuses that a receivable does not leave for any but these.
abbrev pub is_closed : String → Bool
is_closed s = s == "rejected" || s == "settled"

closed-Step : {s t : String} → Step s t → is_closed s ≡ true → is_closed t ≡ true
closed-Step validated h = cc
closed-Step rejected h = refl
closed-Step tokenized h = cc
closed-Step requested h = cc
closed-Step assigned h = cc
closed-Step assigned_as_requested h = cc
closed-Step settled h = refl

closed-Life : {s t : String} → Life s t → is_closed s ≡ true → is_closed t ≡ true
closed-Life start h = h
closed-Life (next life step) h = closed-Step step (closed-Life life h)

append : {s t u : String} → Life s t → Life t u → Life s u
append life start = life
append life (next more step) = next (append life more) step

module _ (e : Env) where
  -- The state after an operation, whether it returned or threw.
  abbrev pub run : Operation → World e → World e
  run (tokenizing id) w = (tokenize e id w).1
  run (requesting id) w = (request_assignment e id w).1
  run (settling id) w = (settle_invoice e id w).1
  run (assigning id grant) w = (assign e id grant w).1
  run (approving id operator) w = (approve_receivable e id operator w).1
  run (rejecting id operator) w = (reject_receivable e id operator w).1
  run (submitting id xdr signature) w = (submit_assignment e id xdr signature w).1

  abbrev pub run_all : List Operation → World e → World e
  run_all [] w = w
  run_all (o ∷ os) w = run_all os (run o w)

  Follows-trans : (w v s : World e) → Follows e w v → Follows e v s → Follows e w s
  Follows-trans w v s f g id r found =
      let (r', there, life) = f id r found in
      let (r'', last, more) = g id r' there in (r'', last, append life more)

  module _ (laws : DatabaseLaws e) where
    run-Follows : (o : Operation) (w : World e) → Follows e w (run o w)
    run-Follows (tokenizing id) w =
        Ensures-outcome {P = Follows e w} _ w (tokenize-Follows e laws w w id (Follows-refl e w))
    run-Follows (requesting id) w =
        Ensures-outcome {P = Follows e w} _ w (request_assignment-Follows e laws w id)
    run-Follows (settling id) w =
        Ensures-outcome {P = Follows e w} _ w (settle_invoice-Follows e laws w id)
    run-Follows (assigning id grant) w =
        Ensures-outcome {P = Follows e w} _ w (assign-Follows e laws w id grant)
    run-Follows (approving id operator) w =
        Ensures-outcome {P = Follows e w} _ w (approve_receivable-Follows e laws w id operator)
    run-Follows (rejecting id operator) w =
        Ensures-outcome {P = Follows e w} _ w (reject_receivable-Follows e laws w id operator)
    run-Follows (submitting id xdr signature) w =
        Ensures-outcome {P = Follows e w} _ w (submit_assignment-Follows e laws w id xdr signature)

    -- Any history of operations on receivables, each of which may return or throw, refines the step
    -- relation on their status, under the laws of the database client: every receivable is still
    -- there, and its status has gone from pending to validated or rejected, from validated to
    -- tokenized, from tokenized to assignment_pending or active, from assignment_pending to active,
    -- and from any status to settled, some of these steps in a row, or none.
    pub run_all-Follows : (os : List Operation) (w : World e) → Follows e w (run_all os w)
    run_all-Follows [] w = Follows-refl e w
    run_all-Follows (o ∷ os) w =
        Follows-trans w (run o w) (run_all os (run o w)) (run-Follows o w)
          (run_all-Follows os (run o w))

    -- A receivable that is rejected or settled is never validated, tokenized, assigned or active
    -- again: after any history of operations it is still there, rejected or settled.
    pub closed_for_good :
        (os : List Operation) (w : World e) (id : String) (r : Receivable e.Number)
        → IsRow e id r w
        → is_closed r.status ≡ true
        → (r' : Receivable e.Number) × IsRow e id r' (run_all os w) × (is_closed r'.status ≡ true)
    closed_for_good os w id r found closed =
        let (r', there, life) = run_all-Follows os w id r found in
        (r', there, closed-Life life closed)
