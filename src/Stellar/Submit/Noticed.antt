-- ===== src/Stellar/Submit/Noticed.antt =====
-- A confirmation that comes before the deadline of `waitForConfirmation` is noticed.
use cred_bridge.Prelude.{ℕ, zero, suc, ◌+◌, ◌*◌, ◌≤◌, ◌<◌, String, ◌≡◌, refl, sym, ◌∙◌, arith}
use cred_bridge.Result.{Error, ok, err}
use cred_bridge.Result.Rules.{Post, Ensures, Ensures-pure, Ensures-bind, Ensures-branch}
use cred_bridge.Env.{Env}
use cred_bridge.Stellar.Sdk.{TxStatus, success, failed, other, Sdk}
use cred_bridge.Stellar.Net.{Net, N}
use cred_bridge.Stellar.Net.Rules.{Ensures-ask, Ensures-now, Ensures-sleep}
use cred_bridge.Stellar.Submit.{
  poll_interval_ms, poll_deadline_ms, after_status, poll, wait_for_confirmation,
}
use cred_bridge.Stellar.Submit.Polling.{IsMonotone, time_of, polls, waited}

same_status : (a b : TxStatus) → ok a ≡ ok b → a ≡ b
same_status a b h = cc

no_error : (a : TxStatus) (x : Error) → ok a ≡ err x → ⊥
no_error a x h = cc

module _ (e : Env) (sdk : Sdk e) where
  -- The status is still open at the next so many questions and success at the one after them, and
  -- each of them is asked before the deadline.
  abbrev pub SucceedsAfter : ℕ → ℕ → String → Net e → Type 0
  SucceedsAfter zero deadline hash n =
      (time_of e n < deadline) × (sdk.status n.requests hash ≡ ok success)
  SucceedsAfter (suc k) deadline hash n =
      (time_of e n < deadline)
      × (sdk.status n.requests hash ≡ ok other)
      × SucceedsAfter k deadline hash (waited e sdk hash n)

  in_time :
      IsMonotone e
      → (k : ℕ) (deadline : ℕ) (hash : String) (n : Net e) → SucceedsAfter k deadline hash n
      → time_of e n + poll_interval_ms * k < deadline
  in_time mono zero deadline hash n (early, _) = omega arith
  in_time mono (suc k) deadline hash n (early, pending, later) =
      ground (arith, mono n.world.ticks, in_time mono k deadline hash (waited e sdk hash n) later)

  after_status-success :
      (hash : String) (again : N e (Unit {0})) (status : TxStatus) (n : Net e) {Q : Net e → Type 0}
      → success ≡ status
      → Q n
      → Ensures (after_status e sdk hash again status) n (λ _ s. Q s) (λ _ _. ⊥)
  unfolding after_status
  after_status-success hash again success n is q = Ensures-pure _ _ q
  after_status-success hash again failed n is q = cc
  after_status-success hash again other n is q = cc

  after_status-other :
      (hash : String) (again : N e (Unit {0})) (status : TxStatus) (n : Net e) {Q : Net e → Type 0}
      → other ≡ status
      → Ensures again (record n { slept = n.slept + poll_interval_ms }) (λ _ s. Q s) (λ _ _. ⊥)
      → Ensures (after_status e sdk hash again status) n (λ _ s. Q s) (λ _ _. ⊥)
  unfolding after_status
  after_status-other hash again success n is q = cc
  after_status-other hash again failed n is q = cc
  after_status-other hash again other n is q = Ensures-bind _ _ _ (Ensures-sleep e _ _ q)

  poll-SucceedsAfter :
      (k : ℕ) (left : ℕ) (deadline : ℕ) (hash : String) (n : Net e)
      → k ≤ left
      → SucceedsAfter k deadline hash n
      → Ensures
          (poll e sdk (suc left) deadline hash)
          n
          (λ _ s. s.requests ≡ polls (suc k) hash n.requests)
          (λ _ _. ⊥)
  unfolding poll
  poll-SucceedsAfter zero left deadline hash n few (early, done) = Ensures-bind _ _ _ (
      Ensures-now e _ (
        Ensures-branch _ _ _ _
          (λ _. Ensures-bind _ _ _ (
            Ensures-ask e _ _ _
              (λ status is.
                after_status-success hash _ status _ (same_status _ _ (sym done ∙ is)) refl)
              (λ x fails. absurd (no_error _ _ (sym done ∙ fails)))))
          (λ late. absurd (ground arith))))
  poll-SucceedsAfter (suc k) zero deadline hash n few now = absurd (omega arith)
  poll-SucceedsAfter (suc k) (suc left) deadline hash n few (early, pending, later) =
      Ensures-bind _ _ _ (
        Ensures-now e _ (
          Ensures-branch _ _ _ _
            (λ _. Ensures-bind _ _ _ (
              Ensures-ask e _ _ _
                (λ status is.
                  after_status-other hash _ status _ (same_status _ _ (sym pending ∙ is)) (
                    poll-SucceedsAfter k left deadline hash (waited e sdk hash n) (omega arith)
                      later))
                (λ x fails. absurd (no_error _ _ (sym pending ∙ fails)))))
            (λ late. absurd (ground arith))))

  -- The state in which the first question is asked.
  abbrev pub started : Net e → Net e
  started n = record n { world = record n.world { ticks = n.world.ticks + 1 } }

  wait_for_confirmation-SucceedsAfter :
      (k : ℕ) (hash : String) (n : Net e)
      → IsMonotone e
      → SucceedsAfter k (time_of e n + poll_deadline_ms) hash (started n)
      → Ensures
          (wait_for_confirmation e sdk hash)
          n
          (λ _ s. s.requests ≡ polls (suc k) hash n.requests)
          (λ _ _. ⊥)
  unfolding wait_for_confirmation
  wait_for_confirmation-SucceedsAfter k hash n mono soon = Ensures-bind _ _ _ (
      Ensures-now e _ (
        poll-SucceedsAfter k 30 _ hash _
          (ground (arith, mono n.world.ticks, in_time mono k _ hash (started n) soon)) soon))

  -- A confirmation in time is noticed, on a clock that does not run backwards: where the status is
  -- open at the next k questions and success at the one after them, and each of these is asked within
  -- a minute of the start, the wait returns, with exactly k + 1 questions asked.
  pub confirmation_noticed :
      (k : ℕ) (hash : String) (n : Net e)
      → IsMonotone e
      → SucceedsAfter k (time_of e n + poll_deadline_ms) hash (started n)
      → Post
          (λ _ s. s.requests ≡ polls (suc k) hash n.requests)
          (λ _ _. ⊥)
          (wait_for_confirmation e sdk hash n).0
          (wait_for_confirmation e sdk hash n).1
  confirmation_noticed k hash n mono soon =
      (wait_for_confirmation-SucceedsAfter k hash n mono soon).at
