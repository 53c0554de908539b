-- ===== src/Stellar/Submit/Polling.antt =====
-- The loop of `waitForConfirmation` ends, by an answer or by its deadline.
use cred_bridge.Prelude.{
  ℕ, zero, suc, ◌+◌, ◌*◌, ◌≤◌, String, ◌≡◌, refl, ap, ◌∙◌, ◌⊎◌, inl, inr, List, ◌∷◌, arith,
}
use cred_bridge.Result.{Error, ok, err}
use cred_bridge.Result.Rules.{
  Post, Ensures, Ensures-pure, Ensures-throw, Ensures-bind, Ensures-branch, Ensures-weaken,
}
use cred_bridge.Env.{Env}
use cred_bridge.World.{World}
use cred_bridge.Stellar.Sdk.{Request, get_transaction, TxStatus, success, failed, other, Sdk}
use cred_bridge.Stellar.Net.{Net, N}
use cred_bridge.Stellar.Net.Rules.{Ensures-ask, Ensures-now, Ensures-sleep}
use cred_bridge.Stellar.Submit.{
  poll_interval_ms, failed_on_chain, timed_out, after_status, poll, wait_for_confirmation,
}

module _ (e : Env) where
  -- The clock does not run backwards.
  abbrev pub IsMonotone : Type 0
  IsMonotone = (n : ℕ) → e.clock n ≤ e.clock (n + 1)

  -- What the clock shows next.
  abbrev pub time_of : Net e → ℕ
  time_of n = e.clock n.world.ticks + n.slept

-- So many questions for the status of a transaction, after the requests of before.
abbrev pub polls : ℕ → String → List Request → List Request
polls zero hash before = before
polls (suc k) hash before = polls k hash (get_transaction hash ∷ before)

module _ (e : Env) (sdk : Sdk e) where
  -- At most `most` questions were asked, and the tables are as before.
  abbrev pub Polled : ℕ → String → Net e → Net e → Type 0
  Polled most hash n s =
      (k : ℕ) × (k ≤ most)
      × (s.requests ≡ polls k hash n.requests)
      × (s.world ≡ record n.world { ticks = s.world.ticks })

  -- The last question was answered so.
  abbrev pub Answered : String → TxStatus → Net e → Type 0
  Answered hash status s =
      (before : List Request) × (s.requests ≡ get_transaction hash ∷ before)
      × (sdk.status before hash ≡ ok status)

  -- The last reading of the clock was the deadline or later.
  abbrev pub IsLate : ℕ → Net e → Type 0
  IsLate deadline s =
      (reading : ℕ) × (s.world.ticks ≡ reading + 1) × (deadline ≤ e.clock reading + s.slept)

  -- The three ways for a wait to fail: the last answer was a failure, the deadline has passed, or the
  -- last question threw.
  abbrev pub Failed : ℕ → String → Error → Net e → Type 0
  Failed deadline hash x s =
      ((x ≡ failed_on_chain hash) × Answered hash failed s)
      ⊎ (((x ≡ timed_out hash) × IsLate deadline s)
          ⊎ ((before : List Request) × (s.requests ≡ get_transaction hash ∷ before)
              × (sdk.status before hash ≡ err x)))

  later :
      (most : ℕ) (hash : String) (n t s : Net e)
      → t.requests ≡ get_transaction hash ∷ n.requests
      → t.world ≡ record n.world { ticks = t.world.ticks }
      → Polled most hash t s
      → Polled (suc most) hash n s
  later most hash n t s asked same (j, few, requests, world) = (
    suc j,
    omega arith,
    requests ∙ ap (polls j hash) asked,
    world ∙ ap {A = World e} (λ w. record w { ticks = s.world.ticks }) same,
  )

  -- The state once the status is asked.
  abbrev asked : String → Net e → Net e
  asked hash n = record n {
    world = record n.world { ticks = n.world.ticks + 1 };
    requests = get_transaction hash ∷ n.requests;
  }

  abbrev pub waited : String → Net e → Net e
  waited hash n = record (asked hash n) { slept = n.slept + poll_interval_ms }

  after_status-Ensures :
      (left deadline : ℕ) (hash : String) (n : Net e) (status : TxStatus)
      → sdk.status n.requests hash ≡ ok status
      → (again : N e (Unit {0}))
      → (status ≡ other
          → Ensures again
              (waited hash n)
              (λ _ s. Answered hash success s × Polled left hash (waited hash n) s)
              (λ x s. Failed deadline hash x s × Polled left hash (waited hash n) s))
      → Ensures
          (after_status e sdk hash again status)
          (asked hash n)
          (λ _ s. Answered hash success s × Polled (suc left) hash n s)
          (λ x s. Failed deadline hash x s × Polled (suc left) hash n s)
  unfolding after_status
  after_status-Ensures left deadline hash n success is again go =
      Ensures-pure _ _ ((_, refl, is), (1, omega arith, refl, refl))
  after_status-Ensures left deadline hash n failed is again go =
      Ensures-throw _ _ (inl (refl, (_, refl, is)), (1, omega arith, refl, refl))
  after_status-Ensures left deadline hash n other is again go = Ensures-bind _ _ _ (
      Ensures-sleep e _ _ (
        Ensures-weaken _ _ (go refl)
          (λ _ s (answer, more). (answer, later left hash n (waited hash n) s refl refl more))
          (λ x s (fail, more). (fail, later left hash n (waited hash n) s refl refl more))))

  poll-Ensures :
      IsMonotone e
      → (left : ℕ) (deadline : ℕ) (hash : String) (n : Net e)
      → deadline ≤ time_of e n + poll_interval_ms * left
      → Ensures
          (poll e sdk (suc left) deadline hash)
          n
          (λ _ s. Answered hash success s × Polled left hash n s)
          (λ x s. Failed deadline hash x s × Polled left hash n s)
  unfolding poll
  poll-Ensures mono zero deadline hash n enough = Ensures-bind _ _ _ (
      Ensures-now e _ (
        Ensures-branch _ _ _ _ (λ early. absurd (ground arith))
          (λ late.
            Ensures-throw _ _
              (inr (inl (refl, (_, refl, ground arith))), (0, omega arith, refl, refl)))))
  poll-Ensures mono (suc left) deadline hash n enough = Ensures-bind _ _ _ (
      Ensures-now e _ (
        Ensures-branch _ _ _ _
          (λ early. Ensures-bind _ _ _ (
            Ensures-ask e _ _ _
              (λ status is.
                after_status-Ensures left deadline hash n status is
                  (poll e sdk (suc left) deadline hash)
                  (λ still.
                    poll-Ensures mono left deadline hash _ (ground (arith, mono n.world.ticks))))
              (λ x is. (inr (inr (_, refl, is)), (1, omega arith, refl, refl)))))
          (λ late.
            Ensures-throw _ _
              (inr (inl (refl, (_, refl, ground arith))), (0, omega arith, refl, refl)))))

  pub wait_for_confirmation-Ensures :
      (hash : String) (n : Net e)
      → IsMonotone e
      → Ensures
          (wait_for_confirmation e sdk hash)
          n
          (λ _ s. Answered hash success s × Polled 30 hash n s)
          (λ x s. Failed (time_of e n + 60000) hash x s × Polled 30 hash n s)
  unfolding wait_for_confirmation
  wait_for_confirmation-Ensures hash n mono =
      Ensures-bind _ _ _
        (Ensures-now e _ (poll-Ensures mono 30 _ hash _ (ground (arith, mono n.world.ticks))))

  -- A wait ends: it asks for the status thirty times at most, however slow the answers, and leaves the
  -- tables as they were. It returns where the last answer was success, and throws where it was a
  -- failure, where the question itself threw, or where the last reading of the clock was a minute or
  -- more after the first; it never runs out of the rounds of the model. The clock does not run
  -- backwards.
  pub wait_for_confirmation-Polled :
      (hash : String) (n : Net e)
      → IsMonotone e
      → Post
          (λ _ s. Answered hash success s × Polled 30 hash n s)
          (λ x s. Failed (time_of e n + 60000) hash x s × Polled 30 hash n s)
          (wait_for_confirmation e sdk hash n).0
          (wait_for_confirmation e sdk hash n).1
  wait_for_confirmation-Polled hash n mono = (wait_for_confirmation-Ensures hash n mono).at
