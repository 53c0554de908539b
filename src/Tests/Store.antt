-- ===== src/Tests/Store.antt =====
-- A database client for the tests: a table is the list of its writes, the newest first, and a
-- lookup finds the newest row of a key.
use cred_bridge.Prelude.{
  ℕ, String, ◌≡◌, refl, sym, ap, ◌∙◌, ◌⊎◌, Bool, true, false, Option, none, some, List, [], ◌∷◌,
  All, ◌==◌, eq_iff, if◌then◌else◌, inl, inr,
}
use cred_bridge.Result.{Result, ok, err, unique_constraint, failure}
use cred_bridge.Env.{map_row, matches, change_if}

abbrev pub holds : Option String → String → Bool
holds none k = false
holds (some j) k = j == k

holds-eq : (o : Option String) (k : String) → holds o k ≡ true → o ≡ some k
holds-eq none k h = cc
holds-eq (some j) k h = ap some ((eq_iff j k).0 h)

module _ {R : Type 0} where
  unfoldable pub lookup : (R → Option String) → String → List R → Option R
  lookup col k [] = none
  lookup col k (r ∷ t) = let rest = lookup col k t in if holds (col r) k then some r else rest

  unfoldable pub select : (R → Bool) → List R → List R
  select p [] = []
  select p (r ∷ t) = let rest = select p t in if p r then r ∷ rest else rest

  abbrev pub insert_if_new : Option R → R → List R → Result (List R)
  insert_if_new none r t = ok (r ∷ t)
  insert_if_new (some old) r t = err (unique_constraint "a row has this key")

  abbrev pub known : (R → Option String) → Option String → List R → Option R
  known col none t = none
  known col (some k) t = lookup col k t

  unfoldable pub insert : (R → Option String) → R → List R → Result (List R)
  unfolding lookup
  insert col r t = insert_if_new (known col (col r) t) r t

  abbrev pub write_found : (R → R) → Option R → List R → Result (R × List R)
  write_found f none t = err (failure "P2025" "no row has this key")
  write_found f (some r) t = ok (f r, f r ∷ t)

  unfoldable pub rewrite : (R → Option String) → String → (R → R) → List R → Result (R × List R)
  unfolding lookup
  rewrite col k f t = write_found f (lookup col k t) t

  abbrev pub write_matching : (R → Bool) → (R → R) → Option R → List R → Result (ℕ × List R)
  write_matching p f none t = ok (0, t)
  write_matching p f (some r) t = if p r then ok (1, f r ∷ t) else ok (0, t)

  unfoldable pub rewrite_matching :
      (R → Option String) → String → (R → Bool) → (R → R) → List R → Result (ℕ × List R)
  unfolding lookup
  rewrite_matching col k p f t = write_matching p f (lookup col k t) t

  if_cases :
      (b : Bool) (x r : R) (rest : Option R)
      → (if b then some x else rest) ≡ some r
      → ((b ≡ true) × (x ≡ r)) ⊎ (rest ≡ some r)
  if_cases true x r rest h = inl (refl, cc)
  if_cases false x r rest h = inr h

  pub lookup-has_key :
      (col : R → Option String) (k : String) (t : List R) (r : R)
      → lookup col k t ≡ some r
      → col r ≡ some k
  unfolding lookup
  lookup-has_key col k [] r h = cc
  lookup-has_key col k (x ∷ t) r h = elim (if_cases (holds (col x) k) x r (lookup col k t) h) [
    | inl (is, same) ↦ ap col (sym same) ∙ holds-eq (col x) k is
    | inr older ↦ lookup-has_key col k t r older
  ]

  pub lookup-head :
      (col : R → Option String) (k j : String) (r : R) (t : List R)
      → col r ≡ some k
      → lookup col j (r ∷ t) ≡ (if k == j then some r else lookup col j t)
  unfolding lookup
  lookup-head col k j r t key = rw key refl

  new_only :
      (o : Option R) (r : R) (t t' : List R)
      → insert_if_new o r t ≡ ok t'
      → (o ≡ none) × (r ∷ t ≡ t')
  new_only none r t t' h = (refl, cc)
  new_only (some old) r t t' h = cc

  pub insert-new :
      (col : R → Option String) (k : String) (r : R) (t t' : List R)
      → col r ≡ some k
      → insert col r t ≡ ok t'
      → (lookup col k t ≡ none) × (r ∷ t ≡ t')
  unfolding insert
  insert-new col k r t t' key h =
      let (free, is) = new_only (known col (col r) t) r t t' h in
      (ap (λ o. known col o t) (sym key) ∙ free, is)

  pub lookup-insert :
      (col : R → Option String) (k j : String) (r : R) (t t' : List R)
      → col r ≡ some k
      → insert col r t ≡ ok t'
      → lookup col j t' ≡ (if k == j then some r else lookup col j t)
  lookup-insert col k j r t t' key h =
      ap (lookup col j) (sym (insert-new col k r t t' key h).1) ∙ lookup-head col k j r t key

  written :
      (f : R → R) (o : Option R) (t t' : List R) (r : R)
      → write_found f o t ≡ ok (r, t')
      → (old : R) × (o ≡ some old) × (r ≡ f old) × (f old ∷ t ≡ t')
  written f none t t' r h = cc
  written f (some old) t t' r h = (old, refl, cc, cc)

  pub rewrite-result :
      (col : R → Option String) (k : String) (f : R → R) (t t' : List R) (r : R)
      → rewrite col k f t ≡ ok (r, t')
      → map_row f (lookup col k t) ≡ some r
  unfolding rewrite
  rewrite-result col k f t t' r h =
      let (old, was, is, top) = written f (lookup col k t) t t' r h in
      ap (map_row f) was ∙ ap some (sym is)

  pub lookup-rewrite :
      (col : R → Option String) (k j : String) (f : R → R) (t t' : List R) (r : R)
      → ((x : R) → col (f x) ≡ col x)
      → rewrite col k f t ≡ ok (r, t')
      → lookup col j t' ≡ (if k == j then some r else lookup col j t)
  unfolding rewrite
  lookup-rewrite col k j f t t' r keeps h =
      let (old, was, is, top) = written f (lookup col k t) t t' r h in
      ap (lookup col j) (sym top)
      ∙ lookup-head col k j (f old) t (keeps old ∙ lookup-has_key col k t old was)
      ∙ ap (λ x. if k == j then some x else lookup col j t) (sym is)

  -- What a conditional write has done.
  abbrev Matched : (R → Bool) → (R → R) → Option R → List R → List R → ℕ → Type 0
  Matched p f o t t' n =
      ((r : R) × (o ≡ some r) × (p r ≡ true) × (n ≡ 1) × (f r ∷ t ≡ t'))
      ⊎ ((matches p o ≡ 0) × (n ≡ 0) × (t ≡ t') × (map_row (change_if p f) o ≡ o))

  if-Matched :
      (p : R → Bool) (f : R → R) (r : R) (t t' : List R) (n : ℕ) (b : Bool)
      → p r ≡ b
      → if◌then◌else◌ {A = Result (ℕ × List R)} b (ok (1, f r ∷ t)) (ok (0, t)) ≡ ok (n, t')
      → Matched p f (some r) t t' n
  if-Matched p f r t t' n true met h = inl (r, refl, met, cc, cc)
  if-Matched p f r t t' n false unmet h = inr (rw unmet refl, cc, cc, rw unmet refl)

  matched :
      (p : R → Bool) (f : R → R) (o : Option R) (t t' : List R) (n : ℕ)
      → write_matching p f o t ≡ ok (n, t')
      → Matched p f o t t' n
  matched p f none t t' n h = inr (refl, cc, cc, refl)
  matched p f (some r) t t' n h = if-Matched p f r t t' n (p r) refl h

  pub rewrite_matching-count :
      (col : R → Option String) (k : String) (p : R → Bool) (f : R → R) (t t' : List R) (n : ℕ)
      → rewrite_matching col k p f t ≡ ok (n, t')
      → n ≡ matches p (lookup col k t)
  unfolding rewrite_matching
  rewrite_matching-count col k p f t t' n h = elim (matched p f (lookup col k t) t t' n h) [
    | inl (r, was, met, one, top) ↦ one ∙ sym (ap (matches p) was ∙ rw met refl)
    | inr (zero_matches, nothing, same, kept) ↦ nothing ∙ sym zero_matches
  ]

  same_key :
      (col : R → Option String) (k j : String) (t : List R) (b : Bool)
      → (k == j) ≡ b
      → lookup col j t ≡ (if b then lookup col k t else lookup col j t)
  same_key col k j t true h = ap (λ x. lookup col x t) (sym ((eq_iff k j).0 h))
  same_key col k j t false h = refl

  pub lookup-rewrite_matching :
      (col : R → Option String) (k j : String) (p : R → Bool) (f : R → R) (t t' : List R) (n : ℕ)
      → ((x : R) → col (f x) ≡ col x)
      → rewrite_matching col k p f t ≡ ok (n, t')
      → lookup col j t'
        ≡ (if k == j then map_row (change_if p f) (lookup col k t) else lookup col j t)
  unfolding rewrite_matching
  lookup-rewrite_matching col k j p f t t' n keeps h =
      elim (matched p f (lookup col k t) t t' n h) [
        | inl (r, was, met, one, top) ↦
            ap (lookup col j) (sym top)
            ∙ lookup-head col k j (f r) t (keeps r ∙ lookup-has_key col k t r was)
            ∙ ap (λ o. if k == j then o else lookup col j t)
                (sym (ap (map_row (change_if p f)) was ∙ rw met refl))
        | inr (zero_matches, nothing, same, kept) ↦
            ap (lookup col j) (sym same)
            ∙ same_key col k j t (k == j) refl
            ∙ ap (λ o. if k == j then o else lookup col j t) (sym kept)
      ]

  if-All :
      (p : R → Bool) (r : R) (rest : List R) (b : Bool)
      → p r ≡ b
      → All (λ x. p x ≡ true) rest
      → All (λ x. p x ≡ true) (if b then r ∷ rest else rest)
  if-All p r rest true h q = (h, q)
  if-All p r rest false h q = q

  pub select-All : (p : R → Bool) (t : List R) → All (λ x. p x ≡ true) (select p t)
  unfolding select
  select-All p [] = tt
  select-All p (r ∷ t) = if-All p r (select p t) (p r) refl (select-All p t)
