-- ===== src/Env/Lookup.antt =====
-- What a lookup finds after a write, drawn from the laws of the database client.
use cred_bridge.Prelude.{
  ℕ, Bool, String, ◌≡◌, ◌≢◌, refl, ◌∙◌, sym, ap, Option, none, some, arith, ◌==◌, eq_iff, str_refl,
  if◌then◌else◌,
}
use cred_bridge.Result.{ok}
use cred_bridge.Env.{Env, DatabaseLaws, map_row, change_if}

map_row-eq_some :
    {R : Type 0} (f : R → R) (o : Option R) (r : R)
    → map_row f o ≡ some r
    → (old : R) × (o ≡ some old) × (r ≡ f old)
map_row-eq_some f none r h = cc
map_row-eq_some f (some old) r h = (old, refl, cc)

pub some_eq : {R : Type 0} (a b : R) → some a ≡ some b → a ≡ b
some_eq a b h = cc

if_self : {A : Type 0} (k : String) (a b : A) → (if k == k then a else b) ≡ a
if_self k a b = rw (str_refl k)

if_ne : {A : Type 0} (k j : String) (a b : A) → k ≢ j → (if k == j then a else b) ≡ b
if_ne k j a b h = ground (arith, eq_iff k j)

module _ (e : Env) (laws : DatabaseLaws e) {R : Type 0} (col : R → Option String) where
  pub update_old :
      (k : String) (f : R → R) (t t' : e.Rows R) (r : R)
      → e.update col k f t ≡ ok (r, t')
      → (old : R) × (e.find_unique col k t ≡ some old) × (r ≡ f old)
  update_old k f t t' r h = map_row-eq_some f _ r (laws.update_result col k f t t' r h)

  pub find-update_self :
      (k : String) (f : R → R) (t t' : e.Rows R) (r : R)
      → ((x : R) → col (f x) ≡ col x)
      → e.update col k f t ≡ ok (r, t')
      → e.find_unique col k t' ≡ some r
  find-update_self k f t t' r keeps h = laws.find-update col k k f t t' r keeps h ∙ if_self k _ _

  pub find-update_ne :
      (k j : String) (f : R → R) (t t' : e.Rows R) (r : R)
      → k ≢ j
      → ((x : R) → col (f x) ≡ col x)
      → e.update col k f t ≡ ok (r, t')
      → e.find_unique col j t' ≡ e.find_unique col j t
  find-update_ne k j f t t' r ne keeps h =
      laws.find-update col k j f t t' r keeps h ∙ if_ne k j _ _ ne

  pub find-create_self :
      (k : String) (r : R) (t t' : e.Rows R)
      → col r ≡ some k
      → e.create col r t ≡ ok t'
      → e.find_unique col k t' ≡ some r
  find-create_self k r t t' key h = laws.find-create col k k r t t' key h ∙ if_self k _ _

  pub find-create_ne :
      (k j : String) (r : R) (t t' : e.Rows R)
      → k ≢ j
      → col r ≡ some k
      → e.create col r t ≡ ok t'
      → e.find_unique col j t' ≡ e.find_unique col j t
  find-create_ne k j r t t' ne key h = laws.find-create col k j r t t' key h ∙ if_ne k j _ _ ne

  -- The update of a row that was just created is the update of what was created.
  pub update-create :
      (k : String) (new : R) (f : R → R) (t t' t'' : e.Rows R) (r : R)
      → col new ≡ some k
      → e.create col new t ≡ ok t'
      → e.update col k f t' ≡ ok (r, t'')
      → r ≡ f new
  update-create k new f t t' t'' r key made wrote =
      let (old, was, is) = update_old k f t' t'' r wrote in
      is ∙ ap f (some_eq _ _ (sym was ∙ find-create_self k new t t' key made))

  pub find-update_many_self :
      (k : String) (p : R → Bool) (f : R → R) (t t' : e.Rows R) (n : ℕ)
      → ((x : R) → col (f x) ≡ col x)
      → e.update_many col k p f t ≡ ok (n, t')
      → e.find_unique col k t' ≡ map_row (change_if p f) (e.find_unique col k t)
  find-update_many_self k p f t t' n keeps h =
      laws.find-update_many col k k p f t t' n keeps h ∙ if_self k _ _

  -- The update of a row that was found is the update of what was found.
  pub update_found :
      (k : String) (old : R) (f : R → R) (t t' : e.Rows R) (r : R)
      → e.find_unique col k t ≡ some old
      → e.update col k f t ≡ ok (r, t')
      → r ≡ f old
  update_found k old f t t' r found wrote =
      let (row, was, is) = update_old k f t t' r wrote in is ∙ ap f (some_eq _ _ (sym was ∙ found))
