-- ===== src/Auth/Privy/Linked.antt =====
-- The first of a Privy user's linked accounts that has an email address, or a Stellar wallet of Privy.
use cred_bridge.Prelude.{
  String, ◌≡◌, ◌≢◌, refl, ap, ◌⊎◌, inl, inr, Option, none, some, List, [], ◌∷◌, ◌++◌, ◌==◌, ◌&&◌,
  All, truthy, read_truthy, Bool, true, false, sym, ◌∙◌, and_left, and_right, if◌then◌else◌, arith,
  eq_iff, Bool-cases, Option-cases,
}
use cred_bridge.Auth.Clients.{LinkedAccount, email, google_oauth, wallet, other}
use cred_bridge.Auth.Privy.{
  trim, account_email, account_wallet, first_of, find_stellar_wallet_address,
}

chosen :
    (b : Bool) (o : Option String) (t : String)
    → b ≡ true
    → (if b then o else none) ≡ some t
    → o ≡ some t
chosen true o t met h = h
chosen false o t met h = cc

unchosen :
    (b : Bool) (o : Option String) (t : String) → b ≡ false → (if b then o else none) ≡ some t → ⊥
unchosen true o t unmet h = cc
unchosen false o t unmet h = cc

abbrev pub HasEmail : LinkedAccount → String → Type 0
HasEmail a text =
    (raw : String) × ((a ≡ email raw) ⊎ (a ≡ google_oauth raw)) × (text ≡ trim raw) × (text ≢ "")

abbrev pub HasWallet : LinkedAccount → String → Type 0
HasWallet a text =
    (raw : String) × (a ≡ wallet "stellar" "privy" raw) × (text ≡ trim raw) × (text ≢ "")

-- The first account that has something has this.
abbrev pub IsFirst : (LinkedAccount → String → Type 0) → List LinkedAccount → String → Type 0
IsFirst Has accounts text =
    (before : List LinkedAccount) × (a : LinkedAccount) × (after : List LinkedAccount) × (accounts
      ≡ before ++ (a ∷ after))
    × Has a text
    × All (λ b. (t : String) → ¬ Has b t) before

first_of-IsFirst :
    (Has : LinkedAccount → String → Type 0) (find : LinkedAccount → Option String)
    → ((a : LinkedAccount) (t : String) → find a ≡ some t → Has a t)
    → ((a : LinkedAccount) (t : String) → Has a t → find a ≡ some t)
    → (accounts : List LinkedAccount) (text : String) → first_of find accounts ≡ some text
    → IsFirst Has accounts text
first_of-IsFirst Has find sound complete [] text h = cc
first_of-IsFirst Has find sound complete (a ∷ rest) text h = elim (Option-cases (find a)) [
  | inl is ↦
      let (before, b, after, splits, has, none_before) =
        first_of-IsFirst Has find sound complete rest text (skipped a rest is h) in
      (
        a ∷ before,
        b,
        after,
        ap (λ l. a ∷ l) splits,
        has,
        ((λ t has_it. clash _ t is (complete a t has_it)), none_before),
      )
  | inr (t, is) ↦ ([], a, rest, refl, sound a text (taken a rest t is h), tt)
]
  where
    skipped :
        (a : LinkedAccount) (rest : List LinkedAccount)
        → find a ≡ none
        → first_of find (a ∷ rest) ≡ some text
        → first_of find rest ≡ some text
    skipped a rest is h = ground (arith, is, h)

    taken :
        (a : LinkedAccount) (rest : List LinkedAccount) (t : String)
        → find a ≡ some t
        → first_of find (a ∷ rest) ≡ some text
        → find a ≡ some text
    taken a rest t is h = ground (arith, is, h)

    clash : (o : Option String) (t : String) → o ≡ none → o ≡ some t → ⊥
    clash o t h k = cc

some_text : (s t : String) → some s ≡ some t → t ≡ s
some_text s t h = cc

is_full : (s t : String) → truthy (some s) ≡ some t → (s == "") ≡ false
is_full s t h = ground (arith, h)

not_empty : (s t : String) → (s == "") ≡ false → t ≡ s → t ≢ ""
not_empty s t full is empty = cc ((eq_iff s "").1 (sym is ∙ empty), full)

truthy_text : (s t : String) → truthy (some s) ≡ some t → (t ≡ s) × (t ≢ "")
truthy_text s t h =
    let is = some_text s t (read_truthy (some s) t h) in (is, not_empty s t (is_full s t h) is)

text_truthy : (s t : String) → t ≡ s → t ≢ "" → truthy (some s) ≡ some t
text_truthy s t is full = elim (Bool-cases (s == "")) [
  | inl empty ↦ absurd (full (is ∙ (eq_iff s "").0 empty))
  | inr there ↦ rw (there, is)
]

account_email-HasEmail : (a : LinkedAccount) (t : String) → account_email a ≡ some t → HasEmail a t
account_email-HasEmail (email raw) t h =
    let (is, full) = truthy_text _ t h in (raw, inl refl, is, full)
account_email-HasEmail (google_oauth raw) t h =
    let (is, full) = truthy_text _ t h in (raw, inr refl, is, full)
account_email-HasEmail (wallet chain client raw) t h = cc
account_email-HasEmail other t h = cc

HasEmail-account_email : (a : LinkedAccount) (t : String) → HasEmail a t → account_email a ≡ some t
HasEmail-account_email a t (raw, inl is, text, full) =
    ap account_email is ∙ text_truthy _ t text full
HasEmail-account_email a t (raw, inr is, text, full) =
    ap account_email is ∙ text_truthy _ t text full

account_wallet-HasWallet :
    (a : LinkedAccount) (t : String) → account_wallet a ≡ some t → HasWallet a t
account_wallet-HasWallet (email raw) t h = cc
account_wallet-HasWallet (google_oauth raw) t h = cc
account_wallet-HasWallet other t h = cc
account_wallet-HasWallet (wallet chain client raw) t h =
    elim (Bool-cases (chain == "stellar" && client == "privy")) [
      | inl privy ↦
          let (is, full) = truthy_text _ t (chosen _ _ t privy h) in
          (
            raw,
            ap (λ c. wallet c client raw) ((eq_iff _ _).0 (and_left _ _ privy))
                ∙ ap (λ c. wallet "stellar" c raw) ((eq_iff _ _).0 (and_right _ _ privy)),
            is,
            full,
          )
      | inr foreign ↦ absurd (unchosen _ _ t foreign h)
    ]

HasWallet-account_wallet :
    (a : LinkedAccount) (t : String) → HasWallet a t → account_wallet a ≡ some t
HasWallet-account_wallet a t (raw, is, text, full) =
    ap account_wallet is ∙ text_truthy _ t text full

pub linked_email :
    (accounts : List LinkedAccount) (text : String)
    → first_of account_email accounts ≡ some text
    → IsFirst HasEmail accounts text
linked_email = first_of-IsFirst HasEmail account_email account_email-HasEmail HasEmail-account_email

pub linked_wallet :
    (accounts : List LinkedAccount) (text : String)
    → find_stellar_wallet_address accounts ≡ some text
    → IsFirst HasWallet accounts text
linked_wallet =
    first_of-IsFirst HasWallet account_wallet account_wallet-HasWallet HasWallet-account_wallet
