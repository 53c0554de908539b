-- ===== src/Result.antt =====
-- What a request handler can throw, and the state and exception monad of the handlers. What was
-- written before a throw stays written, so the state comes back beside the error too.
pub mod Rules
pub mod Preserves
use cred_bridge.Prelude.{String, Bool, true, false, Option, none, some, concat, if◌then◌else◌}

-- The codes of apps/api/src/modules/financial-authorizations/financial-authorization.errors.ts.
pub data AuthorizationCode : Type 0 where
  wallet_required authorization_required authorization_expired authorization_invalid
        authorization_already_used authorization_operation_mismatch
        authorization_resource_mismatch :
      AuthorizationCode

-- The HTTP exceptions that the services throw, with their messages; Prisma's error P2002, with its
-- message; and any other error, with its name and its message.
pub data Error : Type 0 where
  not_found bad_request conflict unauthorized forbidden : String → Error
  authorization : AuthorizationCode → String → Error
  unique_constraint : String → Error
  failure : String → String → Error

-- `err.message`
abbrev pub message : Error → String
message (not_found m) = m
message (bad_request m) = m
message (conflict m) = m
message (unauthorized m) = m
message (forbidden m) = m
message (authorization c m) = m
message (unique_constraint m) = m
message (failure n m) = m

-- `String(err)`
abbrev pub error_text : Error → String
error_text (not_found m) = concat "NotFoundException: " m
error_text (bad_request m) = concat "BadRequestException: " m
error_text (conflict m) = concat "ConflictException: " m
error_text (unauthorized m) = concat "UnauthorizedException: " m
error_text (forbidden m) = concat "ForbiddenException: " m
error_text (authorization c m) = concat "FinancialAuthorizationException: " m
error_text (unique_constraint m) = concat "PrismaClientKnownRequestError: " m
error_text (failure n m) = concat n (concat ": " m)

pub data Result (A : Type 0) : Type 0 where
  ok : A → Result A
  err : Error → Result A

abbrev pub Exec : Type 0 → Type 0 → Type 0
Exec S A = S → Result A × S

module _ {S A : Type 0} where
  pub pure : A → Exec S A
  pure a s = (ok a, s)

  pub throw : Error → Exec S A
  throw x s = (err x, s)

  pub lift : Result A → Exec S A
  lift r s = (r, s)

  -- `throw` where a looked-up value is missing.
  pub or_throw : Option A → Error → Exec S A
  or_throw none x s = (err x, s)
  or_throw (some a) x s = (ok a, s)

  -- `try { m } catch (x) { h x }`
  pub try_catch : Exec S A → (Error → Exec S A) → Exec S A
  try_catch m h s = let (r, s') = m s in elim r [ ok a ↦ (ok a, s') | err x ↦ h x s' ]

module _ {S A : Type 0} where
  -- `if (b) { m } else { n }`
  pub branch : Bool → Exec S A → Exec S A → Exec S A
  branch true m n s = m s
  branch false m n s = n s

module _ {S : Type 0} where
  -- `if (b) throw x`
  pub throw_if : Bool → Error → Exec S (Unit {0})
  throw_if b x s = if b then (err x, s) else (ok tt, s)

  -- `if (b) { m }`
  pub when : Bool → Exec S (Unit {0}) → Exec S (Unit {0})
  when b m s = if b then m s else (ok tt, s)

module _ {S A B : Type 0} where
  -- `if (o) { f(o) } else { n }`
  pub if_some : Option A → (A → Exec S B) → Exec S B → Exec S B
  if_some none f n s = n s
  if_some (some a) f n s = f a s

  infixl 5 ◌>>=◌ ◌>>◌
  -- To open this is to open the other actions of this file too.
  unfoldable pub ◌>>=◌ : Exec S A → (A → Exec S B) → Exec S B
  unfolding pure throw lift or_throw try_catch throw_if when if_some branch
  ◌>>=◌ m f s = let (r, s') = m s in elim r [ ok a ↦ f a s' | err x ↦ (err x, s') ]

  abbrev pub ◌>>◌ : Exec S A → Exec S B → Exec S B
  m >> k = m >>= λ _. k
