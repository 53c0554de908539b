-- ===== src/ExceptionFilter.antt =====
-- apps/api/src/common/filters/http-exception.filter.ts: the reply to what a handler throws.
pub mod Leaks
use cred_bridge.Prelude.{
  ℕ, String, Bool, false, not, ◌&&◌, Option, none, some, List, [], ◌∷◌, ◌==◌, leb, or_else,
  if◌then◌else◌,
}
use cred_bridge.Env.{Env}

-- `getResponse()` of an HTTP exception: a text, or an object with its `message`.
pub data ExceptionBody : Type 0 where
  text : String → ExceptionBody
  one : Option String → ExceptionBody
  many : List String → ExceptionBody

-- What can be thrown: an HTTP exception with its status, its body, its message and its stack, another
-- error with its stack, or anything else.
pub data Exception : Type 0 where
  http : ℕ → ExceptionBody → String → Option String → Exception
  error : Option String → Exception
  value : Exception

-- The reply: `stack` is `none` where the field is left out or undefined.
pub record Reply : Type 0 where
  pub status : ℕ
  pub message : Option String
  pub stack : Option String

abbrev pub internal : String
internal = "Internal server error"

-- `m[0]`
abbrev pub first : List String → Option String
first [] = none
first (m ∷ ms) = some m

abbrev pub body_message : ExceptionBody → String → Option String
body_message (text m) message = some m
body_message (one m) message = some (or_else m message)
body_message (many ms) message = first ms

abbrev pub status_of : Exception → ℕ
status_of (http status body message stack) = status
status_of _ = 500

abbrev pub message_of : Exception → Option String
message_of (http status body message stack) = body_message body message
message_of _ = some internal

abbrev pub stack_of : Exception → Option String
stack_of (http status body message stack) = stack
stack_of (error stack) = stack
stack_of value = none

module _ (e : Env) where
  abbrev pub is_prod : Bool
  is_prod = elim (e.config "NODE_ENV") [ none ↦ false | some n ↦ n == "production" ]

  unfoldable pub catch_exception : Exception → Reply
  catch_exception x = record {
    status = status_of x;
    message = if is_prod && leb 500 (status_of x) then some internal else message_of x;
    stack = if is_prod then none else stack_of x;
  }
