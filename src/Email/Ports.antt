-- ===== src/Email/Ports.antt =====
-- email/ports.py: the message, and what a send ends with. `V` is the type of the values of a
-- template's context.
use python_backend_manager.Prelude.Base.{String, Bool, Option, none, some, List, [], ◌∷◌}
use python_backend_manager.Prelude.Dict.{Dict}

-- `str | Sequence[str]`
pub data Recipients : Type 0 where
  one : String → Recipients
  many : List String → Recipients

pub record EmailMessage (V : Type 0) : Type 0 where
  pub to : Recipients
  pub subject : String
  pub html : Option String
  pub text : Option String
  pub template : Option String
  pub context : Option (Dict V)

unfoldable pub recipients_of : Recipients → List String
recipients_of (one address) = address ∷ []
recipients_of (many addresses) = addresses

-- `message.recipients()`
unfoldable pub recipients : {V : Type 0} → EmailMessage V → List String
unfolding recipients_of
recipients message = recipients_of message.to

abbrev pub is_none {ℓ} : {A : Type ℓ} → Option A → Bool
is_none none = Bool.true
is_none (some x) = Bool.false

-- How a call of `send` ends: it returns, after a send or without one, or it raises `EmailError`, an
-- exception of the template engine, a `ValueError` of a header, what the transport raises, or the
-- `RuntimeError` of an unknown provider.
pub data Outcome : Type 0 where
  delivered skipped : Outcome
  email_error : Outcome
  template_not_found template_error : Outcome
  header_error : Outcome
  transport_error : Outcome
  unknown_provider : Outcome
