-- ===== src/Email/Templating.antt =====
-- email/templating.py and email/send.py: the bodies of a message from its template. The engine
-- (jinja2) is a record: `get_template` finds and compiles a template of the package's folder,
-- `fill` renders it with a context, `none` where it raises.
pub mod Bodies
use Prim.Native.String.{◌++◌ as append}
use python_backend_manager.Prelude.Base.{
  String, Bool, Option, none, some, List, [], ◌∷◌, str_eq, if◌then◌else◌,
}
use python_backend_manager.Prelude.Dict.{Dict}
use python_backend_manager.Email.Ports.{
  Recipients, EmailMessage, Outcome, template_not_found, template_error,
}

-- `TemplateNotFound`, any other exception, or a template.
pub data Loaded (T : Type 0) : Type 0 where
  missing broken : Loaded T
  loaded : T → Loaded T

pub record Engine (T V : Type 0) : Type 0 where
  pub get_template : String → Loaded T
  pub fill : T → Dict V → Option String

-- A result, or the exception that the call raises.
pub data Attempt {ℓ} (A : Type ℓ) : Type ℓ where
  returns : A → Attempt A
  raises : Outcome → Attempt A

infixl 5 ◌>>=◌
abbrev pub ◌>>=◌ {ℓ κ} : {A : Type ℓ} {B : Type κ} → Attempt A → (A → Attempt B) → Attempt B
returns a >>= f = f a
raises e >>= f = raises e

-- `dict(message.context or {})`
abbrev pub context_or : {V : Type 0} → Option (Dict V) → Dict V
context_or none = []
context_or (some context) = context

-- `text or …`: an empty text counts as none.
abbrev pub given_text : Option String → Option String
given_text none = none
given_text (some text) = if str_eq text "" then none else some text

module _ {T V : Type 0} (engine : Engine T V) where
  unfoldable pub filled : Loaded T → Dict V → Attempt String
  filled missing context = raises template_not_found
  filled broken context = raises template_error
  filled (loaded t) context = elim (engine.fill t context) [
    | none ↦ raises template_error
    | some body ↦ returns body
  ]

  unfoldable pub render : String → Dict V → Attempt String
  unfolding filled
  render template_name context = filled (engine.get_template template_name) context

  unfoldable pub filled_optional : Loaded T → Dict V → Attempt (Option String)
  unfolding filled
  filled_optional missing context = returns none
  filled_optional broken context = raises template_error
  filled_optional (loaded t) context = do body ← filled (loaded t) context; returns (some body)

  unfoldable pub render_optional : String → Dict V → Attempt (Option String)
  unfolding filled_optional
  render_optional template_name context =
      filled_optional (engine.get_template template_name) context

  -- `message.text or render_optional(…)`
  unfoldable pub text_part : Option String → String → Dict V → Attempt (Option String)
  unfolding render_optional
  text_part none template context = render_optional (append template ".txt") context
  text_part (some text) template context = returns (some text)

  unfoldable pub render_template : EmailMessage V → String → Dict V → Attempt (EmailMessage V)
  unfolding render text_part
  render_template message template context = do
    html ← render (append template ".html") context
    text ← text_part (given_text message.text) template context
    returns record {
      to = message.to;
      subject = message.subject;
      html = some html;
      text = text;
      template = none;
      context = none;
    }

  unfoldable pub rendered : Option String → EmailMessage V → Attempt (EmailMessage V)
  unfolding render_template
  rendered none message = returns message
  rendered (some template) message = render_template message template (context_or message.context)

  -- `render_message`
  unfoldable pub render_message : EmailMessage V → Attempt (EmailMessage V)
  unfolding rendered
  render_message message = rendered message.template message
