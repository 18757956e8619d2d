-- ===== src/Email/Templating/Bodies.antt =====
-- What render_message of email/send.py leaves in a message.
use python_backend_manager.Prelude.Base.{
  String, Option, none, some, ◌≡◌, ◌≢◌, refl, false, arith, ◌⊎◌, inl, inr,
}
use python_backend_manager.Prelude.Dict.{Dict}
use python_backend_manager.Email.Ports.{EmailMessage, Outcome, email_error}
use python_backend_manager.Email.Adapters.{has_no_body}
use python_backend_manager.Email.Templating.{
  Engine, Attempt, returns, raises, filled, filled_optional, render_optional, text_part, given_text,
  render, render_template, rendered, render_message, append, context_or,
}

abbrev Attempt-cases {ℓ} : {A : Type ℓ} → Attempt A → Type ℓ
Attempt-cases {A} a = ((e : Outcome) × (a ≡ raises e)) ⊎ ((x : A) × (a ≡ returns x))

Attempt-split {ℓ} : {A : Type ℓ} (a : Attempt A) → Attempt-cases a
Attempt-split (raises e) = inl (e, refl)
Attempt-split (returns x) = inr (x, refl)

module _ {T V : Type 0} (engine : Engine T V) where
  render_template-ok :
      (message : EmailMessage V) (template : String) (context : Dict V) (m : EmailMessage V)
      → render_template engine message template context ≡ returns m
      → (html : String) × (render engine (append template ".html") context ≡ returns html)
        × (m.html ≡ some html)
        × (text_part engine (given_text message.text) template context ≡ returns m.text)
        × (m.to ≡ message.to)
        × (m.subject ≡ message.subject)
        × (m.template ≡ none)
  unfolding render_template
  render_template-ok message template context m h =
      elim (Attempt-split (render engine (append template ".html") context)) [
        | inl (e, re) ↦ ground (arith, re)
        | inr (html, rh) ↦
            elim (Attempt-split (text_part engine (given_text message.text) template context)) [
              | inl (e, te) ↦ ground (arith, rh, te)
              | inr (text, th) ↦
                  (html, rh, ground arith, ground arith, ground arith, ground arith, ground arith)
            ]
      ]

  rendered-has_body :
      (template : Option String) (message m : EmailMessage V)
      → template ≢ none
      → rendered engine template message ≡ returns m
      → has_no_body m ≡ false
  unfolding rendered has_no_body
  rendered-has_body none message m some_template h = absurd (some_template refl)
  rendered-has_body (some template) message m some_template h =
      ground (arith, render_template-ok message template (context_or message.context) m h)

  -- A template always gives a message a body.
  pub render_message-has_body :
      (message m : EmailMessage V)
      → message.template ≢ none
      → render_message engine message ≡ returns m
      → has_no_body m ≡ false
  unfolding render_message
  render_message-has_body message m = rendered-has_body message.template message m

  rendering-ne-email_error :
      (template : Option String) (message : EmailMessage V)
      → rendered engine template message ≢ raises email_error
  unfolding rendered render_template render filled text_part render_optional filled_optional
  rendering-ne-email_error none message h = ground arith
  rendering-ne-email_error (some template) message h = ground arith

  -- What rendering raises is an exception of the engine, never `EmailError`.
  pub render_message-ne-email_error :
      (message : EmailMessage V) → render_message engine message ≢ raises email_error
  unfolding render_message
  render_message-ne-email_error message = rendering-ne-email_error message.template message
