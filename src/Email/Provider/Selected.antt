-- ===== src/Email/Provider/Selected.antt =====
-- What a templated send does through the adapter that the settings select: email/send.py,
-- email/provider.py and the task of jobs/tasks.py.jinja.
use Prim.Native.String.{◌++◌ as append}
use python_backend_manager.Prelude.Base.{
  String, true, false, Option, none, some, ◌≡◌, ◌≢◌, ◌⊎◌, inl, inr, refl, arith, Bool-cases,
}
use python_backend_manager.Prelude.Dict.{Dict, get}
use python_backend_manager.Email.Ports.{
  Recipients, EmailMessage, email_error, recipients_of, recipients,
}
use python_backend_manager.Email.Templating.{
  Engine, Attempt, returns, raises, render, render_optional, render_message, context_or, rendered,
  render_template, text_part,
}
use python_backend_manager.Email.Templating.Bodies.{
  render_message-has_body, render_message-ne-email_error,
}
use python_backend_manager.Email.Adapters.{
  EmailSettings, smtp_send, ses_send, console_send, has_no_body, smtp_is_configured,
  ses_is_configured, ses_call, ses_content, post_mime, sender_address, sent_by,
}
use python_backend_manager.Email.Provider.{
  EmailPort, smtp_adapter, ses_adapter, console_adapter, providers, get_email_provider, Post,
  Transports, port_send, send_rendered, send, send_template, send_through, send_email_task,
  on_servers,
}

-- The settings with which no mail leaves the service.
abbrev pub Silent : EmailSettings → Type 0
Silent s =
    (s.email_suppress_send ≡ true)
    ⊎ (s.email_provider ≡ "console")
    ⊎ ((s.email_provider ≡ "smtp") × (smtp_is_configured s ≡ false))
    ⊎ ((s.email_provider ≡ "ses") × (ses_is_configured s ≡ false))

module _ {T V M W : Type 0} (engine : Engine T V) (transports : Transports M W)
    (s : EmailSettings) where
  -- An adapter refuses a message for its body exactly when it has none, the console adapter never.
  port_send-ne-email_error :
      (provider : EmailPort) (m : EmailMessage V) (p : Post V W)
      → has_no_body m ≡ false
      → (port_send engine transports s provider m p).0 ≢ email_error
  unfolding port_send smtp_send ses_send console_send post_mime
  port_send-ne-email_error smtp_adapter m p h e = ground arith
  port_send-ne-email_error ses_adapter m p h e = ground arith
  port_send-ne-email_error console_adapter m p h e = ground arith

  send_rendered-ne-email_error :
      (provider : EmailPort) (message : EmailMessage V) (p : Post V W)
      (a : Attempt (EmailMessage V))
      → message.template ≢ none
      → render_message engine message ≡ a
      → (send_rendered engine transports s provider a p).0 ≢ email_error
  unfolding send_rendered
  send_rendered-ne-email_error provider message p (returns m) h r =
      port_send-ne-email_error provider m p (render_message-has_body engine message m h r)
  send_rendered-ne-email_error provider message p (raises e) h r =
      ground (arith, render_message-ne-email_error engine message)

  -- A templated send never fails with the `EmailError` of a message without a body, whatever the
  -- adapter, the template and the settings.
  pub send_template-ne-email_error :
      (provider : EmailPort) (to : Recipients) (subject template : String)
      (context : Option (Dict V)) (p : Post V W)
      → (send_template engine transports s provider to subject template context p).0 ≢ email_error
  unfolding send_template send
  send_template-ne-email_error provider to subject template context p =
      send_rendered-ne-email_error provider _ p _ (λ e. cc) refl

  -- The adapter leaves the servers alone.
  abbrev IsQuiet : Option EmailPort → Type 0
  IsQuiet none = Unit {0}
  IsQuiet (some console_adapter) = Unit {0}
  IsQuiet (some smtp_adapter) = smtp_is_configured s ≡ false
  IsQuiet (some ses_adapter) = ses_is_configured s ≡ false

  suppressed-console : s.email_suppress_send ≡ true → get_email_provider s ≡ some console_adapter
  unfolding get_email_provider
  suppressed-console h = rw h

  get_email_provider-on :
      (name : String)
      → s.email_suppress_send ≡ false
      → s.email_provider ≡ name
      → get_email_provider s ≡ get providers name
  unfolding get_email_provider
  get_email_provider-on name h e = rw (h, e)

  named-IsQuiet :
      (name : String)
      → s.email_provider ≡ name
      → IsQuiet (get providers name)
      → IsQuiet (get_email_provider s)
  named-IsQuiet name e quiet = elim (Bool-cases s.email_suppress_send) [
    | inl on ↦ rw (suppressed-console on) tt
    | inr off ↦ rw (get_email_provider-on name off e) quiet
  ]

  selected-IsQuiet : Silent s → IsQuiet (get_email_provider s)
  unfolding providers get
  selected-IsQuiet (inl suppressed) = rw (suppressed-console suppressed) tt
  selected-IsQuiet (inr (inl console)) = named-IsQuiet "console" console tt
  selected-IsQuiet (inr (inr (inl (smtp, off)))) = named-IsQuiet "smtp" smtp off
  selected-IsQuiet (inr (inr (inr (ses, off)))) = named-IsQuiet "ses" ses off

  port_send-quiet :
      (provider : EmailPort) (m : EmailMessage V) (p : Post V W)
      → IsQuiet (some provider)
      → (port_send engine transports s provider m p).1.servers ≡ p.servers
  unfolding port_send smtp_send ses_send console_send
  port_send-quiet smtp_adapter m p h = ground arith
  port_send-quiet ses_adapter m p h = ground arith
  port_send-quiet console_adapter m p h = ground arith

  send_rendered-quiet :
      (provider : EmailPort) (a : Attempt (EmailMessage V)) (p : Post V W)
      → IsQuiet (some provider)
      → (send_rendered engine transports s provider a p).1.servers ≡ p.servers
  unfolding send_rendered
  send_rendered-quiet provider (returns m) p h = port_send-quiet provider m p h
  send_rendered-quiet provider (raises e) p h = refl

  send_through-quiet :
      (provider : Option EmailPort) (to : Recipients) (subject template : String)
      (context : Option (Dict V)) (p : Post V W)
      → IsQuiet provider
      → (send_through engine transports s provider to subject template context p).1.servers
        ≡ p.servers
  unfolding send_through send_template send
  send_through-quiet none to subject template context p h = refl
  send_through-quiet (some provider) to subject template context p h =
      send_rendered-quiet provider _ p h

  -- With the kill switch on, with the console provider, or with a provider whose settings are
  -- missing, the mail task hands nothing to a mail server, whatever the mail.
  pub send_email_task-Silent :
      (to : Recipients) (subject template : String) (context : Option (Dict V)) (p : Post V W)
      → Silent s
      → (send_email_task engine transports s to subject template context p).1.servers ≡ p.servers
  unfolding send_email_task
  send_email_task-Silent to subject template context p h =
      send_through-quiet (get_email_provider s) to subject template context p (selected-IsQuiet h)

  -- With SES selected and configured, a mail whose template renders is handed to SES once: to the
  -- given recipients, under the given subject, with the HTML of "<template>.html" and the text of
  -- "<template>.txt", which is left out where that template does not exist.
  pub send_email_task-ses :
      (to : Recipients) (subject template html : String) (text : Option String)
      (context : Option (Dict V)) (p : Post V W)
      → s.email_suppress_send ≡ false
      → s.email_provider ≡ "ses"
      → ses_is_configured s ≡ true
      → render engine (append template ".html") (context_or context) ≡ returns html
      → render_optional engine (append template ".txt") (context_or context) ≡ returns text
      → send_email_task engine transports s to subject template context p
        ≡ on_servers p (
            sent_by (
              transports.ses
                (record {
                  from = sender_address s;
                  to = recipients_of to;
                  content = record { subject = subject; html = some html; text = text };
                })
                p.servers))
  unfolding send_email_task send_through send_template send render_message rendered render_template
      text_part send_rendered port_send ses_send ses_call ses_content has_no_body recipients
      providers get
  send_email_task-ses to subject template html text context p on ses configured rh rt =
      rw (get_email_provider-on "ses" on ses, rh, rt, configured) refl
