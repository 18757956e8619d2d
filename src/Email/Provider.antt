-- ===== src/Email/Provider.antt =====
-- email/provider.py and the dispatch of email/send.py: the adapter that the settings select, and
-- a send through it. A console adapter keeps the messages that it captures; the mail servers have a
-- state `W`.
pub mod Selected
use python_backend_manager.Prelude.Base.{
  String, Bool, Option, none, some, List, str_eq, if◌then◌else◌,
}
use python_backend_manager.Prelude.Dict.{Dict, get}
use python_backend_manager.Email.Ports.{Recipients, EmailMessage, Outcome, unknown_provider}
use python_backend_manager.Email.Templating.{Engine, Attempt, returns, raises, render_message}
use python_backend_manager.Email.Adapters.{
  EmailSettings, MimeLibrary, SmtpCall, SesCall, smtp_send, ses_send, console_send,
}
use python_backend_manager.Prelude.Base.{[], ◌∷◌}

pub data EmailPort : Type 0 where
  smtp_adapter ses_adapter console_adapter : EmailPort

-- `_PROVIDERS`
unfoldable pub providers : Dict EmailPort
providers = ("smtp", smtp_adapter) ∷ ("ses", ses_adapter) ∷ ("console", console_adapter) ∷ []

-- `get_email_provider`; `none` is the `RuntimeError`.
unfoldable pub get_email_provider : EmailSettings → Option EmailPort
unfolding providers get
get_email_provider s =
    if s.email_suppress_send then some console_adapter else get providers s.email_provider

-- The mail servers, and what the console adapter has captured.
pub record Post (V W : Type 0) : Type 0 where
  pub servers : W
  pub captured : List (EmailMessage V)

-- The libraries behind the adapters.
pub record Transports (M W : Type 0) : Type 0 where
  pub mime : MimeLibrary M
  pub smtp : SmtpCall M → W → Bool × W
  pub ses : SesCall → W → Bool × W

abbrev pub on_servers : {V W : Type 0} → Post V W → Outcome × W → Outcome × Post V W
on_servers p (o, w) = (o, record p { servers = w })

abbrev pub on_captured :
    {V W : Type 0} → Post V W → Outcome × List (EmailMessage V) → Outcome × Post V W
on_captured p (o, sent) = (o, record p { captured = sent })

module _ {T V M W : Type 0} (engine : Engine T V) (transports : Transports M W)
    (s : EmailSettings) where
  -- `provider.send(message)`
  unfoldable pub port_send : EmailPort → EmailMessage V → Post V W → Outcome × Post V W
  port_send smtp_adapter message p =
      on_servers p (smtp_send s transports.mime transports.smtp message p.servers)
  port_send ses_adapter message p = on_servers p (ses_send s transports.ses message p.servers)
  port_send console_adapter message p = on_captured p (console_send message p.captured)

  unfoldable pub send_rendered :
      EmailPort → Attempt (EmailMessage V) → Post V W → Outcome × Post V W
  unfolding port_send
  send_rendered provider (returns message) p = port_send provider message p
  send_rendered provider (raises e) p = (e, p)

  -- `send`
  unfoldable pub send : EmailPort → EmailMessage V → Post V W → Outcome × Post V W
  unfolding send_rendered
  send provider message p = send_rendered provider (render_message engine message) p

  -- `send_template`
  unfoldable pub send_template :
      EmailPort → Recipients → String → String → Option (Dict V) → Post V W → Outcome × Post V W
  unfolding send
  send_template provider to subject template context p =
      send provider
        (record {
          to = to;
          subject = subject;
          html = none;
          text = none;
          template = some template;
          context = context;
        })
        p

  unfoldable pub send_through :
      Option EmailPort
      → Recipients
      → String
      → String
      → Option (Dict V)
      → Post V W
      → Outcome × Post V W
  unfolding send_template
  send_through none to subject template context p = (unknown_provider, p)
  send_through (some provider) to subject template context p =
      send_template provider to subject template context p

  -- `send_email_task` of jobs/tasks.py.jinja.
  unfoldable pub send_email_task :
      Recipients → String → String → Option (Dict V) → Post V W → Outcome × Post V W
  unfolding send_through
  send_email_task to subject template context p =
      send_through (get_email_provider s) to subject template context p
