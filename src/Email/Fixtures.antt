-- ===== src/Email/Fixtures.antt =====
-- Settings and servers that keep what they get, for the tests on mail.
use python_backend_manager.Prelude.Base.{
  String, Bool, true, false, Option, none, some, List, [], ◌∷◌, str_eq, if◌then◌else◌,
}
use python_backend_manager.Email.Adapters.{
  EmailSettings, MimeLibrary, SmtpCall, SesCall, join_addresses,
}
use python_backend_manager.Email.Provider.{Post, Transports}

pub record Mail : Type 0 where
  pub from : String
  pub to : String
  pub subject : String
  pub text : Option String
  pub html : Option String

abbrev set_header : String → String → Mail → Option Mail
set_header name value m =
    if str_eq name "From"
    then some (record m { from = value })
    else if str_eq name "To"
    then some (record m { to = value })
    else some (record m { subject = value })

-- A message that has the texts as they are given.
abbrev pub plain_mime : MimeLibrary Mail
plain_mime = record {
  empty = record { from = ""; to = ""; subject = ""; text = none; html = none };
  set_header = set_header;
  set_content = λ text m. some (record m { text = some text });
  set_html = λ html m. some (record m { html = some html });
  add_html_alternative = λ html m. some (record m { html = some html });
}

abbrev pub keep_mime : SmtpCall Mail → List Mail → Bool × List Mail
keep_mime call mails = (true, call.mime ∷ mails)

abbrev pub keep_ses : SesCall → List Mail → Bool × List Mail
keep_ses call mails = (
  true,
  record {
    from = call.from;
    to = join_addresses call.to;
    subject = call.content.subject;
    text = call.content.text;
    html = call.content.html;
  }
      ∷ mails,
)

abbrev pub mail_servers : Transports Mail (List Mail)
mail_servers = record { mime = plain_mime; smtp = keep_mime; ses = keep_ses }

abbrev pub mail_settings : EmailSettings
mail_settings = record {
  email_provider = "ses";
  email_suppress_send = false;
  email_from_address = "no-reply@x.io";
  email_from_name = "X";
  smtp_host = some "mail.x.io";
  smtp_port = 587;
  smtp_username = none;
  smtp_password = none;
  smtp_start_tls = true;
  smtp_use_tls = false;
  ses_access_key_id = some "id";
  ses_secret_access_key = some "key";
}

abbrev pub no_post : Post String (List Mail)
no_post = record { servers = []; captured = [] }
