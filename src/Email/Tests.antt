-- ===== src/Email/Tests.antt =====
-- The theorems on mail at a small template engine and servers that keep what they get.
use python_backend_manager.Prelude.Base.{
  String, ◌≡◌, refl, none, some, [], ◌∷◌, str_eq, inr, if◌then◌else◌,
}
use python_backend_manager.Email.Ports.{EmailMessage, one, many, delivered, recipients}
use python_backend_manager.Email.Templating.{Engine, missing, loaded}
use python_backend_manager.Email.Adapters.{
  post_mime, has_no_body, smtp_is_configured, build_mime, ses_call, ses_content, ses_is_configured,
  smtp_send, ses_send, sender_address, join_addresses, console_send,
}
use python_backend_manager.Email.Provider.{send_email_task, console_adapter, port_send}
use python_backend_manager.Email.Fixtures.{
  plain_mime, keep_mime, keep_ses, mail_servers, mail_settings, no_post,
}
use python_backend_manager.Email.Provider.Selected.{send_email_task-Silent}

-- An engine with one template, "welcome.html".
abbrev one_template : Engine String String
one_template = record {
  get_template = λ name. if str_eq name "welcome.html" then loaded "<p>hi</p>" else missing;
  fill = λ t context. some t;
}

abbrev plain_message : EmailMessage String
plain_message = record {
  to = many ("a@x.io" ∷ "b@x.io" ∷ []);
  subject = "s";
  html = none;
  text = some "t";
  template = none;
  context = none;
}

sender_shown : sender_address mail_settings ≡ "X <no-reply@x.io>"
unfolding sender_address
sender_shown = refl

joined : join_addresses (recipients plain_message) ≡ "a@x.io, b@x.io"
unfolding join_addresses recipients
joined = refl

-- The console adapter takes a message without a body, which the port says is an `EmailError`.
bodyless_captured :
    let m : EmailMessage String = record plain_message { text = none } in
    (port_send one_template mail_servers mail_settings console_adapter m no_post).0 ≡ delivered
unfolding port_send console_send
bodyless_captured = refl

-- Both adapters, over a message that keeps its texts as they are given.
smtp_shown :
    smtp_send mail_settings plain_mime keep_mime plain_message []
    ≡ ses_send mail_settings keep_ses plain_message []
unfolding smtp_send ses_send build_mime ses_call ses_content post_mime has_no_body
    smtp_is_configured ses_is_configured
smtp_shown = refl

send_email_task-Silent_example :
    (send_email_task one_template mail_servers
      (record mail_settings { ses_access_key_id = none })
      (one "a@x.io")
      "s"
      "welcome"
      none
      no_post).1.servers
    ≡ []
unfolding ses_is_configured
send_email_task-Silent_example =
    send_email_task-Silent one_template mail_servers
      (record mail_settings { ses_access_key_id = none }) (one "a@x.io") "s" "welcome" none no_post
      (inr (inr (inr (refl, refl))))
