-- ===== src/Email/Adapters.antt =====
-- The adapters of email/adapters: smtp.py, ses.py and console.py, over a state `W` of the mail
-- servers. The messages of the standard library's `email.message` are a type `M` with the calls that
-- the code makes on it, which rewrite what they are given; a transport gives whether it returned.
-- Log lines are left out.
use Prim.Native.String.{◌++◌ as append}
use python_backend_manager.Prelude.Base.{
  ℕ, String, Bool, true, false, ◌&&◌, not, Option, none, some, List, [], ◌∷◌, ◌++◌, str_eq,
  if◌then◌else◌,
}
use python_backend_manager.Email.Ports.{
  EmailMessage, recipients, is_none, Outcome, delivered, skipped, email_error, header_error,
  transport_error,
}

-- The settings of core/config.py.jinja for mail.
pub record EmailSettings : Type 0 where
  pub email_provider : String
  pub email_suppress_send : Bool
  pub email_from_address : String
  pub email_from_name : String
  pub smtp_host : Option String
  pub smtp_port : ℕ
  pub smtp_username : Option String
  pub smtp_password : Option String
  pub smtp_start_tls : Bool
  pub smtp_use_tls : Bool
  pub ses_access_key_id : Option String
  pub ses_secret_access_key : Option String

-- `bool(value)` of an optional text, and `value or None`.
abbrev pub is_set : Option String → Bool
is_set none = false
is_set (some text) = not (str_eq text "")

abbrev pub or_none : Option String → Option String
or_none none = none
or_none (some text) = if str_eq text "" then none else some text

-- `", ".join(addresses)`
unfoldable pub join_addresses : List String → String
join_addresses [] = ""
join_addresses (a ∷ []) = a
join_addresses (a ∷ b ∷ rest) = append a (append ", " (join_addresses (b ∷ rest)))

-- The calls on the MIME message: `MIMEMessage()`, `message[name] = value`, `set_content(text)` and,
-- with the subtype "html", `set_html` and `add_html_alternative`. `none` is an exception, such as
-- the `ValueError` of a header with a line break.
pub record MimeLibrary (M : Type 0) : Type 0 where
  pub empty : M
  pub set_header : String → String → M → Option M
  pub set_content : String → M → Option M
  pub set_html : String → M → Option M
  pub add_html_alternative : String → M → Option M

infixl 5 ◌>>=◌
abbrev ◌>>=◌ : {A B : Type 0} → Option A → (A → Option B) → Option B
none >>= f = none
some a >>= f = f a

-- What `aiosmtplib.send` is called with.
pub record SmtpCall (M : Type 0) : Type 0 where
  pub mime : M
  pub hostname : Option String
  pub port : ℕ
  pub username : Option String
  pub password : Option String
  pub start_tls : Bool
  pub use_tls : Bool

-- The "Simple" content of SES: the bodies under "Html" and "Text".
pub record SesContent : Type 0 where
  pub subject : String
  pub html : Option String
  pub text : Option String

-- What `client.send_email` is called with.
pub record SesCall : Type 0 where
  pub from : String
  pub to : List String
  pub content : SesContent

-- `_sender_address` of both adapters.
unfoldable pub sender_address : EmailSettings → String
sender_address s =
    if str_eq s.email_from_name ""
    then s.email_from_address
    else append s.email_from_name (append " <" (append s.email_from_address ">"))

-- The end of a call of a transport.
abbrev pub sent_by : {W : Type 0} → Bool × W → Outcome × W
sent_by (true, w) = (delivered, w)
sent_by (false, w) = (transport_error, w)

module _ {M : Type 0} (mime : MimeLibrary M) (s : EmailSettings) where
  abbrev pub set_bodies : (text html : Option String) → M → Option M
  set_bodies (some text) none m = mime.set_content text m
  set_bodies (some text) (some html) m = do
    m ← mime.set_content text m
    mime.add_html_alternative html m
  set_bodies none (some html) m = mime.set_html html m
  set_bodies none none m = some m

  -- `_build_mime`
  unfoldable pub build_mime : {V : Type 0} → EmailMessage V → Option M
  build_mime message = do
    m ← mime.set_header "From" (sender_address s) mime.empty
    m ← mime.set_header "To" (join_addresses (recipients message)) m
    m ← mime.set_header "Subject" message.subject m
    set_bodies message.text message.html m

abbrev pub smtp_call : {M : Type 0} → EmailSettings → M → SmtpCall M
smtp_call s mime = record {
  mime = mime;
  hostname = s.smtp_host;
  port = s.smtp_port;
  username = or_none s.smtp_username;
  password = or_none s.smtp_password;
  start_tls = s.smtp_start_tls;
  use_tls = s.smtp_use_tls;
}

unfoldable pub smtp_is_configured : EmailSettings → Bool
smtp_is_configured s = is_set s.smtp_host

unfoldable pub ses_is_configured : EmailSettings → Bool
ses_is_configured s = is_set s.ses_access_key_id && is_set s.ses_secret_access_key

-- `_content`
unfoldable pub ses_content : {V : Type 0} → EmailMessage V → SesContent
ses_content message = record { subject = message.subject; html = message.html; text = message.text }

unfoldable pub ses_call : {V : Type 0} → EmailSettings → EmailMessage V → SesCall
unfolding ses_content
ses_call s message = record {
  from = sender_address s;
  to = recipients message;
  content = ses_content message;
}

unfoldable pub has_no_body : {V : Type 0} → EmailMessage V → Bool
has_no_body message = is_none message.html && is_none message.text

unfoldable pub post_mime :
    {M W : Type 0} → EmailSettings → (SmtpCall M → W → Bool × W) → Option M → W → Outcome × W
post_mime s smtp none w = (header_error, w)
post_mime s smtp (some mime) w = sent_by (smtp (smtp_call s mime) w)

module _ {V W : Type 0} (s : EmailSettings) where
  -- `SMTPAdapter.send`
  unfoldable pub smtp_send :
      {M : Type 0} → MimeLibrary M → (SmtpCall M → W → Bool × W) → EmailMessage V → W → Outcome × W
  unfolding post_mime
  smtp_send mime smtp message w =
      if has_no_body message
      then (email_error, w)
      else if smtp_is_configured s
      then post_mime s smtp (build_mime mime s message) w
      else (skipped, w)

  -- `SESAdapter.send`
  unfoldable pub ses_send : (SesCall → W → Bool × W) → EmailMessage V → W → Outcome × W
  ses_send ses message w =
      if has_no_body message
      then (email_error, w)
      else if ses_is_configured s
      then sent_by (ses (ses_call s message) w)
      else (skipped, w)

-- `ConsoleEmailAdapter.send`, over the list of the messages that it has captured.
unfoldable pub console_send :
    {V : Type 0} → EmailMessage V → List (EmailMessage V) → Outcome × List (EmailMessage V)
console_send message sent = (delivered, sent ++ message ∷ [])
