-- ===== src/Users/Tests.antt =====
-- The theorems on login sessions at concrete tokens.
use python_backend_manager.Prelude.Base.{
  ℕ, String, ◌≡◌, refl, sym, ◌∙◌, ◌≢◌, true, false, Option, none, some, List, [], ◌∷◌, arith,
}
use python_backend_manager.Users.Sessions.{
  RefreshToken, Refreshed, Tokens, find_token, revoke_family, rotated, reuse_detected, new_row,
  rotate_refresh_token, claim_token, issue_refresh_token,
}
use python_backend_manager.Prelude.Uuid.{Uuid}
use mathlib.Core.Option.{some-injective}
use python_backend_manager.Users.AccessTokens.{
  User, Claims, read_token, check_claims, check_sub, current_user, is_denied,
}
use python_backend_manager.Users.Sessions.Reuse.{has_live, undisturbed, rotate_refresh_token-reuse}
use python_backend_manager.Users.Sessions.Revocation.{
  Request, login, refresh, handle, handle_all, handle_all-revoked,
}
use python_backend_manager.Prelude.Base.{◌++◌, str_eq, if◌then◌else◌}
use python_backend_manager.Prelude.Dict.{get}
use python_backend_manager.Users.Sessions.{revoke_all_for_user}
use python_backend_manager.Jobs.{Pooled, queued, unreachable}
use python_backend_manager.Email.Templating.{Engine, missing, loaded, render, render_optional}
use python_backend_manager.Email.Adapters.{ses_is_configured, sender_address, join_addresses}
use python_backend_manager.Email.Fixtures.{mail_servers, mail_settings, no_post}
use python_backend_manager.Users.Manager.{
  Accounts, on_after_reset_password, logout_all, MailJob, reset_job, on_after_forgot_password,
}
use python_backend_manager.Users.Manager.Reset.{
  on_after_reset_password-ends_session, read_token-on_after_reset_password,
  read_token-logout_all_stale,
}
use python_backend_manager.Users.Manager.Mails.{work, on_after_forgot_password-mails}

-- A function in place of the hash.
abbrev plain_hash : String → String
plain_hash token = token

abbrev first_token : RefreshToken
first_token = new_row "a" 1 7 100

abbrev tokens : Tokens
tokens = first_token ∷ []

abbrev rotated_tokens : Tokens
rotated_tokens = (rotate_refresh_token plain_hash 10 "a" "b" 8 5 5 5 undisturbed tokens).1

abbrev reused : Refreshed × Tokens
reused = rotate_refresh_token plain_hash 10 "a" "c" 9 20 20 20 undisturbed rotated_tokens

rotate_refresh_token-reuse_example :
    (reused.0 ≡ reuse_detected)
    × (reused.1 ≡ revoke_family 7 rotated_tokens)
    × (has_live 7 reused.1 ≡ false)
    × ((successor : RefreshToken) × (find_token "b" reused.1 ≡ some successor)
        × (successor.revoked ≡ true))
unfolding rotate_refresh_token claim_token issue_refresh_token find_token
rotate_refresh_token-reuse_example =
    rotate_refresh_token-reuse plain_hash 10 "a" "b" "c" 8 9 5 5 5 20 20 20 undisturbed tokens
      {user = 1} {seen = first_token} {row = first_token} refl refl refl refl (omega arith)

abbrev revoked_tokens : Tokens
revoked_tokens = record first_token { revoked = true } ∷ []

abbrev requests : List Request
requests = refresh "a" "b" 8 5 5 5 ∷ login 1 "c" 9 6 ∷ refresh "c" "d" 8 7 7 7 ∷ []

handle_all-revoked_example :
    let tokens' = handle_all plain_hash 10 requests revoked_tokens in
    (has_live 7 tokens' ≡ false)
    × ((rotate_refresh_token plain_hash 10 "a" "e" 8 9 9 9 undisturbed tokens').0 ≢ rotated 1 "e")
unfolding handle_all handle rotate_refresh_token claim_token issue_refresh_token find_token
    revoke_family
handle_all-revoked_example =
    handle_all-revoked plain_hash 10 7 requests revoked_tokens "a" "e" 8 9 9 9 1
      {row = record first_token { revoked = true }} (refl, tt) refl
      (tt, ((λ e. omega (arith, e)), (tt, tt))) refl refl

abbrev claims_of : String → ℕ → Option Claims
claims_of token now = some (record { sub = some token; tv = some 4; jti = none })

abbrev parse_one : String → Option Uuid
parse_one text = some 1

abbrev users : List User
users = record { id = 1; token_version = 4 } ∷ []

abbrev accounts : Accounts
accounts = record { users = users; tokens = tokens }

on_after_reset_password-ends_session_example :
    let tokens' =
      handle_all plain_hash 10
        (login 1 "c" 9 6 ∷ [])
        (on_after_reset_password 1 4 accounts).tokens in
    (rotate_refresh_token plain_hash 10 "a" "e" 8 9 9 9 undisturbed tokens').0 ≢ rotated 1 "e"
unfolding handle_all handle issue_refresh_token find_token on_after_reset_password
    revoke_all_for_user
on_after_reset_password-ends_session_example =
    on_after_reset_password-ends_session plain_hash 10 1 7 4 accounts (login 1 "c" 9 6 ∷ []) "a" "e"
      8 9 9 9 1 {row = record first_token { revoked = true }} ((λ e. refl), tt) (refl, tt)
      ((λ e. omega (arith, e)), tt) refl refl

read_token-on_after_reset_password_example :
    read_token parse_one claims_of false
      (some "1")
      9
      []
      (on_after_reset_password 1 4 accounts).users
    ≡ none
unfolding read_token check_claims check_sub current_user is_denied
read_token-on_after_reset_password_example =
    read_token-on_after_reset_password parse_one claims_of true false "1" 5 9 [] [] accounts 4
      {u = record { id = 1; token_version = 4 }} (λ c c' e e'. some-injective _ _ (sym e ∙ e'))
      ((λ e. refl), tt) refl

read_token-logout_all_stale_example :
    read_token parse_one claims_of false (some "1") 9 [] (logout_all 1 3 accounts).users
    ≡ read_token parse_one claims_of false (some "1") 9 [] users
read_token-logout_all_stale_example =
    read_token-logout_all_stale parse_one claims_of false (some "1") 9 [] accounts 1 3
      ((λ e. refl), tt)

abbrev push : MailJob → List MailJob → Pooled (List MailJob)
push job q = queued (q ++ job ∷ [])

abbrev down : MailJob → List MailJob → Pooled (List MailJob)
down job q = unreachable

-- An engine that renders every HTML template with the token of the context.
abbrev token_template : Engine String String
token_template = record {
  get_template = λ name. if str_eq name "password_reset.html" then loaded "r" else missing;
  fill = λ t context. get context "token";
}

on_after_forgot_password-mails_example :
    (work token_template mail_servers mail_settings
      (on_after_forgot_password "P" push "u@x.io" "t" []).1
      no_post).servers
    ≡ record {
      from = sender_address mail_settings;
      to = "u@x.io";
      subject = "Reset your P password";
      text = none;
      html = some "t";
    }
      ∷ []
unfolding ses_is_configured render render_optional get reset_job work join_addresses
on_after_forgot_password-mails_example =
    on_after_forgot_password-mails token_template mail_servers mail_settings "P" push "u@x.io" "t"
      "t" none [] no_post (λ job. refl) refl refl refl refl refl
