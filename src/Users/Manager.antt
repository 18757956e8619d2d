-- ===== src/Users/Manager.antt =====
-- The hooks of users/manager.py.jinja and `logout_all` of users/router.py.jinja, in a service with
-- mail and jobs. A hook has read the user before it runs, so it is given the version that it read.
pub mod Reset
pub mod Mails
use Prim.Native.String.{◌++◌ as append}
use python_backend_manager.Prelude.Base.{
  ℕ, ◌+◌, String, Bool, Option, none, some, List, [], ◌∷◌, ◌==◌, update_where,
}
use python_backend_manager.Prelude.Dict.{Dict}
use python_backend_manager.Prelude.Uuid.{Uuid}
use python_backend_manager.Jobs.{Pooled, enqueue}
use python_backend_manager.Users.AccessTokens.{User}
use python_backend_manager.Users.Sessions.{Tokens, revoke_all_for_user}
use python_backend_manager.Email.Ports.{Recipients, one}

pub record Accounts : Type 0 where
  pub users : List User
  pub tokens : Tokens

-- `user.token_version += 1` and the commit that writes the sum to the row.
unfoldable pub write_version : Uuid → ℕ → List User → List User
write_version id seen users =
    update_where (λ u. u.id == id) (λ u. record u { token_version = seen + 1 }) users

-- `on_after_reset_password`: one commit.
unfoldable pub on_after_reset_password : Uuid → ℕ → Accounts → Accounts
unfolding write_version
on_after_reset_password id seen a = record {
  users = write_version id seen a.users;
  tokens = revoke_all_for_user id a.tokens;
}

-- `logout_all`, for the user who is logged in.
unfoldable pub logout_all : Uuid → ℕ → Accounts → Accounts
unfolding write_version
logout_all id seen a = record {
  users = write_version id seen a.users;
  tokens = revoke_all_for_user id a.tokens;
}

-- The arguments of the job "send_email_task".
pub record MailJob : Type 0 where
  pub to : Recipients
  pub subject : String
  pub template : String
  pub context : Dict String

module _ (project_name : String) where
  unfoldable pub welcome_job : String → MailJob
  welcome_job email = record {
    to = one email;
    subject = append "Welcome to " project_name;
    template = "welcome";
    context = ("email", email) ∷ ("project_name", project_name) ∷ [];
  }

  unfoldable pub reset_job : String → String → MailJob
  reset_job email token = record {
    to = one email;
    subject = append "Reset your " (append project_name " password");
    template = "password_reset";
    context = ("email", email) ∷ ("token", token) ∷ ("project_name", project_name) ∷ [];
  }

  module _ {Q : Type 0} (enqueue_job : MailJob → Q → Pooled Q) where
    -- A hook drops what `enqueue` returns; `none` is its exception.
    abbrev pub ignored : Option Bool × Q → Option (Unit {0}) × Q
    ignored (none, q) = (none, q)
    ignored (some done, q) = (some tt, q)

    unfoldable pub on_after_register : String → Q → Option (Unit {0}) × Q
    unfolding welcome_job
    on_after_register email q = ignored (enqueue enqueue_job (welcome_job email) q)

    unfoldable pub on_after_forgot_password : String → String → Q → Option (Unit {0}) × Q
    unfolding reset_job
    on_after_forgot_password email token q = ignored (enqueue enqueue_job (reset_job email token) q)
