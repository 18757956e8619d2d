-- ===== src/Admin/Auth.antt =====
-- Who may use the admin panel: admin/auth.py. Parameters are the check of a password against its
-- hash, and the parser of a UUID. The hashing of a password that the code does for its duration has
-- no result, and is left out.
pub mod Superusers
use python_backend_manager.Prelude.Base.{
  String, Bool, true, false, not, ◌&&◌, ◌||◌, Option, none, some, List, [], ◌∷◌, ◌==◌, keep,
  find_first, str_eq, if◌then◌else◌,
}
use python_backend_manager.Prelude.Uuid.{Uuid, uuid_text}
use python_backend_manager.Prelude.Dict.{Dict, get, put}
use python_backend_manager.Prelude.Text.{lower_text, strip}

pub record User : Type 0 where
  pub id : Uuid
  pub email : String
  pub hashed_password : String
  pub is_active : Bool
  pub is_superuser : Bool

-- The signed session of a request.
abbrev pub Session : Type 0
Session = Dict String

abbrev pub session_key : String
session_key = "admin_user_id"

abbrev pub is_admin : User → Bool
is_admin user = user.is_active && user.is_superuser

unfoldable pub find_user : Uuid → List User → Option User
find_user uid users = find_first (λ u. u.id == uid) users

-- `user is None or not user.is_active or not user.is_superuser`, negated
abbrev pub admin_or_none : Option User → Option User
admin_or_none none = none
admin_or_none (some user) = if is_admin user then some user else none

abbrev pub is_some {ℓ} : {A : Type ℓ} → Option A → Bool
is_some none = false
is_some (some a) = true

abbrev pub text_or_empty : Option String → String
text_or_empty none = ""
text_or_empty (some t) = t

abbrev pub has_email : String → User → Bool
has_email email user = str_eq (lower_text user.email) (lower_text email)

-- The end of `login`: `none` is the error of `scalar_one_or_none` at several rows.
abbrev pub Login : Type 0
Login = Option (Bool × Session)

module _ (verify : String → String → Bool) (parse_uuid : String → Option Uuid) where
  unfoldable pub enter : String → Session → Option User → Bool × Session
  enter password session none = (false, session)
  enter password session (some user) =
      if verify password user.hashed_password
      then (true, put session session_key (uuid_text user.id))
      else (false, session)

  unfoldable pub login_as : String → Session → List User → Login
  login_as password session [] = some (false, session)
  login_as password session (user ∷ []) = some (enter password session (admin_or_none (some user)))
  login_as password session (user ∷ other ∷ users) = none

  -- `form` holds the fields "username" and "password".
  unfoldable pub login : Dict String → List User → Session → Login
  login form users session =
      let email = strip (text_or_empty (get form "username")) in
      let password = text_or_empty (get form "password") in
      if str_eq email "" || str_eq password ""
      then some (false, session)
      else login_as password session (keep (has_email email) users)

  abbrev pub logout : Session → Bool × Session
  logout session = (true, [])

  unfoldable pub by_uid : List User → Option Uuid → Option User
  by_uid users none = none
  by_uid users (some uid) = admin_or_none (find_user uid users)

  unfoldable pub active_superuser_by_id : List User → String → Option User
  active_superuser_by_id users user_id = by_uid users (parse_uuid user_id)

  unfoldable pub authenticated : List User → Option String → Bool
  authenticated users none = false
  authenticated users (some user_id) =
      if str_eq user_id "" then false else is_some (active_superuser_by_id users user_id)

  unfoldable pub authenticate : List User → Session → Bool
  authenticate users session = authenticated users (get session session_key)
