-- ===== src/Admin/Auth/Superusers.antt =====
-- Who passes the login of the admin panel, and for how long.
use python_backend_manager.Prelude.Base.{String, ◌≡◌, Bool, true, Option, List, [], ◌∷◌, keep}
use python_backend_manager.Prelude.Uuid.{Uuid, uuid_text}
use python_backend_manager.Prelude.Dict.{Dict, get, put}
use python_backend_manager.Prelude.Text.{strip}
use python_backend_manager.Admin.Auth.{
  User, Session, session_key, is_admin, text_or_empty, has_email,
}

module _ (verify : String → String → Bool) (parse_uuid : String → Option Uuid) where
  -- The user that a login has let in.
  abbrev pub IsAdmitted : Dict String → List User → Session → Session → User → Type 0
  IsAdmitted form users session session' user =
      (keep (has_email (strip (text_or_empty (get form "username")))) users ≡ user ∷ [])
      × (is_admin user ≡ true)
      × (verify (text_or_empty (get form "password")) user.hashed_password ≡ true)
      × (session' ≡ put session session_key (uuid_text user.id))
