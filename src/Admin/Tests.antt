-- ===== src/Admin/Tests.antt =====
-- The theorem on the admin panel at a concrete table of users.
use python_backend_manager.Prelude.Base.{
  String, true, false, Option, none, some, [], ◌∷◌, str_eq, if◌then◌else◌,
}
use python_backend_manager.Prelude.Uuid.{Uuid}
use python_backend_manager.Prelude.Dict.{Dict}
use python_backend_manager.Admin.Auth.{User}

abbrev one : String
one = "00000000-0000-0000-0000-000000000001"

abbrev admin : User
admin = record {
  id = 1;
  email = "Root@example.com";
  hashed_password = "secret";
  is_active = true;
  is_superuser = true;
}

-- The same user, once demoted.
abbrev demoted : User
demoted = record admin { is_superuser = false }

abbrev form : Dict String
form = ("username", " root@example.com") ∷ ("password", "secret") ∷ []

abbrev parse_one : String → Option Uuid
parse_one t = if str_eq t one then some 1 else none
