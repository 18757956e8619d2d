-- ===== src/Webhooks/Security.antt =====
-- The signatures of deliveries: webhooks/security.py. The hexadecimal HMAC-SHA256 is a parameter.
use Prim.Native.Char.{code}
use Prim.Native.String.{◌++◌ as append}
use Prim.Native.String.append as append_laws
use python_backend_manager.Prelude.Base.{
  String, ◌≡◌, ap, ◌∙◌, arith, Bool, true, Option, none, some, ◌==◌, str_eq, eq_refl, if◌then◌else◌,
}
use python_backend_manager.Prelude.Bytes.{Bytes}

-- `text.removeprefix(prefix)`
strip_prefix : String → String → Option String
strip_prefix String.[] text = some text
strip_prefix (String.◌∷◌ p ps) String.[] = none
strip_prefix (String.◌∷◌ p ps) (String.◌∷◌ c text) =
    let rest = strip_prefix ps text in if code p == code c then rest else none

abbrev or_whole : String → Option String → String
or_whole text none = text
or_whole text (some rest) = rest

unfoldable pub removeprefix : String → String → String
unfolding strip_prefix
removeprefix text prefix = or_whole text (strip_prefix prefix text)

strip_prefix-append : (p s : String) → strip_prefix p (append p s) ≡ some s
unfolding strip_prefix
strip_prefix-append String.[] s = ap some (append_laws.nil s)
strip_prefix-append (String.◌∷◌ c p) s =
    ap (strip_prefix (String.◌∷◌ c p)) (append_laws.cons c p s)
    ∙ ground (arith, strip_prefix-append p s)

module _ (hexdigest : String → Bytes → String) where
  abbrev pub sign_payload : String → Bytes → String
  sign_payload secret payload = hexdigest secret payload

  unfoldable pub verify_signature : String → Bytes → String → Bool
  verify_signature secret payload signature =
      str_eq (sign_payload secret payload) (removeprefix signature "sha256=")

  -- The signature that is sent with a payload verifies under the same secret.
  pub verify_signature-sign_payload :
      (secret : String) (payload : Bytes)
      → verify_signature secret payload (append "sha256=" (sign_payload secret payload)) ≡ true
  unfolding verify_signature removeprefix
  verify_signature-sign_payload secret payload =
      ap
        (λ r.
          str_eq (hexdigest secret payload)
            (or_whole (append "sha256=" (hexdigest secret payload)) r))
        (strip_prefix-append "sha256=" (hexdigest secret payload))
      ∙ eq_refl (hexdigest secret payload)
