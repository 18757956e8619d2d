-- ===== src/Core/SecurityHeaders/Defaults.antt =====
-- The headers of a response against a reference: its own headers, and then the defaults.
use python_backend_manager.Prelude.Base.{
  ℕ, ◌≡◌, refl, sym, ap, ◌∙◌, Bool, true, false, List, [], ◌∷◌, ◌++◌, any, inl, inr, Bool-cases,
  str_eq, arith, if◌then◌else◌,
}
use python_backend_manager.Prelude.Bytes.{Bytes, codes, bytes_eq, bytes_eq_sound}
use python_backend_manager.Core.SecurityHeaders.{
  Headers, Message, response_start, response_body, SecurityHeadersMiddleware, has_name, setdefault,
  set_csp, set_hsts, max_age, send_with_headers,
}

-- The values of a header of a response, in order: those of all its headers of the name.
abbrev pub values_of : Bytes → Headers → List Bytes
values_of name [] = []
values_of name (h ∷ headers) =
    if has_name name h then h.1 ∷ values_of name headers else values_of name headers

abbrev pub or_else {ℓ} : {A : Type ℓ} → List A → List A → List A
or_else [] ys = ys
or_else (x ∷ xs) ys = x ∷ xs

abbrev nosniff : Headers
nosniff = (codes "x-content-type-options", codes "nosniff") ∷ []

abbrev no_frames : Headers
no_frames = (codes "x-frame-options", codes "DENY") ∷ []

abbrev referrer : Headers
referrer = (codes "referrer-policy", codes "strict-origin-when-cross-origin") ∷ []

abbrev csp_header : SecurityHeadersMiddleware → Headers
csp_header m = if str_eq m.csp "" then [] else (codes "content-security-policy", codes m.csp) ∷ []

abbrev hsts_header : SecurityHeadersMiddleware → Headers
hsts_header m =
    if m.include_hsts
    then (codes "strict-transport-security", codes (max_age m.hsts_max_age)) ∷ []
    else []

-- What the middleware stands for: the default values, in order.
unfoldable pub defaults : SecurityHeadersMiddleware → Headers
defaults m = (((nosniff ++ no_frames) ++ referrer) ++ csp_header m) ++ hsts_header m

abbrev pub headers_of : Message → Headers
headers_of (response_start status headers) = headers
headers_of (response_body body) = []

values_of-append :
    (name : Bytes) (xs ys : Headers)
    → values_of name (xs ++ ys) ≡ values_of name xs ++ values_of name ys
values_of-append name [] ys = refl
values_of-append name (x ∷ xs) ys = ground (arith, values_of-append name xs ys)

values_of-any :
    (name : Bytes) (xs : Headers) (ys : List Bytes)
    → or_else (values_of name xs) ys ≡ (if any (has_name name) xs then values_of name xs else ys)
values_of-any name [] ys = refl
values_of-any name (x ∷ xs) ys = ground (arith, values_of-any name xs ys)

values_of-unnamed :
    (name : Bytes) (xs : Headers) → any (has_name name) xs ≡ false → values_of name xs ≡ []
values_of-unnamed name [] h = refl
values_of-unnamed name (x ∷ xs) h = ground (arith, values_of-unnamed name xs)

append_nil : (vs : List Bytes) → vs ++ [] ≡ or_else vs []
append_nil [] = refl
append_nil (v ∷ vs) = ground (arith, append_nil vs)

-- A header that the headers before it do not name adds its value to none of theirs.
values_of-behind :
    (name key value : Bytes) (xs : Headers)
    → any (has_name key) xs ≡ false
    → values_of name (xs ++ (key, value) ∷ [])
      ≡ or_else (values_of name xs) (values_of name ((key, value) ∷ []))
values_of-behind name key value xs h =
    values_of-append name xs ((key, value) ∷ []) ∙ elim (Bool-cases (bytes_eq key name)) [
      | inl e ↦
          let none_of =
            values_of-unnamed name xs
              (ap (λ k. any (has_name k) xs) (sym (bytes_eq_sound key name e)) ∙ h) in
          ground (arith, none_of)
      | inr e ↦ ground (arith, append_nil (values_of name xs))
    ]

values_of-named :
    (name : Bytes) (xs : Headers) (ys : List Bytes)
    → any (has_name name) xs ≡ true
    → or_else (values_of name xs) ys ≡ values_of name xs
values_of-named name xs ys h = ground (arith, values_of-any name xs ys)

values_of-setdefault :
    (name key value : Bytes) (headers : Headers)
    → values_of name (setdefault key value headers)
      ≡ or_else (values_of name headers) (values_of name ((key, value) ∷ []))
unfolding setdefault
values_of-setdefault name key value headers = elim (Bool-cases (any (has_name key) headers)) [
  | inl e ↦ rw e (elim (Bool-cases (bytes_eq key name)) [
    | inl same ↦
        let named = ap (λ k. any (has_name k) headers) (sym (bytes_eq_sound key name same)) ∙ e in
        sym (values_of-named name headers _ named)
    | inr differ ↦ ground (arith, values_of-any name headers [])
  ])
  | inr e ↦ rw e (values_of-behind name key value headers e)
]

or_else_nil : (vs : List Bytes) → vs ≡ or_else vs []
or_else_nil [] = refl
or_else_nil (v ∷ vs) = refl

or_else_assoc : (a b c : List Bytes) → or_else (or_else a b) c ≡ or_else a (or_else b c)
or_else_assoc [] b c = refl
or_else_assoc (v ∷ a) b c = refl

values_of-unless :
    (name key value : Bytes) (b : Bool) (headers : Headers)
    → values_of name (if b then headers else setdefault key value headers)
      ≡ or_else (values_of name headers) (values_of name (if b then [] else (key, value) ∷ []))
values_of-unless name key value true headers = or_else_nil _
values_of-unless name key value false headers = values_of-setdefault name key value headers

values_of-when :
    (name key value : Bytes) (b : Bool) (headers : Headers)
    → values_of name (if b then setdefault key value headers else headers)
      ≡ or_else (values_of name headers) (values_of name (if b then (key, value) ∷ [] else []))
values_of-when name key value true headers = values_of-setdefault name key value headers
values_of-when name key value false headers = or_else_nil _

-- The headers `xs` read as `a` and then `b` do.
abbrev Reads : Bytes → Headers → List Bytes → Headers → Type 0
Reads name xs a ys = values_of name xs ≡ or_else a (values_of name ys)

-- The headers `ds` behind `ys` have none of their names.
abbrev Behind : Bytes → Headers → Headers → Type 0
Behind name ys ds = Reads name (ys ++ ds) (values_of name ys) ds

extend :
    (name : Bytes) (xs zs ys ds : Headers) (a : List Bytes)
    → Reads name zs (values_of name xs) ds
    → Behind name ys ds
    → Reads name xs a ys
    → Reads name zs a (ys ++ ds)
extend name xs zs ys ds a step behind h =
    step
    ∙ ap (λ v. or_else v (values_of name ds)) h
    ∙ or_else_assoc a (values_of name ys) (values_of name ds)
    ∙ ap (or_else a) (sym behind)

abbrev before_csp : Headers
before_csp = (nosniff ++ no_frames) ++ referrer

unless-Behind :
    (name key value : Bytes) (b : Bool) (ys : Headers)
    → any (has_name key) ys ≡ false
    → Behind name ys (if b then [] else (key, value) ∷ [])
unless-Behind name key value true ys h =
    values_of-append name ys [] ∙ append_nil (values_of name ys)
unless-Behind name key value false ys h = values_of-behind name key value ys h

when-Behind :
    (name key value : Bytes) (b : Bool) (ys : Headers)
    → any (has_name key) ys ≡ false
    → Behind name ys (if b then (key, value) ∷ [] else [])
when-Behind name key value true ys h = values_of-behind name key value ys h
when-Behind name key value false ys h = values_of-append name ys [] ∙ append_nil (values_of name ys)

unnamed_hsts :
    (m : SecurityHeadersMiddleware)
    → any (has_name (codes "strict-transport-security")) (before_csp ++ csp_header m) ≡ false
unfolding bytes_eq
unnamed_hsts m = elim (Bool-cases (str_eq m.csp "")) [ inl e ↦ rw e refl | inr e ↦ rw e refl ]

defaults-Behind :
    (m : SecurityHeadersMiddleware) (name : Bytes)
    → Behind name nosniff no_frames
      × Behind name (nosniff ++ no_frames) referrer
      × Behind name before_csp (csp_header m)
      × Behind name (before_csp ++ csp_header m) (hsts_header m)
unfolding bytes_eq
defaults-Behind m name = (
  values_of-behind name (codes "x-frame-options") (codes "DENY") nosniff refl,
  values_of-behind name (codes "referrer-policy") (codes "strict-origin-when-cross-origin")
      (nosniff ++ no_frames) refl,
  unless-Behind name (codes "content-security-policy") (codes m.csp) (str_eq m.csp "") before_csp
      refl,
  when-Behind name (codes "strict-transport-security") (codes (max_age m.hsts_max_age))
      m.include_hsts (before_csp ++ csp_header m) (unnamed_hsts m),
)

-- A response has, under every name, just the values that the application has given it, where there
-- are any, and otherwise just the default of the middleware: a header that the application has set
-- is left alone, no hardening header stands twice, and no other header is added.
pub send_with_headers-defaults :
    (m : SecurityHeadersMiddleware) (name : Bytes) (status : ℕ) (headers : Headers)
    → values_of name (headers_of (send_with_headers m (response_start status headers))) ≡ (
        if any (has_name name) headers then values_of name headers else values_of name (defaults m))
unfolding send_with_headers defaults set_csp set_hsts
send_with_headers-defaults m name status headers =
    let (frames, referrers, csp, hsts) = defaults-Behind m name in
    extend name _ _ (before_csp ++ csp_header m) (hsts_header m) _
      (values_of-when name _ _ m.include_hsts _) hsts
      (extend name _ _ before_csp (csp_header m) _ (values_of-unless name _ _ (str_eq m.csp "") _)
        csp
        (extend name _ _ (nosniff ++ no_frames) referrer _ (values_of-setdefault name _ _ _)
          referrers
          (extend name _ _ nosniff no_frames _ (values_of-setdefault name _ _ _) frames
            (values_of-setdefault name _ _ headers))))
    ∙ values_of-any name headers (values_of name (defaults m))
