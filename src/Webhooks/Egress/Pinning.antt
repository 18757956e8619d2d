-- ===== src/Webhooks/Egress/Pinning.antt =====
-- What the guard has checked of a target that it lets pass.
use python_backend_manager.Prelude.Base.{
  String, ◌≡◌, refl, ap, ◌∙◌, Bool, true, false, not, ◌||◌, Option, none, some, List, [], ◌∷◌, map,
  All, if◌then◌else◌,
}
use python_backend_manager.Webhooks.Addresses.{Ip, is_public}
use python_backend_manager.Webhooks.Egress.{
  Resolver, SplitResult, PinnedTarget, Checked, allowed, webhook_egress_error, raised,
  before_percent, is_allowed_scheme, is_empty, port_or_default, pinned, pin_first, check_addresses,
  check_infos, resolve_public_ips, resolve_host, resolve_parts, resolve_pinned_target,
}

module _ (r : Resolver) where
  abbrev pub IsPublicText : String → Type 0
  IsPublicText address = (ip : Ip) × (r.ip_address address ≡ some ip) × (is_public ip ≡ true)

  -- A target and what its check has seen: a URL of an allowed scheme, the one answer of the resolver
  -- for the host and the port of that URL, every address of it public, and the target that names the
  -- first of them, with the host of the URL.
  abbrev pub IsChecked : String → PinnedTarget → Type 0
  IsChecked url target =
      (parts : SplitResult) × (host : String) × (info : String) × (infos : List String)
      × (r.urlsplit url ≡ some parts)
      × (is_allowed_scheme parts.scheme ≡ true)
      × (parts.hostname ≡ some host)
      × (r.getaddrinfo host (port_or_default parts.scheme parts.port) ≡ some (info ∷ infos))
      × All IsPublicText (map before_percent (info ∷ infos))
      × (target ≡ pinned parts host (before_percent info))

  check_addresses-allowed :
      (all xs : List String) {ys : List String}
      → check_addresses r all xs ≡ allowed ys
      → All IsPublicText xs × (ys ≡ all)
  unfolding check_addresses
  check_addresses-allowed all [] h = (tt, cc)
  check_addresses-allowed all (x ∷ xs) {ys} h =
      go (r.ip_address x) refl h (check_addresses-allowed all xs)
    where
      passed :
          (b : Bool)
          → (if b then check_addresses r all xs else webhook_egress_error) ≡ allowed ys
          → (b ≡ true) × (check_addresses r all xs ≡ allowed ys)
      passed true e = (refl, e)
      passed false e = cc

      go :
          (o : Option Ip)
          → r.ip_address x ≡ o
          → (elim o [
            | none ↦ raised
            | some ip ↦ if is_public ip then check_addresses r all xs else webhook_egress_error
          ])
            ≡ allowed ys
          → (check_addresses r all xs ≡ allowed ys → All IsPublicText xs × (ys ≡ all))
          → All IsPublicText (x ∷ xs) × (ys ≡ all)
      go none e h' again = cc
      go (some ip) e h' again =
          let (is_good, left) = passed (is_public ip) h' in
          let (rest, same) = again left in (((ip, e, is_good), rest), same)

  check_infos-allowed :
      (infos : Option (List String)) {ys : List String}
      → check_infos r infos ≡ allowed ys
      → (x : String) × (xs : List String) × (infos ≡ some (x ∷ xs))
        × All IsPublicText (map before_percent (x ∷ xs))
        × (ys ≡ map before_percent (x ∷ xs))
  unfolding check_infos
  check_infos-allowed none h = cc
  check_infos-allowed (some []) h = cc
  check_infos-allowed (some (x ∷ xs)) h =
      let (public, same) = check_addresses-allowed _ (map before_percent (x ∷ xs)) h in
      (x, xs, refl, public, same)

  pin_first-allowed :
      (parts : SplitResult) (host : String) (c : Checked (List String)) {target : PinnedTarget}
      → pin_first parts host c ≡ allowed target
      → (a : String) × (as' : List String) × (c ≡ allowed (a ∷ as'))
        × (target ≡ pinned parts host a)
  unfolding pin_first
  pin_first-allowed parts host (allowed []) h = cc
  pin_first-allowed parts host (allowed (a ∷ as')) h = (a, as', refl, cc)
  pin_first-allowed parts host webhook_egress_error h = cc
  pin_first-allowed parts host raised h = cc

  head_eq : (a b : String) (as' bs : List String) → a ∷ as' ≡ b ∷ bs → a ≡ b
  head_eq a b as' bs e = cc

  resolve_host-IsChecked :
      (url : String) (parts : SplitResult) (hostname : Option String) {target : PinnedTarget}
      → r.urlsplit url ≡ some parts
      → is_allowed_scheme parts.scheme ≡ true
      → parts.hostname ≡ hostname
      → resolve_host r parts hostname ≡ allowed target
      → IsChecked url target
  unfolding resolve_host resolve_public_ips
  resolve_host-IsChecked url parts none split scheme name h = cc
  resolve_host-IsChecked url parts (some host) {target} split scheme name h =
      let (a, as', found, t) =
        pin_first-allowed parts host _ (passed (is_empty host || not parts.has_valid_port) h) in
      let (x, xs, answer, public, same) = check_infos-allowed _ found in
      (
        parts,
        host,
        x,
        xs,
        split,
        scheme,
        name,
        answer,
        public,
        t ∙ ap (pinned parts host) (head_eq a (before_percent x) as' (map before_percent xs) same),
      )
    where
      passed :
          (b : Bool)
          → {c : Checked PinnedTarget} → (if b then webhook_egress_error else c) ≡ allowed target
          → c ≡ allowed target
      passed true e = cc
      passed false e = e

  -- A target that the guard lets pass is pinned to the first address of the one answer of the
  -- resolver, every address of which is public.
  pub resolve_pinned_target-IsChecked :
      (url : String) {target : PinnedTarget}
      → resolve_pinned_target r url ≡ allowed target
      → IsChecked url target
  unfolding resolve_pinned_target resolve_parts
  resolve_pinned_target-IsChecked url {target} h = go (r.urlsplit url) refl h
    where
      passed :
          (b : Bool)
          → {c : Checked PinnedTarget} → (if b then c else webhook_egress_error) ≡ allowed target
          → (b ≡ true) × (c ≡ allowed target)
      passed true e = (refl, e)
      passed false e = cc

      go :
          (o : Option SplitResult)
          → r.urlsplit url ≡ o
          → resolve_parts r o ≡ allowed target
          → IsChecked url target
      go none e h' = cc
      go (some parts) e h' =
          let (scheme, found) = passed (is_allowed_scheme parts.scheme) h' in
          resolve_host-IsChecked url parts parts.hostname e scheme refl found
