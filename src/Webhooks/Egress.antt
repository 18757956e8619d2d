-- ===== src/Webhooks/Egress.antt =====
-- The guard on the targets of webhooks: webhooks/egress.py. Parameters are the resolver, an answer
-- of which is `none` where it raises an `OSError`, and the parsers of an address and of a URL.
pub mod Pinning
use Prim.Native.Char.{code}
use Prim.Native.String.{◌++◌ as append}
use python_backend_manager.Prelude.Base.{
  ℕ, String, Bool, true, false, not, ◌||◌, Option, none, some, List, [], ◌∷◌, map, ◌==◌, str_eq,
  if◌then◌else◌,
}
use python_backend_manager.Prelude.Dict.{Dict, get_or}
use python_backend_manager.Prelude.Text.{decimal}
use python_backend_manager.Webhooks.Addresses.{Ip, is_public}

-- What `urlsplit` returns: `port` raises where `has_valid_port` is false.
pub record SplitResult : Type 0 where
  pub scheme : String
  pub netloc : String
  pub path : String
  pub query : String
  pub fragment : String
  pub hostname : Option String
  pub has_valid_port : Bool
  pub port : Option ℕ

pub record PinnedTarget : Type 0 where
  pub url : String
  pub host_header : String
  pub sni_hostname : String

-- `webhook_egress_error` is the exception of the module, `raised` one that it does not catch.
pub data Checked {ℓ} (A : Type ℓ) : Type ℓ where
  allowed : A → Checked A
  webhook_egress_error raised : Checked A

pub record Resolver : Type 0 where
  pub getaddrinfo : String → ℕ → Option (List String)
  pub ip_address : String → Option Ip
  pub urlsplit : String → Option SplitResult

abbrev pub default_ports : Dict ℕ
default_ports = ("http", 80) ∷ ("https", 443) ∷ []

abbrev pub is_allowed_scheme : String → Bool
is_allowed_scheme scheme = str_eq scheme "http" || str_eq scheme "https"

-- `text.split("%", 1)[0]`
unfoldable pub before_percent : String → String
before_percent String.[] = ""
before_percent (String.◌∷◌ c s) =
    let rest = before_percent s in if code c == b'%' then "" else String.◌∷◌ c rest

-- `":" in text`
unfoldable pub has_colon : String → Bool
has_colon String.[] = false
has_colon (String.◌∷◌ c s) = let rest = has_colon s in if code c == b':' then true else rest

-- `netloc.rsplit("@", 1)[-1]`: `text` is what follows the last "@" so far.
unfoldable pub after_at : String → String → String
after_at String.[] text = text
after_at (String.◌∷◌ c s) text =
    let found = after_at s s in let rest = after_at s text in if code c == b'@' then found else rest

abbrev pub is_empty : String → Bool
is_empty t = str_eq t ""

-- `urlunsplit`, with a network location.
abbrev pub rooted : String → String
rooted String.[] = ""
rooted (String.◌∷◌ c s) = if code c == b'/' then String.◌∷◌ c s else append "/" (String.◌∷◌ c s)

abbrev pub suffix : String → String → String
suffix mark t = if is_empty t then "" else append mark t

unfoldable pub urlunsplit : String → String → String → String → String → String
urlunsplit scheme netloc path query fragment = append scheme (
    append "://"
      (append netloc (append (rooted path) (append (suffix "?" query) (suffix "#" fragment)))))

-- `f"[{pinned_ip}]" if ":" in pinned_ip else pinned_ip`
abbrev pub bracketed : String → String
bracketed ip = if has_colon ip then append "[" (append ip "]") else ip

abbrev pub with_port : String → Option ℕ → String
with_port authority none = authority
with_port authority (some port) = append authority (append ":" (decimal port))

-- `port or _DEFAULT_PORTS[scheme]`
abbrev pub port_or_default : String → Option ℕ → ℕ
port_or_default scheme none = get_or default_ports scheme 0
port_or_default scheme (some port) = if port == 0 then get_or default_ports scheme 0 else port

unfoldable pub pinned : SplitResult → String → String → PinnedTarget
pinned parts host pinned_ip = record {
  url =
      urlunsplit parts.scheme (with_port (bracketed pinned_ip) parts.port) parts.path parts.query
        parts.fragment;
  host_header = after_at parts.netloc parts.netloc;
  sni_hostname = host;
}

-- `addresses[0]`
unfoldable pub pin_first : SplitResult → String → Checked (List String) → Checked PinnedTarget
pin_first parts host (allowed (address ∷ addresses)) = allowed (pinned parts host address)
pin_first parts host (allowed []) = raised
pin_first parts host webhook_egress_error = webhook_egress_error
pin_first parts host raised = raised

module _ (r : Resolver) where
  -- The loop of the check, which raises at the first address that is not public.
  unfoldable pub check_addresses : List String → List String → Checked (List String)
  check_addresses all [] = allowed all
  check_addresses all (address ∷ rest) =
      let later = check_addresses all rest in
      elim (r.ip_address address) [
        | none ↦ raised
        | some ip ↦ if is_public ip then later else webhook_egress_error
      ]

  unfoldable pub check_infos : Option (List String) → Checked (List String)
  check_infos none = webhook_egress_error
  check_infos (some []) = webhook_egress_error
  check_infos (some (info ∷ infos)) =
      let addresses = map before_percent (info ∷ infos) in check_addresses addresses addresses

  unfoldable pub resolve_public_ips : String → ℕ → Checked (List String)
  resolve_public_ips host port = check_infos (r.getaddrinfo host port)

  unfoldable pub resolve_host : SplitResult → Option String → Checked PinnedTarget
  resolve_host parts none = webhook_egress_error
  resolve_host parts (some host) =
      if is_empty host || not parts.has_valid_port
      then webhook_egress_error
      else pin_first parts host (resolve_public_ips host (port_or_default parts.scheme parts.port))

  unfoldable pub resolve_parts : Option SplitResult → Checked PinnedTarget
  resolve_parts none = raised
  resolve_parts (some parts) =
      if is_allowed_scheme parts.scheme
      then resolve_host parts parts.hostname
      else webhook_egress_error

  unfoldable pub resolve_pinned_target : String → Checked PinnedTarget
  resolve_pinned_target url = resolve_parts (r.urlsplit url)

  abbrev pub without_target : Checked PinnedTarget → Checked (Unit {0})
  without_target (allowed target) = allowed tt
  without_target webhook_egress_error = webhook_egress_error
  without_target raised = raised

  unfoldable pub assert_public_url : String → Checked (Unit {0})
  assert_public_url url = without_target (resolve_pinned_target url)
