-- ===== src/Webhooks/Addresses.antt =====
-- Which addresses are public: `_is_public` of webhooks/egress.py, and the properties of the module
-- `ipaddress` of Python 3.13 that it reads. An address is its number of 32 or 128 bits.
use python_backend_manager.Prelude.Base.{
  ℕ, ◌+◌, ◌-◌, ◌*◌, ◌/◌, ◌^◌, ◌%◌, Bool, true, false, not, ◌&&◌, ◌||◌, Option, none, some, List, [],
  ◌∷◌, ◌==◌, any, if◌then◌else◌,
}

pub data Ip : Type 0 where
  v4 v6 : ℕ → Ip

-- A network: the first `bits` bits of its address.
pub record Network : Type 0 where
  pub address : ℕ
  pub host_bits : ℕ

-- `a.b.c.d/prefix`
abbrev pub net4 : ℕ → ℕ → ℕ → ℕ → ℕ → Network
net4 a b c d prefix = record {
  address = ((a * 256 + b) * 256 + c) * 256 + d;
  host_bits = 32 - prefix;
}

-- The network of the first two groups of 16 bits and a prefix of at most 32 bits.
abbrev pub net6 : ℕ → ℕ → ℕ → Network
net6 a b prefix = record { address = (a * 2 ^ 16 + b) * 2 ^ 96; host_bits = 128 - prefix }

abbrev pub in_network : ℕ → Network → Bool
in_network ip n = ip / 2 ^ n.host_bits == n.address / 2 ^ n.host_bits

abbrev pub in_any : List Network → ℕ → Bool
in_any networks ip = any (in_network ip) networks

abbrev pub private_v4 : List Network
private_v4 =
    net4 0 0 0 0 8
    ∷ net4 10 0 0 0 8
    ∷ net4 127 0 0 0 8
    ∷ net4 169 254 0 0 16
    ∷ net4 172 16 0 0 12
    ∷ net4 192 0 0 0 24
    ∷ net4 192 0 0 170 31
    ∷ net4 192 0 2 0 24
    ∷ net4 192 168 0 0 16
    ∷ net4 198 18 0 0 15
    ∷ net4 198 51 100 0 24
    ∷ net4 203 0 113 0 24
    ∷ net4 240 0 0 0 4
    ∷ net4 255 255 255 255 32
    ∷ []

abbrev pub private_v4_exceptions : List Network
private_v4_exceptions = net4 192 0 0 9 32 ∷ net4 192 0 0 10 32 ∷ []

abbrev pub cgnat_v4 : Network
cgnat_v4 = net4 100 64 0 0 10

-- `is_private or is_loopback or is_link_local or is_reserved or is_multicast or is_unspecified`
unfoldable pub is_special_v4 : ℕ → Bool
is_special_v4 ip =
    (in_any private_v4 ip && not (in_any private_v4_exceptions ip))
    || in_network ip (net4 127 0 0 0 8)
    || in_network ip (net4 169 254 0 0 16)
    || in_network ip (net4 240 0 0 0 4)
    || in_network ip (net4 224 0 0 0 4)
    || ip == 0

unfoldable pub is_public_v4 : ℕ → Bool
is_public_v4 ip = not (is_special_v4 ip) && not (in_network ip cgnat_v4)

abbrev pub private_v6 : List Network
private_v6 =
    record { address = 1; host_bits = 0 }
    ∷ record { address = 0; host_bits = 0 }
    ∷ record { address = 0xffff * 2 ^ 32; host_bits = 32 }
    ∷ record { address = 0x64 * 2 ^ 112 + 0xff9b * 2 ^ 96 + 2 ^ 80; host_bits = 80 }
    ∷ record { address = 0x100 * 2 ^ 112; host_bits = 64 }
    ∷ net6 0x2001 0 23
    ∷ net6 0x2001 0xdb8 32
    ∷ net6 0x2002 0 16
    ∷ net6 0x3fff 0 20
    ∷ net6 0xfc00 0 7
    ∷ net6 0xfe80 0 10
    ∷ []

abbrev pub private_v6_exceptions : List Network
private_v6_exceptions =
    record { address = (0x2001 * 2 ^ 16 + 1) * 2 ^ 96 + 1; host_bits = 0 }
    ∷ record { address = (0x2001 * 2 ^ 16 + 1) * 2 ^ 96 + 2; host_bits = 0 }
    ∷ net6 0x2001 3 32
    ∷ record { address = (0x2001 * 2 ^ 16 + 4) * 2 ^ 96 + 0x112 * 2 ^ 80; host_bits = 80 }
    ∷ net6 0x2001 0x20 28
    ∷ net6 0x2001 0x30 28
    ∷ []

abbrev pub reserved_v6 : List Network
reserved_v6 =
    net6 0 0 8
    ∷ net6 0x100 0 8
    ∷ net6 0x200 0 7
    ∷ net6 0x400 0 6
    ∷ net6 0x800 0 5
    ∷ net6 0x1000 0 4
    ∷ net6 0x4000 0 3
    ∷ net6 0x6000 0 3
    ∷ net6 0x8000 0 3
    ∷ net6 0xa000 0 3
    ∷ net6 0xc000 0 3
    ∷ net6 0xe000 0 4
    ∷ net6 0xf000 0 5
    ∷ net6 0xf800 0 6
    ∷ net6 0xfe00 0 9
    ∷ []

-- `ip.ipv4_mapped`: the last 32 bits of an address of `::ffff:0:0/96`.
unfoldable pub ipv4_mapped : ℕ → Option ℕ
ipv4_mapped ip = if ip / 2 ^ 32 == 0xffff then some (ip % 2 ^ 32) else none

-- The six properties of an address of 128 bits; for a mapped one they are those of the address of
-- 32 bits inside.
unfoldable pub is_special_v6 : ℕ → Option ℕ → Bool
is_special_v6 ip (some mapped) = is_special_v4 mapped
is_special_v6 ip none =
    (in_any private_v6 ip && not (in_any private_v6_exceptions ip))
    || ip == 1
    || in_network ip (net6 0xfe80 0 10)
    || in_any reserved_v6 ip
    || in_network ip (net6 0xff00 0 8)
    || ip == 0

abbrev pub is_public_mapped : Option ℕ → Bool
is_public_mapped (some mapped) = is_public_v4 mapped
is_public_mapped none = true

unfoldable pub is_public : Ip → Bool
is_public (v4 ip) = is_public_v4 ip
is_public (v6 ip) =
    if is_special_v6 ip (ipv4_mapped ip) then false else is_public_mapped (ipv4_mapped ip)
