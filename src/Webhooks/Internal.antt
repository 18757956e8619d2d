-- ===== src/Webhooks/Internal.antt =====
-- The internal addresses that the guard of the egress refuses, as ranges of numbers.
use python_backend_manager.Prelude.Base.{
  ℕ, Bool, ◌&&◌, ◌||◌, leb, Option, none, some, zero, suc, List, [], ◌∷◌,
}
use python_backend_manager.Webhooks.Addresses.{Network}

-- `first` to `last`, each the first number of a block of addresses.
abbrev pub within : ℕ → ℕ → ℕ → Bool
within first last ip = leb first ip && leb ip last

-- This machine, the private networks of RFC 1918, the link with the address of the metadata of a
-- cloud, and the addresses that carriers share, from their first address to their last.
abbrev pub is_internal : ℕ → Bool
is_internal ip =
    within 0 0x00ffffff ip
    || within 0x0a000000 0x0affffff ip
    || within 0x64400000 0x647fffff ip
    || within 0x7f000000 0x7fffffff ip
    || within 0xa9fe0000 0xa9feffff ip
    || within 0xac100000 0xac1fffff ip
    || within 0xc0a80000 0xc0a8ffff ip

nth : ℕ → List Network → Option Network
nth k [] = none
nth zero (n ∷ ns) = some n
nth (suc k) (n ∷ ns) = nth k ns
