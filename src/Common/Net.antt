-- ===== src/Common/Net.antt =====
-- The package `net/netip` as the program uses it: addresses, prefixes, addresses with a port.
use Prim.Native.Nat.{ℕ, ◌-◌, ◌/◌, ◌^◌}
use mathlib.Core.Bool.{Bool, false, ◌&&◌}
use mathlib.Core.List.{[]}
use s_ingress.Common.Texts.{Text, text_eq}
use s_ingress.Common.Tests.{nat_eq}

-- `invalid` is the zero `netip.Addr`; `v6` holds the zone, empty if there is none.
pub data Addr : Type 0 where
  invalid : Addr
  v4 : ℕ → Addr
  v6 : ℕ → Text → Addr

pub record AddrPort : Type 0 where
  pub addr : Addr
  pub port : ℕ

pub record Prefix : Type 0 where
  pub addr : Addr
  pub bits : ℕ

-- Whether two addresses of `width` bits agree in the first `bits` of them.
abbrev pub same_bits : ℕ → ℕ → ℕ → ℕ → Bool
same_bits width bits a b = nat_eq (a / 2 ^ (width - bits)) (b / 2 ^ (width - bits))

contains_addr : Addr → ℕ → Addr → Bool
contains_addr (v4 net) bits (v4 ip) = same_bits 32 bits net ip
contains_addr (v6 net _) bits (v6 ip zone) = text_eq zone [] && same_bits 128 bits net ip
contains_addr _ _ _ = false

-- `prefix.Contains(ip)`
unfoldable pub prefix_contains : Prefix → Addr → Bool
unfolding contains_addr
prefix_contains p ip = contains_addr p.addr p.bits ip
