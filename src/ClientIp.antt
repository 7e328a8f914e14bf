-- ===== src/ClientIp.antt =====
-- clientip/clientip.go: the real client address of a request that came through trusted proxies.
-- Addresses are numbers; how packages net and net/netip read and print them as text is a parameter.
pub mod Forwarded
pub mod Grouping
pub mod Vouching
use tokyo3_base.Base.{
  ℕ, ◌-◌, ◌/◌, ◌%◌, ◌^◌, ◌≡◌, Bool, true, false, not, ◌&&◌, ◌||◌, Option, none, some, List, [], ◌∷◌,
  Bytes, ◌==◌, if◌then◌else◌,
}
use mathlib.Core.List.{reverse}
use tokyo3_base.Std.Split.{split_on, join_with, trim_space}

-- A 32-bit IPv4 address; or an IPv6 address as two 64-bit halves, with its zone.
pub data Addr : Type 0 where
  v4 : ℕ → Addr
  v6 : ℕ → ℕ → Bytes → Addr

-- `Addr.Is4In6`: the upper half is zero, and the next 32 bits are 0x0000ffff.
unfoldable pub is_4_in_6 : Addr → Bool
is_4_in_6 (v4 a) = false
is_4_in_6 (v6 hi lo zone) = (hi == 0) && (lo / 2 ^ 32 == 0xffff)

unfoldable pub unmap : Addr → Addr
unfolding is_4_in_6
unmap (v4 a) = v4 a
unmap (v6 hi lo zone) = if is_4_in_6 (v6 hi lo zone) then v4 (lo % 2 ^ 32) else v6 hi lo zone

-- A CIDR block: its base address and the length of its prefix.
pub data Network : Type 0 where
  net4 : ℕ → ℕ → Network
  net6 : ℕ → ℕ → ℕ → Network

in_prefix : ℕ → ℕ → ℕ → ℕ → Bool
in_prefix width bits base a = a / 2 ^ (width - bits) == base / 2 ^ (width - bits)

in_network : Network → Addr → Bool
unfolding in_prefix
in_network (net4 base bits) (v4 a) = in_prefix 32 bits base a
in_network (net4 base bits) (v6 hi lo zone) = false
in_network (net6 bhi blo bits) (v4 a) = false
in_network (net6 bhi blo bits) (v6 hi lo zone) =
    in_prefix 64 bits bhi hi && in_prefix 128 bits blo lo

-- `IPNet.Contains` takes an IPv4-mapped address for the IPv4 address.
unfoldable pub contains : Network → Addr → Bool
unfolding in_network unmap
contains n a = in_network n (unmap a)

pub record AddrText : Type 0 where
  pub parse_ip : Bytes → Option Addr
  pub parse_addr : Bytes → Option Addr
  pub to_text : Addr → Bytes
  pub prefix_64_to_text : ℕ → Bytes
  pub split_host : Bytes → Option Bytes

-- What is documented of the texts: an address that was printed is read back.
pub record IsTextual (t : AddrText) : Type 0 where
  pub parse_addr-to_text : (a : Addr) → t.parse_addr (t.to_text a) ≡ some a

-- The parts of a request that are read: the peer, and the lines of X-Forwarded-For.
pub record Request : Type 0 where
  pub remote_addr : Bytes
  pub forwarded_for : List Bytes

pub record Extractor : Type 0 where
  pub trusted : List Network

is_none {ℓ} : {A : Type ℓ} → Option A → Bool
is_none none = true
is_none (some a) = false

is_nil {ℓ} : {A : Type ℓ} → List A → Bool
is_nil [] = true
is_nil (a ∷ as') = false

any_contains : List Network → Addr → Bool
unfolding contains
any_contains [] a = false
any_contains (n ∷ ns) a = contains n a || any_contains ns a

module _ (t : AddrText) where
  unfoldable pub host_only : Bytes → Bytes
  host_only remote_addr = elim (t.split_host remote_addr) [ none ↦ remote_addr | some host ↦ host ]

  unfoldable pub canonical : Bytes → Bytes
  unfolding unmap
  canonical host = elim (t.parse_addr host) [ none ↦ host | some a ↦ t.to_text (unmap a) ]

  unfoldable pub is_trusted : Extractor → Bytes → Bool
  unfolding any_contains
  is_trusted x ip = elim (t.parse_ip ip) [ none ↦ false | some a ↦ any_contains x.trusted a ]

  -- The hops from the last to the first.
  unfoldable pub walk : Extractor → Bytes → List Bytes → Bytes
  unfolding canonical is_trusted is_none
  walk x peer [] = peer
  walk x peer (part ∷ parts) =
      let ip = trim_space part in
      let rest = walk x peer parts in
      if is_none (t.parse_ip ip) then peer else if is_trusted x ip then rest else canonical ip

  unfoldable pub from_request : Extractor → Request → Bytes
  unfolding walk host_only canonical is_trusted is_nil
  from_request x r =
      let peer = canonical (host_only r.remote_addr) in
      let xff = join_with b',' r.forwarded_for in
      let walked = walk x peer (reverse (split_on b',' xff)) in
      if is_nil x.trusted || not (is_trusted x peer)
      then peer
      else if is_nil xff
      then peer
      else walked

  -- A nil Extractor has no trusted proxies.
  unfoldable pub has_trusted_proxies : Option Extractor → Bool
  unfolding is_nil
  has_trusted_proxies none = false
  has_trusted_proxies (some x) = not (is_nil x.trusted)

  unfoldable pub is_trusted_peer : Option Extractor → Request → Bool
  unfolding is_trusted canonical host_only is_nil
  is_trusted_peer none r = false
  is_trusted_peer (some x) r =
      not (is_nil x.trusted) && is_trusted x (canonical (host_only r.remote_addr))

  -- The /64 of an IPv6 address that is no IPv4 address in disguise.
  group : Bytes → Option Addr → Bytes
  unfolding is_4_in_6
  group ip none = ip
  group ip (some (v4 a)) = ip
  group ip (some (v6 hi lo zone)) = if is_4_in_6 (v6 hi lo zone) then ip else t.prefix_64_to_text hi

  unfoldable pub network : Bytes → Bytes
  unfolding group
  network ip = group ip (t.parse_addr ip)

  unfoldable pub network_key : Extractor → Request → Bytes
  unfolding network from_request
  network_key x r = network (from_request x r)
