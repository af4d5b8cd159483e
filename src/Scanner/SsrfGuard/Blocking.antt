-- ===== src/Scanner/SsrfGuard/Blocking.antt =====
-- Which addresses are blocked: src/utils/ssrfGuard.js, isBlockedIp and embeddedIpv4.
use qa_lab.Base.{
  ℕ, zero, suc, List, [], ◌∷◌, ◌++◌, Bool, true, false, ◌&&◌, ◌||◌, Option, none, some, Text, codes,
  if◌then◌else◌, ltb, ◌==◌, ◌+◌, ◌/◌, ◌%◌,
}

-- An address range: its base and the length of its prefix.
pub record Cidr : Type 0 where
  pub base : Text
  pub prefix : ℕ

abbrev pub cidr : Text → ℕ → Cidr
cidr base prefix = record { base = base; prefix = prefix }

-- BLOCKED_IPV4_CIDRS
abbrev pub blocked_ipv4_cidrs : List Cidr
blocked_ipv4_cidrs =
    cidr (codes "0.0.0.0") 8
    ∷ cidr (codes "10.0.0.0") 8
    ∷ cidr (codes "100.64.0.0") 10
    ∷ cidr (codes "127.0.0.0") 8
    ∷ cidr (codes "169.254.0.0") 16
    ∷ cidr (codes "172.16.0.0") 12
    ∷ cidr (codes "192.0.0.0") 24
    ∷ cidr (codes "192.0.2.0") 24
    ∷ cidr (codes "192.168.0.0") 16
    ∷ cidr (codes "198.18.0.0") 15
    ∷ cidr (codes "198.51.100.0") 24
    ∷ cidr (codes "203.0.113.0") 24
    ∷ cidr (codes "224.0.0.0") 4
    ∷ cidr (codes "240.0.0.0") 4
    ∷ []

-- BLOCKED_IPV6_CIDRS
abbrev pub blocked_ipv6_cidrs : List Cidr
blocked_ipv6_cidrs =
    cidr (codes "::1") 128
    ∷ cidr (codes "::") 128
    ∷ cidr (codes "fc00::") 7
    ∷ cidr (codes "fe80::") 10
    ∷ cidr (codes "ff00::") 8
    ∷ cidr (codes "2001:db8::") 32
    ∷ cidr (codes "64:ff9b::") 96
    ∷ []

-- What the code uses of `ipaddr.js`: `parse`, which throws on what is no address; `kind`; `match`
-- with the parsed base of a range; `toIPv4Address().toString()` of a mapped address; `parts`.
pub record IpLibrary (Ip : Type 0) : Type 0 where
  pub parse : Text → Option Ip
  pub is_ipv4 : Ip → Bool
  pub matches : Ip → Text → ℕ → Bool
  pub mapped_ipv4 : Ip → Option Text
  pub part : Ip → ℕ → ℕ

-- The decimal digits of a byte.
abbrev pub show_byte : ℕ → Text
show_byte n =
    if ltb n 10
    then (48 + n) ∷ []
    else if ltb n 100
    then (48 + n / 10) ∷ (48 + n % 10) ∷ []
    else (48 + n / 100) ∷ (48 + n / 10 % 10) ∷ (48 + n % 10) ∷ []

-- Two 16-bit parts as a dotted address.
unfoldable pub dotted : ℕ → ℕ → Text
dotted hi lo =
    show_byte (hi / 256 % 256)
    ++ codes "."
    ++ show_byte (hi % 256)
    ++ codes "."
    ++ show_byte (lo / 256 % 256)
    ++ codes "."
    ++ show_byte (lo % 256)

module _ {Ip : Type 0} (ips : IpLibrary Ip) where
  abbrev pub in_range : Ip → List Cidr → Bool
  in_range ip [] = false
  in_range ip (c ∷ cs) = ips.matches ip c.base c.prefix || in_range ip cs

  -- 64:ff9b::/96 holds an IPv4 address in its last two parts.
  abbrev pub is_nat64 : Ip → Bool
  is_nat64 ip =
      (ips.part ip 0 == 100)
      && (ips.part ip 1 == 65435)
      && (ips.part ip 2 == 0)
      && (ips.part ip 3 == 0)
      && (ips.part ip 4 == 0)
      && (ips.part ip 5 == 0)

  abbrev pub nat64_ipv4 : Ip → Option Text
  nat64_ipv4 ip = if is_nat64 ip then some (dotted (ips.part ip 6) (ips.part ip 7)) else none

  -- `embeddedIpv4`
  abbrev pub or_nat64 : Ip → Option Text → Option Text
  or_nat64 ip none = nat64_ipv4 ip
  or_nat64 ip (some text) = some text

  unfoldable pub embedded_ipv4 : Ip → Option Text
  unfolding dotted
  embedded_ipv4 ip = or_nat64 ip (ips.mapped_ipv4 ip)

  -- `isBlockedIp` on a parsed address, where `again` is its call on an address inside.
  abbrev pub inner_blocked : (Text → Bool) → Option Text → Bool
  inner_blocked again none = false
  inner_blocked again (some text) = again text

  -- 2002::/16 holds an IPv4 address in its second and third part.
  abbrev pub six_to_four : Ip → Option Text
  six_to_four ip =
      if ips.part ip 0 == 8194 then some (dotted (ips.part ip 1) (ips.part ip 2)) else none

  unfoldable pub is_blocked_parsed : (Text → Bool) → Ip → Bool
  unfolding embedded_ipv4
  is_blocked_parsed again ip =
      if ips.is_ipv4 ip
      then in_range ip blocked_ipv4_cidrs
      else inner_blocked again (embedded_ipv4 ip)
        || in_range ip blocked_ipv6_cidrs
        || inner_blocked again (six_to_four ip)

  abbrev pub is_blocked_found : (Text → Bool) → Option Ip → Bool
  is_blocked_found again none = true
  is_blocked_found again (some ip) = is_blocked_parsed again ip

  -- The call on an address inside an address is the only recursion: on fuel.
  unfoldable pub is_blocked_within : ℕ → Text → Bool
  unfolding is_blocked_parsed
  is_blocked_within zero text = true
  is_blocked_within (suc fuel) text = is_blocked_found (is_blocked_within fuel) (ips.parse text)

  unfoldable pub is_blocked_ip : Text → Bool
  unfolding is_blocked_within
  is_blocked_ip = is_blocked_within 2
