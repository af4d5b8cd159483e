-- ===== src/Scanner/SsrfGuard.antt =====
-- Which URLs may be requested: src/utils/ssrfGuard.js. The runtime's URL parser, its DNS client and
-- its test for literal addresses, and the library `ipaddr.js`, are parameters.
pub mod Blocking
pub mod Addresses
pub mod Safety
unfoldable pub use Blocking.*
use qa_lab.Base.{
  ℕ, zero, suc, List, [], ◌∷◌, ◌++◌, Bool, true, false, not, ◌&&◌, ◌||◌, Option, none, some, Text,
  codes, if◌then◌else◌, ltb, leb, ◌==◌, ◌+◌, ◌/◌, ◌%◌,
}
use qa_lab.Base.Texts.{text_eq}
use qa_lab.Scanner.Findings.{mem_text}
use qa_lab.Scanner.Runs.{
  Run, returned, threw, ◌>>=◌, refuse_if, refused, empty_url, not_a_url, bad_scheme, plain_http,
  credentials, no_hostname, blocked_hostname, blocked_port, blocked_address, unresolved, Fault,
  Refusal,
}
use qa_lab.Scanner.Urls.{Url, UrlParser}

-- BLOCKED_HOSTNAMES
abbrev pub blocked_hostnames : List Text
blocked_hostnames =
    codes "localhost"
    ∷ codes "localhost.localdomain"
    ∷ codes "metadata.google.internal"
    ∷ codes "metadata.google"
    ∷ codes "instance-data"
    ∷ codes "metadata"
    ∷ []

-- DEFAULT_ALLOWED_PORTS
abbrev pub default_allowed_ports : List ℕ
default_allowed_ports = 80 ∷ 443 ∷ []

-- `stripIpv6Brackets`
abbrev pub ends_in_bracket : Text → Bool
ends_in_bracket [] = false
ends_in_bracket (c ∷ []) = c == 93
ends_in_bracket (c ∷ d ∷ s) = ends_in_bracket (d ∷ s)

abbrev pub drop_last : Text → Text
drop_last [] = []
drop_last (c ∷ []) = []
drop_last (c ∷ d ∷ s) = c ∷ drop_last (d ∷ s)

unfoldable pub strip_ipv6_brackets : Text → Text
strip_ipv6_brackets [] = []
strip_ipv6_brackets (c ∷ s) = if (c == 91) && ends_in_bracket (c ∷ s) then drop_last s else c ∷ s

abbrev pub is_empty : Text → Bool
is_empty [] = true
is_empty (c ∷ s) = false

abbrev pub mem_port : ℕ → List ℕ → Bool
mem_port p [] = false
mem_port p (q ∷ qs) = (p == q) || mem_port p qs

-- The runtime: `is_blank` is `!text.trim()`, `number` is `Number`, `is_ip` is `net.isIP(…) !== 0`,
-- `lookup` is `dns.lookup(…, { all: true })`, none where it rejects.
pub record Net (Ip : Type 0) : Type 0 where
  pub ips : IpLibrary Ip
  pub urls : UrlParser
  pub lookup : Text → Option (List Text)
  pub is_ip : Text → Bool
  pub lower_case : Text → Text
  pub number : Text → ℕ
  pub is_blank : Text → Bool
  pub is_production : Bool
  pub private_network_flag : Bool

pub record GuardOptions : Type 0 where
  pub allow_http : Bool
  pub resolve_dns : Bool
  pub allow_private_network : Bool
  pub allowed_ports : Option (List ℕ)

pub record SafeUrl : Type 0 where
  pub href : Text
  pub hostname : Text
  pub protocol : Text
  pub port : ℕ
  pub resolved_addresses : List Text

abbrev pub http : Text
http = codes "http:"

abbrev pub https : Text
https = codes "https:"

module _ {Ip : Type 0} (net : Net Ip) (o : GuardOptions) where
  unfoldable pub private_allowed : Bool
  private_allowed = not net.is_production && (o.allow_private_network || net.private_network_flag)

  abbrev pub ports_of : Option (List ℕ) → List ℕ
  ports_of none = default_allowed_ports
  ports_of (some ports) = ports

  unfoldable pub port_of : Url → ℕ
  unfolding text_eq
  port_of url =
      if not (is_empty url.port)
      then net.number url.port
      else if text_eq url.protocol https
      then 443
      else 80

  unfoldable pub port_passes : ℕ → Bool
  unfolding private_allowed
  port_passes port =
      mem_port port (ports_of o.allowed_ports)
      || (private_allowed && leb 1024 port && leb port 65535)

  abbrev pub is_known : Option Ip → Bool
  is_known none = false
  is_known (some ip) = true

  abbrev pub is_literal : Text → Bool
  is_literal host = net.is_ip host || is_known (net.ips.parse host)

  -- The loop over the DNS records.
  unfoldable pub check_addresses : List Text → Run (List Text)
  unfolding is_blocked_ip private_allowed
  check_addresses [] = returned []
  check_addresses (a ∷ addrs) =
      refuse_if (is_blocked_ip net.ips a && not private_allowed) (refused blocked_address)
        (check_addresses addrs >>= λ rest. returned (a ∷ rest))

  unfoldable pub check_records : Option (List Text) → Run (List Text)
  unfolding check_addresses
  check_records none = threw (refused unresolved)
  check_records (some []) = threw (refused unresolved)
  check_records (some (a ∷ addrs)) = check_addresses (a ∷ addrs)

  unfoldable pub addresses_of : Text → Run (List Text)
  unfolding check_records is_blocked_ip private_allowed
  addresses_of host =
      if is_literal host
      then refuse_if (is_blocked_ip net.ips host && not private_allowed) (refused blocked_address)
          (returned (host ∷ []))
      else if o.resolve_dns
      then check_records (net.lookup host)
      else returned []

  abbrev pub safe_url : Url → List Text → SafeUrl
  safe_url url addrs = record {
    href = url.href;
    hostname = strip_ipv6_brackets url.hostname;
    protocol = url.protocol;
    port = port_of url;
    resolved_addresses = addrs;
  }

  -- The checks on the host, its port and its addresses.
  unfoldable pub check_host : Url → Text → Run SafeUrl
  unfolding mem_text private_allowed port_passes port_of addresses_of
  check_host url host = refuse_if (is_empty host) (refused no_hostname) (
      refuse_if (mem_text (net.lower_case host) blocked_hostnames && not private_allowed)
        (refused blocked_hostname)
        (refuse_if (not (port_passes (port_of url))) (refused blocked_port)
          (addresses_of host >>= λ addrs. returned (safe_url url addrs))))

  unfoldable pub check_url : Url → Run SafeUrl
  unfolding text_eq check_host strip_ipv6_brackets
  check_url url =
      refuse_if (not (text_eq url.protocol https) && not (text_eq url.protocol http))
        (refused bad_scheme)
        (refuse_if (text_eq url.protocol http && not o.allow_http) (refused plain_http) (
          refuse_if (not (is_empty url.username) || not (is_empty url.password))
            (refused credentials) (check_host url (strip_ipv6_brackets url.hostname))))

  abbrev pub check_parsed : Option Url → Run SafeUrl
  check_parsed none = threw (refused not_a_url)
  check_parsed (some url) = check_url url

  -- `assertSafeScanUrl`
  unfoldable pub assert_safe_scan_url : Text → Run SafeUrl
  unfolding check_url
  assert_safe_scan_url text =
      refuse_if (net.is_blank text) (refused empty_url) (check_parsed (net.urls.parse text))
