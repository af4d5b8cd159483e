-- ===== src/Scanner/SsrfGuard/Safety.antt =====
-- What the guard promises of the URLs that it lets pass.
use qa_lab.Base.{
  List, [], ◌∷◌, true, false, not, ◌&&◌, ◌||◌, Option, none, some, Text, ◌≡◌, ◌≢◌, ◌⊎◌, inl, inr,
  refl, sym, subst, arith, Bool-cases, if◌then◌else◌,
}
use qa_lab.Base.Tests.{All}
use qa_lab.Base.Texts.{text_eq, text_eq_iff}
use qa_lab.Scanner.Findings.{mem_text}
use qa_lab.Scanner.Runs.{
  Run, returned, threw, ◌>>=◌, refuse_if, refuse_if-Returns, Returns, Returns-bind, refused,
  empty_url, bad_scheme, plain_http, credentials, no_hostname, blocked_hostname, blocked_port,
  blocked_address,
}
use qa_lab.Scanner.Urls.{Url}
use qa_lab.Scanner.SsrfGuard.{
  Net, GuardOptions, SafeUrl, is_blocked_ip, check_addresses, check_records, addresses_of,
  check_host, check_url, check_parsed, assert_safe_scan_url, private_allowed, is_literal, http,
  https, blocked_hostnames, port_passes, port_of, safe_url, is_empty, strip_ipv6_brackets,
}

module _ {Ip : Type 0} (net : Net Ip) (o : GuardOptions) where
  abbrev pub Unblocked : List Text → Type 0
  Unblocked = All (λ a. is_blocked_ip net.ips a ≡ false)

  -- Addresses were found, and none of them is blocked.
  pub record Reachable (addrs : List Text) : Type 0 where
    pub found : addrs ≢ []
    pub unblocked : Unblocked addrs

  -- A URL that may be requested.
  pub record IsSafe (v : SafeUrl) : Type 0 where
    pub scheme : (v.protocol ≡ https) ⊎ ((v.protocol ≡ http) × (o.allow_http ≡ true))
    pub host : is_empty v.hostname ≡ false
    pub named : mem_text (net.lower_case v.hostname) blocked_hostnames ≡ false
    pub port_open : port_passes net o v.port ≡ true
    pub reachable : Reachable v.resolved_addresses

  weaken :
      {A : Type 0} (P Q : A → Type 0) (r : Run A)
      → ((a : A) → P a → Q a)
      → Returns P r
      → Returns Q r
  weaken P Q (returned a) f h = f a h
  weaken P Q (threw e) f h = tt

  module _ (public : private_allowed net o ≡ false) where
    not_blocked :
        (a : Text)
        → (is_blocked_ip net.ips a && not (private_allowed net o)) ≡ false
        → is_blocked_ip net.ips a ≡ false
    not_blocked a h = ground (arith, public, h)

    -- The records themselves, none of them blocked.
    Checked : List Text → List Text → Type 0
    Checked addrs r = (r ≡ addrs) × Unblocked r

    check_addresses-Checked :
        (addrs : List Text) → Returns (Checked addrs) (check_addresses net o addrs)
    unfolding check_addresses Checked
    check_addresses-Checked [] = (refl, tt)
    check_addresses-Checked (a ∷ addrs) =
        refuse_if-Returns (Checked (a ∷ addrs))
          (is_blocked_ip net.ips a && not (private_allowed net o)) (refused blocked_address)
          (check_addresses net o addrs >>= λ rest. returned (a ∷ rest))
          (λ e.
            Returns-bind (Checked addrs) (Checked (a ∷ addrs)) (check_addresses net o addrs)
              (λ rest. returned (a ∷ rest)) (check_addresses-Checked addrs)
              (λ rest h. (cc h.0, (not_blocked a e, h.1))))

    check_records-Reachable :
        (records : Option (List Text)) → Returns Reachable (check_records net o records)
    unfolding check_records Checked
    check_records-Reachable none = tt
    check_records-Reachable (some []) = tt
    check_records-Reachable (some (a ∷ addrs)) =
        weaken (Checked (a ∷ addrs)) Reachable (check_addresses net o (a ∷ addrs))
          (λ r h. record { found = λ e. cc (h.0, e); unblocked = h.1 })
          (check_addresses-Checked (a ∷ addrs))

    addresses_of-Reachable :
        (dns : o.resolve_dns ≡ true) (host : Text) → Returns Reachable (addresses_of net o host)
    unfolding addresses_of
    addresses_of-Reachable dns host = elim (Bool-cases (is_literal net o host)) [
      | inl l ↦ rw l (
          refuse_if-Returns Reachable (is_blocked_ip net.ips host && not (private_allowed net o))
            (refused blocked_address) (returned (host ∷ []))
            (λ e. record { found = λ k. cc k; unblocked = (not_blocked host e, tt) }))
      | inr l ↦ rw l (
          subst
            (λ b.
              Returns Reachable (if b then check_records net o (net.lookup host) else returned []))
            (sym dns) (check_records-Reachable (net.lookup host)))
    ]

    either :
        (url : Url)
        → (not (text_eq url.protocol https) && not (text_eq url.protocol http)) ≡ false
        → (text_eq url.protocol http && not o.allow_http) ≡ false
        → (url.protocol ≡ https) ⊎ ((url.protocol ≡ http) × (o.allow_http ≡ true))
    either url h k = elim (Bool-cases (text_eq url.protocol https)) [
      | inl e ↦ inl ((text_eq_iff url.protocol https).0 e)
      | inr e ↦
          let p : text_eq url.protocol http ≡ true = ground (arith, e, h) in
          inr ((text_eq_iff url.protocol http).0 p, ground (arith, p, k))
    ]

    check_host-IsSafe :
        (dns : o.resolve_dns ≡ true) (url : Url)
        → (url.protocol ≡ https) ⊎ ((url.protocol ≡ http) × (o.allow_http ≡ true))
        → Returns IsSafe (check_host net o url (strip_ipv6_brackets url.hostname))
    unfolding check_host
    check_host-IsSafe dns url scheme =
        let host = strip_ipv6_brackets url.hostname in
        let is_bad_name =
          mem_text (net.lower_case host) blocked_hostnames && not (private_allowed net o) in
        let is_bad_port = not (port_passes net o (port_of net o url)) in
        let last = addresses_of net o host >>= λ addrs. returned (safe_url net o url addrs) in
        let second = refuse_if is_bad_port (refused blocked_port) last in
        refuse_if-Returns IsSafe (is_empty host) (refused no_hostname)
          (refuse_if is_bad_name (refused blocked_hostname) second)
          (λ nh. refuse_if-Returns IsSafe is_bad_name (refused blocked_hostname) second (λ bh.
            refuse_if-Returns IsSafe is_bad_port (refused blocked_port) last (λ bp.
              Returns-bind Reachable IsSafe (addresses_of net o host)
                (λ addrs. returned (safe_url net o url addrs)) (addresses_of-Reachable dns host)
                (λ addrs r. record {
                  scheme = scheme;
                  host = nh;
                  named = ground (arith, bh, public);
                  port_open = ground (arith, bp);
                  reachable = r;
                }))))

    check_url-IsSafe :
        (dns : o.resolve_dns ≡ true) (url : Url) → Returns IsSafe (check_url net o url)
    unfolding check_url
    check_url-IsSafe dns url =
        let is_other = not (text_eq url.protocol https) && not (text_eq url.protocol http) in
        let is_plain = text_eq url.protocol http && not o.allow_http in
        let has_login = not (is_empty url.username) || not (is_empty url.password) in
        let last = check_host net o url (strip_ipv6_brackets url.hostname) in
        let second = refuse_if has_login (refused credentials) last in
        refuse_if-Returns IsSafe is_other (refused bad_scheme)
          (refuse_if is_plain (refused plain_http) second)
          (λ s. refuse_if-Returns IsSafe is_plain (refused plain_http) second (λ p.
            refuse_if-Returns IsSafe has_login (refused credentials) last
              (λ c. check_host-IsSafe dns url (either url s p))))

    check_parsed-IsSafe :
        (dns : o.resolve_dns ≡ true) (url : Option Url) → Returns IsSafe (check_parsed net o url)
    check_parsed-IsSafe dns none = tt
    check_parsed-IsSafe dns (some url) = check_url-IsSafe dns url

    -- Where the bypass for private networks is off and DNS is resolved, a URL that the guard lets
    -- pass has the scheme https, or http where that is allowed, a host that is not empty and not
    -- among the blocked names, a port that may be used, and at least one address, none of them
    -- blocked.
    pub assert_safe_scan_url-IsSafe :
        (dns : o.resolve_dns ≡ true) (text : Text)
        → Returns IsSafe (assert_safe_scan_url net o text)
    unfolding assert_safe_scan_url
    assert_safe_scan_url-IsSafe dns text =
        refuse_if-Returns IsSafe (net.is_blank text) (refused empty_url)
          (check_parsed net o (net.urls.parse text))
          (λ b. check_parsed-IsSafe dns (net.urls.parse text))
