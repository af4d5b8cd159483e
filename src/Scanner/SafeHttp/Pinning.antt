-- ===== src/Scanner/SafeHttp/Pinning.antt =====
-- Every connection goes to an address that was checked for it, and there is a bound on them.
use qa_lab.Base.{
  ℕ, zero, suc, List, [], ◌∷◌, Bool, true, false, not, ◌&&◌, Option, none, some, Text, ◌≡◌, ◌⊎◌,
  refl, arith, Bool-cases, inl, inr, length, ◌≤◌, ◌+◌,
}
use qa_lab.Base.Texts.{text_eq}
use qa_lab.Scanner.Runs.{
  Run, returned, threw, Returns, invalid_url, refused, downgrade, redirect_scheme,
  too_many_redirects, request_failed, abort_error,
}
use qa_lab.Scanner.Urls.{Url}
use qa_lab.Scanner.SsrfGuard.{
  Net, GuardOptions, SafeUrl, is_blocked_ip, assert_safe_scan_url, private_allowed, http, https,
}
use qa_lab.Scanner.SsrfGuard.Safety.{Unblocked, IsSafe, assert_safe_scan_url-IsSafe}
use qa_lab.Scanner.SafeHttp.{
  Response, Connection, Attempt, HttpOptions, guard_options, find_ipv4, pinned_of, or_first,
  has_colon, redirect, answered, received, dial, validated, one_hop, safe_from, safe_request,
  connection, is_redirect,
}

module _ {Ip : Type 0} (net : Net Ip) (g : GuardOptions) where
  find_ipv4-Unblocked :
      (addrs : List Text) (a : Text)
      → Unblocked net g addrs
      → find_ipv4 addrs ≡ some a
      → is_blocked_ip net.ips a ≡ false
  unfolding find_ipv4
  find_ipv4-Unblocked [] a h e = absurd (cc)
  find_ipv4-Unblocked (x ∷ addrs) a h e = elim (Bool-cases (has_colon x)) [
    | inl c ↦ find_ipv4-Unblocked addrs a h.1 (rw c at e)
    | inr c ↦ cc (h.0, rw c at e)
  ]

  or_first-Unblocked :
      (o : Option Text) (first : Text)
      → is_blocked_ip net.ips first ≡ false
      → ((a : Text) → o ≡ some a → is_blocked_ip net.ips a ≡ false)
      → is_blocked_ip net.ips (or_first o first) ≡ false
  or_first-Unblocked none first h k = h
  or_first-Unblocked (some []) first h k = h
  or_first-Unblocked (some (c ∷ a)) first h k = k (c ∷ a) refl

  pub pinned_of-Unblocked :
      (addrs : List Text) (a : Text)
      → Unblocked net g addrs
      → pinned_of addrs ≡ some a
      → is_blocked_ip net.ips a ≡ false
  unfolding pinned_of
  pinned_of-Unblocked [] a h e = absurd (cc)
  pinned_of-Unblocked (x ∷ addrs) a h e = cc (
    or_first-Unblocked (find_ipv4 (x ∷ addrs)) x h.0 (λ b k. find_ipv4-Unblocked (x ∷ addrs) b h k),
    e,
  )

module _ {Ip : Type 0} (nets : ℕ → Net Ip) (aborted : ℕ → Bool)
    (request : ℕ → Connection → Option Response) (o : HttpOptions)
    (public : (hop : ℕ) → private_allowed (nets hop) (guard_options o) ≡ false) where
  -- A connection of the web, to an address that the check of this hop found not blocked.
  pub record Good (hop : ℕ) (c : Connection) : Type 0 where
    pub scheme : (c.protocol ≡ https) ⊎ ((c.protocol ≡ http) × (o.allow_http ≡ true))
    pub unblocked : is_blocked_ip (nets hop).ips c.pinned ≡ false

  unfoldable pub AllGood : ℕ → List Connection → Type 0
  AllGood hop [] = Unit
  AllGood hop (c ∷ cs) = Good hop c × AllGood (suc hop) cs

  Within : ℕ → ℕ → Attempt → Type 0
  Within left hop a = AllGood hop a.opened × (length a.opened ≤ left)

  stop-Within :
      (left hop : ℕ) (r : Run Response) → Within left hop (record { opened = []; result = r })
  unfolding Within AllGood
  stop-Within left hop r = (tt, omega arith)

  -- The rest of the loop, where hops are left.
  BehindWithin : ℕ → ℕ → Option (Text → Attempt) → Type 0
  BehindWithin left hop none = Unit
  BehindWithin left hop (some behind) = (url : Text) → Within left hop (behind url)

  redirect-Within :
      (left hop : ℕ) (v : SafeUrl) (next : Option Url) (again : Text → Attempt)
      → ((url : Text) → Within left hop (again url))
      → Within left hop (redirect nets aborted request o v next again)
  unfolding redirect
  redirect-Within left hop v none again h = stop-Within left hop (threw invalid_url)
  redirect-Within left hop v (some next) again h =
      elim (Bool-cases
        (text_eq v.protocol https && text_eq next.protocol http && not o.allow_https_downgrade)) [
          | inl d ↦ rw d (stop-Within left hop (threw (refused downgrade)))
          | inr d ↦
              elim (Bool-cases
                (not (text_eq next.protocol http) && not (text_eq next.protocol https))) [
                  | inl s ↦ rw (d, s) (stop-Within left hop (threw (refused redirect_scheme)))
                  | inr s ↦ rw (d, s) (h next.href)
                ]
        ]

  answered-Within :
      (left hop : ℕ) (url : Text) (v : SafeUrl) (behind : Option (Text → Attempt)) (r : Response)
      → BehindWithin left (suc hop) behind
      → Within left (suc hop) (answered nets aborted request o hop url v behind r)
  unfolding answered BehindWithin
  answered-Within left hop url v none r h = elim (Bool-cases (is_redirect r)) [
    | inl e ↦ rw e (stop-Within left (suc hop) (threw (refused too_many_redirects)))
    | inr e ↦ rw e (stop-Within left (suc hop) (returned r))
  ]
  answered-Within left hop url v (some behind) r h = elim (Bool-cases (is_redirect r)) [
    | inl e ↦
        rw e (redirect-Within left (suc hop) v ((nets hop).urls.resolve r.location url) behind h)
    | inr e ↦ rw e (stop-Within left (suc hop) (returned r))
  ]

  received-Within :
      (left hop : ℕ) (url : Text) (v : SafeUrl) (behind : Option (Text → Attempt))
      (r : Option Response)
      → BehindWithin left (suc hop) behind
      → Within left (suc hop) (received nets aborted request o hop url v behind r)
  unfolding received
  received-Within left hop url v behind none h = stop-Within left (suc hop) (threw request_failed)
  received-Within left hop url v behind (some r) h = answered-Within left hop url v behind r h

  dial-Within :
      (left hop : ℕ) (url : Text) (v : SafeUrl) (behind : Option (Text → Attempt))
      (address : Option Text)
      → IsSafe (nets hop) (guard_options o) v
      → ((a : Text) → address ≡ some a → is_blocked_ip (nets hop).ips a ≡ false)
      → BehindWithin left (suc hop) behind
      → Within (suc left) hop (dial nets aborted request o hop url v behind address)
  unfolding dial Within AllGood
  dial-Within left hop url v behind none s k h = (tt, omega arith)
  dial-Within left hop url v behind (some a) s k h =
      let c = connection nets aborted request o v a in
      let rest = received-Within left hop url v behind (request hop c) h in
      ((record { scheme = s.scheme; unblocked = k a refl }, rest.0), omega (arith, rest.1))

  validated-Within :
      (left hop : ℕ) (url : Text) (behind : Option (Text → Attempt)) (r : Run SafeUrl)
      → BehindWithin left (suc hop) behind
      → Returns (IsSafe (nets hop) (guard_options o)) r
      → Within (suc left) hop (validated nets aborted request o hop url behind r)
  unfolding validated
  validated-Within left hop url behind (threw e) h s = stop-Within (suc left) hop (threw e)
  validated-Within left hop url behind (returned v) h s = elim (Bool-cases (aborted hop)) [
    | inl e ↦ rw e (stop-Within (suc left) hop (threw abort_error))
    | inr e ↦ rw e (
        dial-Within left hop url v behind (pinned_of v.resolved_addresses) s
          (λ a k.
            pinned_of-Unblocked (nets hop) (guard_options o) v.resolved_addresses a
              s.reachable.unblocked k)
          h)
  ]

  one_hop-Within :
      (left hop : ℕ) (url : Text) (behind : Option (Text → Attempt))
      → BehindWithin left (suc hop) behind
      → Within (suc left) hop (one_hop nets aborted request o hop url behind)
  unfolding one_hop
  one_hop-Within left hop url behind h =
      validated-Within left hop url behind (assert_safe_scan_url (nets hop) (guard_options o) url) h
        (assert_safe_scan_url-IsSafe (nets hop) (guard_options o) (public hop) refl url)

  safe_from-Within :
      (left hop : ℕ) (url : Text)
      → Within (suc left) hop (safe_from nets aborted request o left hop url)
  unfolding safe_from BehindWithin
  safe_from-Within zero hop url = one_hop-Within zero hop url none tt
  safe_from-Within (suc left) hop url =
      one_hop-Within (suc left) hop url (some (safe_from nets aborted request o left (suc hop)))
        (λ u. safe_from-Within left (suc hop) u)

  -- Where the bypass for private networks is off at every hop, a request with redirects opens at
  -- most one connection more than the bound on redirects, whatever the servers answer and whatever
  -- DNS says from hop to hop, and each goes over https, or over http where that is allowed, to an
  -- address that the check of its own hop found not blocked.
  pub safe_request-pinned :
      (url : Text)
      → AllGood 0 ((safe_request nets aborted request o url).opened)
        × (length ((safe_request nets aborted request o url).opened) ≤ o.max_redirects + 1)
  unfolding safe_request Within
  safe_request-pinned url =
      let h = safe_from-Within o.max_redirects 0 url in (h.0, omega (arith, h.1))
