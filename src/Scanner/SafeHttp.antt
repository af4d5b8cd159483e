-- ===== src/Scanner/SafeHttp.antt =====
-- Requests that follow redirects by themselves: src/utils/safeHttp.js. A request is modelled with
-- the list of the connections that it opens. The runtime, DNS included, may answer differently at
-- every hop, so that there is one for each; the HTTP client is a parameter.
pub mod Pinning
use qa_lab.Base.{
  ℕ, zero, suc, List, [], ◌∷◌, Bool, true, false, not, ◌&&◌, ◌||◌, Option, none, some, Text, codes,
  if◌then◌else◌, ltb, leb, ◌==◌,
}
use qa_lab.Base.Texts.{text_eq}
use qa_lab.Scanner.Runs.{
  Run, returned, threw, Fault, refused, abort_error, invalid_url, request_failed,
  too_many_redirects, downgrade, redirect_scheme,
}
use qa_lab.Scanner.Urls.{Url, UrlParser}
use qa_lab.Scanner.SsrfGuard.{
  Net, GuardOptions, SafeUrl, assert_safe_scan_url, http, https, is_empty,
}

pub record Response : Type 0 where
  pub status : ℕ
  pub location : Text
  pub body : Text

-- A connection: the URL asked for, and the address that is dialled.
pub record Connection : Type 0 where
  pub href : Text
  pub protocol : Text
  pub pinned : Text

-- What a request has opened, and how it ends.
pub record Attempt : Type 0 where
  pub opened : List Connection
  pub result : Run Response

abbrev pub stop : Fault → Attempt
stop e = record { opened = []; result = threw e }

abbrev pub opening : Connection → Attempt → Attempt
opening c a = record a { opened = c ∷ a.opened }

pub record HttpOptions : Type 0 where
  pub max_redirects : ℕ
  pub allow_http : Bool
  pub allowed_ports : Option (List ℕ)
  pub allow_https_downgrade : Bool

abbrev pub guard_options : HttpOptions → GuardOptions
guard_options o = record {
  allow_http = o.allow_http;
  resolve_dns = true;
  allow_private_network = false;
  allowed_ports = o.allowed_ports;
}

-- `a.includes(":")`
abbrev pub has_colon : Text → Bool
has_colon [] = false
has_colon (c ∷ s) = (c == 58) || has_colon s

-- `addresses.find((a) => !a.includes(":"))`
unfoldable pub find_ipv4 : List Text → Option Text
find_ipv4 [] = none
find_ipv4 (a ∷ rest) = let later = find_ipv4 rest in if has_colon a then later else some a

-- An empty text is falsy, as a missing one is.
abbrev pub or_first : Option Text → Text → Text
or_first none first = first
or_first (some []) first = first
or_first (some (c ∷ a)) first = c ∷ a

unfoldable pub pinned_of : List Text → Option Text
unfolding find_ipv4
pinned_of [] = none
pinned_of (a ∷ rest) = some (or_first (find_ipv4 (a ∷ rest)) a)

unfoldable pub is_redirect : Response → Bool
is_redirect r = leb 300 r.status && ltb r.status 400 && not (is_empty r.location)

module _ {Ip : Type 0} (nets : ℕ → Net Ip) (aborted : ℕ → Bool)
    (request : ℕ → Connection → Option Response) (o : HttpOptions) where
  -- The next URL of a redirect, or the reason to stop.
  unfoldable pub redirect : SafeUrl → Option Url → (Text → Attempt) → Attempt
  unfolding text_eq
  redirect v none again = stop invalid_url
  redirect v (some next) again =
      if text_eq v.protocol https && text_eq next.protocol http && not o.allow_https_downgrade
      then stop (refused downgrade)
      else if not (text_eq next.protocol http) && not (text_eq next.protocol https)
      then stop (refused redirect_scheme)
      else again next.href

  -- What follows an answer; `behind` is the rest of the loop, where hops are left.
  unfoldable pub answered : ℕ → Text → SafeUrl → Option (Text → Attempt) → Response → Attempt
  unfolding redirect is_redirect
  answered hop url v none r =
      if is_redirect r
      then stop (refused too_many_redirects)
      else record { opened = []; result = returned r }
  answered hop url v (some behind) r =
      if is_redirect r
      then redirect v ((nets hop).urls.resolve r.location url) behind
      else record { opened = []; result = returned r }

  unfoldable pub received : ℕ → Text → SafeUrl → Option (Text → Attempt) → Option Response → Attempt
  unfolding answered
  received hop url v behind none = stop request_failed
  received hop url v behind (some r) = answered hop url v behind r

  abbrev pub connection : SafeUrl → Text → Connection
  connection v address = record { href = v.href; protocol = v.protocol; pinned = address }

  -- `requestPinned`
  unfoldable pub dial : ℕ → Text → SafeUrl → Option (Text → Attempt) → Option Text → Attempt
  unfolding received
  dial hop url v behind none = stop request_failed
  dial hop url v behind (some address) =
      opening (connection v address)
        (received hop url v behind (request hop (connection v address)))

  unfoldable pub validated : ℕ → Text → Option (Text → Attempt) → Run SafeUrl → Attempt
  unfolding dial pinned_of
  validated hop url behind (threw e) = stop e
  validated hop url behind (returned v) =
      if aborted hop
      then stop abort_error
      else dial hop url v behind (pinned_of v.resolved_addresses)

  -- The body of the loop.
  unfoldable pub one_hop : ℕ → Text → Option (Text → Attempt) → Attempt
  unfolding validated assert_safe_scan_url
  one_hop hop url behind =
      validated hop url behind (assert_safe_scan_url (nets hop) (guard_options o) url)

  -- `for (let hop = 0; hop <= maxRedirects; hop++)`, by the hops that are left.
  unfoldable pub safe_from : ℕ → ℕ → Text → Attempt
  unfolding one_hop
  safe_from zero hop url = one_hop hop url none
  safe_from (suc left) hop url = one_hop hop url (some (safe_from left (suc hop)))

  -- `safeRequest`
  unfoldable pub safe_request : Text → Attempt
  unfolding safe_from
  safe_request url = safe_from o.max_redirects 0 url
