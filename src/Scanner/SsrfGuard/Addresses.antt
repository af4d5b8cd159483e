-- ===== src/Scanner/SsrfGuard/Addresses.antt =====
-- Addresses inside addresses: src/utils/ssrfGuard.js, isBlockedIp and embeddedIpv4.
use qa_lab.Base.{
  ℕ, suc, Bool, true, false, ◌||◌, Option, none, some, Text, ◌≡◌, refl, sym, ap, subst, ◌∙◌, arith,
  Bool-cases, inl, inr, ◌==◌, ◌⊎◌,
}
use qa_lab.Base.Tests.{Option-cases, or_default}
use qa_lab.Scanner.SsrfGuard.{
  IpLibrary, dotted, embedded_ipv4, six_to_four, is_nat64, in_range, is_blocked_parsed,
  is_blocked_within, is_blocked_ip, inner_blocked, blocked_ipv4_cidrs, blocked_ipv6_cidrs,
}

-- The text parses as an IPv4 address.
abbrev pub IsIpv4 : {Ip : Type 0} → IpLibrary Ip → Text → Type 0
IsIpv4 {Ip} ips t = (v : Ip) × (ips.parse t ≡ some v) × (ips.is_ipv4 v ≡ true)

same_text :
    {Ip : Type 0} (ips : IpLibrary Ip) (u t : Text) → some u ≡ some t → IsIpv4 ips u → IsIpv4 ips t
same_text ips u t e h = subst (IsIpv4 ips) (ap (λ o. or_default o t) e) h

any_of : (a r c : Bool) → (a ≡ true) ⊎ (c ≡ true) → (a || r || c) ≡ true
any_of a r c h = ground (arith, h)

module _ {Ip : Type 0} (ips : IpLibrary Ip)
    (mapped : (ip : Ip) (t : Text) → ips.mapped_ipv4 ip ≡ some t → IsIpv4 ips t)
    (bytes : (hi lo : ℕ) → IsIpv4 ips (dotted hi lo)) where
  -- On an IPv4 address, only the ranges are asked.
  within_ipv4 :
      (n : ℕ) (t : Text) (v : Ip)
      → ips.parse t ≡ some v
      → ips.is_ipv4 v ≡ true
      → is_blocked_within ips (suc n) t ≡ in_range ips v blocked_ipv4_cidrs
  unfolding is_blocked_within is_blocked_parsed
  within_ipv4 n t v e k = rw (e, k) refl

  -- The text of an address inside another one is that of an IPv4 address.
  IsInner : Ip → Text → Type 0
  IsInner ip t = (embedded_ipv4 ips ip ≡ some t) ⊎ (six_to_four ips ip ≡ some t)

  inner-IsIpv4 : (ip : Ip) (t : Text) → IsInner ip t → IsIpv4 ips t
  unfolding embedded_ipv4 IsInner
  inner-IsIpv4 ip t (inl h) = elim (Option-cases (ips.mapped_ipv4 ip)) [
    | inl n ↦ elim (Bool-cases (is_nat64 ips ip)) [
      | inl b ↦
          same_text ips (dotted (ips.part ip 6) (ips.part ip 7)) t (rw (n, b) at h)
            (bytes (ips.part ip 6) (ips.part ip 7))
      | inr b ↦ absurd (cc (rw (n, b) at h))
    ]
    | inr (u, e) ↦ mapped ip t (e ∙ (rw e at h))
  ]
  inner-IsIpv4 ip t (inr h) = elim (Bool-cases (ips.part ip 0 == 8194)) [
    | inl b ↦
        same_text ips (dotted (ips.part ip 1) (ips.part ip 2)) t (rw b at h)
          (bytes (ips.part ip 1) (ips.part ip 2))
    | inr b ↦ absurd (cc (rw b at h))
  ]

  -- One level of fuel is enough for an inner address.
  inner_within :
      (n : ℕ) (ip : Ip) (t : Text)
      → IsInner ip t
      → is_blocked_within ips (suc n) t ≡ is_blocked_within ips 1 t
  inner_within n ip t h =
      let (v, e, k) = inner-IsIpv4 ip t h in within_ipv4 n t v e k ∙ sym (within_ipv4 0 t v e k)

  same_inner :
      (n : ℕ) (ip : Ip) (o : Option Text)
      → ((t : Text) → (o ≡ some t) → IsInner ip t)
      → inner_blocked ips (is_blocked_within ips (suc n)) o
        ≡ inner_blocked ips (is_blocked_within ips 1) o
  same_inner n ip none h = refl
  same_inner n ip (some t) h = inner_within n ip t (h t refl)

  -- If the text of an embedded address parses as an IPv4 address, as the library documents, then
  -- the test of an address with any more than two levels of fuel gives what it gives with two.
  is_blocked_within-enough :
      (n : ℕ) (text : Text) → is_blocked_within ips (suc (suc n)) text ≡ is_blocked_ip ips text
  unfolding is_blocked_ip is_blocked_parsed IsInner
  is_blocked_within-enough n text = elim (Option-cases (ips.parse text)) [
    | inl e ↦ unfold is_blocked_within in rw e refl
    | inr (ip, e) ↦
        unfold is_blocked_within in
        rw
          (
            e,
            same_inner n ip (embedded_ipv4 ips ip) (λ t k. inl k),
            same_inner n ip (six_to_four ips ip) (λ t k. inr k),
          )
          refl
  ]

  -- If the text of an embedded address parses as an IPv4 address, as the library documents, then
  -- an address that is not IPv4 is blocked whenever the IPv4 address in it is, be it mapped, in
  -- the range of NAT64, or of 6to4.
  pub is_blocked_ip-inner :
      (text t : Text) (ip : Ip)
      → ips.parse text ≡ some ip
      → ips.is_ipv4 ip ≡ false
      → (embedded_ipv4 ips ip ≡ some t) ⊎ (six_to_four ips ip ≡ some t)
      → is_blocked_ip ips t ≡ true
      → is_blocked_ip ips text ≡ true
  unfolding is_blocked_ip is_blocked_parsed IsInner
  is_blocked_ip-inner text t ip e k h b =
      let i = sym (inner_within 1 ip t h) ∙ b in
      let again = is_blocked_within ips 1 in
      unfold is_blocked_within in
      rw (e, k)
        (any_of (inner_blocked ips again (embedded_ipv4 ips ip))
          (in_range ips ip blocked_ipv6_cidrs) (inner_blocked ips again (six_to_four ips ip))
          (elim h [ inl x ↦ inl (rw x i) | inr y ↦ inr (ap (inner_blocked ips again) y ∙ i) ]))
