-- ===== src/Proxy/Client.antt =====
-- Whose address counts as the client's.
use s_ingress.Common.Net.{Addr, Prefix, prefix_contains}
use s_ingress.Common.Texts.{Text, codes, split, split_cons, text_eq, trim_space}
use s_ingress.Common.{
  Bool-cases, In, List, Option-cases, [], any, any-In, inl, inr, refl, some, true, ◌∷◌, ◌≡◌, ◌⊎◌,
}
use s_ingress.Proxy.Context.{Outside, RequestContext}
use s_ingress.Proxy.Headers.{header_get}
use s_ingress.Proxy.RealIp.{fill_real_ip, forwarded_ip, is_trusted}

module _ (outside : Outside) (c : RequestContext) where
  -- A proxy that is trusted names the client in the first element of the header.
  pub record IsNamedByProxy (ip : Addr) : Type 0 where
    pub trusted : Prefix
    pub listed : In trusted c.routing_config.trusted_proxies
    pub covers : prefix_contains trusted c.remote_ip.addr ≡ true
    pub element : Text
    pub others : List Text
    pub elements : split (header_get c.r.header (codes "X-Forwarded-For")) b',' ≡ element ∷ others
    pub parsed : outside.parse_addr (trim_space element) ≡ some ip

  abbrev content : Text
  content = header_get c.r.header (codes "X-Forwarded-For")

  named :
      (ip : Addr)
      → any (λ p. prefix_contains p c.remote_ip.addr) c.routing_config.trusted_proxies ≡ true
      → forwarded_ip outside content ≡ some ip
      → IsNamedByProxy ip
  unfolding forwarded_ip
  named ip t n =
      let (p, listed, covers) = any-In _ c.routing_config.trusted_proxies t in
      let (element, others, e) = split_cons content b',' in
      record {
        trusted = p;
        listed = listed;
        covers = covers;
        element = element;
        others = others;
        elements = e;
        parsed = rw (forwarded_ip, e) at n;
      }

  -- The address of the client is that of the peer, or a trusted peer names it in the header.
  pub fill_real_ip_cases :
      ((fill_real_ip outside c).real_ip ≡ c.remote_ip.addr)
      ⊎ IsNamedByProxy (fill_real_ip outside c).real_ip
  unfolding fill_real_ip is_trusted
  fill_real_ip_cases = elim (Bool-cases (text_eq content [])) [
    | inl e ↦ inl (rw e refl)
    | inr e ↦
        elim (Bool-cases
          (any (λ p. prefix_contains p c.remote_ip.addr) c.routing_config.trusted_proxies)) [
            | inr u ↦ inl (rw (e, u) refl)
            | inl t ↦ elim (Option-cases (forwarded_ip outside content)) [
              | inl n ↦ inl (rw (e, t, n) refl)
              | inr (ip, n) ↦ inr (rw (e, t, n) (named ip t n))
            ]
          ]
  ]
