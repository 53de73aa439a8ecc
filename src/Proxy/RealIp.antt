-- ===== src/Proxy/RealIp.antt =====
-- pkg/proxy/realip.go: the address of the client behind trusted proxies.
use s_ingress.Common.Net.{Addr, AddrPort, prefix_contains}
use s_ingress.Common.Texts.{Text, codes, split, text_eq, trim_space}
use s_ingress.Common.{Bool, List, Option, [], any, if◌then◌else◌, none, not, some, ◌∷◌}
use s_ingress.Proxy.Context.{Outside, Request, RequestContext}
use s_ingress.Proxy.Headers.{header_get}
use s_ingress.Proxy.Routing.{Returns, RoutingConfig, panic, value}

module _ (outside : Outside) where
  open outside use {parse_addr, parse_addr_port}

  unfoldable pub get_remote_ip : Request → Returns AddrPort
  get_remote_ip r = elim (parse_addr_port r.remote_addr) [ none ↦ panic | some a ↦ value a ]

  abbrev pub first_part : List Text → Text
  first_part [] = []
  first_part (part ∷ parts) = part

  -- The address that the header names first, if it is one.
  unfoldable pub forwarded_ip : Text → Option Addr
  forwarded_ip content = parse_addr (trim_space (first_part (split content b',')))

  unfoldable pub is_trusted : RoutingConfig → Addr → Bool
  is_trusted rc ip = any (λ p. prefix_contains p ip) rc.trusted_proxies

  unfoldable pub fill_real_ip : RequestContext → RequestContext
  unfolding is_trusted forwarded_ip
  fill_real_ip c =
      let peer = record c { real_ip = c.remote_ip.addr } in
      let content = header_get c.r.header (codes "X-Forwarded-For") in
      if text_eq content []
      then peer
      else if not (is_trusted c.routing_config c.remote_ip.addr)
      then peer
      else elim (forwarded_ip content) [ none ↦ peer | some ip ↦ record c { real_ip = ip } ]
