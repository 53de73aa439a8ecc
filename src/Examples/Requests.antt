-- ===== src/Examples/Requests.antt =====
-- The theorems about requests at a request over a plain connection from a trusted proxy.
use s_ingress.Common.Net.{v4}
use s_ingress.Common.Texts.{codes}
use s_ingress.Common.{[], here, refl, ◌+◌, ◌∷◌, ◌≡◌, ◌≤◌, ◌⊎◌}
use s_ingress.Examples.Samples.{app, context, no_network, peer, request, route_to, strict_services}
use s_ingress.Modules.Contacts.{contacts}
use s_ingress.Modules.Gate.{proxy_route-refused}
use s_ingress.Modules.Instances.{run_middleware}
use s_ingress.Modules.Once.{proxy_route-once}
use s_ingress.Proxy.Client.{IsNamedByProxy, fill_real_ip_cases}
use s_ingress.Proxy.Closures.{ip_auth, websocket}
use s_ingress.Proxy.Forwarding.{proxied_request-header}
use s_ingress.Proxy.Headers.{canonical_key, header_values}
use s_ingress.Proxy.RealIp.{fill_real_ip}
use s_ingress.Proxy.Routing.{RouteConfig, path_type_prefix}
use s_ingress.Proxy.Serve.{proxied_request, proxy_route, with_route}

proxied_request-header_example :
    (header_values (proxied_request no_network context app).header (codes "X-Request-Id")
      ≡ codes "id" ∷ [])
    × (header_values (proxied_request no_network context app).header (codes "X-Forwarded-For")
        ≡ codes "10.0.0.9:4711" ∷ [])
    × (header_values (proxied_request no_network context app).header (codes "X-Forwarded-Host")
        ≡ codes "a.example" ∷ [])
    × (header_values (proxied_request no_network context app).header (codes "X-Forwarded-Proto")
        ≡ codes "https" ∷ [])
    × (header_values (proxied_request no_network context app).header (codes "Accept")
        ≡ header_values request.header (codes "Accept"))
unfolding canonical_key
proxied_request-header_example =
    proxied_request-header no_network context app (codes "Accept")
      ((λ e. cc), (λ e. cc), (λ e. cc), (λ e. cc))

fill_real_ip_cases_example :
    ((fill_real_ip no_network context).real_ip ≡ peer.addr)
    ⊎ IsNamedByProxy no_network context (fill_real_ip no_network context).real_ip
fill_real_ip_cases_example = fill_real_ip_cases no_network context

-- No client of the address 203.0.113.5 may reach the route.
abbrev closed : RouteConfig
closed =
    route_to path_type_prefix (codes "/app")
      (ip_auth (record { addr = v4 0xC0000200; bits = 24 } ∷ []) ∷ websocket ∷ [])

proxy_route-refused_example :
    contacts
      (proxy_route no_network (run_middleware strict_services no_network) closed context).1.calls
    ≡ 0
unfolding with_route s_ingress.Common.Net.prefix_contains
proxy_route-refused_example =
    proxy_route-refused strict_services no_network closed _ context ((λ e. cc), ((λ _. tt), tt))
      here refl

proxy_route-once_example :
    contacts
      (proxy_route no_network (run_middleware strict_services no_network) closed context).1.calls
    ≤ 0 + 1
proxy_route-once_example = proxy_route-once strict_services no_network closed context
