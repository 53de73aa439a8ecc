-- ===== src/Modules/Gate.antt =====
-- A route whose middlewares turn a request away does not ask its upstream.
use s_ingress.Common.{All-In, Bool-cases, In, List, [], here, inl, inr, there, ◌∙◌, ◌∷◌, ◌≡◌}
use s_ingress.Modules.Chain.{is_websocket, run_middleware-passes}
use s_ingress.Modules.Contacts.{contacts, quiet_handle_errorf}
use s_ingress.Modules.Instances.{run_middleware}
use s_ingress.Modules.Order.{IsGuarded}
use s_ingress.Modules.Refusal.Quiet.{run_middleware-refused}
use s_ingress.Modules.Refusal.{Refuses, Refuses-Same, header-Refuses_nothing}
use s_ingress.Modules.Rules.{if_rule}
use s_ingress.Modules.Services.{Services}
use s_ingress.Proxy.Closures.{MiddlewareFunc}
use s_ingress.Proxy.Context.{Handler, Outside, RequestContext}
use s_ingress.Proxy.Routing.{RouteConfig}
use s_ingress.Proxy.Serve.{call_middleware, get_upstream_url, proxy_route, with_route}

module _ (services : Services) (outside : Outside) where
  abbrev run_all : List MiddlewareFunc → Handler → Handler
  run_all = call_middleware outside (run_middleware services outside)

  abbrev QuietSince : RequestContext → RequestContext → Type 0
  QuietSince c c' = contacts c'.calls ≡ contacts c.calls

  -- A list that is guarded ends a request that one of its members refuses.
  pub call_middleware-refused :
      (ms : List MiddlewareFunc) (m : MiddlewareFunc) (fallback : Handler) (c : RequestContext)
      → IsGuarded ms
      → In m ms
      → Refuses services m c
      → QuietSince c (run_all ms fallback c).1
  unfolding call_middleware
  call_middleware-refused [] m fallback c g i f = elim i [ ]
  call_middleware-refused (m ∷ ms) _ fallback c g here f =
      run_middleware-refused services outside m (run_all ms fallback) c f
  call_middleware-refused (m ∷ ms) x fallback c g (there i) f = elim (Bool-cases (is_websocket m)) [
    | inl socket ↦ absurd (header-Refuses_nothing services x c (All-In _ i (g.0 socket)) f)
    | inr other ↦
        run_middleware-passes services outside (QuietSince c) m (run_all ms fallback) c other
          (λ c' h.
            call_middleware-refused ms x fallback c' g.1 i (Refuses-Same services x h f) ∙ h.quiet)
          (λ c' h. h.quiet)
  ]

  -- Where a middleware of a guarded route turns the request away, the upstream is not asked, for
  -- the proxied request or for a websocket, whatever the other middlewares do.
  pub proxy_route-refused :
      (route : RouteConfig) (m : MiddlewareFunc) (c : RequestContext)
      → IsGuarded route.middlewares
      → In m route.middlewares
      → Refuses services m (with_route outside c route)
      → QuietSince c (proxy_route outside (run_middleware services outside) route c).1
  unfolding proxy_route
  proxy_route-refused route m c g i f =
      if_rule (QuietSince c) (outside.request_is_valid c.r.method (get_upstream_url c)) _ _
        (call_middleware-refused route.middlewares m _ (with_route outside c route) g i f)
        (quiet_handle_errorf outside 500 c)
