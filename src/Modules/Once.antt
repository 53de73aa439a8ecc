-- ===== src/Modules/Once.antt =====
-- A request reaches the upstream at most once.
use s_ingress.Common.{List, Option, [], arith, none, refl, some, ◌+◌, ◌∷◌, ◌≡◌, ◌≤◌}
use s_ingress.Modules.Chain.{run_middleware-passes}
use s_ingress.Modules.Contacts.{contacts, contacts-append, quiet_handle_errorf}
use s_ingress.Modules.Instances.{run_middleware}
use s_ingress.Modules.Rules.{if_rule, option_rule}
use s_ingress.Modules.Services.{Dial, Services, bad_handshake, connected, dial_failed}
use s_ingress.Modules.WebSocket.{after_dial, dial_route, handle_web_socket, run_websocket}
use s_ingress.Proxy.Closures.{MiddlewareFunc, websocket}
use s_ingress.Proxy.Context.{
  Call, Handler, Outside, Request, RequestContext, Response, RoundTrip, asks, max_bytes_error,
  response, round_trip_to, transport_error,
}
use s_ingress.Proxy.Routing.{RouteConfig}
use s_ingress.Proxy.Serve.{
  after_round_trip, call_middleware, get_upstream_url, proxy, proxy_route, send_upstream,
  with_route, write_response,
}

module _ (services : Services) (outside : Outside) where
  abbrev AtMostOnceSince : RequestContext → RequestContext → Type 0
  AtMostOnceSince c c' = contacts c'.calls ≤ contacts c.calls + 1

  asks-once :
      (c : RequestContext) (call : Call) → contacts (asks c call).calls ≤ contacts c.calls + 1
  unfolding asks
  asks-once c call = ground (arith, contacts-append c.calls (call ∷ []))

  write_response-calls :
      (resp : Response) (c : RequestContext) → (write_response outside resp c).1.calls ≡ c.calls
  unfolding write_response
  write_response-calls resp c = refl

  after_round_trip-once :
      (o : RoundTrip) (c c' : RequestContext)
      → AtMostOnceSince c c'
      → AtMostOnceSince c (after_round_trip outside o c').1
  unfolding after_round_trip
  after_round_trip-once max_bytes_error c c' h = h
  after_round_trip-once transport_error c c' h = omega (arith, quiet_handle_errorf outside 502 c')
  after_round_trip-once (response resp) c c' h = rw (write_response-calls resp c') h

  proxy-once : (c : RequestContext) → AtMostOnceSince c (proxy outside c).1
  unfolding proxy send_upstream
  proxy-once c = option_rule (AtMostOnceSince c) c.upstream_request _ _ (omega arith) λ upstream.
      option_rule (AtMostOnceSince c) c.matched_route _ _ (omega arith) λ route.
        option_rule (AtMostOnceSince c) (outside.new_client_conn route.endpoint) _ _
          (after_round_trip-once _ c _ (asks-once c (round_trip_to route.endpoint upstream)))
          λ e. omega (arith, quiet_handle_errorf outside 502 c)

  after_dial-once :
      (d : Dial) (c c' : RequestContext)
      → AtMostOnceSince c c'
      → AtMostOnceSince c (after_dial services d c').1
  unfolding after_dial
  after_dial-once bad_handshake c c' h = h
  after_dial-once dial_failed c c' h = h
  after_dial-once connected c c' h =
      option_rule (AtMostOnceSince c) (services.upgrade c'.r c'.w).0 _ _ h λ e. h

  dial_route-once :
      (o : Option RouteConfig) (upstream : Request) (c : RequestContext)
      → AtMostOnceSince c (dial_route services o upstream c).1
  unfolding dial_route
  dial_route-once none upstream c = omega arith
  dial_route-once (some route) upstream c = after_dial-once _ c _ (asks-once c _)

  run_websocket-once :
      (next : Handler) (c : RequestContext)
      → AtMostOnceSince c (next c).1
      → AtMostOnceSince c (run_websocket services next c).1
  unfolding run_websocket handle_web_socket
  run_websocket-once next c h =
      if_rule (AtMostOnceSince c) (services.is_web_socket_upgrade c.r) _ _
        (option_rule (AtMostOnceSince c) c.upstream_request _ _ (omega arith)
          λ upstream. dial_route-once c.matched_route _ _)
        h

  call_middleware-once :
      (ms : List MiddlewareFunc) (c : RequestContext)
      → AtMostOnceSince c
          (call_middleware outside (run_middleware services outside) ms (proxy outside) c).1
  unfolding call_middleware run_middleware
  call_middleware-once [] c = proxy-once c
  call_middleware-once (websocket ∷ ms) c = run_websocket-once _ c (call_middleware-once ms c)
  call_middleware-once (m ∷ ms) c =
      run_middleware-passes services outside (AtMostOnceSince c) m _ c refl
        (λ c' h. omega (arith, call_middleware-once ms c', h.quiet))
        (λ c' h. omega (arith, h.quiet))

  -- Whatever the middlewares of a route, one request asks the upstream at most once, for the
  -- proxied request or for a websocket.
  pub proxy_route-once :
      (route : RouteConfig) (c : RequestContext)
      → contacts (proxy_route outside (run_middleware services outside) route c).1.calls
        ≤ contacts c.calls + 1
  unfolding proxy_route
  proxy_route-once route c =
      if_rule (AtMostOnceSince c) (outside.request_is_valid c.r.method (get_upstream_url c)) _ _
        (call_middleware-once route.middlewares (with_route outside c route))
        (omega (arith, quiet_handle_errorf outside 500 c))
