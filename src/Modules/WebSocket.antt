-- ===== src/Modules/WebSocket.antt =====
-- modules/websocket/websocket.go. What the two connections say to each other once both are open is
-- not modelled: the handler returns nil when one of them ends.
use s_ingress.Common.Texts.{Text, codes, text_eq, to_lower}
use s_ingress.Common.{Bool, Option, [], if◌then◌else◌, none, some, ◌||◌, ◌∷◌}
use s_ingress.Modules.Services.{Dial, Services, bad_handshake, connected, dial_failed}
use s_ingress.Proxy.Context.{Handler, Request, asks, done, failed, panicked, web_socket_to}
use s_ingress.Proxy.Headers.{Header}
use s_ingress.Proxy.Routing.{RouteConfig}

abbrev is_handshake_key : Text → Bool
is_handshake_key lower_key =
    text_eq lower_key (codes "upgrade")
    || text_eq lower_key (codes "connection")
    || text_eq lower_key (codes "sec-websocket-key")
    || text_eq lower_key (codes "sec-websocket-version")
    || text_eq lower_key (codes "sec-websocket-extensions")

-- `constructWsHeaders`
unfoldable pub construct_ws_headers : Header → Header
construct_ws_headers [] = []
construct_ws_headers ((key, values) ∷ more) =
    let rest = construct_ws_headers more in
    if is_handshake_key (to_lower key) then rest else (key, values) ∷ rest

module _ (services : Services) where
  open services use {is_web_socket_upgrade, dial, upgrade}

  -- After the handshake with the upstream.
  unfoldable pub after_dial : Dial → Handler
  after_dial bad_handshake c = (failed (codes "websocket: bad handshake"), c)
  after_dial dial_failed c = (failed (codes "websocket upgrader dial failed"), c)
  after_dial connected c =
      let (e, w') = upgrade c.r c.w in
      elim e [
        | some _ ↦ (failed (codes "websocket upgrader failed"), record c { w = w' })
        | none ↦ (done, record c { w = w' })
      ]

  unfoldable pub dial_route : Option RouteConfig → Request → Handler
  unfolding after_dial construct_ws_headers
  dial_route none upstream c = (panicked, c)
  dial_route (some route) upstream c =
      let ws_header = construct_ws_headers c.r.header in
      after_dial (dial route.endpoint upstream.url ws_header)
        (asks c (web_socket_to route.endpoint upstream.url ws_header))

  -- `handleWebSocket`, which changes the scheme in the upstream request.
  unfoldable pub handle_web_socket : Request → Handler
  unfolding dial_route
  handle_web_socket upstream c =
      let ws_request = record upstream { url = record upstream.url { scheme = codes "ws" } } in
      dial_route c.matched_route ws_request (record c { upstream_request = some ws_request })

  unfoldable pub run_websocket : Handler → Handler
  unfolding handle_web_socket
  run_websocket next c =
      if is_web_socket_upgrade c.r
      then elim c.upstream_request [
        | none ↦ (panicked, c)
        | some upstream ↦ handle_web_socket upstream c
      ]
      else next c
