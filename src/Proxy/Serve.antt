-- ===== src/Proxy/Serve.antt =====
-- pkg/proxy/serve.go and pkg/proxy/metrics.go: one request, from the listener to the upstream.
-- `run` says what each middleware does; modules/ supplies it.
use s_ingress.Common.Texts.{Text, codes, text_eq}
use s_ingress.Common.{List, Option, [], false, if◌then◌else◌, none, some, ◌∷◌}
use s_ingress.Proxy.Closures.{MiddlewareFunc}
use s_ingress.Proxy.Context.{
  Cookie, CopyEnd, Exit, Handler, Outside, Request, RequestContext, Response, ResponseWriter,
  RoundTrip, Url, asks, broken_pipe, connection_reset, copied, copy_failed, done, failed,
  max_bytes_error, panicked, response, round_trip_to, transport_error, with_status, write,
}
use s_ingress.Proxy.Errors.{bad_request, handle_errorf, not_found}
use s_ingress.Proxy.Headers.{Header, header_add, header_del, header_get, header_set}
use s_ingress.Proxy.Routing.{
  HostConfig, Returns, RouteConfig, lookup_host, lookup_route, panic, value,
}

-- `getUpstreamUrl`
unfoldable pub get_upstream_url : RequestContext → Url
get_upstream_url c = record c.r.url { host = c.r.host; scheme = codes "http" }

abbrev set_all : Header → Text → List Text → Header
set_all h k [] = h
set_all h k (v ∷ vs) = set_all (header_add h k v) k vs

-- The loop over the header of the response.
unfoldable pub copy_headers : Header → Header → Header
copy_headers h [] = h
copy_headers h ((k, vs) ∷ more) =
    copy_headers (if text_eq k (codes "Keep-Alive") then h else set_all (header_del h k) k vs) more

-- The loop over the header that the middlewares have set.
unfoldable pub override_headers : Header → Header → Header → Header
override_headers own h [] = h
override_headers own h ((k, vs) ∷ more) =
    override_headers own (header_set h k (header_get own k)) more

abbrev first_or_nil : {A : Type 0} → Option A → List A
first_or_nil none = []
first_or_nil (some a) = a ∷ []

module _ (outside : Outside) where
  open outside use {addr_port_string, request_is_valid, new_client_conn, round_trip, to_ascii}
  open outside use {cookie_string}

  -- The loop over the cookies.
  unfoldable pub add_cookies : Header → List Cookie → Header
  add_cookies h [] = h
  add_cookies h (cookie ∷ more) =
      let v = cookie_string cookie in
      add_cookies (if text_eq v [] then h else header_add h (codes "Set-Cookie") v) more

  unfoldable pub set_response_headers : RequestContext → Header → RequestContext
  unfolding copy_headers override_headers add_cookies
  set_response_headers c resp_header =
      let h = header_set c.w.header (codes "X-Request-Id") c.request_id in
      let h = header_set h (codes "Alt-Svc") (codes "h3=\":443\"; ma=2592000") in
      let h = copy_headers h resp_header in
      let h = override_headers c.response_header h c.response_header in
      record c { w = record c.w { header = add_cookies h c.response_cookies } }

  -- `io.Copy`, chunk by chunk, and how it ended.
  unfoldable pub write_chunks : ResponseWriter → List Text → ResponseWriter
  write_chunks w [] = w
  write_chunks w (chunk ∷ more) = write_chunks (write w chunk) more

  unfoldable pub copy_exit : CopyEnd → Exit
  copy_exit copied = done
  copy_exit broken_pipe = done
  copy_exit connection_reset = done
  copy_exit copy_failed = failed (codes "failed to copy response body")

  unfoldable pub write_response : Response → Handler
  unfolding write_chunks copy_exit set_response_headers
  write_response resp c =
      let c' = with_status (set_response_headers c resp.header) resp.status in
      (copy_exit resp.copy_end, record c' { w = write_chunks c'.w resp.chunks })

  unfoldable pub after_round_trip : RoundTrip → Handler
  unfolding write_response
  after_round_trip max_bytes_error c = (done, with_status c 413)
  after_round_trip transport_error c = handle_errorf outside 502 c
  after_round_trip (response resp) c = write_response resp c

  unfoldable pub send_upstream : RouteConfig → Request → Handler
  unfolding after_round_trip
  send_upstream route upstream c = elim (new_client_conn route.endpoint) [
    | some e ↦ handle_errorf outside 502 c
    | none ↦
        after_round_trip (round_trip route.endpoint upstream)
          (asks c (round_trip_to route.endpoint upstream))
  ]

  -- `proxy`: the request goes to the endpoint of the matched route.
  unfoldable pub proxy : Handler
  unfolding send_upstream
  proxy c = elim c.upstream_request [
    | none ↦ (failed (codes "no upstream request to proxy"), c)
    | some upstream ↦ elim c.matched_route [
      | none ↦ (panicked, c)
      | some route ↦ send_upstream route upstream c
    ]
  ]

  unfoldable pub upstream_header_of : RequestContext → Header
  upstream_header_of c =
      let h = header_set c.r.header (codes "X-Request-Id") c.request_id in
      let h = header_set h (codes "X-Forwarded-For") (addr_port_string c.remote_ip) in
      let h = header_set h (codes "X-Forwarded-Host") c.r.host in
      if c.r.tls
      then header_set h (codes "X-Forwarded-Proto") (codes "https")
      else header_set h (codes "X-Forwarded-Proto") (codes "https")

  -- The request that goes upstream, with the body behind a `MaxBytesReader`.
  unfoldable pub proxied_request : RequestContext → RouteConfig → Request
  unfolding get_upstream_url upstream_header_of
  proxied_request c endpoint = record {
    method = c.r.method;
    url = get_upstream_url c;
    host = c.r.host;
    remote_addr = [];
    header = upstream_header_of c;
    tls = false;
    content_length = c.r.content_length;
    body = c.r.body;
    body_limit = some endpoint.http_proxy_config.max_body_size;
  }

  unfoldable pub with_route : RequestContext → RouteConfig → RequestContext
  unfolding proxied_request
  with_route c endpoint = record c {
    upstream_address = endpoint.endpoint;
    upstream_request = some (proxied_request c endpoint);
    matched_route = some endpoint;
  }

  module _ (run : MiddlewareFunc → Handler → Handler) where
    unfoldable pub call_middleware : List MiddlewareFunc → Handler → Handler
    call_middleware [] fallback = fallback
    call_middleware (m ∷ ms) fallback = run m (call_middleware ms fallback)

    unfoldable pub proxy_route : RouteConfig → Handler
    unfolding call_middleware with_route proxy
    proxy_route endpoint c =
        if request_is_valid c.r.method (get_upstream_url c)
        then call_middleware endpoint.middlewares proxy (with_route c endpoint)
        else handle_errorf outside 500 c

    unfoldable pub routed : Returns (Option RouteConfig) → Handler
    unfolding proxy_route
    routed panic c = (panicked, c)
    routed (value none) c = not_found outside (codes "route not found") c
    routed (value (some route)) c = proxy_route route c

    unfoldable pub handle_host : HostConfig → Handler
    unfolding routed
    handle_host host c = routed (lookup_route host c.r.url.url_path) c

    unfoldable pub handle_http : Handler
    unfolding handle_host
    handle_http c = elim (to_ascii c.r.host) [
      | none ↦ bad_request outside (codes "invalid hostname") c
      | some escaped_host ↦ elim (lookup_host c.routing_config escaped_host) [
        | some host ↦ handle_host host c
        | none ↦ not_found outside (codes "host not found") c
      ]
    ]
