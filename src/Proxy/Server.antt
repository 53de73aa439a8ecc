-- ===== src/Proxy/Server.antt =====
-- `ServeHTTP` of pkg/proxy/serve.go with the metrics of pkg/proxy/metrics.go.
use s_ingress.Common.Net.{AddrPort, invalid}
use s_ingress.Common.Texts.{Text, codes, text_eq}
use s_ingress.Common.{List, Option, [], false, if◌then◌else◌, nat_eq, none, some, ℕ, ◌++◌, ◌∷◌}
use s_ingress.Proxy.Closures.{MiddlewareFunc}
use s_ingress.Proxy.Context.{
  Exit, Handler, Outside, Request, RequestContext, ResponseWriter, done, failed, panicked,
}
use s_ingress.Proxy.Errors.{handle_errorf}
use s_ingress.Proxy.Headers.{header_get}
use s_ingress.Proxy.RealIp.{fill_real_ip, get_remote_ip}
use s_ingress.Proxy.Routing.{Returns, RouteConfig, RoutingConfig, panic, value}
use s_ingress.Proxy.Serve.{call_middleware, handle_http}

-- The labels of `http_request_total`; the histogram has the first of them.
pub record RequestMetric : Type 0 where
  pub ingress : Text
  pub domain : Text
  pub status : ℕ
  pub route_path : Text

abbrev ingress_label : Option RouteConfig → Text
ingress_label none = codes "-"
ingress_label (some route) = route.ingress_name

abbrev path_label : Option RouteConfig → Text
path_label none = codes "-"
path_label (some route) = route.path

-- `recordRequest`, on the requests counted so far. Without metrics it does nothing.
unfoldable pub record_request :
    Option (List RequestMetric) → RequestContext → Option (List RequestMetric)
record_request none c = none
record_request (some counted) c = some (
    counted
    ++ record {
      ingress = ingress_label c.matched_route;
      domain = c.r.host;
      status = c.w.written_status_code;
      route_path = path_label c.matched_route;
    }
      ∷ [])

-- What becomes of a request: nobody has configured the proxy yet, it panics with what was done up
-- to there, or it is answered and counted.
pub data Served : Type 0 where
  unavailable : (status : ℕ) → Served
  crashed : Option RequestContext → Served
  served : RequestContext → Option (List RequestMetric) → Served

-- `getRequestId`, with the identifier that `uuid.New` would give.
unfoldable pub get_request_id : Text → Request → Text
get_request_id uuid r =
    let id = header_get r.header (codes "X-Request-Id") in if text_eq id [] then uuid else id

abbrev new_writer : ResponseWriter
new_writer = record {
  written_status_code = 0;
  wrote_body = false;
  header = [];
  sent = none;
  body = [];
}

-- The context before the first middleware; the fields that `ServeHTTP` leaves out are zero.
unfoldable pub new_context : RoutingConfig → Request → Text → AddrPort → RequestContext
new_context rc r request_id remote_ip = record {
  r = r;
  w = new_writer;
  request_id = request_id;
  remote_ip = remote_ip;
  real_ip = invalid;
  matched_route = none;
  upstream_request = none;
  upstream_address = record { addr = invalid; port = 0 };
  routing_config = rc;
  response_header = [];
  response_cookies = [];
  calls = [];
}

module _ (outside : Outside) (run : MiddlewareFunc → Handler → Handler) where
  -- After the middlewares: an error with nothing written becomes a page with status 500. What
  -- writing that page returns is only logged.
  unfoldable pub report : Exit × RequestContext → Exit × RequestContext
  report (done, c) = (done, c)
  report (panicked, c) = (panicked, c)
  report (failed e, c) =
      if nat_eq c.w.written_status_code 0
      then (let (x, c') = handle_errorf outside 500 c in (done, c'))
      else (done, c)

  count_request : Option (List RequestMetric) → Exit × RequestContext → Served
  count_request metrics (panicked, c) = crashed (some c)
  count_request metrics (_, c) = served c (record_request metrics c)

  unfoldable pub answer : RequestContext → Exit × RequestContext
  unfolding report
  answer c =
      report (
        call_middleware outside run c.routing_config.request_middlewares (handle_http outside run)
          c)

  with_peer :
      Option (List RequestMetric)
      → Option RoutingConfig
      → Text
      → Request
      → Returns AddrPort
      → Served
  unfolding count_request answer
  with_peer metrics config uuid r panic = crashed none
  with_peer metrics none uuid r (value remote_ip) = unavailable 503
  with_peer metrics (some rc) uuid r (value remote_ip) =
      count_request metrics
        (answer (fill_real_ip outside (new_context rc r (get_request_id uuid r) remote_ip)))

  unfoldable pub serve_http :
      Option (List RequestMetric) → Option RoutingConfig → Text → Request → Served
  unfolding with_peer
  serve_http metrics routing_config uuid r =
      with_peer metrics routing_config uuid r (get_remote_ip outside r)
