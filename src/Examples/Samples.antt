-- ===== src/Examples/Samples.antt =====
-- Concrete services, routes, requests and objects of a cluster.
use s_ingress.Common.Int.{pos}
use s_ingress.Common.Net.{AddrPort, v4}
use s_ingress.Common.Texts.{Text, codes, text_eq}
use s_ingress.Common.{List, [], false, if◌then◌else◌, none, some, true, ◌∷◌}
use s_ingress.Controller.Converter.{Cluster}
use s_ingress.Modules.Services.{Services, connected}
use s_ingress.Proxy.Closures.{MiddlewareFunc}
use s_ingress.Proxy.Context.{Outside, Request, RequestContext, transport_error}
use s_ingress.Proxy.Routing.{
  PathType, RouteConfig, RoutingConfig, path_type_exact, path_type_prefix,
}

abbrev pub no_network : Outside
no_network = record {
  parse_addr = λ t. if text_eq t (codes "203.0.113.5") then some (v4 0xCB007105) else none;
  parse_addr_port = λ t. none;
  addr_port_string = λ a. codes "10.0.0.9:4711";
  to_ascii = λ t. some t;
  request_is_valid = λ m u. true;
  status_text = λ n. codes "status";
  execute = λ t d. (codes "page", none);
  client_write = λ t. none;
  new_client_conn = λ a. none;
  round_trip = λ a r. transport_error;
  cookie_string = λ c. c.name;
}

abbrev pub strict_services : Services
strict_services = record {
  parse_prefix = λ t.
      if text_eq t (codes "192.0.2.0/24")
      then some (record { addr = v4 0xC0000200; bits = 24 })
      else none;
  basic_auth_of = λ h. none;
  htpasswd_is_valid = λ t. true;
  htpasswd_match = λ h u p. false;
  regexp_is_valid = λ t. true;
  regexp_match = λ p t. false;
  url_is_valid = λ t. true;
  url_reprinted = λ t. t;
  url_string = λ u. u.url_path;
  query_escape = λ t. t;
  query_get = λ u t. [];
  redirect_location = λ r t. t;
  redirect_body = λ t n. [];
  auth_response = λ t h. some 401;
  is_web_socket_upgrade = λ r. true;
  dial = λ a u h. connected;
  upgrade = λ r w. (none, w);
  cookie_of = λ h t. none;
  decrypt = λ k t. none;
  encrypt = λ k t. some t;
  compact_serialize = λ t. some t;
  marshal = λ i. i.subject;
  unmarshal = λ t. none;
  now = pos 0;
  exchange = λ n t. none;
  renewed_token = λ n t. none;
  verify = λ n t. none;
  rand_state = none;
  rand_nonce = none;
  auth_code_url = λ n s t. [];
}

abbrev pub empty_cluster : Cluster
empty_cluster = record {
  get_service = λ n. none;
  get_secret = λ n. none;
  parse_addr = λ t. none;
  x509_key_pair = λ a b. none;
}

abbrev pub route_to : PathType → Text → List MiddlewareFunc → RouteConfig
route_to kind path middlewares = record {
  path = path;
  path_type = kind;
  endpoint = record { addr = v4 0x0A000001; port = 8080 };
  middlewares = middlewares;
  http_proxy_config = record { max_body_size = pos 1000 };
  ingress_name = codes "web/site";
}

abbrev pub root : RouteConfig
root = route_to path_type_prefix (codes "/") []

abbrev pub app : RouteConfig
app = route_to path_type_prefix (codes "/app") []

abbrev pub app_index : RouteConfig
app_index = route_to path_type_exact (codes "/app/index") []

abbrev pub routing : RoutingConfig
routing = record {
  hosts = (codes "a.example", record { routes = app ∷ root ∷ [] }) ∷ [];
  tls_certificates = [];
  default_tls_certificate = none;
  tcp_proxy = [];
  request_middlewares = [];
  trusted_proxies = record { addr = v4 0x0A000000; bits = 8 } ∷ [];
  error_page = none;
}

abbrev pub request : Request
request = record {
  method = codes "GET";
  url = record { scheme = []; host = []; url_path = codes "/app/x"; raw_query = []; fragment = [] };
  host = codes "a.example";
  remote_addr = codes "10.0.0.9:4711";
  header =
      (codes "X-Forwarded-For", codes "203.0.113.5, 10.0.0.1" ∷ [])
      ∷ (codes "X-Request-Id", codes "first" ∷ codes "second" ∷ [])
      ∷ (codes "Accept", codes "text/html" ∷ [])
      ∷ [];
  tls = false;
  content_length = pos 0;
  body = [];
  body_limit = none;
}

abbrev pub peer : AddrPort
peer = record { addr = v4 0x0A000009; port = 4711 }

abbrev pub context : RequestContext
context = record {
  r = request;
  w = record { written_status_code = 0; wrote_body = false; header = []; sent = none; body = [] };
  request_id = codes "id";
  remote_ip = peer;
  real_ip = peer.addr;
  matched_route = none;
  upstream_request = none;
  upstream_address = peer;
  routing_config = routing;
  response_header = [];
  response_cookies = [];
  calls = [];
}
