-- ===== src/Proxy/Context.antt =====
-- pkg/proxy/context.go: the request context and the response writer, with the parts of `net/http`
-- that they hold, and what the proxy takes from outside of the repository.
use s_ingress.Common.Int.{ℤ}
use s_ingress.Common.Net.{Addr, AddrPort}
use s_ingress.Common.Texts.{Text}
use s_ingress.Common.{
  Bool, List, Option, [], if◌then◌else◌, leb, nat_eq, none, not, some, true, ℕ, ◌&&◌, ◌++◌, ◌∷◌,
}
use s_ingress.Proxy.Headers.{Header, header_set}
use s_ingress.Proxy.Routing.{RouteConfig, RoutingConfig}

-- `url.URL`, as far as the program reads or writes it.
pub record Url : Type 0 where
  pub scheme : Text
  pub host : Text
  pub url_path : Text
  pub raw_query : Text
  pub fragment : Text

-- `http.Request`. `tls` says whether the connection is one, `body_limit` is the bound of a
-- `MaxBytesReader` around the body.
pub record Request : Type 0 where
  pub method : Text
  pub url : Url
  pub host : Text
  pub remote_addr : Text
  pub header : Header
  pub tls : Bool
  pub content_length : ℤ
  pub body : Text
  pub body_limit : Option ℤ

pub record Cookie : Type 0 where
  pub name : Text
  pub value_text : Text
  pub max_age : ℤ
  pub secure : Bool
  pub http_only : Bool
  pub cookie_path : Text
  pub domain : Text

-- The `ResponseWriter` of the source with the writer of `net/http` that it wraps: `sent` is the
-- status line and the header that went out, `body` what was written behind them.
pub record ResponseWriter : Type 0 where
  pub written_status_code : ℕ
  pub wrote_body : Bool
  pub header : Header
  pub sent : Option (ℕ × Header)
  pub body : List Text

-- What the proxy asks of other servers.
pub data Call : Type 0 where
  round_trip_to : AddrPort → Request → Call
  auth_request_to : Text → Header → Call
  web_socket_to : AddrPort → Url → Header → Call
  identity_provider : Text → Call

-- `RequestContext`. The log is left out; `calls` is the trace of what the handlers ask of others.
pub record RequestContext : Type 0 where
  pub r : Request
  pub w : ResponseWriter
  pub request_id : Text
  pub remote_ip : AddrPort
  pub real_ip : Addr
  pub matched_route : Option RouteConfig
  pub upstream_request : Option Request
  pub upstream_address : AddrPort
  pub routing_config : RoutingConfig
  pub response_header : Header
  pub response_cookies : List Cookie
  pub calls : List Call

-- How a handler ends: it returns nil or an error, or it panics.
pub data Exit : Type 0 where
  done : Exit
  failed : Text → Exit
  panicked : Exit

-- What a handler does to the context, whichever way it ends.
abbrev pub Handler : Type 0
Handler = RequestContext → Exit × RequestContext

pub data CopyEnd : Type 0 where
  copied broken_pipe connection_reset copy_failed : CopyEnd

pub record Response : Type 0 where
  pub status : ℕ
  pub header : Header
  pub chunks : List Text
  pub copy_end : CopyEnd

pub data RoundTrip : Type 0 where
  max_bytes_error transport_error : RoundTrip
  response : Response → RoundTrip

pub record ErrorPageData : Type 0 where
  pub status : ℕ
  pub status_text : Text
  pub message : Text
  pub url : Url
  pub host : Text
  pub request_id : Text
  pub real_ip : Addr

-- The network, the template engine, the parsers and printers of the standard library.
pub record Outside : Type 0 where
  pub parse_addr : Text → Option Addr
  pub parse_addr_port : Text → Option AddrPort
  pub addr_port_string : AddrPort → Text
  pub to_ascii : Text → Option Text
  pub request_is_valid : Text → Url → Bool
  pub status_text : ℕ → Text
  pub execute : Text → ErrorPageData → Text × Option Text
  pub client_write : Text → Option Text
  pub new_client_conn : AddrPort → Option Text
  pub round_trip : AddrPort → Request → RoundTrip
  pub cookie_string : Cookie → Text

-- The status codes 1xx other than 101 do not end the header.
abbrev is_informational : ℕ → Bool
is_informational code = leb 100 code && leb code 199 && not (nat_eq code 101)

-- `WriteHeader` of `net/http`: only the first final status goes out.
abbrev pub send_status : ResponseWriter → ℕ → ResponseWriter
send_status w code = elim w.sent [
  | some s ↦ w
  | none ↦ if is_informational code then w else record w { sent = some (code, w.header) }
]

-- `(*ResponseWriter).WriteHeader`
unfoldable pub write_header : ResponseWriter → ℕ → ResponseWriter
write_header w status_code =
    send_status (record w { written_status_code = status_code }) status_code

-- `Write` of `net/http`: without a status, 200 goes out.
abbrev pub send_body : ResponseWriter → Text → ResponseWriter
send_body w bytes = let w' = send_status w 200 in record w' { body = w'.body ++ bytes ∷ [] }

-- `(*ResponseWriter).Write`
unfoldable pub write : ResponseWriter → Text → ResponseWriter
write w bytes = send_body (record w { wrote_body = true }) bytes

-- `rCtx.W.WriteHeader`
abbrev pub with_status : RequestContext → ℕ → RequestContext
with_status c status = record c { w = write_header c.w status }

-- `rCtx.W.Header().Set`
unfoldable pub set_header : RequestContext → Text → Text → RequestContext
set_header c k v = record c { w = record c.w { header = header_set c.w.header k v } }

-- `rCtx.ResponseHeader().Set`
unfoldable pub set_response_header : RequestContext → Text → Text → RequestContext
set_response_header c k v = record c { response_header = header_set c.response_header k v }

-- `SetResponseCookie`
unfoldable pub set_response_cookie : RequestContext → Cookie → RequestContext
set_response_cookie c cookie = record c { response_cookies = c.response_cookies ++ cookie ∷ [] }

-- The trace of one call.
unfoldable pub asks : RequestContext → Call → RequestContext
asks c call = record c { calls = c.calls ++ call ∷ [] }
