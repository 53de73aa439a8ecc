-- ===== src/Proxy/Listeners.antt =====
-- pkg/proxy/proxy_http.go: the certificate of a connection, and how a server comes to its end.
pub mod Closing
use s_ingress.Common.Texts.{Text, codes, text_keys}
use s_ingress.Common.{
  Bool, Option, Result, err, false, if◌then◌else◌, lookup, none, not, ok, some, ◌++◌, ◌||◌,
}
use s_ingress.Proxy.Lifecycle.{Listener, http_server, https_server, quic_server, wrap_err}
use s_ingress.Proxy.Routing.{RoutingConfig}

-- The closures `GetCertificate` of `startHttps` and `startQuic`, which are the same.
unfoldable pub get_certificate : Option RoutingConfig → Text → Result Text (Option Text)
get_certificate none server_name = err (codes "no routing configuration")
get_certificate (some conf) server_name = elim (lookup server_name conf.tls_certificates) [
  | some certificate ↦ ok (some certificate)
  | none ↦ ok conf.default_tls_certificate
]

-- An error of a server: whether `errors.Is` and `errors.As` find in it the errors of net/http and
-- of quic-go that say that the server was closed.
pub record ServerError : Type 0 where
  pub text : Text
  pub is_http_closed : Bool
  pub is_quic_closed : Bool

unfoldable pub is_server_closed_error : ServerError → Bool
is_server_closed_error e = e.is_http_closed || e.is_quic_closed

-- How the shutdown and the goroutine of `serve` interleave on the variable `err` that they share.
-- The goroutine assigns the result of `Serve`, and then reads `err` again to send it; `serve`
-- assigns the result of `Shutdown` before it receives. Nothing else orders the three accesses: the
-- result of `Shutdown` may be assigned before both of the goroutine, between them, or after both.
pub data Interleaving : Type 0 where
  shutdown_first shutdown_between shutdown_last : Interleaving

-- What the `select` of `serve` receives first: the end of the context, and then the results of
-- `Shutdown` and of `Serve`; or the result of `Serve`.
pub data ServerRun : Type 0 where
  shut_down : (shutdown_result serve_result : Option ServerError) (order : Interleaving) → ServerRun
  stopped_by_itself : (serve_result : Option ServerError) → ServerRun

-- The value that the goroutine sends, which `serve` receives as `serveErr`.
abbrev pub sent_err : Option ServerError → Option ServerError → Interleaving → Option ServerError
sent_err shutdown_result serve_result shutdown_between = shutdown_result
sent_err shutdown_result serve_result _ = serve_result

-- What `err` holds once `serve` has received.
abbrev pub shared_err : Option ServerError → Option ServerError → Interleaving → Option ServerError
shared_err shutdown_result serve_result shutdown_first = serve_result
shared_err shutdown_result serve_result _ = shutdown_result

abbrev error_text : Option ServerError → Text
error_text none = codes "%!w(<nil>)"
error_text (some e) = e.text

-- Whether the error that was received says anything else than that the server was closed.
abbrev pub is_unexpected : Option ServerError → Bool
is_unexpected none = false
is_unexpected (some e) = not (is_server_closed_error e)

abbrev while_closing : Option ServerError → Option ServerError → Option Text
while_closing serve_err e = some (
    codes "server returned error while closing: "
    ++ error_text serve_err
    ++ codes " ("
    ++ error_text e
    ++ codes ")")

abbrev start_failed : Option ServerError → Option Text
start_failed none = none
start_failed (some e) = some (codes "server start failed: " ++ e.text)

abbrev shutdown_failed : Option ServerError → Option Text
shutdown_failed none = none
shutdown_failed (some e) = some (codes "server shutdown failed: " ++ e.text)

abbrev quic_shutdown_failed : Option ServerError → Option Text
quic_shutdown_failed none = none
quic_shutdown_failed (some e) =
    if e.is_http_closed then none else some (codes "quic server shutdown failed: " ++ e.text)

-- `serve`
unfoldable pub serve : ServerRun → Option Text
unfolding is_server_closed_error
serve (stopped_by_itself serve_result) = start_failed serve_result
serve (shut_down shutdown_result serve_result order) =
    let serve_err = sent_err shutdown_result serve_result order in
    let e = shared_err shutdown_result serve_result order in
    if is_unexpected serve_err then while_closing serve_err e else shutdown_failed e

-- `serveQuic`
unfoldable pub serve_quic : ServerRun → Option Text
unfolding is_server_closed_error
serve_quic (stopped_by_itself serve_result) = start_failed serve_result
serve_quic (shut_down shutdown_result serve_result order) =
    let serve_err = sent_err shutdown_result serve_result order in
    let e = shared_err shutdown_result serve_result order in
    if is_unexpected serve_err then while_closing serve_err e else quic_shutdown_failed e

-- The message that the goroutine of one of the four servers sends to `Start` at its end.
unfoldable pub server_message : Listener → ServerRun → Option Text
unfolding wrap_err serve serve_quic
server_message quic_server s = wrap_err (codes "quic") (serve_quic s)
server_message https_server s = wrap_err (codes "https") (serve s)
server_message http_server s = wrap_err (codes "http") (serve s)
server_message _ s = wrap_err (codes "status") (serve s)
