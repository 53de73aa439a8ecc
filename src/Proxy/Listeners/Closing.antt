-- ===== src/Proxy/Listeners/Closing.antt =====
-- pkg/proxy/proxy_http.go: when a server that was shut down reports no error.
use s_ingress.Common.Texts.{Text}
use s_ingress.Common.{Option, none, some, true, ◌≡◌}
use s_ingress.Proxy.Listeners.{Interleaving, ServerError, ServerRun, shut_down}
use s_ingress.Proxy.Server.{report}

-- An error that net/http gives for a server that was closed, or none.
abbrev pub IsClosed : Option ServerError → Type 0
IsClosed none = Unit
IsClosed (some e) = e.is_http_closed ≡ true

-- A server reports nil in every interleaving of its shutdown.
abbrev pub IsAlwaysNil :
    (ServerRun → Option Text) → Option ServerError → Option ServerError → Type 0
IsAlwaysNil report shutdown_result serve_result =
    (order : Interleaving) → report (shut_down shutdown_result serve_result order) ≡ none
