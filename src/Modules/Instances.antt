-- ===== src/Modules/Instances.antt =====
-- modules/modules.go and pkg/config/module.go: the module instances, their hooks, and what the
-- closures do that the hooks return.
use s_ingress.Common.Texts.{Text}
use s_ingress.Common.{Bool, List, Map, Option, Result, [], none, ok, some, ◌∷◌}
use s_ingress.Kubernetes.{Ingress, NamespacedName, Secret}
use s_ingress.Modules.Auth.{
  ForwardAuthConfig, basic_auth_middleware, ip_auth_middleware, run_basic_auth, run_ip_auth,
  run_subrequest_auth, subrequest_auth_middleware,
}
use s_ingress.Modules.CustomHeaders.{
  custom_header_middleware, run_custom_header, run_upstream_header, upstream_header_middleware,
}
use s_ingress.Modules.Oidc.Middleware.{oidc_ingress_middleware, run_oidc_ingress, run_oidc_request}
use s_ingress.Modules.Security.{
  deny_route_middleware, enforce_https_ingress_middleware, enforce_https_request_middleware,
  run_deny_route, run_enforce_https_ingress, run_enforce_https_request,
}
use s_ingress.Modules.Services.{Services}
use s_ingress.Modules.WebSocket.{run_websocket}
use s_ingress.Proxy.Closures.{
  ClientConfig, MiddlewareFunc, basic_auth, custom_header, deny_route, enforce_https_ingress,
  enforce_https_request, ip_auth, oidc_ingress, oidc_request, subrequest_auth, upstream_header,
  websocket,
}
use s_ingress.Proxy.Context.{Handler, Outside}

-- The structures that implement `ModuleInstance`.
pub data ModuleInstance : Type 0 where
  enforce_https_module : (default_enforce_https : Bool) → ModuleInstance
  ip_auth_module basic_auth_module : ModuleInstance
  subrequest_auth_module : (configs : Map Text ForwardAuthConfig) → ModuleInstance
  oidc_module : (clients callback_domains : Map Text ClientConfig) → ModuleInstance
  deny_route_module websocket_module custom_header_module upstream_header_module : ModuleInstance

-- `RequestMiddleware`; the default of `config.Module` returns nil.
unfoldable pub request_middleware : ModuleInstance → Result Text (Option MiddlewareFunc)
unfolding enforce_https_request_middleware
request_middleware (enforce_https_module default_enforce_https) =
    ok (enforce_https_request_middleware default_enforce_https)
request_middleware (oidc_module clients callback_domains) =
    ok (some (oidc_request callback_domains))
request_middleware _ = ok none

-- `IngressMiddleware`, with the secrets that the reconciler remembers.
unfoldable pub ingress_middleware :
    Services
    → (NamespacedName → Option Secret)
    → ModuleInstance
    → Ingress
    → Result Text (Option MiddlewareFunc) × List NamespacedName
ingress_middleware services get_secret (enforce_https_module default_enforce_https) ingress =
    (ok (enforce_https_ingress_middleware default_enforce_https ingress), [])
ingress_middleware services get_secret ip_auth_module ingress =
    (ip_auth_middleware services ingress, [])
ingress_middleware services get_secret basic_auth_module ingress =
    basic_auth_middleware services get_secret ingress
ingress_middleware services get_secret (subrequest_auth_module configs) ingress =
    (subrequest_auth_middleware services configs ingress, [])
ingress_middleware services get_secret (oidc_module clients callback_domains) ingress =
    (oidc_ingress_middleware clients ingress, [])
ingress_middleware services get_secret deny_route_module ingress =
    (deny_route_middleware services ingress, [])
ingress_middleware services get_secret websocket_module ingress = (ok (some websocket), [])
ingress_middleware services get_secret custom_header_module ingress =
    (ok (custom_header_middleware ingress), [])
ingress_middleware services get_secret upstream_header_module ingress =
    (ok (upstream_header_middleware ingress), [])

-- The list `Modules`, with what the creators read from the configuration.
unfoldable pub all_modules :
    Bool
    → Map Text ForwardAuthConfig
    → Map Text ClientConfig
    → Map Text ClientConfig
    → List ModuleInstance
all_modules default_enforce_https configs clients callback_domains =
    enforce_https_module default_enforce_https
    ∷ ip_auth_module
    ∷ basic_auth_module
    ∷ subrequest_auth_module configs
    ∷ oidc_module clients callback_domains
    ∷ deny_route_module
    ∷ websocket_module
    ∷ custom_header_module
    ∷ upstream_header_module
    ∷ []

-- What each closure does.
unfoldable pub run_middleware : Services → Outside → MiddlewareFunc → Handler → Handler
run_middleware services outside enforce_https_request = run_enforce_https_request services outside
run_middleware services outside enforce_https_ingress = run_enforce_https_ingress services outside
run_middleware services outside (ip_auth allowlist) = run_ip_auth services outside allowlist
run_middleware services outside (basic_auth realm htpasswd) =
    run_basic_auth services outside realm htpasswd
run_middleware services outside (subrequest_auth auth_url sign_in_url) =
    run_subrequest_auth services outside auth_url sign_in_url
run_middleware services outside (oidc_request callback_domains) =
    run_oidc_request services outside callback_domains
run_middleware services outside (oidc_ingress client config) =
    run_oidc_ingress services outside client config
run_middleware services outside (deny_route pattern_text) =
    run_deny_route services outside pattern_text
run_middleware services outside websocket = run_websocket services
run_middleware services outside (custom_header headers) = run_custom_header headers
run_middleware services outside (upstream_header headers) = run_upstream_header headers
