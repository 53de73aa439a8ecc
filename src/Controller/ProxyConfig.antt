-- ===== src/Controller/ProxyConfig.antt =====
-- `getProxyConfig` of pkg/controller/converter.go: all ingresses merged.
use s_ingress.Common.Texts.{Text, text_keys}
use s_ingress.Common.{List, Map, Option, [], insert, lookup, none, ok, some, ◌>>=◌, ◌∷◌}
use s_ingress.Config.Parse.{ControllerConf}
use s_ingress.Controller.Converter.{Fails, host_or_empty}
use s_ingress.Controller.State.{IngressEntry, K8sState}
use s_ingress.Kubernetes.{NamespacedName, name_keys}
use s_ingress.Modules.Instances.{ModuleInstance, request_middleware}
use s_ingress.Proxy.Closures.{MiddlewareFunc}
use s_ingress.Proxy.Routing.{
  HostConfig, Returns, RouteConfig, RoutingConfig, add_route, panic, value,
}

-- One round of the loop over the routes of a host.
unfoldable pub merge_routes : Text → List RouteConfig → Map Text HostConfig → Map Text HostConfig
merge_routes hostname [] hosts = hosts
merge_routes hostname (route ∷ routes) hosts =
    merge_routes hostname routes
      (insert hostname (add_route (host_or_empty (lookup hostname hosts)) route) hosts)

unfoldable pub merge_hosts : Map Text HostConfig → Map Text HostConfig → Map Text HostConfig
unfolding merge_routes
merge_hosts [] hosts = hosts
merge_hosts ((hostname, host) ∷ more) hosts =
    merge_hosts more (merge_routes hostname host.routes hosts)

-- The first certificate of a host stays.
unfoldable pub merge_certificates : Map Text Text → Map Text Text → Map Text Text
merge_certificates [] certificates = certificates
merge_certificates ((host, certificate) ∷ more) certificates =
    merge_certificates more (elim (lookup host certificates) [
      | some _ ↦ certificates
      | none ↦ insert host certificate certificates
    ])

unfoldable pub merge_entry : IngressEntry → RoutingConfig → RoutingConfig
unfolding merge_hosts merge_certificates
merge_entry entry proxy_config = elim entry.configuration [
  | none ↦ proxy_config
  | some conf ↦ record proxy_config {
    hosts = merge_hosts conf.hosts proxy_config.hosts;
    tls_certificates = merge_certificates conf.tls_certificates proxy_config.tls_certificates;
  }
]

unfoldable pub merge_entries : Map NamespacedName IngressEntry → RoutingConfig → RoutingConfig
unfolding merge_entry
merge_entries [] proxy_config = proxy_config
merge_entries ((name, entry) ∷ more) proxy_config =
    merge_entries more (merge_entry entry proxy_config)

abbrev pub with_module : Option MiddlewareFunc → List MiddlewareFunc → List MiddlewareFunc
with_module none ms = ms
with_module (some m) ms = m ∷ ms

-- `getConnectionModules`
unfoldable pub get_connection_modules : List ModuleInstance → Fails (List MiddlewareFunc)
get_connection_modules [] = ok []
get_connection_modules (m ∷ ms) =
    let rest = get_connection_modules ms in
    request_middleware m >>= λ found. rest >>= λ more. ok (with_module found more)

abbrev pub base_config : K8sState → ControllerConf → List MiddlewareFunc → RoutingConfig
base_config state conf middlewares = record {
  hosts = [];
  tls_certificates = [];
  default_tls_certificate = state.default_tls_secret;
  tcp_proxy = state.tcp_proxies;
  request_middlewares = middlewares;
  trusted_proxies = conf.general_proxy.trusted_proxies;
  error_page = conf.general_proxy.error_page;
}

-- The configuration is read through a pointer that is nil before `Init`.
unfoldable pub get_proxy_config : K8sState → Returns (Fails RoutingConfig)
unfolding merge_entries get_connection_modules
get_proxy_config state = elim state.config [
  | none ↦ panic
  | some conf ↦ value (
      get_connection_modules conf.modules >>= λ middlewares.
      ok (merge_entries state.ingresses (base_config state conf middlewares)))
]
