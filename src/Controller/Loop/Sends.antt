-- ===== src/Controller/Loop/Sends.antt =====
-- pkg/controller/controller.go: what the loop `Run` sends to the proxy.
use s_ingress.Common.{
  All, All-append, List, Option, [], ok, refl, some, sym, true, ◌++◌, ◌∙◌, ◌∷◌, ◌≡◌,
}
use s_ingress.Controller.Loop.Keeps.{HasConfig, Step-HasConfig, initialized-HasConfig}
use s_ingress.Controller.Loop.{
  LoopState, Reach, Step, adds_class, config_map_changed, initialized, reconciles,
  reconfigure_taken, removes_class, secret_changed, service_changed, stepped, takes_common,
  takes_reconfigure,
}
use s_ingress.Controller.ProxyConfig.{
  base_config, get_connection_modules, get_proxy_config, merge_entries, with_module,
}
use s_ingress.Controller.Reconcile.{IngressController}
use s_ingress.Controller.Shared.{Sources}
use s_ingress.Modules.Instances.{
  ModuleInstance, basic_auth_module, custom_header_module, deny_route_module, enforce_https_module,
  ip_auth_module, oidc_module, request_middleware, subrequest_auth_module, upstream_header_module,
  websocket_module,
}
use s_ingress.Proxy.Closures.{MiddlewareFunc}
use s_ingress.Proxy.Routing.{RoutingConfig, value, value-injective}

-- No module of the program fails in `RequestMiddleware`.
request_middleware-ok :
    (m : ModuleInstance) → (found : Option MiddlewareFunc) × (request_middleware m ≡ ok found)
unfolding request_middleware
request_middleware-ok (enforce_https_module b) = (_, refl)
request_middleware-ok ip_auth_module = (_, refl)
request_middleware-ok basic_auth_module = (_, refl)
request_middleware-ok (subrequest_auth_module configs) = (_, refl)
request_middleware-ok (oidc_module clients domains) = (_, refl)
request_middleware-ok deny_route_module = (_, refl)
request_middleware-ok websocket_module = (_, refl)
request_middleware-ok custom_header_module = (_, refl)
request_middleware-ok upstream_header_module = (_, refl)

get_connection_modules-ok :
    (ms : List ModuleInstance)
    → (found : List MiddlewareFunc) × (get_connection_modules ms ≡ ok found)
unfolding get_connection_modules
get_connection_modules-ok [] = ([], refl)
get_connection_modules-ok (m ∷ ms) =
    let (x, e) = request_middleware-ok m in
    let (xs, f) = get_connection_modules-ok ms in (with_module x xs, rw (e, f) refl)

get_proxy_config-ok :
    (ic : IngressController)
    → HasConfig ic
    → (c : RoutingConfig) × (get_proxy_config ic.k8s_state ≡ value (ok c))
unfolding get_proxy_config
get_proxy_config-ok ic (conf, e) =
    let (ms, f) = get_connection_modules-ok conf.modules in
    (merge_entries ic.k8s_state.ingresses (base_config ic.k8s_state conf ms), rw (e, f) refl)

-- A configuration that is not nil.
abbrev pub IsSome : Option RoutingConfig → Type 0
IsSome c = (conf : RoutingConfig) × (c ≡ some conf)

module _ (sources : Sources) where
  Step-IsSome :
      {s t : LoopState}
      → Step sources s t
      → HasConfig s.controller
      → All IsSome s.sent
      → All IsSome t.sent
  Step-IsSome {s} (takes_reconfigure {r} q e) h a =
      let (c, f) = get_proxy_config-ok s.controller h in
      let same : r ≡ ok c = value-injective (sym e ∙ f) in
      All-append IsSome s.sent _ a (rw same ((c, refl), tt))
  Step-IsSome (takes_common q e) h a = a
  Step-IsSome (reconciles name result) h a = a
  Step-IsSome (adds_class listed class) h a = a
  Step-IsSome (removes_class listed class) h a = a
  Step-IsSome (secret_changed object) h a = a
  Step-IsSome (config_map_changed object) h a = a
  Step-IsSome (service_changed object) h a = a

-- Once `Init` has succeeded, in every order of the steps of the loop and of the handlers, the
-- controller has a configuration, so that it never reads one through a nil pointer, and no
-- configuration that was sent to the proxy is nil.
pub Reach-IsSome :
    (sources : Sources) (s : LoopState)
    → Reach sources s
    → HasConfig s.controller × All IsSome s.sent
Reach-IsSome sources s (initialized ic e) = (initialized-HasConfig sources ic e, tt)
Reach-IsSome sources t (stepped {s} r step) =
    let (h, a) = Reach-IsSome sources s r in
    (Step-HasConfig sources step h, Step-IsSome sources step h a)

-- In every state that can be reached with a pending request for a configuration, there is a step in
-- which one that is not nil is sent, where the channel takes it.
pub Reach-progress :
    (sources : Sources) (s : LoopState)
    → Reach sources s
    → s.controller.reconfigure_requested ≡ true
    → (conf : RoutingConfig) × Step sources s
        (record { controller = reconfigure_taken s.controller; sent = s.sent ++ some conf ∷ [] })
Reach-progress sources s r q =
    let (h, _) = Reach-IsSome sources s r in
    let (c, f) = get_proxy_config-ok s.controller h in (c, takes_reconfigure q f)
