-- ===== src/Modules/Order.antt =====
-- The order in which the modules put their middlewares into a route.
use s_ingress.Common.Texts.{Text}
use s_ingress.Common.{
  All, Bool, List, Map, Option, Result, [], arith, false, ok, refl, some, true, ◌∷◌, ◌≡◌,
}
use s_ingress.Kubernetes.{Ingress, NamespacedName, Secret}
use s_ingress.Modules.Auth.{
  ForwardAuthConfig, basic_auth_middleware, ip_auth_middleware, subrequest_auth_middleware,
  subrequest_of,
}
use s_ingress.Modules.Chain.{is_websocket}
use s_ingress.Modules.CustomHeaders.{custom_header_middleware, upstream_header_middleware}
use s_ingress.Modules.Instances.{
  ModuleInstance, all_modules, basic_auth_module, custom_header_module, deny_route_module,
  enforce_https_module, ingress_middleware, ip_auth_module, oidc_module, subrequest_auth_module,
  upstream_header_module, websocket_module,
}
use s_ingress.Modules.Oidc.Middleware.{oidc_ingress_middleware}
use s_ingress.Modules.Security.{deny_route_middleware, enforce_https_ingress_middleware}
use s_ingress.Modules.Services.{Services}
use s_ingress.Proxy.Closures.{ClientConfig, MiddlewareFunc, custom_header, upstream_header}

-- The middlewares that may stand behind the websocket: they only change headers.
abbrev pub is_header : MiddlewareFunc → Bool
is_header (custom_header headers) = true
is_header (upstream_header headers) = true
is_header _ = false

abbrev pub AllHeaders : List MiddlewareFunc → Type 0
AllHeaders = All (λ m. is_header m ≡ true)

-- Behind a websocket there are only middlewares that change headers.
abbrev pub IsGuarded : List MiddlewareFunc → Type 0
IsGuarded [] = Unit
IsGuarded (m ∷ ms) = (is_websocket m ≡ true → AllHeaders ms) × IsGuarded ms

abbrev pub is_websocket_module : ModuleInstance → Bool
is_websocket_module websocket_module = true
is_websocket_module _ = false

abbrev pub is_header_module : ModuleInstance → Bool
is_header_module custom_header_module = true
is_header_module upstream_header_module = true
is_header_module _ = false

abbrev pub IsGuardedModules : List ModuleInstance → Type 0
IsGuardedModules [] = Unit
IsGuardedModules (m ∷ ms) =
    (is_websocket_module m ≡ true → All (λ x. is_header_module x ≡ true) ms) × IsGuardedModules ms

-- The list `Modules` puts the websocket behind every module that turns requests away.
pub all_modules-IsGuardedModules :
    (b : Bool) (configs : Map Text ForwardAuthConfig) (clients domains : Map Text ClientConfig)
    → IsGuardedModules (all_modules b configs clients domains)
unfolding all_modules
all_modules-IsGuardedModules b configs clients domains = ground arith

module _ (services : Services) (get_secret : NamespacedName → Option Secret)
    (ingress : Ingress) where
  abbrev pub made : ModuleInstance → Result Text (Option MiddlewareFunc)
  made m = (ingress_middleware services get_secret m ingress).0

  pub made_header :
      (m : ModuleInstance) (f : MiddlewareFunc)
      → is_header_module m ≡ true
      → made m ≡ ok (some f)
      → is_header f ≡ true
  unfolding ingress_middleware custom_header_middleware upstream_header_middleware
  made_header custom_header_module f h e = ground arith
  made_header upstream_header_module f h e = ground arith
  made_header _ f h e = cc

  pub made_websocket :
      (m : ModuleInstance) (f : MiddlewareFunc)
      → made m ≡ ok (some f)
      → is_websocket f ≡ true
      → is_websocket_module m ≡ true
  unfolding ingress_middleware enforce_https_ingress_middleware ip_auth_middleware
      basic_auth_middleware subrequest_auth_middleware subrequest_of oidc_ingress_middleware
      deny_route_middleware custom_header_middleware upstream_header_middleware
  made_websocket websocket_module f e h = refl
  made_websocket (enforce_https_module b) f e h = ground arith
  made_websocket ip_auth_module f e h = ground arith
  made_websocket basic_auth_module f e h = ground arith
  made_websocket (subrequest_auth_module configs) f e h = ground arith
  made_websocket (oidc_module clients callback_domains) f e h = ground arith
  made_websocket deny_route_module f e h = ground arith
  made_websocket custom_header_module f e h = ground arith
  made_websocket upstream_header_module f e h = ground arith
