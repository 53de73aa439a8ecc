-- ===== src/Controller/Guarding.antt =====
-- The middlewares that the modules give to the route of an ingress, when a request comes.
use mathlib.Core.Path.{subst}
use s_ingress.Common.Texts.{Text}
use s_ingress.Common.{Bool, In, List, Map, ok, sym, ◌≡◌}
use s_ingress.Controller.Converter.{Cluster, get_middlewares}
use s_ingress.Controller.MiddlewareOrder.{get_middlewares-IsGuarded}
use s_ingress.Controller.State.{IngressConfiguration}
use s_ingress.Kubernetes.{Ingress}
use s_ingress.Modules.Auth.{ForwardAuthConfig}
use s_ingress.Modules.Contacts.{contacts}
use s_ingress.Modules.Gate.{proxy_route-refused}
use s_ingress.Modules.Instances.{all_modules, run_middleware}
use s_ingress.Modules.Order.{IsGuarded, all_modules-IsGuardedModules, made}
use s_ingress.Modules.Refusal.{Refuses}
use s_ingress.Modules.Services.{Services}
use s_ingress.Proxy.Closures.{ClientConfig, MiddlewareFunc}
use s_ingress.Proxy.Context.{Outside, RequestContext}
use s_ingress.Proxy.Routing.{RouteConfig}
use s_ingress.Proxy.Serve.{proxy_route, with_route}

module _ (services : Services) (cluster : Cluster) (outside : Outside) where
  -- A route has the middlewares that the modules of the program, in the program's order, give for
  -- an ingress. Where one of them turns a request away, the request does not reach the upstream,
  -- neither as a proxied request nor as a websocket.
  pub proxy_route-configured :
      (b : Bool) (configs : Map Text ForwardAuthConfig) (clients domains : Map Text ClientConfig)
      (ingress : Ingress) (before : IngressConfiguration)
      (p : List MiddlewareFunc × IngressConfiguration) (route : RouteConfig) (m : MiddlewareFunc)
      (c : RequestContext)
      → get_middlewares services cluster (all_modules b configs clients domains) ingress before
        ≡ ok p
      → route.middlewares ≡ p.0
      → In m p.0
      → Refuses services m (with_route outside c route)
      → contacts (proxy_route outside (run_middleware services outside) route c).1.calls
        ≡ contacts c.calls
  proxy_route-configured b configs clients domains ingress before p route m c made e i f =
      let guarded =
        get_middlewares-IsGuarded services cluster ingress _ before p
          (all_modules-IsGuardedModules b configs clients domains) made in
      proxy_route-refused services outside route m c (subst IsGuarded (sym e) guarded)
        (subst (In m) (sym e) i) f
