-- ===== src/Controller/Selection.antt =====
-- pkg/controller/converter.go and pkg/proxy/config.go: the route of a path, from the ingresses.
use s_ingress.Common.Texts.{Text, text_keys}
use s_ingress.Common.{
  All-In, All-of_In, In, Map, ap, false, inl, inr, lookup, none, ok, some, sym, true, ◌≡◌, ◌⊎◌,
}
use s_ingress.Controller.Converter.{host_or_empty}
use s_ingress.Controller.Merging.{IsProvided, routes_at}
use s_ingress.Controller.Provenance.{get_proxy_config-routes}
use s_ingress.Controller.ProxyConfig.{get_proxy_config}
use s_ingress.Controller.State.{IngressEntry, K8sState}
use s_ingress.Kubernetes.{NamespacedName, name_keys}
use s_ingress.Modules.Order.{made}
use s_ingress.Proxy.Routing.Lookup.{IsSliceable, first_match_total}
use s_ingress.Proxy.Routing.Order.{Before}
use s_ingress.Proxy.Routing.{
  HostConfig, RouteConfig, RoutingConfig, lookup_route, matches_path, value,
}

-- The best route for a path among those that the ingresses provide for a host.
pub record IsBestProvided (k : Text) (entries : Map NamespacedName IngressEntry) (path : Text)
    (r : RouteConfig) : Type 0 where
  pub provided : IsProvided r k entries
  pub matching : matches_path r path ≡ value true
  pub preferred_to :
      (s : RouteConfig) → IsProvided s k entries → matches_path s path ≡ value true → Before r s

-- With the configuration that the controller makes, the lookup of a path in a host that is found
-- does not panic if no prefix route of the host has the empty path. It finds nothing exactly where
-- no route that an ingress provides for the host matches, and else the best of those that match,
-- whatever the order of the ingresses and of their rules.
pub get_proxy_config-selects :
    (state : K8sState) (rc : RoutingConfig) (k : Text) (host : HostConfig) (path : Text)
    → get_proxy_config state ≡ value (ok rc)
    → lookup k rc.hosts ≡ some host
    → ((r : RouteConfig) → IsProvided r k state.ingresses → IsSliceable r)
    → ((lookup_route host path ≡ value none)
        × ((r : RouteConfig) → IsProvided r k state.ingresses → matches_path r path ≡ value false))
      ⊎ ((r : RouteConfig) × (lookup_route host path ≡ value (some r))
          × IsBestProvided k state.ingresses path r)
unfolding lookup_route
get_proxy_config-selects state rc k host path made found sliceable =
    let (routes, ordered) = get_proxy_config-routes state rc made k in
    let same : routes_at k rc.hosts ≡ host.routes = ap (λ o. (host_or_empty o).routes) found in
    let given : (r : RouteConfig) → In r host.routes → IsProvided r k state.ingresses =
      λ r m. (routes r).0 (rw same m) in
    let listed : (r : RouteConfig) → IsProvided r k state.ingresses → In r host.routes =
      λ r i. rw (sym same) ((routes r).1 i) in
    elim (first_match_total host.routes path
      (All-of_In IsSliceable host.routes (λ r m. sliceable r (given r m)))
      (rw (sym same) ordered)) [
        | inl (e, none_match) ↦
            inl (e, λ r i. All-In (λ s. matches_path s path ≡ value false) (listed r i) none_match)
        | inr (r, e, best) ↦ inr (
          r,
          e,
          record {
            provided = given r best.listed;
            matching = best.matched;
            preferred_to = λ s i. best.best s (listed s i);
          },
        )
      ]
