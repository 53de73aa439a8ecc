-- ===== src/Examples.antt =====
-- The theorems on concrete hosts, requests and ingresses.
mod Samples
mod Objects
mod Requests
mod Queues
mod Logins
mod Lifecycle
mod Shared
mod Loop
mod Sessions
mod Program
use mathlib.Core.List.{Perm}
use s_ingress.Common.Texts.{Text, codes, split, text_eq, text_keys}
use s_ingress.Common.{
  All, [], arith, false, none, ok, refl, some, true, ℕ, ◌++◌, ◌↔◌, ◌∷◌, ◌≡◌, ◌⊎◌,
}
use s_ingress.Examples.Samples.{app, app_index, root, routing}
use s_ingress.Proxy.Routing.Hosts.{lookup_host-add_host_wildcard}
use s_ingress.Proxy.Routing.Lookup.{IsBest, lookup_route-add_routes}
use s_ingress.Proxy.Routing.Order.{IsOrdered, add_route_lem}
use s_ingress.Proxy.Routing.Paths.{matches_path_iff}
use s_ingress.Proxy.Routing.{
  RouteConfig, RoutingConfig, add_host, add_route, add_routes, empty_host, lookup_host,
  lookup_route, matches_path, value,
}

lookup_route-add_routes_example :
    ((lookup_route (add_routes empty_host (root ∷ app ∷ app_index ∷ [])) (codes "/app/index")
        ≡ value none)
      × All (λ r. matches_path r (codes "/app/index") ≡ value false) (root ∷ app ∷ app_index ∷ []))
    ⊎ ((r : RouteConfig) × (lookup_route
            (add_routes empty_host (root ∷ app ∷ app_index ∷ []))
            (codes "/app/index")
          ≡ value (some r))
        × IsBest (root ∷ app ∷ app_index ∷ []) (codes "/app/index") r)
lookup_route-add_routes_example =
    lookup_route-add_routes (root ∷ app ∷ app_index ∷ []) (codes "/app/index")
      ((λ _ e. cc), ((λ _ e. cc), ((λ _ e. cc), tt)))

matches_path_iff_example : (matches_path app (codes "/ap") ≡ value true) ↔ (
    ((rest : Text) × (codes "/ap" ≡ codes "/app" ++ rest))
    ⊎ ((c : ℕ) × (codes "/app" ≡ codes "/ap" ++ c ∷ [])))
matches_path_iff_example = matches_path_iff app (codes "/ap") refl (λ e. cc)

add_route_lem_example :
    Perm (add_route (record { routes = root ∷ [] }) app).routes (app ∷ root ∷ [])
    × IsOrdered (add_route (record { routes = root ∷ [] }) app).routes
add_route_lem_example = add_route_lem (record { routes = root ∷ [] }) app (tt, tt)

lookup_host-add_host_wildcard_example :
    (rc' : RoutingConfig) × (add_host routing
        (codes "*." ++ codes "example")
        (record { routes = root ∷ [] })
      ≡ ok rc')
    × (lookup_host rc' (codes "b" ++ codes ".example") ≡ some (record { routes = root ∷ [] }))
unfolding s_ingress.Common.lookup split text_eq
lookup_host-add_host_wildcard_example =
    lookup_host-add_host_wildcard routing (record { routes = root ∷ [] }) (codes "b")
      (codes "example") ((λ e. omega (arith, e)), tt) (λ e. cc) refl refl
