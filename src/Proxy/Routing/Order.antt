-- ===== src/Proxy/Routing/Order.antt =====
-- The order that `AddRoute` keeps in the routes of a host.
use mathlib.Core.List.Perm
use mathlib.Core.List.{Perm}
use s_ingress.Common.{
  All, All-In, All-of_In, Bool-cases, In, List, [], arith, here, inl, inr, length, ltb, there, ◌↔◌,
  ◌∷◌, ◌≡◌, ◌≤◌, ◌⊎◌,
}
use s_ingress.Proxy.Routing.{
  HostConfig, RouteConfig, add_route, add_routes, insert_prefix, is_exact, path_type_exact,
  path_type_prefix,
}

-- `a` may stand anywhere before `b`: `a` is exact, or both are prefixes and `b` is no longer.
abbrev pub Before : RouteConfig → RouteConfig → Type 0
Before a b =
    (a.path_type ≡ path_type_exact)
    ⊎ ((b.path_type ≡ path_type_prefix) × (length b.path ≤ length a.path))

abbrev pub IsOrdered : List RouteConfig → Type 0
IsOrdered [] = Unit
IsOrdered (r ∷ rs) = All (Before r) rs × IsOrdered rs

All-insert_prefix :
    (P : RouteConfig → Type 0) (route : RouteConfig) (rs : List RouteConfig)
    → P route
    → All P rs
    → All P (insert_prefix route rs)
unfolding insert_prefix
All-insert_prefix P route [] p h = (p, tt)
All-insert_prefix P route (r ∷ rs) p (q, h) = ground (arith, All-insert_prefix P route rs p h)

-- A route before which `r` may not stand is shorter than what it is put before.
Before-trans :
    (a b c : RouteConfig) → b.path_type ≡ path_type_prefix → Before a b → Before b c → Before a c
Before-trans a b c e h k = ground arith

All-Before-trans :
    (a b : RouteConfig) (rs : List RouteConfig)
    → b.path_type ≡ path_type_prefix
    → Before a b
    → All (Before b) rs
    → All (Before a) rs
All-Before-trans a b [] e h k = tt
All-Before-trans a b (r ∷ rs) e h (k, ks) =
    (Before-trans a b r e h k, All-Before-trans a b rs e h ks)

insert_prefix-IsOrdered :
    (route : RouteConfig) (rs : List RouteConfig)
    → route.path_type ≡ path_type_prefix
    → IsOrdered rs
    → IsOrdered (insert_prefix route rs)
unfolding insert_prefix
insert_prefix-IsOrdered route [] e h = (tt, tt)
insert_prefix-IsOrdered route (r ∷ rs) e (h, hs) = ground (
  arith,
  insert_prefix-IsOrdered route rs e hs,
  All-insert_prefix (Before r) route rs,
  All-Before-trans route r rs,
)

All-Before_exact :
    (a : RouteConfig) (rs : List RouteConfig) → a.path_type ≡ path_type_exact → All (Before a) rs
All-Before_exact a [] e = tt
All-Before_exact a (r ∷ rs) e = (inl e, All-Before_exact a rs e)

-- Adding a route to ordered routes leaves them ordered: the exact ones first, then the prefixes
-- with the longer ones in front.
pub add_route-IsOrdered :
    (hc : HostConfig) (route : RouteConfig)
    → IsOrdered hc.routes
    → IsOrdered (add_route hc route).routes
unfolding add_route
add_route-IsOrdered hc route h =
    ground (arith, insert_prefix-IsOrdered route hc.routes, All-Before_exact route hc.routes)

insert_prefix-perm :
    (route : RouteConfig) (rs : List RouteConfig) → Perm (insert_prefix route rs) (route ∷ rs)
unfolding insert_prefix
insert_prefix-perm route [] = Perm.refl _
insert_prefix-perm route (r ∷ rs) =
    let later : Perm (r ∷ insert_prefix route rs) (route ∷ r ∷ rs) =
      Perm.trans (Perm.cons r (insert_prefix-perm route rs)) (Perm.swap _ _ _) in
    elim (Bool-cases (is_exact r)) [
      | inl e ↦ rw e later
      | inr e ↦ elim (Bool-cases (ltb (length route.path) (length r.path))) [
        | inl l ↦ rw (e, l) later
        | inr l ↦ rw (e, l) (Perm.refl _)
      ]
    ]

-- Adding a route loses none, changes none and adds no other.
pub add_route-perm :
    (hc : HostConfig) (route : RouteConfig) → Perm (add_route hc route).routes (route ∷ hc.routes)
unfolding add_route
add_route-perm hc route = elim (Bool-cases (is_exact route)) [
  | inl e ↦ rw e (Perm.refl _)
  | inr e ↦ rw e (insert_prefix-perm route hc.routes)
]

-- Adding a route to ordered routes adds that one, keeps all others as they are, and leaves them
-- ordered: the exact ones first, then the prefixes with the longer ones in front.
pub add_route_lem :
    (hc : HostConfig) (route : RouteConfig)
    → IsOrdered hc.routes
    → Perm (add_route hc route).routes (route ∷ hc.routes) × IsOrdered (add_route hc route).routes
add_route_lem hc route h = (add_route-perm hc route, add_route-IsOrdered hc route h)

All-of_insert_prefix :
    (P : RouteConfig → Type 0) (route : RouteConfig) (rs : List RouteConfig)
    → All P (insert_prefix route rs)
    → P route × All P rs
unfolding insert_prefix
All-of_insert_prefix P route [] h = h
All-of_insert_prefix P route (r ∷ rs) h = ground (arith, All-of_insert_prefix P route rs)

All-add_route :
    (P : RouteConfig → Type 0) (hc : HostConfig) (route : RouteConfig)
    → All P (route ∷ hc.routes)
    → All P (add_route hc route).routes
unfolding add_route
All-add_route P hc route h = ground (arith, All-insert_prefix P route hc.routes)

All-of_add_route :
    (P : RouteConfig → Type 0) (hc : HostConfig) (route : RouteConfig)
    → All P (add_route hc route).routes
    → All P (route ∷ hc.routes)
unfolding add_route
All-of_add_route P hc route h = ground (arith, All-of_insert_prefix P route hc.routes)

-- The routes after `AddRoute` are the new one and the old ones.
pub In-add_route_iff :
    (hc : HostConfig) (route r : RouteConfig)
    → In r (add_route hc route).routes ↔ In r (route ∷ hc.routes)
In-add_route_iff hc route r = (
  λ m.
      All-In (λ x. In x (route ∷ hc.routes)) m
        (All-add_route _ hc route (All-of_In _ (route ∷ hc.routes) (λ a k. k))),
  λ m.
      All-In (λ x. In x (add_route hc route).routes) m
        (All-of_add_route _ hc route (All-of_In _ (add_route hc route).routes (λ a k. k))),
)

from_new :
    {r route : RouteConfig} {ss : List RouteConfig} (rs : List RouteConfig)
    → In r (route ∷ ss)
    → In r (route ∷ rs) ⊎ In r ss
from_new rs here = inl here
from_new rs (there m) = inr m

pub In-add_routes_iff :
    (hc : HostConfig) (rs : List RouteConfig) (r : RouteConfig)
    → In r (add_routes hc rs).routes ↔ (In r rs ⊎ In r hc.routes)
unfolding add_routes
In-add_routes_iff hc [] r = (inr, elim [ inl m ↦ elim m [ ] | inr m ↦ m ])
In-add_routes_iff hc (route ∷ rs) r = (
  λ m. elim ((In-add_routes_iff (add_route hc route) rs r).0 m) [
    | inl k ↦ inl (there k)
    | inr k ↦ from_new rs ((In-add_route_iff hc route r).0 k)
  ],
  λ m. (In-add_routes_iff (add_route hc route) rs r).1 (elim m [
    | inl k ↦ elim (from_new hc.routes k) [
      | inl n ↦ inr ((In-add_route_iff hc route r).1 n)
      | inr n ↦ inl n
    ]
    | inr k ↦ inr ((In-add_route_iff hc route r).1 (there k))
  ]),
)

pub add_routes-IsOrdered :
    (hc : HostConfig) (rs : List RouteConfig)
    → IsOrdered hc.routes
    → IsOrdered (add_routes hc rs).routes
unfolding add_routes
add_routes-IsOrdered hc [] h = h
add_routes-IsOrdered hc (route ∷ rs) h =
    add_routes-IsOrdered (add_route hc route) rs (add_route-IsOrdered hc route h)
