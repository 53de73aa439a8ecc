-- ===== src/Proxy/Routing/Lookup.antt =====
-- The route that `LookupRoute` finds.
use s_ingress.Common.Texts.{Text}
use s_ingress.Common.{
  All, All-In, All-of_In, In, List, [], arith, false, here, inl, inr, none, some, there, true, ◌↔◌,
  ◌∷◌, ◌≡◌, ◌≢◌, ◌⊎◌,
}
use s_ingress.Proxy.Routing.Order.{Before, In-add_routes_iff, IsOrdered, add_routes-IsOrdered}
use s_ingress.Proxy.Routing.{
  Returns-cases, RouteConfig, add_routes, empty_host, first_match, lookup_route, matches_path,
  panic, path_type_prefix, value,
}

-- `r` is a listed route that matches, and no listed route that matches has to stand before it.
pub record IsBest (rs : List RouteConfig) (raw_path : Text) (r : RouteConfig) : Type 0 where
  pub listed : In r rs
  pub matched : matches_path r raw_path ≡ value true
  pub best : (s : RouteConfig) → In s rs → matches_path s raw_path ≡ value true → Before r s

Before-refl : (r : RouteConfig) → Before r r
Before-refl r = ground arith

skip :
    (x : RouteConfig) (path : Text) (r : RouteConfig) {rs : List RouteConfig}
    → matches_path x path ≡ value false
    → ((s : RouteConfig) → In s rs → matches_path s path ≡ value true → Before r s)
    → (s : RouteConfig) → In s (x ∷ rs)
    → matches_path s path ≡ value true
    → Before r s
skip x path r e f s here h = cc
skip x path r e f s (there m) h = f s m h

first_here :
    {x : RouteConfig} {rs : List RouteConfig}
    → All (Before x) rs
    → (s : RouteConfig) → In s (x ∷ rs)
    → Before x s
first_here {x} h s here = Before-refl x
first_here {x} h s (there m) = All-In (Before x) m h

first_match-IsBest :
    (rs : List RouteConfig) (path : Text) (r : RouteConfig)
    → IsOrdered rs
    → first_match rs path ≡ value (some r)
    → IsBest rs path r
unfolding first_match
first_match-IsBest [] path r o h = cc
first_match-IsBest (x ∷ rs) path r (o, os) h = elim (Returns-cases (matches_path x path)) [
  | inl e ↦ absurd (ground (arith, e))
  | inr (false, e) ↦
      let later = first_match-IsBest rs path r os (ground (arith, e)) in
      record {
        listed = there later.listed;
        matched = later.matched;
        best = skip x path r e later.best;
      }
  | inr (true, e) ↦
      let same : x ≡ r = ground (arith, e) in
      rw (← same) (record { listed = here; matched = e; best = λ s m k. first_here o s m })
]

-- A route that `matches_path` can take: the slice of a prefix is in range.
abbrev pub IsSliceable : RouteConfig → Type 0
IsSliceable r = r.path_type ≡ path_type_prefix → r.path ≢ []

matches_path-ne-panic :
    (r : RouteConfig) (path : Text) → IsSliceable r → matches_path r path ≢ panic
unfolding matches_path
matches_path-ne-panic r path h = ground arith

first_match-ne-panic :
    (rs : List RouteConfig) (path : Text) → All IsSliceable rs → first_match rs path ≢ panic
unfolding first_match
first_match-ne-panic [] path h = ground arith
first_match-ne-panic (r ∷ rs) path (h, hs) =
    ground (arith, first_match-ne-panic rs path hs, matches_path-ne-panic r path h)

-- The lookup finds nothing exactly when no route matches.
first_match-none_iff :
    (rs : List RouteConfig) (path : Text)
    → (first_match rs path ≡ value none) ↔ All (λ r. matches_path r path ≡ value false) rs
unfolding first_match
first_match-none_iff [] path = ground arith
first_match-none_iff (r ∷ rs) path = ground (arith, first_match-none_iff rs path)

pub first_match_total :
    (rs : List RouteConfig) (path : Text)
    → All IsSliceable rs
    → IsOrdered rs
    → ((first_match rs path ≡ value none) × All (λ r. matches_path r path ≡ value false) rs)
      ⊎ ((r : RouteConfig) × (first_match rs path ≡ value (some r)) × IsBest rs path r)
first_match_total rs path h o = elim (Returns-cases (first_match rs path)) [
  | inl e ↦ absurd (first_match-ne-panic rs path h e)
  | inr (none, e) ↦ inl (e, (first_match-none_iff rs path).0 e)
  | inr (some r, e) ↦ inr (r, e, first_match-IsBest rs path r o e)
]

from_empty :
    (rs : List RouteConfig) (r : RouteConfig) → In r (add_routes empty_host rs).routes → In r rs
from_empty rs r m = elim ((In-add_routes_iff empty_host rs r).0 m) [
  | inl k ↦ k
  | inr k ↦ elim k [ ]
]

into_table :
    (rs : List RouteConfig) (r : RouteConfig) → In r rs → In r (add_routes empty_host rs).routes
into_table rs r m = (In-add_routes_iff empty_host rs r).1 (inl m)

-- In a host to which any routes were added, in any order, where no prefix route has the empty
-- path, the lookup of a path does not panic. Either it finds nothing, and no route matches, or it
-- finds one of the routes that match: an exact one if there is one, and else one whose prefix is
-- at least as long as that of every other route that matches.
pub lookup_route-add_routes :
    (rs : List RouteConfig) (path : Text)
    → All IsSliceable rs
    → ((lookup_route (add_routes empty_host rs) path ≡ value none)
        × All (λ r. matches_path r path ≡ value false) rs)
      ⊎ ((r : RouteConfig) × (lookup_route (add_routes empty_host rs) path ≡ value (some r))
          × IsBest rs path r)
unfolding lookup_route
lookup_route-add_routes rs path h = elim (first_match_total table path sliceable ordered) [
  | inl (e, none_match) ↦ inl (
    e,
    All-of_In _ rs
        (λ r m. All-In (λ r. matches_path r path ≡ value false) (into_table rs r m) none_match),
  )
  | inr (r, e, b) ↦ inr (
    r,
    e,
    record {
      listed = from_empty rs r b.listed;
      matched = b.matched;
      best = λ s m. b.best s (into_table rs s m);
    },
  )
]
  where
    table : List RouteConfig
    table = (add_routes empty_host rs).routes

    sliceable : All IsSliceable table
    sliceable = All-of_In _ table (λ r m. All-In IsSliceable (from_empty rs r m) h)

    ordered : IsOrdered table
    ordered = add_routes-IsOrdered empty_host rs tt
