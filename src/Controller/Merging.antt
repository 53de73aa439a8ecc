-- ===== src/Controller/Merging.antt =====
-- Which routes the merged configuration of all ingresses has, and in which order.
use mathlib.Core.Path.{subst}
use s_ingress.Common.Texts.{Text, text_eq, text_eq_iff, text_keys}
use s_ingress.Common.{
  Bool, Bool-cases, In, List, Map, Option, [], ap, arith, false, here, if◌then◌else◌, inl, inr,
  insert, lookup, lookup-insert, refl, some, sym, there, true, ◌↔◌, ◌∙◌, ◌∷◌, ◌≡◌, ◌≢◌, ◌⊎◌,
}
use s_ingress.Controller.Converter.{host_or_empty}
use s_ingress.Controller.ProxyConfig.{merge_hosts, merge_routes}
use s_ingress.Controller.State.{IngressConfiguration, IngressEntry}
use s_ingress.Kubernetes.{NamespacedName, name_keys}
use s_ingress.Proxy.Routing.Order.{In-add_routes_iff, IsOrdered, add_routes-IsOrdered}
use s_ingress.Proxy.Routing.{HostConfig, RouteConfig, add_route, add_routes}

-- The routes that a map holds for a host.
abbrev pub routes_at : Text → Map Text HostConfig → List RouteConfig
routes_at hostname hosts = (host_or_empty (lookup hostname hosts)).routes

-- Some pair of the map has the host and the route.
pub record IsListed (r : RouteConfig) (k : Text) (hosts : Map Text HostConfig) : Type 0 where
  pub host : HostConfig
  pub listed : In (k, host) hosts
  pub carried : In r host.routes

-- Some ingress that has a configuration lists the route for the host.
pub record IsProvided (r : RouteConfig) (k : Text) (entries : Map NamespacedName IngressEntry)
    : Type 0 where
  pub name : NamespacedName
  pub entry : IngressEntry
  pub conf : IngressConfiguration
  pub listed : In (name, entry) entries
  pub configured : entry.configuration ≡ some conf
  pub carried : IsListed r k conf.hosts

routes-if :
    (b : Bool) (host : HostConfig) (o : Option HostConfig)
    → (host_or_empty (if b then some host else o)).routes
      ≡ (if b then host.routes else (host_or_empty o).routes)
routes-if true host o = refl
routes-if false host o = refl

routes_at-insert :
    (h k : Text) (host : HostConfig) (hosts : Map Text HostConfig)
    → routes_at k (insert h host hosts) ≡ (if text_eq h k then host.routes else routes_at k hosts)
routes_at-insert h k host hosts =
    ap (λ o. (host_or_empty o).routes) (lookup-insert h k host hosts)
    ∙ routes-if (text_eq h k) host (lookup k hosts)

routes_at-merge_routes :
    (h k : Text) (rs : List RouteConfig) (hosts : Map Text HostConfig)
    → routes_at k (merge_routes h rs hosts) ≡ (
        if text_eq h k
        then (add_routes (host_or_empty (lookup h hosts)) rs).routes
        else routes_at k hosts)
unfolding merge_routes add_routes
routes_at-merge_routes h k [] hosts = ground (arith, text_eq_iff h k)
routes_at-merge_routes h k (r ∷ rs) hosts = elim (Bool-cases (text_eq h k)) [
  | inl e ↦
      rw
        (
          routes_at-merge_routes h k rs,
          e,
          lookup-insert h h (add_route (host_or_empty (lookup h hosts)) r) hosts,
          (text_eq_iff h h).1 refl,
        )
        refl
  | inr e ↦ rw (routes_at-merge_routes h k rs, routes_at-insert h k, e) refl
]

merged :
    {r : RouteConfig} {h k : Text} {rs : List RouteConfig} (hosts : Map Text HostConfig)
    → h ≡ k
    → In r (add_routes (host_or_empty (lookup h hosts)) rs).routes
      ↔ (((h ≡ k) × In r rs) ⊎ In r (routes_at k hosts))
merged {r} {h} {k} {rs} hosts e = (
  λ m. elim ((In-add_routes_iff (host_or_empty (lookup h hosts)) rs r).0 m) [
    | inl n ↦ inl (e, n)
    | inr n ↦ inr (subst (λ x. In r (routes_at x hosts)) e n)
  ],
  λ m. (In-add_routes_iff (host_or_empty (lookup h hosts)) rs r).1 (elim m [
    | inl (_, n) ↦ inl n
    | inr n ↦ inr (subst (λ x. In r (routes_at x hosts)) (sym e) n)
  ]),
)

unmerged : {h k : Text} {A B : Type 0} → h ≢ k → B ↔ (((h ≡ k) × A) ⊎ B)
unmerged n = (inr, elim [ inl (e, _) ↦ absurd (n e) | inr b ↦ b ])

In-merge_routes_iff :
    (r : RouteConfig) (h k : Text) (rs : List RouteConfig) (hosts : Map Text HostConfig)
    → In r (routes_at k (merge_routes h rs hosts))
      ↔ (((h ≡ k) × In r rs) ⊎ In r (routes_at k hosts))
In-merge_routes_iff r h k rs hosts = elim (Bool-cases (text_eq h k)) [
  | inl e ↦
      let same : h ≡ k = (text_eq_iff h k).0 e in
      rw (routes_at-merge_routes h k rs hosts, e) (merged hosts same)
  | inr e ↦
      rw (routes_at-merge_routes h k rs hosts, e) (unmerged (ground (arith, e, text_eq_iff h k)))
]

merge_routes-IsOrdered :
    (h : Text) (rs : List RouteConfig) (hosts : Map Text HostConfig)
    → ((k : Text) → IsOrdered (routes_at k hosts))
    → (k : Text) → IsOrdered (routes_at k (merge_routes h rs hosts))
merge_routes-IsOrdered h rs hosts o k = elim (Bool-cases (text_eq h k)) [
  | inl e ↦
      rw (routes_at-merge_routes h k rs hosts, e)
        (add_routes-IsOrdered (host_or_empty (lookup h hosts)) rs (o h))
  | inr e ↦ rw (routes_at-merge_routes h k rs hosts, e) (o k)
]

IsListed-here :
    {r : RouteConfig} {h k : Text} {host : HostConfig} (more : Map Text HostConfig)
    → h ≡ k
    → In r host.routes
    → IsListed r k ((h, host) ∷ more)
IsListed-here {r} {h} {k} {host} more e m =
    subst (λ x. IsListed r x ((h, host) ∷ more)) e
      (record { host = host; listed = here; carried = m })

IsListed-there :
    {r : RouteConfig} {k : Text} {hosts : Map Text HostConfig} (p : Text × HostConfig)
    → IsListed r k hosts
    → IsListed r k (p ∷ hosts)
IsListed-there p l = record { host = l.host; listed = there l.listed; carried = l.carried }

split-IsListed :
    {r : RouteConfig} {k : Text} {hosts : Map Text HostConfig} (p : Text × HostConfig)
    (host : HostConfig)
    → In (k, host) (p ∷ hosts)
    → In r host.routes
    → ((p.0 ≡ k) × In r p.1.routes) ⊎ IsListed r k hosts
split-IsListed p host here m = inl (refl, m)
split-IsListed p host (there l) m = inr (record { host = host; listed = l; carried = m })

pub In-merge_hosts_iff :
    (r : RouteConfig) (k : Text) (new hosts : Map Text HostConfig)
    → In r (routes_at k (merge_hosts new hosts)) ↔ (IsListed r k new ⊎ In r (routes_at k hosts))
unfolding merge_hosts
In-merge_hosts_iff r k [] hosts = (inr, elim [ inl l ↦ elim l.listed [ ] | inr m ↦ m ])
In-merge_hosts_iff r k ((h, host) ∷ new) hosts =
    let rest = In-merge_hosts_iff r k new (merge_routes h host.routes hosts) in
    let first = In-merge_routes_iff r h k host.routes hosts in
    (
      λ m. elim (rest.0 m) [
        | inl l ↦ inl (IsListed-there (h, host) l)
        | inr n ↦ elim (first.0 n) [ inl (e, i) ↦ inl (IsListed-here new e i) | inr o ↦ inr o ]
      ],
      elim [
        | inl l ↦ elim (split-IsListed (h, host) l.host l.listed l.carried) [
          | inl a ↦ rest.1 (inr (first.1 (inl a)))
          | inr b ↦ rest.1 (inl b)
        ]
        | inr o ↦ rest.1 (inr (first.1 (inr o)))
      ],
    )

pub merge_hosts-IsOrdered :
    (new hosts : Map Text HostConfig)
    → ((k : Text) → IsOrdered (routes_at k hosts))
    → (k : Text) → IsOrdered (routes_at k (merge_hosts new hosts))
unfolding merge_hosts
merge_hosts-IsOrdered [] hosts o = o
merge_hosts-IsOrdered ((h, host) ∷ new) hosts o =
    merge_hosts-IsOrdered new _ (merge_routes-IsOrdered h host.routes hosts o)
