-- ===== src/Controller/Provenance.antt =====
-- Where the routes of the routing configuration come from.
use mathlib.Core.Path.{subst}
use s_ingress.Common.Texts.{Text}
use s_ingress.Common.{
  >>=-eq-ok, In, List, Map, Option, Option-cases, [], here, inl, inr, ok, ok-injective, refl, some,
  there, ◌>>=◌, ◌↔◌, ◌∷◌, ◌≡◌, ◌⊎◌,
}
use s_ingress.Config.Parse.{ControllerConf}
use s_ingress.Controller.Merging.{
  In-merge_hosts_iff, IsListed, IsProvided, merge_hosts-IsOrdered, routes_at,
}
use s_ingress.Controller.ProxyConfig.{
  base_config, get_connection_modules, get_proxy_config, merge_entries, merge_entry,
}
use s_ingress.Controller.State.{IngressConfiguration, IngressEntry, K8sState}
use s_ingress.Kubernetes.{NamespacedName}
use s_ingress.Proxy.Closures.{MiddlewareFunc}
use s_ingress.Proxy.Routing.Order.{IsOrdered}
use s_ingress.Proxy.Routing.{RouteConfig, RoutingConfig, panic, value, value-injective}

abbrev Gives : RouteConfig → Text → IngressEntry → Type 0
Gives r k entry =
    (conf : IngressConfiguration) × (entry.configuration ≡ some conf) × IsListed r k conf.hosts

pub some-injective : {A : Type 0} {a b : A} (o : Option A) → o ≡ some a → o ≡ some b → a ≡ b
some-injective o e f = cc

In-merge_entry_iff :
    (r : RouteConfig) (k : Text) (entry : IngressEntry) (rc : RoutingConfig)
    → In r (routes_at k (merge_entry entry rc).hosts)
      ↔ (Gives r k entry ⊎ In r (routes_at k rc.hosts))
unfolding merge_entry
In-merge_entry_iff r k entry rc = elim (Option-cases entry.configuration) [
  | inl e ↦ rw e (inr, elim [ inl (_, n, _) ↦ cc | inr m ↦ m ])
  | inr (conf, e) ↦
      let merging = In-merge_hosts_iff r k conf.hosts rc.hosts in
      rw e (
        λ m. elim (merging.0 m) [ inl l ↦ inl (conf, refl, l) | inr o ↦ inr o ],
        elim [
          | inl (other, n, l) ↦
              merging.1 (inl (subst (λ x. IsListed r k x.hosts) (some-injective _ n refl) l))
          | inr o ↦ merging.1 (inr o)
        ],
      )
]

split-IsProvided :
    {r : RouteConfig} {k : Text} {entries : Map NamespacedName IngressEntry}
    (p : NamespacedName × IngressEntry) (name : NamespacedName) (entry : IngressEntry)
    → In (name, entry) (p ∷ entries)
    → Gives r k entry
    → Gives r k p.1 ⊎ IsProvided r k entries
split-IsProvided p name entry here g = inl g
split-IsProvided p name entry (there m) (conf, e, l) =
    inr
      (record { name = name; entry = entry; conf = conf; listed = m; configured = e; carried = l })

IsProvided-here :
    {r : RouteConfig} {k : Text} {entries : Map NamespacedName IngressEntry}
    (p : NamespacedName × IngressEntry)
    → Gives r k p.1
    → IsProvided r k (p ∷ entries)
IsProvided-here (name, entry) (conf, e, l) = record {
  name = name;
  entry = entry;
  conf = conf;
  listed = here;
  configured = e;
  carried = l;
}

IsProvided-there :
    {r : RouteConfig} {k : Text} {entries : Map NamespacedName IngressEntry}
    (p : NamespacedName × IngressEntry)
    → IsProvided r k entries
    → IsProvided r k (p ∷ entries)
IsProvided-there p i = record {
  name = i.name;
  entry = i.entry;
  conf = i.conf;
  listed = there i.listed;
  configured = i.configured;
  carried = i.carried;
}

In-merge_entries_iff :
    (r : RouteConfig) (k : Text) (entries : Map NamespacedName IngressEntry) (rc : RoutingConfig)
    → In r (routes_at k (merge_entries entries rc).hosts)
      ↔ (IsProvided r k entries ⊎ In r (routes_at k rc.hosts))
unfolding merge_entries
In-merge_entries_iff r k [] rc = (inr, elim [ inl i ↦ elim i.listed [ ] | inr m ↦ m ])
In-merge_entries_iff r k ((name, entry) ∷ more) rc =
    let rest = In-merge_entries_iff r k more (merge_entry entry rc) in
    let first = In-merge_entry_iff r k entry rc in
    (
      λ m. elim (rest.0 m) [
        | inl i ↦ inl (IsProvided-there (name, entry) i)
        | inr n ↦ elim (first.0 n) [ inl g ↦ inl (IsProvided-here (name, entry) g) | inr o ↦ inr o ]
      ],
      elim [
        | inl i ↦
            elim (split-IsProvided (name, entry) i.name i.entry i.listed
              (i.conf, i.configured, i.carried)) [
                | inl g ↦ rest.1 (inr (first.1 (inl g)))
                | inr j ↦ rest.1 (inl j)
              ]
        | inr o ↦ rest.1 (inr (first.1 (inr o)))
      ],
    )

merge_entry-IsOrdered :
    (entry : IngressEntry) (rc : RoutingConfig)
    → ((k : Text) → IsOrdered (routes_at k rc.hosts))
    → (k : Text) → IsOrdered (routes_at k (merge_entry entry rc).hosts)
unfolding merge_entry
merge_entry-IsOrdered entry rc o k = elim (Option-cases entry.configuration) [
  | inl e ↦ rw e (o k)
  | inr (conf, e) ↦ rw e (merge_hosts-IsOrdered conf.hosts rc.hosts o k)
]

merge_entries-IsOrdered :
    (entries : Map NamespacedName IngressEntry) (rc : RoutingConfig)
    → ((k : Text) → IsOrdered (routes_at k rc.hosts))
    → (k : Text) → IsOrdered (routes_at k (merge_entries entries rc).hosts)
unfolding merge_entries
merge_entries-IsOrdered [] rc o = o
merge_entries-IsOrdered ((name, entry) ∷ more) rc o =
    merge_entries-IsOrdered more (merge_entry entry rc) (merge_entry-IsOrdered entry rc o)

-- A routing configuration that is made is that of the merged entries.
pub merged_from :
    (state : K8sState) (rc : RoutingConfig)
    → get_proxy_config state ≡ value (ok rc)
    → (conf : ControllerConf) × (middlewares : List MiddlewareFunc) × (merge_entries state.ingresses
          (base_config state conf middlewares)
        ≡ rc)
unfolding get_proxy_config
merged_from state rc h = elim (Option-cases state.config) [
  | inl e ↦ let bad : panic ≡ value (ok rc) = rw e at h in cc
  | inr (conf, e) ↦
      let found : value (
            get_connection_modules conf.modules >>= λ ms.
            ok (merge_entries state.ingresses (base_config state conf ms)))
          ≡ value (ok rc) =
        rw e at h in
      let (ms, _, same) =
        >>=-eq-ok (get_connection_modules conf.modules) _ (value-injective found) in
      (conf, ms, ok-injective same)
]

-- When a routing configuration is made, it holds for each host exactly the routes that an ingress
-- with a configuration gives for that host, and they stand in the order of the lookup.
pub get_proxy_config-routes :
    (state : K8sState) (rc : RoutingConfig)
    → get_proxy_config state ≡ value (ok rc)
    → (k : Text)
    → ((r : RouteConfig) → In r (routes_at k rc.hosts) ↔ IsProvided r k state.ingresses)
      × IsOrdered (routes_at k rc.hosts)
unfolding s_ingress.Common.lookup
get_proxy_config-routes state rc h k =
    let (conf, ms, e) = merged_from state rc h in
    subst
      (λ x.
        ((r : RouteConfig) → In r (routes_at k x.hosts) ↔ IsProvided r k state.ingresses)
        × IsOrdered (routes_at k x.hosts))
      e
      (
        λ r.
            let both = In-merge_entries_iff r k state.ingresses (base_config state conf ms) in
            (λ m. elim (both.0 m) [ inl i ↦ i | inr n ↦ elim n [ ] ], λ i. both.1 (inl i)),
        merge_entries-IsOrdered state.ingresses (base_config state conf ms) (λ j. tt) k,
      )
