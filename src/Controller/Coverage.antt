-- ===== src/Controller/Coverage.antt =====
-- The services that a configuration remembers, against those that its routes were made from.
use mathlib.Core.Path.{subst}
use s_ingress.Common.Texts.{Text, codes}
use s_ingress.Common.{
  >>=-eq-ok, In, In-append_left, In-append_right, List, Option, Option-cases, [], ap, arith, err,
  here, inl, inr, none, ok, ok-injective, refl, some, sym, there, ◌++◌, ◌∙◌, ◌∷◌, ◌≡◌,
}
use s_ingress.Config.Parse.{ControllerConf}
use s_ingress.Controller.Converter.{
  Cluster, Fails, add_backend, add_path, add_paths, add_rules, get_middlewares, make_route, or_fail,
  or_panic, prepend, put_route, with_used_service,
}
use s_ingress.Controller.Provenance.{some-injective}
use s_ingress.Controller.State.{IngressConfiguration}
use s_ingress.Kubernetes.{HttpIngressPath, Ingress, IngressRule, NamespacedName, ServiceBackend}
use s_ingress.Modules.Instances.{ModuleInstance, ingress_middleware}
use s_ingress.Modules.Services.{Services}
use s_ingress.Proxy.Closures.{MiddlewareFunc}
use s_ingress.Proxy.Routing.{Returns, panic, value, value-injective}

module _ (services : Services) (cluster : Cluster) (controller_conf : ControllerConf)
    (ingress : Ingress) where
  abbrev pub service_of : ServiceBackend → NamespacedName
  service_of backend = record { namespace = ingress.namespace; name = backend.name }

  prepend-used_services :
      (found : Option MiddlewareFunc) (rest : List MiddlewareFunc × IngressConfiguration)
      → (prepend found rest).1.used_services ≡ rest.1.used_services
  prepend-used_services none rest = refl
  prepend-used_services (some m) (ms, conf) = refl

  get_middlewares-used_services :
      (ms : List ModuleInstance) (conf : IngressConfiguration)
      (p : List MiddlewareFunc × IngressConfiguration)
      → get_middlewares services cluster ms ingress conf ≡ ok p
      → p.1.used_services ≡ conf.used_services
  unfolding get_middlewares
  get_middlewares-used_services [] conf p e = ground (arith, e)
  get_middlewares-used_services (m ∷ ms) conf p e =
      let (found, _, e2) =
        >>=-eq-ok (ingress_middleware services cluster.get_secret m ingress).0 _ e in
      let (more, e3, e4) = >>=-eq-ok (get_middlewares services cluster ms ingress _) _ e2 in
      let q : prepend found more ≡ p = ok-injective e4 in
      rw (← q) (prepend-used_services found more ∙ get_middlewares-used_services ms _ more e3)

  add_path-used_services :
      (hostname : Text) (path : HttpIngressPath) (backend : ServiceBackend)
      (conf conf' : IngressConfiguration)
      → add_path services cluster controller_conf ingress hostname path backend conf ≡ ok conf'
      → conf'.used_services ≡ conf.used_services ++ service_of backend ∷ []
  unfolding add_path
  add_path-used_services hostname path backend conf conf' e =
      let ((ms, found), e1, e2) =
        >>=-eq-ok (get_middlewares services cluster controller_conf.modules ingress conf) _ e in
      let (service, _, e3) =
        >>=-eq-ok
          (or_fail (cluster.get_service (service_of backend)) (codes "failed to get service")) _
          e2 in
      let (route, _, e4) =
        >>=-eq-ok (make_route services cluster controller_conf ingress path backend service ms) _
          e3 in
      let q : put_route services cluster hostname (with_used_service found (service_of backend))
            route
          ≡ conf' =
        ok-injective e4 in
      rw (← q) (
        ap (λ l. l ++ service_of backend ∷ [])
          (get_middlewares-used_services controller_conf.modules conf (ms, found) e1))

  -- No service is forgotten.
  abbrev Keeps : IngressConfiguration → IngressConfiguration → Type 0
  Keeps conf conf' = (x : NamespacedName) → In x conf.used_services → In x conf'.used_services

  -- The service of a path, if it has one, is remembered.
  abbrev Remembers : IngressConfiguration → HttpIngressPath → Type 0
  Remembers conf path =
      (backend : ServiceBackend)
      → path.service ≡ some backend
      → In (service_of backend) conf.used_services

  add_backend-Keeps :
      (hostname : Text) (path : HttpIngressPath) (conf conf' : IngressConfiguration)
      (o : Option ServiceBackend)
      → add_backend services cluster controller_conf ingress hostname path conf o ≡ ok conf'
      → Keeps conf conf'
        × ((backend : ServiceBackend)
            → o ≡ some backend
            → In (service_of backend) conf'.used_services)
  add_backend-Keeps hostname path conf conf' none e =
      (λ x m. subst (λ c. In x c.used_services) (ok-injective e) m, λ backend n. cc)
  add_backend-Keeps hostname path conf conf' (some b) e =
      let used = add_path-used_services hostname path b conf conf' e in
      (
        λ x m. subst (In x) (sym used) (In-append_left (service_of b ∷ []) m),
        λ backend n.
            let same : b ≡ backend = cc in
            subst (λ c. In (service_of c) conf'.used_services) same
              (subst (In (service_of b)) (sym used) (In-append_right conf.used_services here)),
      )

  Remembers-all :
      (conf : IngressConfiguration) {path : HttpIngressPath} {paths : List HttpIngressPath}
      → Remembers conf path
      → ((p : HttpIngressPath) → In p paths → Remembers conf p)
      → (p : HttpIngressPath) → In p (path ∷ paths)
      → Remembers conf p
  Remembers-all conf h rest p here = h
  Remembers-all conf h rest p (there i) = rest p i

  add_paths-Remembers :
      (hostname : Text) (paths : List HttpIngressPath) (conf conf' : IngressConfiguration)
      → add_paths services cluster controller_conf ingress hostname paths conf ≡ ok conf'
      → Keeps conf conf' × ((path : HttpIngressPath) → In path paths → Remembers conf' path)
  unfolding add_paths
  add_paths-Remembers hostname [] conf conf' e =
      (λ x m. subst (λ c. In x c.used_services) (ok-injective e) m, λ path i. elim i [ ])
  add_paths-Remembers hostname (path ∷ paths) conf conf' e =
      let (mid, e1, e2) =
        >>=-eq-ok
          (add_backend services cluster controller_conf ingress hostname path conf path.service) _
          e in
      let (kept, new) = add_backend-Keeps hostname path conf mid path.service e1 in
      let (kept', rest) = add_paths-Remembers hostname paths mid conf' e2 in
      (λ x m. kept' x (kept x m), Remembers-all conf' (λ b n. kept' _ (new b n)) rest)

  -- A rule is remembered with all its paths.
  abbrev RemembersRule : IngressConfiguration → IngressRule → Type 0
  RemembersRule conf rule =
      (paths : List HttpIngressPath) (path : HttpIngressPath)
      → rule.http_paths ≡ some paths
      → In path paths
      → Remembers conf path

  RemembersRule-all :
      (conf : IngressConfiguration) {rule : IngressRule} {rules : List IngressRule}
      → RemembersRule conf rule
      → ((r : IngressRule) → In r rules → RemembersRule conf r)
      → (r : IngressRule) → In r (rule ∷ rules)
      → RemembersRule conf r
  RemembersRule-all conf h rest r here = h
  RemembersRule-all conf h rest r (there i) = rest r i

  or_panic-eq-ok :
      (o : Fails IngressConfiguration)
      (f : IngressConfiguration → Returns (Fails IngressConfiguration)) (x : IngressConfiguration)
      → or_panic services cluster o f ≡ value (ok x)
      → (mid : IngressConfiguration) × (o ≡ ok mid) × (f mid ≡ value (ok x))
  or_panic-eq-ok (ok mid) f x e = (mid, refl, e)
  or_panic-eq-ok (err t) f x e = cc

  pub add_rules-RemembersRule :
      (rules : List IngressRule) (conf conf' : IngressConfiguration)
      → add_rules services cluster controller_conf ingress rules conf ≡ value (ok conf')
      → Keeps conf conf' × ((rule : IngressRule) → In rule rules → RemembersRule conf' rule)
  unfolding add_rules
  add_rules-RemembersRule [] conf conf' e = (
    λ x m. subst (λ c. In x c.used_services) (ok-injective (value-injective e)) m,
    λ rule i. elim i [ ],
  )
  add_rules-RemembersRule (rule ∷ rules) conf conf' e = elim (Option-cases rule.http_paths) [
    | inl n ↦ let bad : panic ≡ value (ok conf') = rw n at e in cc
    | inr (paths, n) ↦
        let after : or_panic services cluster
              (add_paths services cluster controller_conf ingress rule.host paths conf)
              (add_rules services cluster controller_conf ingress rules)
            ≡ value (ok conf') =
          rw n at e in
        let (mid, e1, e2) = or_panic-eq-ok _ _ conf' after in
        let (kept, new) = add_paths-Remembers rule.host paths conf mid e1 in
        let (kept', rest) = add_rules-RemembersRule rules mid conf' e2 in
        (
          λ x m. kept' x (kept x m),
          RemembersRule-all conf'
              (λ ps p l i b o.
                let same : ps ≡ paths = some-injective _ l n in
                kept' _ (new p (subst (In p) same i) b o))
              rest,
        )
  ]
