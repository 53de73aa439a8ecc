-- ===== src/Controller/Remembered.antt =====
-- The services that the configuration of a reconciled ingress remembers.
use mathlib.Core.Path.{subst}
use s_ingress.Common.Texts.{text_eq}
use s_ingress.Common.{
  >>=-eq-ok, Bool-cases, In, List, Option, Option-cases, [], ap, err, if◌then◌else◌, inl, inr, ok,
  ok-injective, refl, some, sym, ◌∙◌, ◌∷◌, ◌≡◌,
}
use s_ingress.Config.Parse.{ControllerConf}
use s_ingress.Controller.Certificates.{get_certificate_from_secret, process_ingress_tls, tls_item}
use s_ingress.Controller.Converter.{Cluster, Fails, add_rules}
use s_ingress.Controller.Coverage.{add_rules-RemembersRule}
use s_ingress.Controller.Reconcile.{
  after_rules, empty_configuration, reconcile_ingress, reconcile_with,
}
use s_ingress.Controller.State.{IngressConfiguration, K8sState}
use s_ingress.Kubernetes.{HttpIngressPath, Ingress, IngressRule, IngressTls, ServiceBackend}
use s_ingress.Modules.Order.{made}
use s_ingress.Modules.Services.{Services}
use s_ingress.Proxy.Routing.{Returns, panic, value, value-injective}

module _ (services : Services) (cluster : Cluster) where
  tls_item-used_services :
      (ingress : Ingress) (item : IngressTls) (conf conf' : IngressConfiguration)
      → (if text_eq item.secret_name []
          then ok conf
          else tls_item services cluster ingress item conf)
        ≡ ok conf'
      → conf'.used_services ≡ conf.used_services
  tls_item-used_services ingress item conf conf' e =
      elim (Bool-cases (text_eq item.secret_name [])) [
        | inl n ↦ ap (λ c. c.used_services) (sym (ok-injective (rw n at e)))
        | inr n ↦
            let found : tls_item services cluster ingress item conf ≡ ok conf' = rw n at e in
            let (certificate, _, e1) =
              >>=-eq-ok (get_certificate_from_secret services cluster _) _ found in
            ap (λ c. c.used_services) (sym (ok-injective e1))
      ]

  process_ingress_tls-used_services :
      (ingress : Ingress) (items : List IngressTls) (conf conf' : IngressConfiguration)
      → process_ingress_tls services cluster ingress items conf ≡ ok conf'
      → conf'.used_services ≡ conf.used_services
  unfolding process_ingress_tls
  process_ingress_tls-used_services ingress [] conf conf' e =
      ap (λ c. c.used_services) (sym (ok-injective e))
  process_ingress_tls-used_services ingress (item ∷ items) conf conf' e =
      let (mid, e1, e2) =
        >>=-eq-ok
          (if text_eq item.secret_name []
            then ok conf
            else tls_item services cluster ingress item conf)
          _ e in
      process_ingress_tls-used_services ingress items mid conf' e2
      ∙ tls_item-used_services ingress item conf mid e1

  after_rules-used_services :
      (state : K8sState) (conf : ControllerConf) (ingress : Ingress)
      (r : Returns (Fails IngressConfiguration)) (result : IngressConfiguration)
      → (after_rules services cluster state conf ingress r).outcome ≡ value (ok result)
      → (made : IngressConfiguration) × (r ≡ value (ok made))
        × (result.used_services ≡ made.used_services)
  unfolding after_rules
  after_rules-used_services state conf ingress panic result e = cc
  after_rules-used_services state conf ingress (value (err t)) result e = cc
  after_rules-used_services state conf ingress (value (ok made)) result e =
      (made, refl, process_ingress_tls-used_services _ _ made result (value-injective e))

  ran :
      (state : K8sState) (conf : ControllerConf) (ingress : Ingress) (result : IngressConfiguration)
      (config : Option ControllerConf)
      → config ≡ some conf
      → (reconcile_with services cluster state ingress config).outcome ≡ value (ok result)
      → (after_rules services cluster state conf ingress
          (add_rules services cluster conf ingress ingress.rules empty_configuration)).outcome
        ≡ value (ok result)
  ran state conf ingress result config c e = rw c at e

  -- The configuration that a reconciliation makes of an ingress remembers the service of every
  -- path of every rule.
  pub reconcile_ingress-used_services :
      (state : K8sState) (ingress : Ingress) (result : IngressConfiguration) (rule : IngressRule)
      (paths : List HttpIngressPath) (path : HttpIngressPath) (backend : ServiceBackend)
      → (reconcile_ingress services cluster state ingress).outcome ≡ value (ok result)
      → In rule ingress.rules
      → rule.http_paths ≡ some paths
      → In path paths
      → path.service ≡ some backend
      → In (record { namespace = ingress.namespace; name = backend.name }) result.used_services
  unfolding reconcile_ingress
  reconcile_ingress-used_services state ingress result rule paths path backend e i n j o =
      elim (Option-cases state.config) [
        | inl none_yet ↦ let bad : panic ≡ value (ok result) = rw none_yet at e in cc
        | inr (conf, found) ↦
            let (made, e1, same) =
              after_rules-used_services state conf ingress _ result
                (ran state conf ingress result state.config found e) in
            let (_, all) =
              add_rules-RemembersRule services cluster conf ingress ingress.rules
                empty_configuration made e1 in
            subst (In _) (sym same) (all rule i paths path n j backend o)
      ]
