-- ===== src/Controller/Requeues/Handlers.antt =====
-- pkg/controller/reconcile.go: the requests of the handlers for secrets, config maps and services.
use mathlib.Core.Path.{subst}
use s_ingress.Common.Texts.{Text, text_eq, text_keys}
use s_ingress.Common.{
  &&-eq-true, Bool, Bool-cases, In, Option, [], ap, false, inl, inr, none, refl, some, sym, true,
  ◌&&◌, ◌==◌, ◌↔◌, ◌∙◌, ◌≡◌, ◌≢◌,
}
use s_ingress.Config.Parse.{ControllerConf}
use s_ingress.Controller.Reconcile.{IngressController}
use s_ingress.Controller.Requeues.{In-reconcile_requests_iff, IsUser}
use s_ingress.Controller.Watches.{
  get_ingress_reconciles_for_config_maps, get_ingress_reconciles_for_secrets,
  get_ingress_reconciles_for_services, is_upstream,
}
use s_ingress.Kubernetes.{NamespacedName, name_keys}

-- The object is the service of the controller itself.
pub record IsUpstream (ic : IngressController) (object : NamespacedName) : Type 0 where
  pub conf : ControllerConf
  pub name : Text
  pub configured : ic.k8s_state.config ≡ some conf
  pub chosen : conf.upstream_service_name ≡ some name
  pub is_object : object ≡ record { namespace = ic.env_config.namespace; name = name }

abbrev IsNamed : IngressController → NamespacedName → ControllerConf → Type 0
IsNamed ic object conf =
    (name : Text) × (conf.upstream_service_name ≡ some name)
    × (object ≡ record { namespace = ic.env_config.namespace; name = name })

named-by :
    {object : NamespacedName} {m n : Text}
    → object.name ≡ n
    → object.namespace ≡ m
    → object ≡ record { namespace = m; name = n }
named-by p q = rw (sym p, sym q) refl

is_upstream-named :
    (ic : IngressController) (object : NamespacedName) (o : Option Text)
    → ((elim o [
      | none ↦ false
      | some name ↦ text_eq object.name name && text_eq object.namespace ic.env_config.namespace
    ])
        ≡ true)
      ↔ ((name : Text) × (o ≡ some name)
          × (object ≡ record { namespace = ic.env_config.namespace; name = name }))
is_upstream-named ic object none = (λ e. cc, λ (name, e, f). cc)
is_upstream-named ic object (some name) = (
  λ e.
      let (a, b) =
        &&-eq-true (text_eq object.name name) (text_eq object.namespace ic.env_config.namespace)
          e in
      let p = (text_keys.beq_iff object.name name).0 a in
      let q = (text_keys.beq_iff object.namespace ic.env_config.namespace).0 b in
      (name, refl, named-by p q),
  λ (other, e, f).
      let same : other ≡ name = cc in
      let p = (text_keys.beq_iff object.name name).1 (ap (λ x. x.name) f ∙ same) in
      let q =
        (text_keys.beq_iff object.namespace ic.env_config.namespace).1 (ap (λ x. x.namespace) f) in
      rw (p, q) refl,
)

is_upstream-at :
    (ic : IngressController) (object : NamespacedName) (o : Option ControllerConf)
    → (is_upstream ic object o ≡ true) ↔ (
        (conf : ControllerConf) × (o ≡ some conf)
        × (name : Text) × (conf.upstream_service_name ≡ some name)
        × (object ≡ record { namespace = ic.env_config.namespace; name = name }))
is_upstream-at ic object none = (λ e. cc, λ (conf, e, n, f, g). cc)
is_upstream-at ic object (some conf) =
    let at = is_upstream-named ic object conf.upstream_service_name in
    (
      λ e. let (n, f, g) = at.0 e in (conf, refl, n, f, g),
      λ (other, e, n, f, g).
          let same : other ≡ conf = cc in at.1 (subst (IsNamed ic object) same (n, f, g)),
    )

is_upstream_iff :
    (ic : IngressController) (object : NamespacedName)
    → (is_upstream ic object ic.k8s_state.config ≡ true) ↔ IsUpstream ic object
is_upstream_iff ic object =
    let at = is_upstream-at ic object ic.k8s_state.config in
    (
      λ e.
          let (conf, c, name, n, o) = at.0 e in
          record { conf = conf; name = name; configured = c; chosen = n; is_object = o },
      λ u. at.1 (u.conf, u.configured, u.name, u.chosen, u.is_object),
    )

not-both : {A : Type 0} {b : Bool} → ((b ≡ true) ↔ A) → b ≡ false → ¬ A
not-both h e a = let t = h.1 a in cc

no-name : {A : Type 0} {name : NamespacedName} → In name [] → A
no-name i = elim i [ ]

config_maps_iff :
    (ic : IngressController) (object name : NamespacedName)
    → In name (get_ingress_reconciles_for_config_maps ic object).1
      ↔ (object ≢ ic.env_config.controller_config_map)
        × IsUser (λ conf. conf.used_config_maps) object name ic.k8s_state.ingresses
unfolding get_ingress_reconciles_for_config_maps
config_maps_iff ic object name =
    let same = name_keys.beq_iff object ic.env_config.controller_config_map in
    let users =
      In-reconcile_requests_iff (λ conf. conf.used_config_maps) object ic.k8s_state.ingresses
        name in
    elim (Bool-cases (object == ic.env_config.controller_config_map)) [
      | inl y ↦ rw y (λ i. no-name i, λ (n, u). absurd (n (same.0 y)))
      | inr n ↦ rw n (λ i. (not-both same n, users.0 i), λ (m, u). users.1 u)
    ]

services_iff :
    (ic : IngressController) (object name : NamespacedName)
    → In name (get_ingress_reconciles_for_services ic object).1
      ↔ (¬ IsUpstream ic object)
        × IsUser (λ conf. conf.used_services) object name ic.k8s_state.ingresses
unfolding get_ingress_reconciles_for_services
services_iff ic object name =
    let same = is_upstream_iff ic object in
    let users =
      In-reconcile_requests_iff (λ conf. conf.used_services) object ic.k8s_state.ingresses name in
    elim (Bool-cases (is_upstream ic object ic.k8s_state.config)) [
      | inl y ↦ rw y (λ i. no-name i, λ (n, u). absurd (n (same.0 y)))
      | inr n ↦ rw n (λ i. (not-both same n, users.0 i), λ (m, u). users.1 u)
    ]

-- A change of a secret puts exactly the ingresses into the queue whose configuration uses it. A
-- change of a config map does so, unless it is the one of the controller, and a change of a service,
-- unless it is the upstream service of the controller: these put no ingress into the queue.
pub requests_iff :
    (ic : IngressController) (object name : NamespacedName)
    → (In name (get_ingress_reconciles_for_secrets ic object).1
        ↔ IsUser (λ conf. conf.used_secrets) object name ic.k8s_state.ingresses)
      × (In name (get_ingress_reconciles_for_config_maps ic object).1
          ↔ (object ≢ ic.env_config.controller_config_map)
            × IsUser (λ conf. conf.used_config_maps) object name ic.k8s_state.ingresses)
      × (In name (get_ingress_reconciles_for_services ic object).1
          ↔ (¬ IsUpstream ic object)
            × IsUser (λ conf. conf.used_services) object name ic.k8s_state.ingresses)
unfolding get_ingress_reconciles_for_secrets
requests_iff ic object name = (
  In-reconcile_requests_iff (λ conf. conf.used_secrets) object ic.k8s_state.ingresses name,
  config_maps_iff ic object name,
  services_iff ic object name,
)
