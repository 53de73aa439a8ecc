-- ===== src/Controller/Loop/Keeps.antt =====
-- pkg/controller: every handler keeps the configuration of the controller.
use mathlib.Core.Path.{subst}
use s_ingress.Common.Texts.{Text, text_keys}
use s_ingress.Common.{
  Bool, Bool-cases, List, Option, Option-cases, ap, err, false, inl, inr, lookup, none, ok, refl,
  some, true, ◌∙◌, ◌≡◌,
}
use s_ingress.Config.Parse.{ControllerConf}
use s_ingress.Controller.Converter.{Cluster, Fails}
use s_ingress.Controller.Loop.{
  LoopState, Read, Step, adds_class, after_update, common_taken, config_map_changed,
  deleted_ingress, found_ingress, read_failed, reconcile_read, reconcile_request, reconciles,
  removes_class, secret_changed, service_changed, takes_common, takes_reconfigure,
}
use s_ingress.Controller.Provenance.{some-injective}
use s_ingress.Controller.Reconcile.{
  IngressController, add_ingress_class, after_reconcile, handled_quietly, reconcile_ingress,
  reconcile_named, remove_ingress_class, request_reconcile_common, request_reconfigure,
  request_reconfigure_when_relevant, with_state,
}
use s_ingress.Controller.Shared.Stages.{
  Reconfigures, complete, exits, reconfigure_controller_common_config-Reconfigures, without_config,
  without_tcp, without_tls,
}
use s_ingress.Controller.Shared.{Sources, Update, reconfigure_controller_common_config, updated}
use s_ingress.Controller.State.{
  IngressConfiguration, K8sState, is_ingress_relevant, mark_ingress_irrelevant, remove_ingress,
  update_ingress,
}
use s_ingress.Controller.Watches.{
  class_created, class_deleted, get_ingress_reconciles_for_config_maps,
  get_ingress_reconciles_for_secrets, get_ingress_reconciles_for_services, is_upstream,
  request_common_when,
}
use s_ingress.Kubernetes.{Ingress, NamespacedName, name_eq, name_keys, name_of}
use s_ingress.Modules.Services.{Services}
use s_ingress.Proxy.Routing.{Returns, panic, value}

-- A controller that has a configuration.
abbrev pub HasConfig : IngressController → Type 0
HasConfig ic = (conf : ControllerConf) × (ic.k8s_state.config ≡ some conf)

-- The second controller has the configuration of the first.
abbrev Keeps : IngressController → IngressController → Type 0
Keeps ic ic' = ic'.k8s_state.config ≡ ic.k8s_state.config

request_when-Keeps :
    (b : Bool) (ic : IngressController) → Keeps ic (request_reconfigure_when_relevant b ic)
unfolding request_reconfigure_when_relevant request_reconfigure
request_when-Keeps true ic = refl
request_when-Keeps false ic = refl

handled_quietly-Keeps :
    (services : Services) (cluster : Cluster) (ic : IngressController) (p : K8sState × Bool)
    → p.0.config ≡ ic.k8s_state.config
    → Keeps ic (handled_quietly services cluster ic p).controller
handled_quietly-Keeps services cluster ic (s, b) e = request_when-Keeps b (with_state ic s) ∙ e

remove_ingress-config :
    (s : K8sState) (n : NamespacedName) → (remove_ingress s n).0.config ≡ s.config
unfolding remove_ingress
remove_ingress-config s n = elim (Option-cases (lookup n s.ingresses)) [
  | inl e ↦ rw (e, remove_ingress) refl
  | inr (x, e) ↦ rw (e, remove_ingress) refl
]

mark_ingress_irrelevant-config :
    (s : K8sState) (ingress : Ingress) → (mark_ingress_irrelevant s ingress).0.config ≡ s.config
unfolding mark_ingress_irrelevant
mark_ingress_irrelevant-config s ingress =
    elim (Option-cases (lookup (name_of ingress) s.ingresses)) [
      | inl e ↦ rw (e, mark_ingress_irrelevant) refl
      | inr (x, e) ↦ rw (e, mark_ingress_irrelevant) refl
    ]

module _ (services : Services) (cluster : Cluster) where
  after_reconcile-Keeps :
      (ic : IngressController) (o : Returns (Fails IngressConfiguration)) (ingress : Ingress)
      (updates : List Ingress)
      → Keeps ic
          (after_reconcile services cluster ic
            (record { outcome = o; ingress = ingress; updates = updates })).controller
  unfolding after_reconcile request_reconfigure update_ingress
  after_reconcile-Keeps ic panic ingress updates = refl
  after_reconcile-Keeps ic (value (err e)) ingress updates = refl
  after_reconcile-Keeps ic (value (ok conf)) ingress updates = refl

  reconcile_named-Keeps :
      (ic : IngressController) (n : NamespacedName) (ingress : Option Ingress)
      → Keeps ic (reconcile_named services cluster ic n ingress).controller
  unfolding reconcile_named
  reconcile_named-Keeps ic n none =
      handled_quietly-Keeps services cluster ic _ (remove_ingress-config ic.k8s_state n)
  reconcile_named-Keeps ic n (some ingress) =
      elim (Bool-cases (is_ingress_relevant ic.k8s_state ingress)) [
        | inl e ↦ rw e (
            let r = reconcile_ingress services cluster ic.k8s_state ingress in
            after_reconcile-Keeps ic r.outcome r.ingress r.updates)
        | inr e ↦ rw e (
            handled_quietly-Keeps services cluster ic _
              (mark_ingress_irrelevant-config ic.k8s_state ingress))
      ]

request_common_when-Keeps :
    (b : Bool) (ic : IngressController) → Keeps ic (request_common_when b ic)
unfolding request_reconcile_common
request_common_when-Keeps true ic = refl
request_common_when-Keeps false ic = refl

remove_ingress_class-Keeps :
    (ic : IngressController) (name : Text) → Keeps ic (remove_ingress_class ic name)
unfolding remove_ingress_class request_reconfigure
remove_ingress_class-Keeps ic name =
    elim (Option-cases (lookup name ic.k8s_state.controller_classes)) [
      | inl e ↦ rw (e, remove_ingress_class) refl
      | inr (x, e) ↦ rw (e, remove_ingress_class) refl
    ]

module _ (ic : IngressController) (object : NamespacedName) where
  secrets-Keeps : Keeps ic (get_ingress_reconciles_for_secrets ic object).0
  unfolding get_ingress_reconciles_for_secrets
  secrets-Keeps = request_common_when-Keeps _ ic

  config_maps-Keeps : Keeps ic (get_ingress_reconciles_for_config_maps ic object).0
  unfolding get_ingress_reconciles_for_config_maps request_reconcile_common
  config_maps-Keeps = elim (Bool-cases (name_eq object ic.env_config.controller_config_map)) [
    | inl e ↦ rw e refl
    | inr e ↦ rw e refl
  ]

  services-Keeps : Keeps ic (get_ingress_reconciles_for_services ic object).0
  unfolding get_ingress_reconciles_for_services request_reconcile_common
  services-Keeps = elim (Bool-cases (is_upstream ic object ic.k8s_state.config)) [
    | inl e ↦ rw e refl
    | inr e ↦ rw e refl
  ]

module _ (sources : Sources) where
  reconcile_read-Keeps :
      (ic : IngressController) (name : NamespacedName) (result : Read)
      → Keeps ic (reconcile_read sources ic name result).0
  reconcile_read-Keeps ic name read_failed = refl
  reconcile_read-Keeps ic name deleted_ingress =
      reconcile_named-Keeps sources.services sources.cluster ic name none
  reconcile_read-Keeps ic name (found_ingress ingress) =
      reconcile_named-Keeps sources.services sources.cluster ic name (some ingress)

  reconcile_request-Keeps :
      (ic : IngressController) (name : NamespacedName) (result : Read)
      → Keeps ic (reconcile_request sources ic name result).0
  unfolding reconcile_request
  reconcile_request-Keeps ic name result = elim (Option-cases ic.k8s_state.config) [
    | inl e ↦ rw (e, reconcile_request) e
    | inr (conf, e) ↦ rw (e, reconcile_request) (reconcile_read-Keeps ic name result ∙ e)
  ]

  after_update-HasConfig :
      (ic : IngressController) (u : Update) {ic' : IngressController}
      → Reconfigures sources ic u
      → HasConfig ic
      → after_update u ≡ some ic'
      → HasConfig ic'
  unfolding request_reconfigure
  after_update-HasConfig ic u (exits _) h e = cc
  after_update-HasConfig ic u (without_config m _) h e = subst HasConfig (some-injective _ refl e) h
  after_update-HasConfig ic u (without_tls m conf used q _) h e =
      subst HasConfig (some-injective _ refl e) (conf, refl)
  after_update-HasConfig ic u (without_tcp m conf used cert q t _) h e =
      subst HasConfig (some-injective _ refl e) (conf, refl)
  after_update-HasConfig ic u (complete conf used cert proxies q t p) h e =
      subst HasConfig (some-injective _ refl e) (conf, refl)

  pub Step-HasConfig :
      {s t : LoopState} → Step sources s t → HasConfig s.controller → HasConfig t.controller
  unfolding class_created class_deleted add_ingress_class request_reconfigure
  Step-HasConfig {s} (takes_common q e) h =
      after_update-HasConfig (common_taken s.controller) _
        (reconfigure_controller_common_config-Reconfigures sources (common_taken s.controller)) h e
  Step-HasConfig (takes_reconfigure q e) h = h
  Step-HasConfig {s} (reconciles name result) h =
      (h.0, reconcile_request-Keeps s.controller name result ∙ h.1)
  Step-HasConfig (adds_class listed class) h = h
  Step-HasConfig {s} (removes_class listed class) h =
      (h.0, remove_ingress_class-Keeps s.controller class.name ∙ h.1)
  Step-HasConfig {s} (secret_changed object) h = (h.0, secrets-Keeps s.controller object ∙ h.1)
  Step-HasConfig {s} (config_map_changed object) h =
      (h.0, config_maps-Keeps s.controller object ∙ h.1)
  Step-HasConfig {s} (service_changed object) h = (h.0, services-Keeps s.controller object ∙ h.1)

  updated-HasConfig :
      (ic ic' : IngressController) (u : Update)
      → Reconfigures sources ic u
      → u ≡ updated ic'
      → HasConfig ic'
  unfolding request_reconfigure
  updated-HasConfig ic ic' u (exits _) e = cc
  updated-HasConfig ic ic' u (without_config m _) e = cc
  updated-HasConfig ic ic' u (without_tls m conf used q _) e = cc
  updated-HasConfig ic ic' u (without_tcp m conf used cert q t _) e = cc
  updated-HasConfig ic ic' u (complete conf used cert proxies q t p) e =
      subst HasConfig (some-injective _ refl (ap after_update e)) (conf, refl)

  pub initialized-HasConfig :
      (ic : IngressController) {ic' : IngressController}
      → reconfigure_controller_common_config sources ic ≡ updated ic'
      → HasConfig ic'
  initialized-HasConfig ic e =
      updated-HasConfig ic _ _ (reconfigure_controller_common_config-Reconfigures sources ic) e
