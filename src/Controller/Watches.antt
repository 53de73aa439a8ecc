-- ===== src/Controller/Watches.antt =====
-- pkg/controller/reconcile.go: which ingresses a change of another object puts into the queue.
use s_ingress.Common.Texts.{Text, text_eq, text_keys}
use s_ingress.Common.{
  Bool, List, Map, Option, [], contains, false, if◌then◌else◌, none, some, ◌&&◌, ◌==◌, ◌||◌, ◌∷◌,
}
use s_ingress.Config.Parse.{ControllerConf}
use s_ingress.Controller.Reconcile.{
  IngressController, add_ingress_class, remove_ingress_class, request_reconcile_common,
}
use s_ingress.Controller.State.{IngressConfiguration, IngressEntry}
use s_ingress.Kubernetes.{Ingress, IngressClass, NamespacedName, name_keys, name_of}

-- Whether the configuration of an entry, if it has one, uses the object.
abbrev pub uses :
    (IngressConfiguration → List NamespacedName) → NamespacedName → IngressEntry → Bool
uses used namespaced entry = elim entry.configuration [
  | none ↦ false
  | some conf ↦ contains (used conf) namespaced
]

-- The loop over the ingresses.
unfoldable pub reconcile_requests :
    (IngressConfiguration → List NamespacedName)
    → NamespacedName
    → Map NamespacedName IngressEntry
    → List NamespacedName
reconcile_requests used namespaced [] = []
reconcile_requests used namespaced ((name, entry) ∷ more) =
    let rest = reconcile_requests used namespaced more in
    if uses used namespaced entry then name ∷ rest else rest

abbrev requests_for :
    (IngressConfiguration → List NamespacedName)
    → NamespacedName
    → IngressController
    → List NamespacedName
requests_for used namespaced ic = reconcile_requests used namespaced ic.k8s_state.ingresses

abbrev pub shared_secret : IngressController → NamespacedName → ControllerConf → Bool
shared_secret ic object conf =
    (text_eq object.name conf.default_tls_secret
      && text_eq object.namespace ic.env_config.namespace)
    || contains conf.used_secrets object

abbrev pub request_common_when : Bool → IngressController → IngressController
request_common_when b ic = if b then request_reconcile_common ic else ic

-- `getIngressReconcilesForSecrets`: the new state of the channels, and the requests.
unfoldable pub get_ingress_reconciles_for_secrets :
    IngressController → NamespacedName → IngressController × List NamespacedName
unfolding reconcile_requests
get_ingress_reconciles_for_secrets ic object = (
  request_common_when
      (elim ic.k8s_state.config [ none ↦ false | some conf ↦ shared_secret ic object conf ]) ic,
  requests_for (λ conf. conf.used_secrets) object ic,
)

-- `getIngressReconcilesForConfigMaps`
unfoldable pub get_ingress_reconciles_for_config_maps :
    IngressController → NamespacedName → IngressController × List NamespacedName
unfolding reconcile_requests
get_ingress_reconciles_for_config_maps ic object =
    if object == ic.env_config.controller_config_map
    then (request_reconcile_common ic, [])
    else (ic, requests_for (λ conf. conf.used_config_maps) object ic)

abbrev pub is_upstream : IngressController → NamespacedName → Option ControllerConf → Bool
is_upstream ic object none = false
is_upstream ic object (some conf) = elim conf.upstream_service_name [
  | none ↦ false
  | some name ↦ text_eq object.name name && text_eq object.namespace ic.env_config.namespace
]

-- `getIngressReconcilesForServices`
unfoldable pub get_ingress_reconciles_for_services :
    IngressController → NamespacedName → IngressController × List NamespacedName
unfolding reconcile_requests
get_ingress_reconciles_for_services ic object =
    if is_upstream ic object ic.k8s_state.config
    then (request_reconcile_common ic, [])
    else (ic, requests_for (λ conf. conf.used_services) object ic)

abbrev has_class : Text → Ingress → Bool
has_class class_name ingress = elim ingress.ingress_class_name [
  | none ↦ false
  | some name ↦ text_eq name class_name
]

-- `getIngressesToRequeueOnClassChange`, on the ingresses that the API server lists.
unfoldable pub get_ingresses_to_requeue_on_class_change : Text → List Ingress → List NamespacedName
get_ingresses_to_requeue_on_class_change class_name [] = []
get_ingresses_to_requeue_on_class_change class_name (ingress ∷ more) =
    let rest = get_ingresses_to_requeue_on_class_change class_name more in
    if has_class class_name ingress then name_of ingress ∷ rest else rest

-- The create and delete events of `getIngressReconcilesForIngressClasses`. A list that fails to
-- be read, `none`, puts nothing into the queue.
unfoldable pub class_created :
    IngressController
    → Option (List Ingress)
    → IngressClass
    → IngressController × List NamespacedName
class_created ic listed class = (
  add_ingress_class ic class,
  elim listed [
    | none ↦ []
    | some items ↦ get_ingresses_to_requeue_on_class_change class.name items
  ],
)

unfoldable pub class_deleted :
    IngressController
    → Option (List Ingress)
    → IngressClass
    → IngressController × List NamespacedName
class_deleted ic listed class = (
  remove_ingress_class ic class.name,
  elim listed [
    | none ↦ []
    | some items ↦ get_ingresses_to_requeue_on_class_change class.name items
  ],
)
