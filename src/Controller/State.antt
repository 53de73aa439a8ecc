-- ===== src/Controller/State.antt =====
-- pkg/controller/state.go: what the controller knows of the cluster. The methods run under the lock.
use s_ingress.Common.Texts.{Text, text_eq, text_keys}
use s_ingress.Common.{Bool, List, Map, Option, delete, false, insert, lookup, none, some}
use s_ingress.Config.Parse.{ControllerConf}
use s_ingress.Kubernetes.{
  Ingress, IngressClass, LoadBalancerIngress, NamespacedName, name_keys, name_of,
}
use s_ingress.Proxy.Routing.{HostConfig, TcpProxyConfig}

-- `IngressConfiguration` of converter.go
pub record IngressConfiguration : Type 0 where
  pub used_secrets : List NamespacedName
  pub used_config_maps : List NamespacedName
  pub used_services : List NamespacedName
  pub hosts : Map Text HostConfig
  pub tls_certificates : Map Text Text

-- `IngressEntry`; the configuration is nil for an ingress of another controller.
pub record IngressEntry : Type 0 where
  pub ingress : Ingress
  pub configuration : Option IngressConfiguration

pub record K8sState : Type 0 where
  pub config : Option ControllerConf
  pub controller_name : Text
  pub controller_classes : Map Text IngressClass
  pub ingresses : Map NamespacedName IngressEntry
  pub tcp_proxies : List TcpProxyConfig
  pub ingress_load_balancer_status : Option (List LoadBalancerIngress)
  pub default_tls_secret : Option Text

unfoldable pub is_ingress_relevant : K8sState → Ingress → Bool
is_ingress_relevant s ingress = elim ingress.ingress_class_name [
  | none ↦ false
  | some ingress_class ↦ elim (lookup ingress_class s.controller_classes) [
    | none ↦ false
    | some class ↦ text_eq class.controller s.controller_name
  ]
]

unfoldable pub update_ingress : K8sState → IngressEntry → K8sState
update_ingress s ingress_config = record s {
  ingresses = insert (name_of ingress_config.ingress) ingress_config s.ingresses;
}

abbrev pub bare_entry : Ingress → IngressEntry
bare_entry ingress = record { ingress = ingress; configuration = none }

-- With whether the entry that was there belonged to this controller.
unfoldable pub mark_ingress_irrelevant : K8sState → Ingress → K8sState × Bool
mark_ingress_irrelevant s ingress =
    let marked = record s {
      ingresses = insert (name_of ingress) (bare_entry ingress) s.ingresses;
    } in
    elim (lookup (name_of ingress) s.ingresses) [
      | none ↦ (marked, false)
      | some entry ↦ (marked, is_ingress_relevant s entry.ingress)
    ]

unfoldable pub remove_ingress : K8sState → NamespacedName → K8sState × Bool
remove_ingress s namespaced = elim (lookup namespaced s.ingresses) [
  | none ↦ (s, false)
  | some entry ↦
      (record s { ingresses = delete namespaced s.ingresses }, is_ingress_relevant s entry.ingress)
]
