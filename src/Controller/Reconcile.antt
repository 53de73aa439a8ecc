-- ===== src/Controller/Reconcile.antt =====
-- pkg/controller/ingress.go, converter.go and controller.go: one ingress, or one class, changes.
use s_ingress.Common.Texts.{Text, codes, text_keys}
use s_ingress.Common.{
  Bool, List, Option, [], delete, err, false, if◌then◌else◌, insert, lookup, none, not, ok, some,
  true, ◌++◌, ◌||◌, ◌∷◌,
}
use s_ingress.Config.Parse.{ControllerConf}
use s_ingress.Controller.Certificates.{process_ingress_tls}
use s_ingress.Controller.Converter.{Cluster, Fails, add_rules}
use s_ingress.Controller.State.{
  IngressConfiguration, K8sState, is_ingress_relevant, mark_ingress_irrelevant, remove_ingress,
  update_ingress,
}
use s_ingress.Kubernetes.{Ingress, IngressClass, LoadBalancerIngress, NamespacedName, name_keys}
use s_ingress.Modules.Services.{Services}
use s_ingress.Proxy.Routing.{Returns, panic, value}

-- pkg/config/env.go, `ControllerEnvConf`
pub record ControllerEnvConf : Type 0 where
  pub namespace : Text
  pub controller_name : Text
  pub controller_config_map : NamespacedName

-- `IngressController`. Its two request channels have room for one message and are written to
-- without waiting: what counts is whether a message is there.
pub record IngressController : Type 0 where
  pub k8s_state : K8sState
  pub reconfigure_requested : Bool
  pub reconcile_common_requested : Bool
  pub env_config : ControllerEnvConf

-- `NewProxyController`
unfoldable pub new_proxy_controller : ControllerEnvConf → IngressController
new_proxy_controller configuration = record {
  k8s_state = record {
    config = none;
    controller_name = configuration.controller_name;
    controller_classes = [];
    ingresses = [];
    tcp_proxies = [];
    ingress_load_balancer_status = none;
    default_tls_secret = none;
  };
  reconfigure_requested = false;
  reconcile_common_requested = false;
  env_config = configuration;
}

-- `RequestReconfigure` and `requestReconfigure`
unfoldable pub request_reconfigure : IngressController → IngressController
request_reconfigure ic = record ic { reconfigure_requested = true }

-- `RequestReconcileCommon`
unfoldable pub request_reconcile_common : IngressController → IngressController
request_reconcile_common ic = record ic { reconcile_common_requested = true }

unfoldable pub request_reconfigure_when_relevant : Bool → IngressController → IngressController
unfolding request_reconfigure
request_reconfigure_when_relevant relevant ic = if relevant then request_reconfigure ic else ic

abbrev pub with_state : IngressController → K8sState → IngressController
with_state ic s = record ic { k8s_state = s }

abbrev pub status_unset : Option (List LoadBalancerIngress) → Bool
status_unset none = true
status_unset (some l) = false

-- `ensureActiveIngressStatus`: the ingress after it, and what is sent to the API server.
unfoldable pub ensure_active_ingress_status :
    K8sState → ControllerConf → Ingress → Ingress × List Ingress
ensure_active_ingress_status state conf ingress =
    if conf.disable_status_update || not (status_unset ingress.load_balancer)
    then (ingress, [])
    else elim state.ingress_load_balancer_status [
      | none ↦ (ingress, [])
      | some status ↦
          let patched = record ingress { load_balancer = some status } in (patched, patched ∷ [])
    ]

-- What a reconciliation comes to: the routes or an error, the ingress as it is then, and the
-- updates of its status.
pub record Reconciled : Type 0 where
  pub outcome : Returns (Fails IngressConfiguration)
  pub ingress : Ingress
  pub updates : List Ingress

abbrev pub empty_configuration : IngressConfiguration
empty_configuration = record {
  used_secrets = [];
  used_config_maps = [];
  used_services = [];
  hosts = [];
  tls_certificates = [];
}

-- What `ReconcileIngress` returns, with the controller and the status updates.
pub record Handled : Type 0 where
  pub controller : IngressController
  pub result : Returns (Option Text)
  pub updates : List Ingress

module _ (services : Services) (cluster : Cluster) where
  unfoldable pub after_rules :
      K8sState → ControllerConf → Ingress → Returns (Fails IngressConfiguration) → Reconciled
  after_rules state conf ingress panic = record { outcome = panic; ingress = ingress; updates = [] }
  after_rules state conf ingress (value (err e)) = record {
    outcome = value (err e);
    ingress = ingress;
    updates = [];
  }
  after_rules state conf ingress (value (ok ingress_config)) =
      let (ingress', updates) = ensure_active_ingress_status state conf ingress in
      record {
        outcome = value (process_ingress_tls services cluster ingress' ingress'.tls ingress_config);
        ingress = ingress';
        updates = updates;
      }

  abbrev pub reconcile_with : K8sState → Ingress → Option ControllerConf → Reconciled
  reconcile_with state ingress none = record { outcome = panic; ingress = ingress; updates = [] }
  reconcile_with state ingress (some conf) =
      after_rules state conf ingress
        (add_rules services cluster conf ingress ingress.rules empty_configuration)

  -- `reconcileIngress`, which reads the configuration through a pointer.
  unfoldable pub reconcile_ingress : K8sState → Ingress → Reconciled
  reconcile_ingress state ingress = reconcile_with state ingress state.config

  unfoldable pub after_reconcile : IngressController → Reconciled → Handled
  after_reconcile ic r = elim r.outcome [
    | panic ↦ record { controller = ic; result = panic; updates = r.updates }
    | value (err e) ↦ record {
      controller = ic;
      result = value (some (codes "error reconciling ingress: " ++ e));
      updates = r.updates;
    }
    | value (ok ingress_config) ↦ record {
      controller = request_reconfigure (
          with_state ic (
            update_ingress ic.k8s_state
              (record { ingress = r.ingress; configuration = some ingress_config })));
      result = value none;
      updates = r.updates;
    }
  ]

  abbrev pub handled_quietly : IngressController → K8sState × Bool → Handled
  handled_quietly ic (s, relevant) = record {
    controller = request_reconfigure_when_relevant relevant (with_state ic s);
    result = value none;
    updates = [];
  }

  -- `ReconcileIngress`; the ingress is nil if it was deleted.
  unfoldable pub reconcile_named : IngressController → NamespacedName → Option Ingress → Handled
  unfolding after_reconcile reconcile_ingress
  reconcile_named ic name none = handled_quietly ic (remove_ingress ic.k8s_state name)
  reconcile_named ic name (some ingress) =
      if is_ingress_relevant ic.k8s_state ingress
      then after_reconcile ic (reconcile_ingress ic.k8s_state ingress)
      else handled_quietly ic (mark_ingress_irrelevant ic.k8s_state ingress)

-- `RemoveIngressClass`
unfoldable pub remove_ingress_class : IngressController → Text → IngressController
unfolding request_reconfigure
remove_ingress_class ic name = elim (lookup name ic.k8s_state.controller_classes) [
  | none ↦ ic
  | some _ ↦ request_reconfigure (
      with_state ic
        (record ic.k8s_state { controller_classes = delete name ic.k8s_state.controller_classes }))
]

-- `AddIngressClass`
unfoldable pub add_ingress_class : IngressController → IngressClass → IngressController
unfolding request_reconfigure
add_ingress_class ic class = request_reconfigure (
    with_state ic (record ic.k8s_state {
      controller_classes = insert class.name class ic.k8s_state.controller_classes;
    }))
