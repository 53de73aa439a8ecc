-- ===== src/Controller/Loop.antt =====
-- pkg/controller/controller.go: the loop `Run`, between the calls of the other goroutines.
pub mod Keeps
pub mod Sends
use s_ingress.Common.Texts.{Text}
use s_ingress.Common.{List, Option, [], err, false, none, ok, some, true, ◌++◌, ◌∷◌, ◌≡◌}
use s_ingress.Controller.Converter.{Fails}
use s_ingress.Controller.ProxyConfig.{get_proxy_config}
use s_ingress.Controller.Reconcile.{Handled, IngressController, reconcile_named}
use s_ingress.Controller.Shared.{
  Sources, Update, not_updated, reconfigure_controller_common_config, update_exits, update_panics,
  updated,
}
use s_ingress.Controller.Watches.{
  class_created, class_deleted, get_ingress_reconciles_for_config_maps,
  get_ingress_reconciles_for_secrets, get_ingress_reconciles_for_services,
}
use s_ingress.Kubernetes.{Ingress, IngressClass, NamespacedName}
use s_ingress.Proxy.Routing.{Returns, RoutingConfig, value}

-- The controller with what the loop has sent to the proxy so far; a configuration is a pointer that
-- may be nil. A send that waits for a slot of the channel is a step that is not taken yet.
pub record LoopState : Type 0 where
  pub controller : IngressController
  pub sent : List (Option RoutingConfig)

-- What is sent for a result of `getProxyConfig`: after an error, nil.
abbrev pub sent_config : Fails RoutingConfig → Option RoutingConfig
sent_config (err e) = none
sent_config (ok conf) = some conf

-- What becomes of the controller by an update of the shared resources, if the process goes on.
abbrev pub after_update : Update → Option IngressController
after_update (updated ic) = some ic
after_update (not_updated e ic) = some ic
after_update update_exits = none
after_update update_panics = none

abbrev pub common_taken : IngressController → IngressController
common_taken ic = record ic { reconcile_common_requested = false }

abbrev pub reconfigure_taken : IngressController → IngressController
reconfigure_taken ic = record ic { reconfigure_requested = false }

-- What the read of an ingress in `Reconcile` of reconcile.go gives.
pub data Read : Type 0 where
  found_ingress : Ingress → Read
  deleted_ingress read_failed : Read

-- How `Reconcile` ends: it waits for a first configuration, it gives up where the ingress cannot be
-- read, or it hands on what `ReconcileIngress` returns.
pub data ReconcileEnd : Type 0 where
  requeued given_up : ReconcileEnd
  reconciled_with : Returns (Option Text) → ReconcileEnd

module _ (sources : Sources) where
  abbrev pub with_result : Handled → IngressController × ReconcileEnd
  with_result h = (h.controller, reconciled_with h.result)

  abbrev pub reconcile_read :
      IngressController → NamespacedName → Read → IngressController × ReconcileEnd
  reconcile_read ic name read_failed = (ic, given_up)
  reconcile_read ic name deleted_ingress =
      with_result (reconcile_named sources.services sources.cluster ic name none)
  reconcile_read ic name (found_ingress ingress) =
      with_result (reconcile_named sources.services sources.cluster ic name (some ingress))

  -- `Reconcile`
  unfoldable pub reconcile_request :
      IngressController → NamespacedName → Read → IngressController × ReconcileEnd
  reconcile_request ic name result = elim ic.k8s_state.config [
    | none ↦ (ic, requeued)
    | some _ ↦ reconcile_read ic name result
  ]

  -- One step: the loop takes one of the two messages, or another goroutine calls a handler.
  pub data Step (s : LoopState) : LoopState → Type 0 where
    takes_common :
        {ic : IngressController}
        → s.controller.reconcile_common_requested ≡ true
        → after_update (reconfigure_controller_common_config sources (common_taken s.controller))
          ≡ some ic
        → Step s (record s { controller = ic })
    takes_reconfigure :
        {r : Fails RoutingConfig}
        → s.controller.reconfigure_requested ≡ true
        → get_proxy_config s.controller.k8s_state ≡ value r
        → Step s (record {
          controller = reconfigure_taken s.controller;
          sent = s.sent ++ sent_config r ∷ [];
        })
    reconciles :
        (name : NamespacedName) (result : Read)
        → Step s (record s { controller = (reconcile_request s.controller name result).0 })
    adds_class :
        (listed : Option (List Ingress)) (class : IngressClass)
        → Step s (record s { controller = (class_created s.controller listed class).0 })
    removes_class :
        (listed : Option (List Ingress)) (class : IngressClass)
        → Step s (record s { controller = (class_deleted s.controller listed class).0 })
    secret_changed :
        (object : NamespacedName)
        → Step s
            (record s { controller = (get_ingress_reconciles_for_secrets s.controller object).0 })
    config_map_changed :
        (object : NamespacedName)
        → Step s (record s {
          controller = (get_ingress_reconciles_for_config_maps s.controller object).0;
        })
    service_changed :
        (object : NamespacedName)
        → Step s
            (record s { controller = (get_ingress_reconciles_for_services s.controller object).0 })

  -- The states after `Init` has succeeded on a controller with nothing sent.
  pub data Reach : LoopState → Type 0 where
    initialized :
        (ic : IngressController) {ic' : IngressController}
        → reconfigure_controller_common_config sources ic ≡ updated ic'
        → Reach (record { controller = ic'; sent = [] })
    stepped : {s t : LoopState} → Reach s → Step s t → Reach t
