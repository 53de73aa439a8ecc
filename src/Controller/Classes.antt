-- ===== src/Controller/Classes.antt =====
-- What the end of an ingress class does to the ingresses of that class.
use s_ingress.Common.Texts.{Text, text_keys}
use s_ingress.Common.{Bool, delete, false, lookup, lookup-delete_same, refl, some, ◌≡◌}
use s_ingress.Controller.Converter.{Cluster}
use s_ingress.Controller.Reconcile.{
  IngressController, reconcile_named, remove_ingress_class, request_reconfigure_when_relevant,
  with_state,
}
use s_ingress.Controller.State.{
  IngressEntry, K8sState, is_ingress_relevant, mark_ingress_irrelevant,
}
use s_ingress.Kubernetes.{Ingress, IngressClass, name_keys, name_of}
use s_ingress.Modules.Services.{Services}

abbrev pub taken : IngressController → IngressController
taken ic = record ic { reconfigure_requested = false }

-- Without its class an ingress belongs to no controller.
irrelevant_without_class :
    (s : K8sState) (class : Text) (ingress : Ingress)
    → ingress.ingress_class_name ≡ some class
    → is_ingress_relevant
        (record s { controller_classes = delete class s.controller_classes })
        ingress
      ≡ false
unfolding is_ingress_relevant
irrelevant_without_class s class ingress e =
    rw (is_ingress_relevant, e, lookup-delete_same class s.controller_classes) refl

mark_quietly :
    (s : K8sState) (entry : IngressEntry) (ingress : Ingress)
    → lookup (name_of ingress) s.ingresses ≡ some entry
    → is_ingress_relevant s entry.ingress ≡ false
    → (mark_ingress_irrelevant s ingress).1 ≡ false
unfolding mark_ingress_irrelevant
mark_quietly s entry ingress l n = rw (mark_ingress_irrelevant, l, n) refl

quiet_request :
    (ic : IngressController) (s : K8sState) (b : Bool)
    → b ≡ false
    → (request_reconfigure_when_relevant b (with_state (taken ic) s)).reconfigure_requested ≡ false
unfolding request_reconfigure_when_relevant
quiet_request ic s b e = rw e refl

module _ (services : Services) (cluster : Cluster) where
  -- An ingress class goes away, the loop takes the request for a new proxy configuration, and then
  -- an ingress of that class is handled, whose entry had the same class: no new configuration is
  -- requested.
  pub remove_ingress_class-quiet :
      (ic : IngressController) (class : Text) (found : IngressClass) (entry : IngressEntry)
      (ingress : Ingress)
      → lookup class ic.k8s_state.controller_classes ≡ some found
      → lookup (name_of ingress) ic.k8s_state.ingresses ≡ some entry
      → entry.ingress.ingress_class_name ≡ some class
      → ingress.ingress_class_name ≡ some class
      → (reconcile_named services cluster
          (taken (remove_ingress_class ic class))
          (name_of ingress)
          (some ingress)).controller.reconfigure_requested
        ≡ false
  unfolding reconcile_named remove_ingress_class
  remove_ingress_class-quiet ic class found entry ingress c l e i =
      let s = record ic.k8s_state {
        controller_classes = delete class ic.k8s_state.controller_classes;
      } in
      let quiet =
        mark_quietly s entry ingress l
          (irrelevant_without_class ic.k8s_state class entry.ingress e) in
      rw (remove_ingress_class, c, irrelevant_without_class ic.k8s_state class ingress i)
        (quiet_request ic _ _ quiet)
