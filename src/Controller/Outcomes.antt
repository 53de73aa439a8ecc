-- ===== src/Controller/Outcomes.antt =====
-- pkg/controller/ingress.go: what `ReconcileIngress` may change of the controller.
use s_ingress.Common.Texts.{Text, text_keys}
use s_ingress.Common.{
  Bool, Bool-cases, List, Map, Option, Option-cases, beq_ne, delete, err, false, inl, inr, insert,
  lookup, lookup-delete, lookup-insert_cases, none, not, ok, refl, some, sym, true, ◌||◌, ◌∙◌, ◌≡◌,
  ◌≢◌,
}
use s_ingress.Config.Parse.{ControllerConf}
use s_ingress.Controller.Converter.{Cluster, Fails}
use s_ingress.Controller.Reconcile.{
  Handled, IngressController, after_reconcile, after_rules, ensure_active_ingress_status,
  handled_quietly, reconcile_ingress, reconcile_named, reconcile_with, request_reconfigure,
  request_reconfigure_when_relevant, status_unset,
}
use s_ingress.Controller.State.{
  IngressConfiguration, IngressEntry, bare_entry, is_ingress_relevant, mark_ingress_irrelevant,
  remove_ingress, update_ingress,
}
use s_ingress.Kubernetes.{Ingress, NamespacedName, name_keys, name_of}
use s_ingress.Modules.Services.{Services}
use s_ingress.Proxy.Routing.{Returns, panic, value}

-- The name of the entry that a call of `ReconcileIngress` is about.
abbrev pub entry_name : NamespacedName → Option Ingress → NamespacedName
entry_name name none = name
entry_name name (some ingress) = name_of ingress

-- What a reconciliation leaves as it was.
pub record Keeps (ic : IngressController) (name : NamespacedName) (h : Handled) : Type 0 where
  pub after_failure : h.result ≢ value none → h.controller ≡ ic
  pub others :
      (other : NamespacedName)
      → other ≢ name
      → lookup other h.controller.k8s_state.ingresses ≡ lookup other ic.k8s_state.ingresses
  pub config : h.controller.k8s_state.config ≡ ic.k8s_state.config
  pub classes : h.controller.k8s_state.controller_classes ≡ ic.k8s_state.controller_classes
  pub common : h.controller.reconcile_common_requested ≡ ic.reconcile_common_requested

insert-other :
    (name other : NamespacedName) (entry : IngressEntry) (m : Map NamespacedName IngressEntry)
    → other ≢ name
    → lookup other (insert name entry m) ≡ lookup other m
insert-other name other entry m n = elim (lookup-insert_cases name other entry m) [
  | inl (same, e) ↦ absurd (n (sym same))
  | inr e ↦ e
]

delete-other :
    (name other : NamespacedName) (m : Map NamespacedName IngressEntry)
    → other ≢ name
    → lookup other (delete name m) ≡ lookup other m
delete-other name other m n =
    rw (lookup-delete name other m, beq_ne name other (λ e. n (sym e))) refl

module _ (services : Services) (cluster : Cluster) (ic : IngressController) where
  quietly-Keeps :
      (name : NamespacedName) (m : Map NamespacedName IngressEntry) (relevant : Bool)
      → ((other : NamespacedName)
          → other ≢ name
          → lookup other m ≡ lookup other ic.k8s_state.ingresses)
      → Keeps ic name
          (handled_quietly services cluster ic (record ic.k8s_state { ingresses = m }, relevant))
  unfolding request_reconfigure_when_relevant request_reconfigure
  quietly-Keeps name m true h = record {
    after_failure = λ n. absurd (n refl);
    others = h;
    config = refl;
    classes = refl;
    common = refl;
  }
  quietly-Keeps name m false h = record {
    after_failure = λ n. absurd (n refl);
    others = h;
    config = refl;
    classes = refl;
    common = refl;
  }

  failed-Keeps :
      (name : NamespacedName) (result : Returns (Option Text)) (updates : List Ingress)
      → Keeps ic name (record { controller = ic; result = result; updates = updates })
  failed-Keeps name result updates = record {
    after_failure = λ n. refl;
    others = λ other n. refl;
    config = refl;
    classes = refl;
    common = refl;
  }

  after_reconcile-Keeps :
      (name : NamespacedName) (outcome : Returns (Fails IngressConfiguration)) (ingress : Ingress)
      (updates : List Ingress)
      → name_of ingress ≡ name
      → Keeps ic name (
          after_reconcile services cluster ic
            (record { outcome = outcome; ingress = ingress; updates = updates }))
  unfolding after_reconcile update_ingress request_reconfigure
  after_reconcile-Keeps name panic ingress updates e = failed-Keeps name panic updates
  after_reconcile-Keeps name (value (err m)) ingress updates e = failed-Keeps name _ updates
  after_reconcile-Keeps name (value (ok conf)) ingress updates e = record {
    after_failure = λ n. absurd (n refl);
    others =
        λ other n. insert-other (name_of ingress) other _ ic.k8s_state.ingresses (λ q. n (q ∙ e));
    config = refl;
    classes = refl;
    common = refl;
  }

  after_rules-name :
      (conf : ControllerConf) (ingress : Ingress) (o : Returns (Fails IngressConfiguration))
      → name_of (after_rules services cluster ic.k8s_state conf ingress o).ingress ≡ name_of ingress
  unfolding after_rules ensure_active_ingress_status
  after_rules-name conf ingress panic = refl
  after_rules-name conf ingress (value (err m)) = refl
  after_rules-name conf ingress (value (ok c)) =
      elim (Bool-cases (conf.disable_status_update || not (status_unset ingress.load_balancer))) [
        | inl b ↦ rw b refl
        | inr b ↦ elim (Option-cases ic.k8s_state.ingress_load_balancer_status) [
          | inl s ↦ rw (b, s) refl
          | inr (status, s) ↦ rw (b, s) refl
        ]
      ]

  reconcile_with-name :
      (ingress : Ingress) (o : Option ControllerConf)
      → name_of (reconcile_with services cluster ic.k8s_state ingress o).ingress ≡ name_of ingress
  reconcile_with-name ingress none = refl
  reconcile_with-name ingress (some conf) = after_rules-name conf ingress _

  reconcile_ingress-name :
      (ingress : Ingress)
      → name_of (reconcile_ingress services cluster ic.k8s_state ingress).ingress ≡ name_of ingress
  unfolding reconcile_ingress
  reconcile_ingress-name ingress = reconcile_with-name ingress ic.k8s_state.config

  remove_ingress-Keeps :
      (name : NamespacedName)
      → Keeps ic name (handled_quietly services cluster ic (remove_ingress ic.k8s_state name))
  unfolding remove_ingress
  remove_ingress-Keeps name = elim (Option-cases (lookup name ic.k8s_state.ingresses)) [
    | inl h ↦
        rw (remove_ingress, h) (quietly-Keeps name ic.k8s_state.ingresses false (λ other n. refl))
    | inr (entry, h) ↦
        rw (remove_ingress, h)
          (quietly-Keeps name (delete name ic.k8s_state.ingresses) _
            (λ other n. delete-other name other ic.k8s_state.ingresses n))
  ]

  mark_ingress_irrelevant-Keeps :
      (ingress : Ingress)
      → Keeps ic
          (name_of ingress)
          (handled_quietly services cluster ic (mark_ingress_irrelevant ic.k8s_state ingress))
  unfolding mark_ingress_irrelevant
  mark_ingress_irrelevant-Keeps ingress =
      let marked = λ (relevant : Bool).
        quietly-Keeps (name_of ingress)
          (insert (name_of ingress) (bare_entry ingress) ic.k8s_state.ingresses) relevant
          (λ other n. insert-other (name_of ingress) other _ ic.k8s_state.ingresses n) in
      elim (Option-cases (lookup (name_of ingress) ic.k8s_state.ingresses)) [
        | inl h ↦ rw (mark_ingress_irrelevant, h) (marked false)
        | inr (entry, h) ↦ rw (mark_ingress_irrelevant, h) (marked _)
      ]

  pub reconcile_named-Keeps :
      (name : NamespacedName) (ingress : Option Ingress)
      → Keeps ic (entry_name name ingress) (reconcile_named services cluster ic name ingress)
  unfolding reconcile_named
  reconcile_named-Keeps name none = remove_ingress-Keeps name
  reconcile_named-Keeps name (some ingress) =
      elim (Bool-cases (is_ingress_relevant ic.k8s_state ingress)) [
        | inl e ↦ rw e (
            let r = reconcile_ingress services cluster ic.k8s_state ingress in
            after_reconcile-Keeps (name_of ingress) r.outcome r.ingress r.updates
              (reconcile_ingress-name ingress))
        | inr e ↦ rw e (mark_ingress_irrelevant-Keeps ingress)
      ]
