-- ===== src/Controller/Keyed.antt =====
-- Every entry of the controller's state stands under the name of its ingress.
use s_ingress.Common.Texts.{text_keys}
use s_ingress.Common.{
  Bool, Bool-cases, List, Map, Option, Option-cases, ap, delete, err, false, inl, inr, insert,
  lookup, lookup-delete_cases, lookup-insert_cases, none, ok, some, sym, true, ◌∙◌, ◌≡◌,
}
use s_ingress.Controller.Converter.{Cluster, Fails}
use s_ingress.Controller.Reconcile.{
  IngressController, after_reconcile, reconcile_ingress, reconcile_named, request_reconfigure,
  request_reconfigure_when_relevant, with_state,
}
use s_ingress.Controller.State.{
  IngressConfiguration, IngressEntry, K8sState, bare_entry, is_ingress_relevant,
  mark_ingress_irrelevant, remove_ingress, update_ingress,
}
use s_ingress.Kubernetes.{Ingress, NamespacedName, name_keys, name_of}
use s_ingress.Modules.Services.{Services}
use s_ingress.Proxy.Routing.{Returns, panic, value}

abbrev pub IsKeyed : Map NamespacedName IngressEntry → Type 0
IsKeyed entries =
    (k : NamespacedName) (e : IngressEntry) → lookup k entries ≡ some e → name_of e.ingress ≡ k

pub insert-IsKeyed :
    (entry : IngressEntry) (entries : Map NamespacedName IngressEntry)
    → IsKeyed entries
    → IsKeyed (insert (name_of entry.ingress) entry entries)
insert-IsKeyed entry entries h k e l =
    elim (lookup-insert_cases (name_of entry.ingress) k entry entries) [
      | inl (same, p) ↦ let q : entry ≡ e = cc in sym (ap (λ x. name_of x.ingress) q) ∙ same
      | inr p ↦ h k e (sym p ∙ l)
    ]

delete-IsKeyed :
    (name : NamespacedName) (entries : Map NamespacedName IngressEntry)
    → IsKeyed entries
    → IsKeyed (delete name entries)
delete-IsKeyed name entries h k e l = elim (lookup-delete_cases name k entries) [
  | inl p ↦ cc
  | inr p ↦ h k e (sym p ∙ l)
]

remove_ingress-IsKeyed :
    (s : K8sState) (name : NamespacedName)
    → IsKeyed s.ingresses
    → IsKeyed (remove_ingress s name).0.ingresses
unfolding remove_ingress
remove_ingress-IsKeyed s name h = elim (Option-cases (lookup name s.ingresses)) [
  | inl e ↦ rw (remove_ingress, e) h
  | inr (entry, e) ↦ rw (remove_ingress, e) (delete-IsKeyed name s.ingresses h)
]

mark_ingress_irrelevant-IsKeyed :
    (s : K8sState) (ingress : Ingress)
    → IsKeyed s.ingresses
    → IsKeyed (mark_ingress_irrelevant s ingress).0.ingresses
unfolding mark_ingress_irrelevant
mark_ingress_irrelevant-IsKeyed s ingress h =
    let marked = insert-IsKeyed (bare_entry ingress) s.ingresses h in
    elim (Option-cases (lookup (name_of ingress) s.ingresses)) [
      | inl e ↦ rw (mark_ingress_irrelevant, e) marked
      | inr (entry, e) ↦ rw (mark_ingress_irrelevant, e) marked
    ]

module _ (services : Services) (cluster : Cluster) (ic : IngressController) where
  quiet-IsKeyed :
      (s : K8sState) (relevant : Bool)
      → IsKeyed s.ingresses
      → IsKeyed (request_reconfigure_when_relevant relevant (with_state ic s)).k8s_state.ingresses
  unfolding request_reconfigure_when_relevant
  quiet-IsKeyed s true h = h
  quiet-IsKeyed s false h = h

  after_reconcile-IsKeyed :
      (outcome : Returns (Fails IngressConfiguration)) (ingress : Ingress) (updates : List Ingress)
      → IsKeyed ic.k8s_state.ingresses
      → IsKeyed
          (after_reconcile services cluster ic (record {
            outcome = outcome;
            ingress = ingress;
            updates = updates;
          })).controller.k8s_state.ingresses
  unfolding after_reconcile update_ingress request_reconfigure
  after_reconcile-IsKeyed panic ingress updates h = h
  after_reconcile-IsKeyed (value (err e)) ingress updates h = h
  after_reconcile-IsKeyed (value (ok conf)) ingress updates h =
      insert-IsKeyed (record { ingress = ingress; configuration = some conf })
        ic.k8s_state.ingresses h

  -- Whatever becomes of an ingress, the entries stand under the names of their ingresses
  -- afterwards if they did before.
  pub reconcile_named-IsKeyed :
      (name : NamespacedName) (ingress : Option Ingress)
      → IsKeyed ic.k8s_state.ingresses
      → IsKeyed (reconcile_named services cluster ic name ingress).controller.k8s_state.ingresses
  unfolding reconcile_named
  reconcile_named-IsKeyed name none h =
      quiet-IsKeyed _ (remove_ingress ic.k8s_state name).1
        (remove_ingress-IsKeyed ic.k8s_state name h)
  reconcile_named-IsKeyed name (some ingress) h =
      elim (Bool-cases (is_ingress_relevant ic.k8s_state ingress)) [
        | inl e ↦
            let r = reconcile_ingress services cluster ic.k8s_state ingress in
            rw e (after_reconcile-IsKeyed r.outcome r.ingress r.updates h)
        | inr e ↦ rw e (
            quiet-IsKeyed _ (mark_ingress_irrelevant ic.k8s_state ingress).1
              (mark_ingress_irrelevant-IsKeyed ic.k8s_state ingress h))
      ]
