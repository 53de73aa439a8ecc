-- ===== src/Controller/Requeues.antt =====
-- Which ingresses a change of an object puts into the queue.
pub mod Handlers
use mathlib.Core.Path.{subst}
use s_ingress.Common.Texts.{text_keys}
use s_ingress.Common.{
  Bool-cases, In, In-cons, In-contains, List, Map, Option, [], contains, contains-In, false, here,
  inl, inr, none, refl, some, sym, there, true, ◌↔◌, ◌∷◌, ◌≡◌, ◌⊎◌,
}
use s_ingress.Controller.State.{IngressConfiguration, IngressEntry}
use s_ingress.Controller.Watches.{reconcile_requests, uses}
use s_ingress.Kubernetes.{NamespacedName, name_keys}

module _ (used : IngressConfiguration → List NamespacedName) (object : NamespacedName) where
  -- The ingress of the name has a configuration that uses the object.
  pub record IsUser (name : NamespacedName) (entries : Map NamespacedName IngressEntry)
      : Type 0 where
    pub entry : IngressEntry
    pub conf : IngressConfiguration
    pub listed : In (name, entry) entries
    pub configured : entry.configuration ≡ some conf
    pub uses_it : In object (used conf)

  uses_iff :
      (o : Option IngressConfiguration)
      → ((elim o [ none ↦ false | some conf ↦ contains (used conf) object ]) ≡ true)
        ↔ ((conf : IngressConfiguration) × (o ≡ some conf) × In object (used conf))
  uses_iff none = (λ e. cc, λ (conf, e, m). cc)
  uses_iff (some conf) = (
    λ e. (conf, refl, contains-In (used conf) object e),
    λ (other, e, m).
        let same : other ≡ conf = cc in In-contains (subst (λ c. In object (used c)) same m),
  )

  IsUser-there :
      (p : NamespacedName × IngressEntry) {name : NamespacedName}
      {entries : Map NamespacedName IngressEntry}
      → IsUser name entries
      → IsUser name (p ∷ entries)
  IsUser-there p u = record {
    entry = u.entry;
    conf = u.conf;
    listed = there u.listed;
    configured = u.configured;
    uses_it = u.uses_it;
  }

  abbrev UsesAt : IngressEntry → Type 0
  UsesAt entry =
      (conf : IngressConfiguration) × (entry.configuration ≡ some conf) × In object (used conf)

  split-IsUser :
      (p : NamespacedName × IngressEntry) (name : NamespacedName) (entry : IngressEntry)
      {entries : Map NamespacedName IngressEntry}
      → In (name, entry) (p ∷ entries)
      → UsesAt entry
      → ((name ≡ p.0) × UsesAt p.1) ⊎ IsUser name entries
  split-IsUser p name entry here u = inl (refl, u)
  split-IsUser p name entry (there m) (conf, e, i) =
      inr (record { entry = entry; conf = conf; listed = m; configured = e; uses_it = i })

  IsUser-here :
      (name : NamespacedName) (entry : IngressEntry) (entries : Map NamespacedName IngressEntry)
      → UsesAt entry
      → IsUser name ((name, entry) ∷ entries)
  IsUser-here name entry entries (conf, e, i) = record {
    entry = entry;
    conf = conf;
    listed = here;
    configured = e;
    uses_it = i;
  }

  -- A change of an object puts exactly the ingresses into the queue whose configuration uses it.
  pub In-reconcile_requests_iff :
      (entries : Map NamespacedName IngressEntry) (name : NamespacedName)
      → In name (reconcile_requests used object entries) ↔ IsUser name entries
  unfolding reconcile_requests
  In-reconcile_requests_iff [] name = (λ i. elim i [ ], λ u. elim u.listed [ ])
  In-reconcile_requests_iff ((k, entry) ∷ more) name =
      let rest = In-reconcile_requests_iff more name in
      elim (Bool-cases (uses used object entry)) [
        | inl e ↦ rw e (
          λ i. elim (In-cons i) [
            | inl same ↦
                subst (λ x. IsUser x ((k, entry) ∷ more)) (sym same)
                  (IsUser-here k entry more ((uses_iff entry.configuration).0 e))
            | inr j ↦ IsUser-there (k, entry) (rest.0 j)
          ],
          λ u.
              elim (split-IsUser (k, entry) name u.entry u.listed
                (u.conf, u.configured, u.uses_it)) [
                  | inl (same, _) ↦
                      subst (λ x. In x (k ∷ reconcile_requests used object more)) (sym same) here
                  | inr v ↦ there (rest.1 v)
                ],
        )
        | inr e ↦ rw e (
          λ i. IsUser-there (k, entry) (rest.0 i),
          λ u.
              elim (split-IsUser (k, entry) name u.entry u.listed
                (u.conf, u.configured, u.uses_it)) [
                  | inl (_, at) ↦ let yes = (uses_iff entry.configuration).1 at in cc
                  | inr v ↦ rest.1 v
                ],
        )
      ]
