-- ===== src/Proxy/Routing/Paths.antt =====
-- The paths that a route matches.
use s_ingress.Common.Texts.{Text, has_prefix, text_eq, text_eq_iff}
use s_ingress.Common.{
  &&-eq-true, Bool-cases, [], ap, arith, inl, inr, nat_eq_iff, refl, true, ℕ, ◌++◌, ◌↔◌, ◌∙◌, ◌∷◌,
  ◌≡◌, ◌≢◌, ◌⊎◌,
}
use s_ingress.Proxy.Routing.{
  RouteConfig, init, matches_path, matches_prefix, path_type_prefix, value,
}

pub has_prefix_iff : (s p : Text) → (has_prefix s p ≡ true) ↔ ((rest : Text) × (s ≡ p ++ rest))
unfolding has_prefix
has_prefix_iff s [] = (λ h. (s, refl), λ h. refl)
has_prefix_iff [] (b ∷ p) = (λ h. cc, λ h. cc (h.1))
has_prefix_iff (a ∷ s) (b ∷ p) = (
  λ h.
      let (same, more) = &&-eq-true _ _ h in
      let (rest, e) = (has_prefix_iff s p).0 more in
      let q : a ≡ b = (nat_eq_iff a b).0 same in (rest, cc (q, e)),
  λ (rest, e). ground (arith, e, (has_prefix_iff s p).1 (rest, ground (arith, e))),
)

init-append : (s : Text) (c : ℕ) → init (s ++ c ∷ []) ≡ s
init-append [] c = refl
init-append (a ∷ []) c = refl
init-append (a ∷ b ∷ s) c = ap (λ t. a ∷ t) (init-append (b ∷ s) c)

split_last : (a : ℕ) (s : Text) → (c : ℕ) × (a ∷ s ≡ init (a ∷ s) ++ c ∷ [])
split_last a [] = (a, refl)
split_last a (b ∷ s) = let (c, e) = split_last b s in (c, ap (λ t. a ∷ t) e)

matches_prefix_iff :
    (p raw_path : Text)
    → p ≢ []
    → (matches_prefix p raw_path ≡ value true)
      ↔ (((rest : Text) × (raw_path ≡ p ++ rest)) ⊎ ((c : ℕ) × (p ≡ raw_path ++ c ∷ [])))
unfolding matches_prefix
matches_prefix_iff [] raw_path h = absurd (h refl)
matches_prefix_iff (a ∷ s) raw_path h = (
  λ m. elim (Bool-cases (text_eq (init (a ∷ s)) raw_path)) [
    | inl same ↦
        let (c, e) = split_last a s in
        let q : init (a ∷ s) ≡ raw_path = (text_eq_iff _ _).0 same in inr (c, rw q at e)
    | inr other ↦ inl ((has_prefix_iff raw_path (a ∷ s)).0 (ground (arith, m, other)))
  ],
  elim [
    | inl (rest, e) ↦ ground (arith, (has_prefix_iff raw_path (a ∷ s)).1 (rest, e))
    | inr (c, e) ↦
        ground (arith, (text_eq_iff (init (a ∷ s)) raw_path).1 (ap init e ∙ init-append raw_path c))
  ],
)

-- A prefix route whose path is not empty matches exactly the paths that continue its path, and
-- the one that its path continues by a single byte, whatever that byte is.
pub matches_path_iff :
    (r : RouteConfig) (raw_path : Text)
    → r.path_type ≡ path_type_prefix
    → r.path ≢ []
    → (matches_path r raw_path ≡ value true)
      ↔ (((rest : Text) × (raw_path ≡ r.path ++ rest)) ⊎ ((c : ℕ) × (r.path ≡ raw_path ++ c ∷ [])))
unfolding matches_path
matches_path_iff r raw_path e h = rw e (matches_prefix_iff r.path raw_path h)
