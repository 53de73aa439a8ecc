-- ===== src/Proxy/Routing/Hosts.antt =====
-- The lookup of hosts.
use s_ingress.Common.Texts.{Text, codes, index, split, split_cons, text_eq, text_keys}
use s_ingress.Common.{
  All, Option, [], any, arith, beq_ne, beq_refl, drop, false, insert, length, lookup, lookup-insert,
  ltb, none, ok, prefix-eq-nil, refl, some, ◌++◌, ◌∷◌, ◌≡◌, ◌≢◌,
}
use s_ingress.Proxy.Routing.{HostConfig, RoutingConfig, add_host, lookup_host, normalize_host}

abbrev pub HasNoDot : Text → Type 0
HasNoDot = All (λ c. c ≢ b'.')

abbrev pub first_of_two {ℓ} : {A : Type ℓ} → Option A → Option A → Option A
first_of_two (some a) o = some a
first_of_two none o = o

index-label :
    (label rest : Text) → HasNoDot label → index (label ++ b'.' ∷ rest) b'.' ≡ some (length label)
unfolding index
index-label [] rest h = refl
index-label (a ∷ label) rest (n, h) = ground (arith, index-label label rest h)

drop-label : (label rest : Text) → drop (length label) (label ++ rest) ≡ rest
drop-label [] rest = refl
drop-label (a ∷ label) rest = drop-label label rest

-- For a host name of which the first label is `label`, the lookup tries the name itself, then the
-- name without that label, and then the host "".
pub lookup_host_labels :
    (rc : RoutingConfig) (label rest : Text)
    → HasNoDot label
    → lookup_host rc (label ++ b'.' ∷ rest)
      ≡ first_of_two
          (lookup (label ++ b'.' ∷ rest) rc.hosts)
          (first_of_two (lookup (b'.' ∷ rest) rc.hosts) (lookup [] rc.hosts))
unfolding lookup_host
lookup_host_labels rc label rest h =
    ground (arith, index-label label rest h, drop-label label (b'.' ∷ rest))

-- A name without its first label is a dot and the labels behind it, none of them empty.
abbrev pub IsDomain : Text → Type 0
IsDomain d = any (λ part. ltb (length part) 1) (split d b'.') ≡ false

normalize_host_wildcard : (d : Text) → IsDomain d → normalize_host (codes "*." ++ d) ≡ ok (b'.' ∷ d)
unfolding normalize_host split text_eq
normalize_host_wildcard d h =
    let (part, parts, e) = split_cons d b'.' in
    let whole : split (codes "*." ++ d) b'.' ≡ (b'*' ∷ []) ∷ split d b'.' = refl in
    ground (arith, whole, h, e)

-- A name with a label is another text than the name without it.
apart : (label d : Text) → label ≢ [] → text_eq (b'.' ∷ d) (label ++ b'.' ∷ d) ≡ false
apart label d h = beq_ne (b'.' ∷ d) (label ++ b'.' ∷ d) λ e. h (prefix-eq-nil label (b'.' ∷ d) e)

-- A wildcard host that `AddHost` has added is found for every name with one label before the
-- domain, unless that name is a host of its own.
pub lookup_host-add_host_wildcard :
    (rc : RoutingConfig) (hc : HostConfig) (label d : Text)
    → HasNoDot label
    → label ≢ []
    → IsDomain d
    → lookup (label ++ b'.' ∷ d) rc.hosts ≡ none
    → (rc' : RoutingConfig) × (add_host rc (codes "*." ++ d) hc ≡ ok rc')
      × (lookup_host rc' (label ++ b'.' ∷ d) ≡ some hc)
unfolding add_host
lookup_host-add_host_wildcard rc hc label d n e h free = (
  record rc { hosts = insert (b'.' ∷ d) hc rc.hosts },
  rw (add_host, normalize_host_wildcard d h) refl,
  rw (lookup_host_labels _ label d n) (
      ground (
        arith,
        lookup-insert (b'.' ∷ d) (label ++ b'.' ∷ d) hc rc.hosts,
        lookup-insert (b'.' ∷ d) (b'.' ∷ d) hc rc.hosts,
        beq_refl (b'.' ∷ d),
        apart label d e,
        free,
      )),
)
