-- ===== src/Modules/Creators/Clients.antt =====
-- modules/modules.go and modules/oidc/module.go: the instances that the creators make, and the
-- secrets that they remember.
use mathlib.Core.List.{append-nil, append_assoc}
use s_ingress.Common.Int.{ℤ}
use s_ingress.Common.Texts.{Text, codes, text_eq}
use s_ingress.Common.{
  Bool-cases, List, Map, Option, Option-cases, [], ap, inl, inr, map, none, refl, some, sym, ◌++◌,
  ◌∙◌, ◌∷◌, ◌≡◌,
}
use s_ingress.Controller.Certificates.{entry_or_nil}
use s_ingress.Kubernetes.{NamespacedName, Secret}
use s_ingress.Modules.Creators.{
  ClientMaps, Creation, Creator, ModuleLibrary, ModuleReconciler, OidcClient, and_then, client_of,
  client_with_key, continue, create_clients, created, decoding, default_str, get_client_config,
  get_secret_remembered, not_created, process_ended,
}
use s_ingress.Modules.Order.{made}
use s_ingress.Proxy.Closures.{ClientConfig}

continue-created {ℓ κ} :
    {A : Type ℓ} {B : Type κ} (f : A → Creator B) (r : Creation A) {b : B}
    {u' : List NamespacedName}
    → continue f r ≡ created b u'
    → (a : A) × (v : List NamespacedName) × (r ≡ created a v) × (f a v ≡ created b u')
continue-created f (created a v) e = (a, v, refl, e)
continue-created f (not_created m) e = cc
continue-created f process_ended e = cc

pub and_then-created {ℓ κ} :
    {A : Type ℓ} {B : Type κ} (m : Creator A) (f : A → Creator B) (u : List NamespacedName) {b : B}
    {u' : List NamespacedName}
    → and_then m f u ≡ created b u'
    → (a : A) × (v : List NamespacedName) × (m u ≡ created a v) × (f a v ≡ created b u')
and_then-created m f u e = continue-created f (m u) e

pub created-injective {ℓ} :
    {A : Type ℓ} {a b : A} {u v : List NamespacedName}
    → created a u ≡ created b v
    → (a ≡ b) × (u ≡ v)
created-injective e = (cc, cc)

module _ (library : ModuleLibrary) (reconciler : ModuleReconciler) where
  -- The name of the secret of a client.
  abbrev pub secret_of : OidcClient → NamespacedName
  secret_of conf = record { namespace = reconciler.namespace; name = conf.client_secret_name }

  pub decoding-same {ℓ} :
      {A : Type ℓ} (o : Option A) (u v : List NamespacedName) {a : A}
      → decoding o u ≡ created a v
      → (o ≡ some a) × (u ≡ v)
  decoding-same none u v e = cc
  decoding-same (some a) u v e = let (p, q) = created-injective e in (ap some p, q)

  client_of-same :
      (name : Text) (conf : OidcClient) (key : Text) (o : Option ℤ) (u v : List NamespacedName)
      {c : ClientConfig}
      → client_of library reconciler name conf key o u ≡ created c v
      → u ≡ v
  client_of-same name conf key none u v e = cc
  client_of-same name conf key (some x) u v e = (created-injective e).1

  client_with_key-same :
      (name : Text) (conf : OidcClient) (key : Text) (u v : List NamespacedName) {c : ClientConfig}
      → client_with_key library reconciler name conf key u ≡ created c v
      → u ≡ v
  client_with_key-same name conf key u v e =
      elim (Bool-cases (library.provider_is_found conf.issuer_url)) [
        | inr n ↦ let bad : process_ended ≡ created _ v = rw n at e in cc
        | inl y ↦ elim (Bool-cases (library.encrypter_is_valid key)) [
          | inr n ↦ let bad : not_created _ ≡ created _ v = rw (y, n) at e in cc
          | inl z ↦
              let o = library.parse_duration (default_str conf.auth_expiration (codes "0")) in
              client_of-same name conf key o u v (rw (y, z) at e)
        ]
      ]

  get_secret_remembered-created :
      (n : NamespacedName) (u v : List NamespacedName) {secret : Secret}
      → get_secret_remembered library reconciler n u ≡ created secret v
      → v ≡ u ++ n ∷ []
  unfolding get_secret_remembered
  get_secret_remembered-created n u v e = elim (Option-cases (reconciler.read_secret n)) [
    | inl h ↦ let bad : not_created _ ≡ created _ v = rw (h, get_secret_remembered) at e in cc
    | inr (s, h) ↦ sym ((created-injective (rw (h, get_secret_remembered) at e)).1)
  ]

  -- A client that was made has its secret among those that are remembered.
  get_client_config-remembers :
      (name : Text) (conf : OidcClient) (u v : List NamespacedName) {c : ClientConfig}
      → get_client_config library reconciler name conf u ≡ created c v
      → v ≡ u ++ secret_of conf ∷ []
  unfolding get_client_config
  get_client_config-remembers name conf u v e =
      let (secret, w, read, more) =
        and_then-created (get_secret_remembered library reconciler (secret_of conf)) _ u e in
      let grown = get_secret_remembered-created (secret_of conf) u w read in
      elim (Bool-cases (text_eq (entry_or_nil (codes "JWT_SECRET") secret) [])) [
        | inl y ↦ let bad : not_created _ ≡ created _ v = rw y at more in cc
        | inr n ↦ sym (client_with_key-same name conf _ w v (rw n at more)) ∙ grown
      ]

  -- The secrets that the clients of the OIDC module remember.
  abbrev pub secrets_of : Map Text OidcClient → List NamespacedName
  secrets_of raw = map (λ p. secret_of p.1) raw

  pub create_clients-remembers :
      (raw : Map Text OidcClient) (maps : ClientMaps library reconciler) (u v : List NamespacedName)
      {found : ClientMaps library reconciler}
      → create_clients library reconciler raw maps u ≡ created found v
      → v ≡ u ++ secrets_of raw
  unfolding create_clients
  create_clients-remembers [] maps u v e = sym ((created-injective e).1) ∙ sym (append-nil u)
  create_clients-remembers ((name, conf) ∷ raw) (clients, domains) u v e =
      let (c, w, made, more) =
        and_then-created (get_client_config library reconciler name conf) _ u e in
      let first = get_client_config-remembers name conf u w made in
      let rest = create_clients-remembers raw _ w v more in
      rest ∙ rw first (append_assoc u (secret_of conf ∷ []) (secrets_of raw))
