-- ===== src/Modules/Creators/Made/Found.antt =====
-- modules/oidc/module.go: the two maps of clients that `ModuleOidc` makes.
use mathlib.Core.Path.{subst}
use s_ingress.Common.Texts.{Text, text_keys}
use s_ingress.Common.{
  In, In-cons, List, Map, Option, [], ap, here, inl, inr, insert, lookup, lookup-insert_cases,
  lookup-insert_same, none, some, sym, there, ◌∙◌, ◌∷◌, ◌≡◌, ◌≢◌,
}
use s_ingress.Kubernetes.{NamespacedName, name_keys}
use s_ingress.Modules.Creators.Clients.{and_then-created, created-injective}
use s_ingress.Modules.Creators.Made.{IsClientOf, get_client_config-made}
use s_ingress.Modules.Creators.{
  ClientMaps, ModuleLibrary, ModuleReconciler, OidcClient, create_clients, created,
  get_client_config,
}
use s_ingress.Modules.Order.{made}
use s_ingress.Proxy.Closures.{ClientConfig}

not-both : {o : Option ClientConfig} {c : ClientConfig} → o ≡ some c → o ≡ none → ⊥
not-both p q = cc

same-value : {c d : ClientConfig} (o : Option ClientConfig) → o ≡ some c → o ≡ some d → c ≡ d
same-value o p q = cc

module _ (library : ModuleLibrary) (reconciler : ModuleReconciler) where
  -- The two maps hold nothing but clients of the configuration, under their names and under their
  -- callback domains.
  pub record AreFrom (raw : Map Text OidcClient) (maps : ClientMaps library reconciler)
      : Type 0 where
    pub by_name :
        (name : Text) (c : ClientConfig)
        → lookup name maps.0 ≡ some c
        → (conf : OidcClient) × In (name, conf) raw × IsClientOf library reconciler name conf c
    pub by_domain :
        (domain : Text) (c : ClientConfig)
        → lookup domain maps.1 ≡ some c
        → (conf : OidcClient) × In (c.name, conf) raw
          × IsClientOf library reconciler c.name conf c
          × (domain ≡ conf.callback_domain)

  -- Every client of the configuration has an entry in both maps.
  pub record HasAll (raw : Map Text OidcClient) (maps : ClientMaps library reconciler)
      : Type 0 where
    pub has_name :
        (name : Text) (conf : OidcClient) → In (name, conf) raw → lookup name maps.0 ≢ none
    pub has_domain :
        (name : Text) (conf : OidcClient)
        → In (name, conf) raw
        → lookup conf.callback_domain maps.1 ≢ none

  pub empty-AreFrom : (raw : Map Text OidcClient) → AreFrom raw ([], [])
  unfolding lookup
  empty-AreFrom raw = record { by_name = λ n c l. cc; by_domain = λ n c l. cc }

  insert-AreFrom :
      (raw : Map Text OidcClient) (name : Text) (conf : OidcClient) (c : ClientConfig)
      (clients domains : Map Text ClientConfig)
      → In (name, conf) raw
      → IsClientOf library reconciler name conf c
      → AreFrom raw (clients, domains)
      → AreFrom raw (insert name c clients, insert c.callback_domain c domains)
  insert-AreFrom raw name conf c clients domains i m f = record {
    by_name = λ n d l. elim (lookup-insert_cases name n c clients) [
      | inl (same, at) ↦
          let is_c : c ≡ d = same-value _ at l in
          (
            conf,
            subst (λ x. In (x, conf) raw) same i,
            subst (λ x. IsClientOf library reconciler n conf x) is_c
                (subst (λ x. IsClientOf library reconciler x conf c) same m),
          )
      | inr at ↦ f.by_name n d (sym at ∙ l)
    ];
    by_domain = λ n d l. elim (lookup-insert_cases c.callback_domain n c domains) [
      | inl (same, at) ↦
          let is_c : c ≡ d = same-value _ at l in
          let own : name ≡ d.name = sym m.named ∙ ap (λ x. x.name) is_c in
          (
            conf,
            subst (λ x. In (x, conf) raw) own i,
            subst (λ x. IsClientOf library reconciler x conf d) own
                (subst (IsClientOf library reconciler name conf) is_c m),
            sym same ∙ m.answers,
          )
      | inr at ↦ f.by_domain n d (sym at ∙ l)
    ];
  }

  pub create_clients-AreFrom :
      (all raw : Map Text OidcClient) (maps : ClientMaps library reconciler)
      (u v : List NamespacedName) {found : ClientMaps library reconciler}
      → ((name : Text) (conf : OidcClient) → In (name, conf) raw → In (name, conf) all)
      → AreFrom all maps
      → create_clients library reconciler raw maps u ≡ created found v
      → AreFrom all found
  unfolding create_clients
  create_clients-AreFrom all [] maps u v within f e = subst (AreFrom all) (created-injective e).0 f
  create_clients-AreFrom all ((name, conf) ∷ raw) (clients, domains) u v within f e =
      let (c, w, made, more) =
        and_then-created (get_client_config library reconciler name conf) _ u e in
      create_clients-AreFrom all raw _ w v (λ n x i. within n x (there i))
        (insert-AreFrom all name conf c clients domains (within name conf here)
          (get_client_config-made library reconciler name conf u w made) f)
        more

  abbrev Has : Text → Map Text ClientConfig → Type 0
  Has k m = lookup k m ≢ none

  insert-Has :
      (k j : Text) (c : ClientConfig) (m : Map Text ClientConfig) → Has j m → Has j (insert k c m)
  insert-Has k j c m h e = elim (lookup-insert_cases k j c m) [
    | inl (same, at) ↦ not-both at e
    | inr at ↦ h (sym at ∙ e)
  ]

  insert-Has_own : (k : Text) (c : ClientConfig) (m : Map Text ClientConfig) → Has k (insert k c m)
  insert-Has_own k c m e = not-both (lookup-insert_same k c m) e

  -- The loop keeps what the maps have.
  create_clients-keeps :
      (raw : Map Text OidcClient) (maps : ClientMaps library reconciler) (u v : List NamespacedName)
      {found : ClientMaps library reconciler}
      → create_clients library reconciler raw maps u ≡ created found v
      → ((k : Text) → Has k maps.0 → Has k found.0) × ((k : Text) → Has k maps.1 → Has k found.1)
  unfolding create_clients
  create_clients-keeps [] maps u v e =
      let same = (created-injective e).0 in
      (λ k. subst (λ x. Has k x.0) same, λ k. subst (λ x. Has k x.1) same)
  create_clients-keeps ((name, conf) ∷ raw) (clients, domains) u v e =
      let (c, w, made, more) =
        and_then-created (get_client_config library reconciler name conf) _ u e in
      let (p, q) = create_clients-keeps raw _ w v more in
      (
        λ k h. p k (insert-Has name k c clients h),
        λ k h. q k (insert-Has c.callback_domain k c domains h),
      )

  pub create_clients-HasAll :
      (raw : Map Text OidcClient) (maps : ClientMaps library reconciler) (u v : List NamespacedName)
      {found : ClientMaps library reconciler}
      → create_clients library reconciler raw maps u ≡ created found v
      → HasAll raw found
  unfolding create_clients
  create_clients-HasAll [] maps u v e = record {
    has_name = λ n x i. elim i [ ];
    has_domain = λ n x i. elim i [ ];
  }
  create_clients-HasAll ((name, conf) ∷ raw) (clients, domains) u v {found} e =
      let (c, w, made, more) =
        and_then-created (get_client_config library reconciler name conf) _ u e in
      let (p, q) = create_clients-keeps raw _ w v more in
      let rest = create_clients-HasAll raw _ w v more in
      let answers = (get_client_config-made library reconciler name conf u w made).answers in
      record {
        has_name = λ n x i. elim (In-cons i) [
          | inl same ↦
              subst (λ k. Has k found.0) (sym (ap (λ y. y.0) same))
                (p name (insert-Has_own name c clients))
          | inr j ↦ rest.has_name n x j
        ];
        has_domain = λ n x i. elim (In-cons i) [
          | inl same ↦
              subst (λ k. Has k found.1) (answers ∙ sym (ap (λ y. y.1.callback_domain) same))
                (q c.callback_domain (insert-Has_own c.callback_domain c domains))
          | inr j ↦ rest.has_domain n x j
        ];
      }
