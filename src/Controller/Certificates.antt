-- ===== src/Controller/Certificates.antt =====
-- pkg/controller/converter.go: the TLS certificates of an ingress.
use s_ingress.Common.Texts.{Text, codes, text_eq, text_keys}
use s_ingress.Common.{List, Map, [], if◌then◌else◌, insert, lookup, none, ok, some, ◌>>=◌, ◌∷◌}
use s_ingress.Controller.Converter.{Cluster, Fails, or_fail, with_used_secrets}
use s_ingress.Controller.State.{IngressConfiguration}
use s_ingress.Kubernetes.{Ingress, IngressTls, NamespacedName, Secret, name_keys}
use s_ingress.Modules.Services.{Services}

-- `secret.Data[key]`
abbrev pub entry_or_nil : Text → Secret → Text
entry_or_nil key secret = elim (lookup key secret) [ none ↦ [] | some v ↦ v ]

module _ (services : Services) (cluster : Cluster) where
  open cluster use {get_secret, x509_key_pair}

  -- `getCertificateFromSecret`
  unfoldable pub get_certificate_from_secret : NamespacedName → Fails Text
  get_certificate_from_secret name = do
    secret ← or_fail (get_secret name) (codes "failed to load TLS secret")
    or_fail
        (x509_key_pair (entry_or_nil (codes "tls.crt") secret)
          (entry_or_nil (codes "tls.key") secret))
        (codes "failed to load TLS certificate")

  -- The loop over the hosts of an item: the first certificate of a host stays.
  unfoldable pub add_certificate : Text → List Text → Map Text Text → Map Text Text
  add_certificate certificate [] certificates = certificates
  add_certificate certificate (host ∷ hosts) certificates =
      add_certificate certificate hosts (elim (lookup host certificates) [
        | some _ ↦ certificates
        | none ↦ insert host certificate certificates
      ])

  abbrev pub tls_item : Ingress → IngressTls → IngressConfiguration → Fails IngressConfiguration
  tls_item ingress item conf =
      let name : NamespacedName = record {
        namespace = ingress.namespace;
        name = item.secret_name;
      } in
      get_certificate_from_secret name >>= λ certificate.
      ok (record (with_used_secrets conf (name ∷ [])) {
        tls_certificates = add_certificate certificate item.hosts conf.tls_certificates;
      })

  -- `processIngressTls`
  unfoldable pub process_ingress_tls :
      Ingress → List IngressTls → IngressConfiguration → Fails IngressConfiguration
  process_ingress_tls ingress [] conf = ok conf
  process_ingress_tls ingress (item ∷ items) conf =
      (if text_eq item.secret_name [] then ok conf else tls_item ingress item conf)
      >>= process_ingress_tls ingress items
