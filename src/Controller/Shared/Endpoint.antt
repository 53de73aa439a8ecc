-- ===== src/Controller/Shared/Endpoint.antt =====
-- `getServiceAddrPort` of pkg/controller/converter.go: the endpoint of a TCP proxy.
use s_ingress.Common.Net.{Addr, AddrPort}
use s_ingress.Common.Texts.{Text, text_eq, text_eq_iff}
use s_ingress.Common.{
  >>=-eq-ok, Bool, Bool-cases, List, Option, [], ap, false, inl, inr, none, ok, ok-injective, refl,
  some, sym, true, ℕ, ◌↔◌, ◌∙◌, ◌∷◌, ◌≡◌, ◌≢◌,
}
use s_ingress.Controller.Converter.{Cluster, or_fail, port_of}
use s_ingress.Controller.Shared.{find_port, get_service_addr_port}
use s_ingress.Kubernetes.{NamespacedName, Service, ServicePort}

-- The first port of the name.
pub data IsFirst (port_name : Text) (p : ServicePort) : List ServicePort → Type 0 where
  port_here : {ps : List ServicePort} → p.name ≡ port_name → IsFirst port_name p (p ∷ ps)
  port_later :
      {q : ServicePort} {ps : List ServicePort}
      → q.name ≢ port_name
      → IsFirst port_name p ps
      → IsFirst port_name p (q ∷ ps)

not_both : {b : Bool} → b ≡ true → b ≡ false → ⊥
not_both h k = cc

find_port_sound :
    (port_name : Text) (ps : List ServicePort) (n : ℕ)
    → find_port port_name ps ≡ some n
    → (p : ServicePort) × IsFirst port_name p ps × (p.port ≡ n)
unfolding find_port
find_port_sound port_name [] n e = cc
find_port_sound port_name (p ∷ ps) n e = elim (Bool-cases (text_eq p.name port_name)) [
  | inl y ↦
      let found : ◌≡◌ {A = Option ℕ} (some p.port) (some n) = rw y at e in
      (p, port_here ((text_eq_iff p.name port_name).0 y), cc)
  | inr m ↦
      let (q, i, equal) = find_port_sound port_name ps n (rw m at e) in
      (q, port_later (λ same. not_both ((text_eq_iff p.name port_name).1 same) m) i, equal)
]

find_port_complete :
    (port_name : Text) (ps : List ServicePort) (p : ServicePort)
    → IsFirst port_name p ps
    → find_port port_name ps ≡ some p.port
unfolding find_port
find_port_complete port_name [] p x = elim x [ ]
find_port_complete port_name (q ∷ ps) p (port_here e) = rw ((text_eq_iff p.name port_name).1 e) refl
find_port_complete port_name (q ∷ ps) p (port_later n i) =
    elim (Bool-cases (text_eq q.name port_name)) [
      | inl y ↦ absurd (n ((text_eq_iff q.name port_name).0 y))
      | inr m ↦ rw m (find_port_complete port_name ps p i)
    ]

or_fail-ok : {A : Type 0} (o : Option A) (e : Text) {a : A} → or_fail o e ≡ ok a → o ≡ some a
or_fail-ok none e h = cc
or_fail-ok (some a) e h = ap some (ok-injective h)

module _ (cluster : Cluster) (service_name : NamespacedName) (port_name : Text) (a : AddrPort) where
  -- What makes an endpoint of a service.
  pub record IsEndpoint : Type 0 where
    pub service : Service
    pub ip : Addr
    pub port : ServicePort
    pub service_read : cluster.get_service service_name ≡ some service
    pub ip_parsed : cluster.parse_addr service.cluster_ip ≡ some ip
    pub port_first : IsFirst port_name port service.ports
    pub endpoint_same : a ≡ port_of ip port.port

  endpoint_sound : get_service_addr_port cluster service_name port_name ≡ ok a → IsEndpoint
  unfolding get_service_addr_port
  endpoint_sound e =
      let (service, read, e1) = >>=-eq-ok (or_fail (cluster.get_service service_name) _) _ e in
      let (ip, parsed, e2) = >>=-eq-ok (or_fail (cluster.parse_addr service.cluster_ip) _) _ e1 in
      let (n, found, last) = >>=-eq-ok (or_fail (find_port port_name service.ports) _) _ e2 in
      let (p, i, same_port) = find_port_sound port_name service.ports n (or_fail-ok _ _ found) in
      record {
        service = service;
        ip = ip;
        port = p;
        service_read = or_fail-ok _ _ read;
        ip_parsed = or_fail-ok _ _ parsed;
        port_first = i;
        endpoint_same = sym (ok-injective last) ∙ ap (port_of ip) (sym same_port);
      }

  endpoint_complete : IsEndpoint → get_service_addr_port cluster service_name port_name ≡ ok a
  unfolding get_service_addr_port
  endpoint_complete i =
      rw
        (
          i.service_read,
          i.ip_parsed,
          find_port_complete port_name i.service.ports i.port i.port_first,
          i.endpoint_same,
        )
        refl

-- The endpoint of a TCP proxy is found exactly if the service can be read, its address parses, and
-- it has a port of the name that is asked for; the first such port is taken, modulo 2^16.
pub get_service_addr_port_iff :
    (cluster : Cluster) (service_name : NamespacedName) (port_name : Text) (a : AddrPort)
    → (get_service_addr_port cluster service_name port_name ≡ ok a)
      ↔ IsEndpoint cluster service_name port_name a
get_service_addr_port_iff cluster service_name port_name a = (
  endpoint_sound cluster service_name port_name a,
  endpoint_complete cluster service_name port_name a,
)
