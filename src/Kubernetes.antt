-- ===== src/Kubernetes.antt =====
-- The objects of the Kubernetes API, with the fields that the program reads or writes.
use s_ingress.Common.Texts.{Text, text_eq, text_eq_iff}
use s_ingress.Common.{Bool, Comparable, List, Map, Option, arith, true, ℕ, ◌&&◌, ◌↔◌, ◌≡◌}

-- `types.NamespacedName`
pub record NamespacedName : Type 0 where
  pub namespace : Text
  pub name : Text

abbrev pub name_eq : NamespacedName → NamespacedName → Bool
name_eq a b = text_eq a.namespace b.namespace && text_eq a.name b.name

pub name_eq_iff : (a b : NamespacedName) → (name_eq a b ≡ true) ↔ (a ≡ b)
name_eq_iff a b = ground (arith, text_eq_iff a.namespace b.namespace, text_eq_iff a.name b.name)

instance abbrev pub name_keys : Comparable NamespacedName
name_keys = record { beq = name_eq; beq_iff = name_eq_iff }

pub record ServiceBackend : Type 0 where
  pub name : Text
  pub port_name : Text
  pub port_number : ℕ

pub data PathTypeName : Type 0 where
  prefix exact implementation_specific : PathTypeName
  other_type : Text → PathTypeName

-- `netv1.HTTPIngressPath`; a pointer that may be nil is an option.
pub record HttpIngressPath : Type 0 where
  pub path : Text
  pub path_type : Option PathTypeName
  pub service : Option ServiceBackend

-- `netv1.IngressRule`, whose `HTTP` may be nil.
pub record IngressRule : Type 0 where
  pub host : Text
  pub http_paths : Option (List HttpIngressPath)

pub record IngressTls : Type 0 where
  pub hosts : List Text
  pub secret_name : Text

pub record LoadBalancerIngress : Type 0 where
  pub ip : Text
  pub hostname : Text

pub record Ingress : Type 0 where
  pub namespace : Text
  pub name : Text
  pub annotations : Map Text Text
  pub ingress_class_name : Option Text
  pub rules : List IngressRule
  pub tls : List IngressTls
  pub load_balancer : Option (List LoadBalancerIngress)

pub record IngressClass : Type 0 where
  pub name : Text
  pub controller : Text

pub record ServicePort : Type 0 where
  pub name : Text
  pub port : ℕ

pub record Service : Type 0 where
  pub cluster_ip : Text
  pub ports : List ServicePort
  pub load_balancer : List LoadBalancerIngress

-- The data of a secret or of a config map.
abbrev pub Secret : Type 0
Secret = Map Text Text

-- `objectMetaToNamespaced`, at an ingress.
abbrev pub name_of : Ingress → NamespacedName
name_of ingress = record { namespace = ingress.namespace; name = ingress.name }
