-- ===== src/Config/Parse.antt =====
-- pkg/config/config.go and config_yaml.go: from the decoded YAML to the configuration.
use s_ingress.Common.Int.{pos, ℤ}
use s_ingress.Common.Net.{Prefix}
use s_ingress.Common.Texts.{Text, text_eq}
use s_ingress.Common.{
  Bool, List, Map, Option, Result, [], err, false, if◌then◌else◌, map, none, ok, some, ◌>>=◌, ◌∷◌,
}
use s_ingress.Config.ByteSize.{SizeError, parse_byte_size}
use s_ingress.Kubernetes.{NamespacedName}
use s_ingress.Modules.Instances.{ModuleInstance}

pub record TcpProxyConf : Type 0 where
  pub port : ℤ
  pub service : NamespacedName
  pub service_port_name : Text

pub record GeneralProxyConf : Type 0 where
  pub trusted_proxies : List Prefix
  pub error_page : Option Text

pub record IngressProxyConf : Type 0 where
  pub max_body_size : ℤ

-- `ControllerConf`. `ModuleConfigs` is the YAML that the module creators decode.
pub record ControllerConf : Type 0 where
  pub upstream_service_name : Option Text
  pub disable_status_update : Bool
  pub tcp_proxy : List TcpProxyConf
  pub default_tls_secret : Text
  pub general_proxy : GeneralProxyConf
  pub ingress_proxy : IngressProxyConf
  pub modules : List ModuleInstance
  pub module_configs : Map Text Text
  pub used_secrets : List NamespacedName

-- `tcpProxyConf`
pub record RawTcpProxy : Type 0 where
  pub service_name : Text
  pub service_namespace : Text
  pub service_port_name : Text
  pub port : ℤ

-- `proxyConf`
pub record RawProxy : Type 0 where
  pub max_body_size : Text
  pub trusted_proxies : List Text
  pub error_page : Text

-- `controllerConf`
pub record RawConf : Type 0 where
  pub upstream_service_name : Option Text
  pub disable_status_update : Bool
  pub tcp_proxy : List RawTcpProxy
  pub default_tls_secret : Text
  pub proxy_conf : RawProxy
  pub module_configs : Map Text Text

pub data ConfError : Type 0 where
  size_error : SizeError → ConfError
  invalid_trusted_proxy : Text → ConfError
  invalid_error_page decode_error : ConfError

-- The YAML decoder, which writes over what its target holds, the parsers of the standard library,
-- and the files that are embedded.
pub record ConfigLibrary : Type 0 where
  pub decode : Text → RawConf → Option RawConf
  pub parse_prefix : Text → Option Prefix
  pub template_is_valid : Text → Bool
  pub default_error_page : Text
  pub default_config : Text

abbrev pub empty_conf : RawConf
empty_conf = record {
  upstream_service_name = none;
  disable_status_update = false;
  tcp_proxy = [];
  default_tls_secret = [];
  proxy_conf = record { max_body_size = []; trusted_proxies = []; error_page = [] };
  module_configs = [];
}

abbrev of_size : Result SizeError ℤ → Result ConfError IngressProxyConf
of_size (ok n) = ok (record { max_body_size = n })
of_size (err e) = err (size_error e)

unfoldable pub parse_proxy_ingress_conf : RawProxy → Result ConfError IngressProxyConf
parse_proxy_ingress_conf conf =
    if text_eq conf.max_body_size []
    then ok (record { max_body_size = pos 4096 })
    else of_size (parse_byte_size conf.max_body_size)

abbrev tcp_conf : RawTcpProxy → TcpProxyConf
tcp_conf raw = record {
  port = raw.port;
  service = record { namespace = raw.service_namespace; name = raw.service_name };
  service_port_name = raw.service_port_name;
}

unfoldable pub parse_tcp_proxy_conf : List RawTcpProxy → List TcpProxyConf
parse_tcp_proxy_conf conf = map tcp_conf conf

-- `defaultVal`, at strings.
abbrev pub default_val : Text → Text → Text
default_val v default = if text_eq v [] then default else v

module _ (library : ConfigLibrary) where
  open library use {decode, parse_prefix, template_is_valid, default_error_page, default_config}

  -- The loop over the trusted proxies.
  unfoldable pub parse_trusted : List Text → Result ConfError (List Prefix)
  parse_trusted [] = ok []
  parse_trusted (raw ∷ more) =
      let rest = parse_trusted more in
      elim (parse_prefix raw) [
        | none ↦ err (invalid_trusted_proxy raw)
        | some p ↦ rest >>= λ ps. ok (p ∷ ps)
      ]

  abbrev general_conf : List Prefix → Text → Result ConfError GeneralProxyConf
  general_conf trusted page =
      if template_is_valid page
      then ok (record { trusted_proxies = trusted; error_page = some page })
      else err invalid_error_page

  unfoldable pub parse_general_proxy_conf : RawProxy → Result ConfError GeneralProxyConf
  unfolding parse_trusted
  parse_general_proxy_conf conf = do
    trusted ← parse_trusted conf.trusted_proxies
    let page = default_val conf.error_page default_error_page
    general_conf trusted page

  unfoldable pub parse_config : RawConf → Result ConfError ControllerConf
  unfolding parse_general_proxy_conf parse_proxy_ingress_conf parse_tcp_proxy_conf
  parse_config conf = do
    general ← parse_general_proxy_conf conf.proxy_conf
    ingress ← parse_proxy_ingress_conf conf.proxy_conf
    ok (record {
      upstream_service_name = conf.upstream_service_name;
      disable_status_update = conf.disable_status_update;
      tcp_proxy = parse_tcp_proxy_conf conf.tcp_proxy;
      default_tls_secret = conf.default_tls_secret;
      general_proxy = general;
      ingress_proxy = ingress;
      modules = [];
      module_configs = conf.module_configs;
      used_secrets = [];
    })

  abbrev pub decoded : Text → RawConf → Result ConfError RawConf
  decoded bytes target = elim (decode bytes target) [
    | none ↦ err decode_error
    | some conf ↦ ok conf
  ]

  abbrev pub decoded_unless_empty : Text → RawConf → Result ConfError RawConf
  decoded_unless_empty bytes target = if text_eq bytes [] then ok target else decoded bytes target

  unfoldable pub parse_yaml_config : Text → Result ConfError ControllerConf
  unfolding parse_config
  parse_yaml_config bytes = do conf ← decoded_unless_empty bytes empty_conf; parse_config conf

  unfoldable pub parse_yaml_config_with_default : Text → Result ConfError ControllerConf
  unfolding parse_config
  parse_yaml_config_with_default bytes = do
    base ← decoded default_config empty_conf
    conf ← decoded_unless_empty bytes base
    parse_config conf
