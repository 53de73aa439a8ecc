-- ===== src/Examples/Logins.antt =====
-- The theorems about logins and sizes at concrete ones.
use s_ingress.Common.Int.{pos}
use s_ingress.Common.Texts.{Text, codes, text_eq}
use s_ingress.Common.{In, List, [], ok, refl, some, true, ◌↔◌, ◌∷◌, ◌≡◌, ◌⊎◌}
use s_ingress.Config.Accepted.{IsSize, parse_byte_size_iff}
use s_ingress.Config.ByteSize.{parse_byte_size}
use s_ingress.Examples.Samples.{context, no_network, strict_services}
use s_ingress.Modules.Oidc.Access.{IsVerified, check_access_iff, handle_oidc_callback-IsVerified}
use s_ingress.Modules.Oidc.Login.{check_nonce, handle_oidc_callback}
use s_ingress.Modules.Oidc.Session.{check_access, claimed_info, verified_id_token}
use s_ingress.Modules.Services.{AuthInfo, IdToken, Services, Token}
use s_ingress.Proxy.Closures.{ClientConfig, IngressConfig}

abbrev pub member : AuthInfo
member = record {
  subject = codes "u1";
  email = codes "ann@a.example";
  groups = codes "staff" ∷ [];
  client_name = codes "idp";
  authenticated_at = pos 0;
  token_expiry = pos 3600;
  access_token = codes "a";
  refresh_token = codes "r";
}

abbrev staff_only : IngressConfig
staff_only = record { allowed_groups = codes "staff" ∷ []; allowed_emails = [] }

check_access_iff_example : (check_access staff_only member ≡ true) ↔ (
    (◌≡◌ {A = List Text} [] [] × ◌≡◌ {A = List Text} (codes "staff" ∷ []) [])
    ⊎ (In (codes "ann@a.example") []
        ⊎ ((group : Text) × In group (codes "staff" ∷ []) × In group (codes "staff" ∷ []))))
check_access_iff_example = check_access_iff staff_only member

abbrev new_token : Token
new_token = record {
  access_token = codes "a";
  refresh_token = codes "r";
  expiry = pos 3600;
  id_token = some (codes "jwt");
}

abbrev signed_token : IdToken
signed_token = record {
  subject = codes "u1";
  nonce = codes "s";
  claims = some (record { email = codes "ann@a.example"; groups = codes "staff" ∷ [] });
}

abbrev provider : Services
provider = record strict_services {
  cookie_of = λ h t. some (codes "s");
  query_get = λ u t. codes "s";
  exchange = λ n t. some new_token;
  verify = λ n t. some signed_token;
}

abbrev idp : ClientConfig
idp = record {
  name = codes "idp";
  callback_domain = codes "login.a.example";
  cookie_domain = codes "a.example";
  expiration = pos 3600;
  encryption_key = codes "key";
}

handle_oidc_callback-IsVerified_example : IsVerified provider no_network idp context member
unfolding handle_oidc_callback check_nonce verified_id_token claimed_info text_eq
handle_oidc_callback-IsVerified_example =
    handle_oidc_callback-IsVerified provider no_network idp context member refl

parse_byte_size_iff_example :
    parse_byte_size (codes "2M") ≡ ok (pos 20_000_000) ↔ IsSize (codes "2M") (pos 20_000_000)
parse_byte_size_iff_example = parse_byte_size_iff (codes "2M") (pos 20_000_000)
