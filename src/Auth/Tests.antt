-- ===== src/Auth/Tests.antt =====
-- A request of user 5 with the token "tok", and an engine that denies.
use kratos_core.Prelude.{◌≡◌, refl, ◌↔◌, inr, false, ◌&&◌, none, some, [], ◌∷◌}
use kratos_core.Prelude.Int.{pos}
use kratos_core.Prelude.Eq.{◌==◌, int_eq, string_eq, contains}
use kratos_core.Prelude.Error.{ok}
use kratos_core.Prelude.Text.{fields, equal_fold}
use kratos_core.Log.Pipeline.{Outside}
use kratos_core.Auth.{
  WhiteList, Regexp, any_prefix, any_regex, match_white_list, Transport, AuthnClaims, Request,
  Handler, Tokens, verify_access_token, auth_claims_middleware, full_auth, auth_middleware,
  bearer_valid,
}
use kratos_core.Auth.Authorizer.{Engine}
use kratos_core.Auth.Gate.{
  Trusted, Admitted, asks, IsAuthn, verify_access_token-Trusted, auth_middleware-Admitted,
}

abbrev never : Regexp
never r s = none

abbrev public : WhiteList
public = record { prefixes = "/public" ∷ []; regexes = []; paths = []; matches = "/ping" ∷ [] }

abbrev tokens : Tokens
tokens = record {
  is_access_token_valid = λ id token. id == pos 5 && token == "tok";
  bearer_word = "Bearer";
  to_upper = λ s. s;
}

abbrev page : Transport
page = record {
  operation = "/shop/Page";
  authorization = "bearer tok";
  request = none;
  own_method = some "GET";
}

abbrev claims : AuthnClaims
claims = record {
  user_id = ok (pos 5);
  subject = ok "ann";
  tenant_id = ok (pos 7);
  tenant_code = ok "acme";
  role_id = ok (pos 2);
  role_code = ok "admin";
}

abbrev request : Request
request = record { transport = some page; authn = some claims; authz = none; body = "{}" }

verify_access_token-Trusted_example :
    (verify_access_token tokens request claims ≡ none) ↔ Trusted tokens claims page
verify_access_token-Trusted_example = verify_access_token-Trusted tokens request claims page refl

abbrev handler : Handler
handler r = ok "page"

admitted : Admitted tokens request
unfolding fields equal_fold
admitted = record {
  transport = page;
  claims = claims;
  tenant = "acme";
  role = "admin";
  has_transport = refl;
  has_claims = refl;
  trusted = (
    pos 5,
    refl,
    inr (record {
      word = "bearer";
      token = "tok";
      words = refl;
      is_bearer = refl;
      is_valid = refl;
    }),
  );
  of_tenant = refl;
  tenant_present = λ e. cc;
  of_role = refl;
  role_present = λ e. cc;
}

abbrev reads_claims : Handler → Handler
reads_claims next r = next (record r { authn = some claims })

authn : IsAuthn reads_claims (λ r. ok claims)
authn = record { outcome = λ next r. refl }

abbrev lets_through : Handler → Handler
lets_through next r = next r

auth_middleware-Admitted_example :
    (c : AuthnClaims) × (a : Admitted tokens (record request { authn = some c })) × (ok claims
      ≡ ok c)
    × (handler (record request { authn = some c; authz = some (asks tokens a) }) ≡ ok "page")
unfolding auth_middleware full_auth match_white_list any_prefix any_regex contains
    auth_claims_middleware verify_access_token bearer_valid fields equal_fold
auth_middleware-Admitted_example =
    auth_middleware-Admitted tokens never reads_claims lets_through lets_through (some public) none
      (λ r. ok claims) handler request page "page" authn refl refl refl refl

abbrev engine : Engine
engine = record {
  name = "casbin";
  is_authorized = λ subject action resource project. ok false;
  started_at = 10;
  elapsed_ms = pos 1;
  request_id = "r";
  trace_id = "t";
  split_host_port = λ s. none;
  error_text = λ e. "error";
}

abbrev outside : Outside
outside = record {
  now = λ seen. 10;
  new_guid = λ seen. "guid";
  default_tenant_code = "default";
  marshal = λ event. ok event.kind;
  append = λ sent body. none;
}
