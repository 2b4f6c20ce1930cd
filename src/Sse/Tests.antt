-- ===== src/Sse/Tests.antt =====
-- Two streams, one registered before the other, and a request of user 5 of tenant 7.
use kratos_core.Prelude.{◌≡◌, refl, none, some, [], ◌∷◌}
use kratos_core.Prelude.Int.{ℤ, pos}
use kratos_core.Prelude.Eq.{int_eq, string_eq, lookup}
use kratos_core.Prelude.Error.{ok}
use kratos_core.Prelude.Text.{fields, equal_fold}
use kratos_core.Auth.{AuthnClaims}
use kratos_core.Sse.{
  Stream, Registry, StreamRequest, stream_id, resolve, request_user_id, user_of_claims,
  stream_resolver,
}
use kratos_core.Sse.Resolution.{Subscriber, stream_resolver-Subscriber}

abbrev notices : Stream
notices = record {
  id = "base.notification";
  resolve = λ channel user. ok "notice";
  resolve_tenant = some (λ channel user tenant. ok "tenant-notice");
}

abbrev orders : Stream
orders = record { id = "orders"; resolve = λ channel user. ok "orders"; resolve_tenant = none }

abbrev before : Registry
before = ("base.notification", notices) ∷ []

abbrev claims : AuthnClaims
claims = record {
  user_id = ok (pos 5);
  subject = ok "ann";
  tenant_id = ok (pos 7);
  tenant_code = ok "acme";
  role_id = ok (pos 2);
  role_code = ok "user";
}

abbrev query : StreamRequest
query = record { stream = "base.notification"; channel = "c"; authorization = "Bearer tok" }

stream_resolver-Subscriber_example :
    (user : ℤ) × (tenant : ℤ) × (s : Stream) × Subscriber "Bearer"
      (λ token. ok claims)
      none
      query.stream
      query.authorization
      user
      tenant
    × (lookup query.stream before ≡ some s)
    × (stream_id s query.channel user tenant ≡ ok "tenant-notice")
unfolding stream_resolver request_user_id user_of_claims resolve lookup fields equal_fold
stream_resolver-Subscriber_example =
    stream_resolver-Subscriber "Bearer" (λ token. ok claims) none before query "tenant-notice" refl
