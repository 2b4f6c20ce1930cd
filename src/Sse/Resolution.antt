-- ===== src/Sse/Resolution.antt =====
-- The transport stream of a request: whose it is, and when there is one.
use mathlib.Core.Path.{subst}
use kratos_core.Prelude.{
  String, ◌≡◌, refl, sym, ap, ◌∙◌, ◌⊎◌, inl, inr, true, false, not, ◌&&◌, Option, some, List, [],
  ◌∷◌, arith, Bool-cases, Option-cases,
}
use kratos_core.Prelude.Int.{ℤ, pos, is_pos}
use kratos_core.Prelude.Eq.{◌==◌, ==_iff, string_eq, lookup}
use kratos_core.Prelude.Error.{Result, ok, err, Result-cases}
use kratos_core.Prelude.Text.{fields, equal_fold}
use kratos_core.Auth.{AuthnClaims}
use kratos_core.Sse.{
  Stream, Registry, Authenticator, UserToken, StreamRequest, or_zero, stream_id, resolve,
  found_stream, is_plain_user, token_valid, user_of_claims, claims_user, words_user,
  request_user_id, stream_resolver, user_stream, known,
}

-- The tenant of the claims, or 0 where they have none that can be read.
abbrev pub TenantOf : Result ℤ → ℤ → Type 0
TenantOf (ok n) tenant = tenant ≡ n
TenantOf (err e) tenant = tenant ≡ pos 0

-- What `requestUserID` has checked of the user and the tenant that it returns.
pub record Subscriber (bearer : String) (authenticate : Authenticator)
    (user_token : Option UserToken) (stream header : String) (user tenant : ℤ) : Type 0 where
  pub word : String
  pub token : String
  pub claims : AuthnClaims
  pub role : String
  pub words : fields header ≡ word ∷ token ∷ []
  pub is_bearer : equal_fold word bearer ≡ true
  pub authentic : authenticate token ≡ ok claims
  pub of_user : claims.user_id ≡ ok user
  pub of_role : claims.role_code ≡ ok role
  pub may_use : (is_plain_user role ≡ false) ⊎ (stream ≡ "base.notification")
  pub positive : is_pos user ≡ true
  pub is_valid : token_valid user_token user token ≡ true
  pub of_tenant : TenantOf claims.tenant_id tenant

or_zero-TenantOf : (r : Result ℤ) → TenantOf r (or_zero r)
or_zero-TenantOf (ok n) = refl
or_zero-TenantOf (err e) = refl

-- What the last tests let through.
record Usable (user_token : Option UserToken) (stream token role : String) (id : ℤ)
    (tenant : Result ℤ) (r : ℤ × ℤ) : Type 0 where
  same : r ≡ (id, or_zero tenant)
  may_use : (is_plain_user role ≡ false) ⊎ (stream ≡ "base.notification")
  positive : is_pos id ≡ true
  is_valid : token_valid user_token id token ≡ true

user_of_claims-Usable :
    (user_token : Option UserToken) (stream token : String) (id : ℤ) (role : String)
    (tenant : Result ℤ) (r : ℤ × ℤ)
    → user_of_claims user_token stream token id role tenant ≡ ok r
    → Usable user_token stream token role id tenant r
unfolding user_of_claims
user_of_claims-Usable user_token stream token id role tenant r h =
    elim (Bool-cases (is_plain_user role && not (stream == "base.notification"))) [
      | inl a ↦ absurd (let h' = rw a at h in cc)
      | inr a ↦ elim (Bool-cases (is_pos id)) [
        | inr b ↦ absurd (let h' = rw (a, b) at h in cc)
        | inl b ↦ elim (Bool-cases (token_valid user_token id token)) [
          | inr c ↦ absurd (let h' = rw (a, b, c) at h in cc)
          | inl c ↦ record {
            same = (let h' = rw (a, b, c) at h in cc);
            may_use = elim (Bool-cases (is_plain_user role)) [
              | inr d ↦ inl d
              | inl d ↦ inr ((==_iff stream "base.notification").0 (ground (arith, a, d)))
            ];
            positive = b;
            is_valid = c;
          }
        ]
      ]
    ]

module _ (bearer : String) (authenticate : Authenticator) (user_token : Option UserToken) where
  claims_user-Subscriber :
      (stream header word token : String) (user tenant : ℤ)
      → fields header ≡ word ∷ token ∷ []
      → equal_fold word bearer ≡ true
      → claims_user user_token stream token (authenticate token) ≡ ok (user, tenant)
      → Subscriber bearer authenticate user_token stream header user tenant
  unfolding claims_user
  claims_user-Subscriber stream header word token user tenant w b h =
      elim (Result-cases (authenticate token)) [
        | inr (e, p) ↦ absurd (let h' = rw p at h in cc)
        | inl (claims, p) ↦ elim (Result-cases claims.user_id) [
          | inr (e, q) ↦ absurd (let h' = rw (p, q) at h in cc)
          | inl (id, q) ↦ elim (Result-cases claims.role_code) [
            | inr (e, r) ↦ absurd (let h' = rw (p, q, r) at h in cc)
            | inl (role, r) ↦
                let h' : user_of_claims user_token stream token id role claims.tenant_id
                    ≡ ok (user, tenant) =
                  rw (p, q, r) at h in
                let u =
                  user_of_claims-Usable user_token stream token id role claims.tenant_id
                    (user, tenant) h' in
                let i : user ≡ id = ap (λ x. x.0) u.same in
                let t : tenant ≡ or_zero claims.tenant_id = ap (λ x. x.1) u.same in
                record {
                  word = word;
                  token = token;
                  claims = claims;
                  role = role;
                  words = w;
                  is_bearer = b;
                  authentic = p;
                  of_user = q ∙ ap ok (sym i);
                  of_role = r;
                  may_use = u.may_use;
                  positive = rw i u.positive;
                  is_valid = rw i u.is_valid;
                  of_tenant =
                      subst (λ x. TenantOf claims.tenant_id x) (sym t)
                        (or_zero-TenantOf claims.tenant_id);
                }
          ]
        ]
      ]

  words_user-Subscriber :
      (stream header : String) (ws : List String) (user tenant : ℤ)
      → fields header ≡ ws
      → words_user bearer authenticate user_token stream ws ≡ ok (user, tenant)
      → Subscriber bearer authenticate user_token stream header user tenant
  unfolding words_user
  words_user-Subscriber stream header [] user tenant w h = absurd cc
  words_user-Subscriber stream header (a ∷ []) user tenant w h = absurd cc
  words_user-Subscriber stream header (a ∷ b ∷ []) user tenant w h =
      elim (Bool-cases (equal_fold a bearer)) [
        | inr p ↦ absurd (let h' = rw p at h in cc)
        | inl p ↦ claims_user-Subscriber stream header a b user tenant w p (rw p at h)
      ]
  words_user-Subscriber stream header (a ∷ b ∷ c ∷ ws) user tenant w h = absurd cc

  -- With an authenticator and a registry, a request gets a transport stream only for a user whose
  -- header, token, number and role were checked, and it is the one that the registered stream of
  -- its name gives for that user and for the tenant of the claims, or 0 where
  -- the claims have no tenant that can be read.
  pub stream_resolver-Subscriber :
      (r : Registry) (q : StreamRequest) (id : String)
      → stream_resolver bearer (some r) (some authenticate) user_token q ≡ ok id
      → (user : ℤ) × (tenant : ℤ) × (s : Stream) × Subscriber bearer authenticate user_token
          q.stream q.authorization user tenant
        × (lookup q.stream r ≡ some s)
        × (stream_id s q.channel user tenant ≡ ok id)
  unfolding stream_resolver user_stream request_user_id resolve found_stream known
  stream_resolver-Subscriber r q id h =
      elim (Result-cases
        (words_user bearer authenticate user_token q.stream (fields q.authorization))) [
          | inr (e, p) ↦ absurd (let h' = rw p at h in cc)
          | inl ((user, tenant), p) ↦ elim (Option-cases (lookup q.stream r)) [
            | inl l ↦ absurd (let h' = rw (p, l) at h in cc)
            | inr (s, l) ↦ elim (Result-cases (stream_id s q.channel user tenant)) [
              | inr (e, x) ↦ absurd (let h' = rw (p, l, x) at h in cc)
              | inl (found, x) ↦ (
                user,
                tenant,
                s,
                words_user-Subscriber q.stream q.authorization (fields q.authorization) user tenant
                    refl p,
                l,
                x ∙ (rw (p, l, x) at h),
              )
            ]
          ]
        ]
