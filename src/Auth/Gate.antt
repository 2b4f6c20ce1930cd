-- ===== src/Auth/Gate.antt =====
-- The claims and the token that a request needs before the handler, and which requests need them.
use mathlib.Core.Path.{subst}
use kratos_core.Prelude.{
  String, ◌≡◌, ◌≢◌, refl, sym, ap, ◌∙◌, ◌↔◌, ◌⊎◌, inl, inr, true, false, Option, none, some, List,
  [], ◌∷◌, arith, Bool-cases, Option-cases,
}
use kratos_core.Prelude.Int.{ℤ, pos, int_beq_iff}
use kratos_core.Prelude.Eq.{◌==◌, ==_iff, string_eq, int_eq}
use kratos_core.Prelude.Error.{Error, Result, ok, err, kit, Result-cases}
use kratos_core.Prelude.Text.{fields, equal_fold}
use kratos_core.Auth.{
  WhiteList, Regexp, match_white_list, Transport, AuthnClaims, AuthzClaims, Request, Handler,
  Tokens, request_action, bearer_valid, token_error, verify_access_token, required, authz_claims,
  checked_claims, auth_claims_middleware, and_then, full_auth, auth_middleware, routed,
}

module _ (tokens : Tokens) where
  -- The header is the bearer word, in any case, and a token that the cache holds for the user.
  pub record Bearer (id : ℤ) (header : String) : Type 0 where
    pub word : String
    pub token : String
    pub words : fields header ≡ word ∷ token ∷ []
    pub is_bearer : equal_fold word tokens.bearer_word ≡ true
    pub is_valid : tokens.is_access_token_valid id token ≡ true

  -- An internal call, or a user with such a token.
  abbrev pub Trusted : AuthnClaims → Transport → Type 0
  Trusted claims t =
      (id : ℤ) × (claims.user_id ≡ ok id) × ((id ≡ pos 0) ⊎ Bearer id t.authorization)

  bearer_valid-Bearer :
      (id : ℤ) (header : String) (ws : List String)
      → fields header ≡ ws
      → bearer_valid tokens id ws ≡ true
      → Bearer id header
  unfolding bearer_valid
  bearer_valid-Bearer id header [] e h = absurd cc
  bearer_valid-Bearer id header (a ∷ []) e h = absurd cc
  bearer_valid-Bearer id header (a ∷ b ∷ []) e h = record {
    word = a;
    token = b;
    words = e;
    is_bearer = ground (arith, h);
    is_valid = ground (arith, h);
  }
  bearer_valid-Bearer id header (a ∷ b ∷ c ∷ ws) e h = absurd cc

  Bearer-bearer_valid :
      (id : ℤ) (header : String) → Bearer id header → bearer_valid tokens id (fields header) ≡ true
  unfolding bearer_valid
  Bearer-bearer_valid id header h = rw h.words (rw h.is_bearer h.is_valid)

  -- The access token of a request is accepted exactly if the claims name an internal call, or a
  -- user for whom the cache holds the token of a well-formed header.
  pub verify_access_token-Trusted :
      (req : Request) (claims : AuthnClaims) (t : Transport)
      → req.transport ≡ some t
      → (verify_access_token tokens req claims ≡ none) ↔ Trusted claims t
  unfolding verify_access_token token_error
  verify_access_token-Trusted req claims t q = elim (Result-cases claims.user_id) [
    | inr (e, p) ↦ (λ h. absurd (let h' = rw p at h in cc), λ h. absurd (let (id, a, b) = h in cc))
    | inl (id, p) ↦ elim (Bool-cases (id == pos 0)) [
      | inl z ↦ (λ h. (id, p, inl (ground (arith, z, int_beq_iff id (pos 0)))), λ h. rw (p, z) refl)
      | inr z ↦ elim (Bool-cases (bearer_valid tokens id (fields t.authorization))) [
        | inl b ↦ (
          λ h.
              (id, p, inr (bearer_valid-Bearer id t.authorization (fields t.authorization) refl b)),
          λ h. rw (p, z, q, b) refl,
        )
        | inr b ↦ (
          λ h. absurd (let h' = rw (p, z, q, b) at h in cc),
          λ h. absurd (
              let (i, a, c) = h in
              let same : i ≡ id = let x = sym a in cc in
              elim c [
                | inl d ↦ ground (arith, d, same, z, int_beq_iff id (pos 0))
                | inr d ↦
                    let k : bearer_valid tokens id (fields t.authorization) ≡ true =
                      subst (λ x. bearer_valid tokens x (fields t.authorization) ≡ true) same
                        (Bearer-bearer_valid i t.authorization d) in
                    cc
              ]),
        )
      ]
    ]
  ]

  -- What a request needs before its handler runs.
  pub record Admitted (req : Request) : Type 0 where
    pub transport : Transport
    pub claims : AuthnClaims
    pub tenant : String
    pub role : String
    pub has_transport : req.transport ≡ some transport
    pub has_claims : req.authn ≡ some claims
    pub trusted : Trusted claims transport
    pub of_tenant : claims.tenant_code ≡ ok tenant
    pub tenant_present : tenant ≢ ""
    pub of_role : claims.role_code ≡ ok role
    pub role_present : role ≢ ""

  -- What the authorizer is asked about: the tenant, the role, the method and the operation.
  abbrev pub asks : {req : Request} → Admitted req → AuthzClaims
  asks a = record {
    tenant = a.tenant;
    subject = a.role;
    action = request_action tokens a.transport;
    resource = a.transport.operation;
  }

  required-ok :
      (r : Result String) (missing : Error) (s : String)
      → (required tokens r missing ≡ ok s) ↔ ((r ≡ ok s) × (s ≢ ""))
  required-ok (err e) missing s = (λ h. absurd cc, λ h. absurd (let a = h.0 in cc))
  required-ok (ok x) missing s = (
    λ h. (ground (arith, ==_iff x "", h), ground (arith, ==_iff x "", h)),
    λ (a, d). ground (arith, ==_iff x "", a, d),
  )

  checked_claims-ok :
      (req : Request) (t : Option Transport) (c : Option AuthnClaims) (claims : AuthzClaims)
      → req.transport ≡ t
      → req.authn ≡ c
      → checked_claims tokens req t c ≡ ok claims
      → (a : Admitted req) × (claims ≡ asks a)
  unfolding checked_claims authz_claims
  checked_claims-ok req none c claims p q h = absurd cc
  checked_claims-ok req (some t) none claims p q h = absurd cc
  checked_claims-ok req (some t) (some c) claims p q h =
      elim (Option-cases (verify_access_token tokens req c)) [
        | inr (e, v) ↦ absurd (let h' = rw v at h in cc)
        | inl v ↦
            elim (Result-cases (required tokens c.tenant_code (kit "ErrExtractTenantFailed"))) [
              | inr (e, x) ↦ absurd (let h' = rw (v, x) at h in cc)
              | inl (tenant, x) ↦
                  elim (Result-cases
                    (required tokens c.role_code (kit "ErrExtractSubjectFailed"))) [
                      | inr (e, y) ↦ absurd (let h' = rw (v, x, y) at h in cc)
                      | inl (role, y) ↦
                          let (a, b) =
                            (required-ok c.tenant_code (kit "ErrExtractTenantFailed") tenant).0 x in
                          let (a', b') =
                            (required-ok c.role_code (kit "ErrExtractSubjectFailed") role).0 y in
                          (
                            record {
                              transport = t;
                              claims = c;
                              tenant = tenant;
                              role = role;
                              has_transport = p;
                              has_claims = q;
                              trusted = (verify_access_token-Trusted req c t p).0 v;
                              of_tenant = a;
                              tenant_present = b;
                              of_role = a';
                              role_present = b';
                            },
                            (let h' = rw (v, x, y) at h in cc),
                          )
                    ]
            ]
      ]

  -- A request that gets an answer through the gate had a trusted token and a tenant and a role in
  -- its claims, and the handler answered with the claims that were read from them.
  pub auth_claims_middleware-Admitted :
      (handler : Handler) (req : Request) (answer : String)
      → auth_claims_middleware tokens handler req ≡ ok answer
      → (a : Admitted req) × (handler (record req { authz = some (asks a) }) ≡ ok answer)
  unfolding auth_claims_middleware
  auth_claims_middleware-Admitted handler req answer h =
      elim (Result-cases (checked_claims tokens req req.transport req.authn)) [
        | inr (e, p) ↦ absurd (let h' = rw p at h in cc)
        | inl (claims, p) ↦
            let (a, same) = checked_claims-ok req req.transport req.authn claims refl refl p in
            (a, subst (λ x. handler (record req { authz = some x }) ≡ ok answer) same (rw p at h))
      ]

  Admitted-checked_claims :
      (req : Request) (a : Admitted req)
      → checked_claims tokens req (some a.transport) (some a.claims) ≡ ok (asks a)
  unfolding checked_claims authz_claims
  Admitted-checked_claims req a =
      let v = (verify_access_token-Trusted req a.claims a.transport a.has_transport).1 a.trusted in
      let x =
        (required-ok a.claims.tenant_code (kit "ErrExtractTenantFailed") a.tenant).1
          (a.of_tenant, a.tenant_present) in
      let y =
        (required-ok a.claims.role_code (kit "ErrExtractSubjectFailed") a.role).1
          (a.of_role, a.role_present) in
      rw v (rw x (rw y refl))

  -- A request with a trusted token and a tenant and a role in its claims reaches the handler
  -- through the gate, with the claims that were read from them.
  pub Admitted-auth_claims_middleware :
      (handler : Handler) (req : Request) (a : Admitted req)
      → auth_claims_middleware tokens handler req ≡ handler (record req { authz = some (asks a) })
  unfolding auth_claims_middleware
  Admitted-auth_claims_middleware handler req a =
      let e : checked_claims tokens req req.transport req.authn ≡ ok (asks a) =
        subst (λ t. checked_claims tokens req t req.authn ≡ ok (asks a)) (sym a.has_transport)
          (subst (λ c. checked_claims tokens req (some a.transport) c ≡ ok (asks a))
            (sym a.has_claims) (Admitted-checked_claims req a)) in
      ap (λ r. and_then r (λ claims. handler (record req { authz = some claims }))) e

-- What the authentication middleware of the kit is documented to do: it reads the claims of a
-- request, refuses where it cannot, and runs the next handler with what it has read.
pub record IsAuthn (authn_server : Handler → Handler) (authenticate : Request → Result AuthnClaims)
    : Type 0 where
  pub outcome :
      (next : Handler) (req : Request)
      → authn_server next req
        ≡ and_then (authenticate req) (λ claims. next (record req { authn = some claims }))

module _ (tokens : Tokens) (find : Regexp)
    (authn_server authz_server optional_server : Handler → Handler)
    (optional_auth white_list : Option WhiteList) where
  -- A request whose operation is on neither list is answered only for claims that the
  -- authentication has read from it and that are admitted, and then by the authorizer in front of
  -- the handler. It needs an authentication middleware that refuses where it reads no claims, and
  -- else runs the next handler with the claims that it read.
  pub auth_middleware-Admitted :
      (authenticate : Request → Result AuthnClaims) (handler : Handler) (req : Request)
      (t : Transport) (answer : String)
      → IsAuthn authn_server authenticate
      → req.transport ≡ some t
      → match_white_list find optional_auth t.operation ≡ false
      → match_white_list find white_list t.operation ≡ false
      → auth_middleware tokens find authn_server authz_server optional_server optional_auth
          white_list handler req
        ≡ ok answer
      → (claims : AuthnClaims) × (a : Admitted tokens (record req { authn = some claims }))
        × (authenticate req ≡ ok claims)
        × (authz_server handler (record req { authn = some claims; authz = some (asks tokens a) })
            ≡ ok answer)
  unfolding auth_middleware routed full_auth
  auth_middleware-Admitted authenticate handler req t answer authn p l w h =
      let h' : authn_server (auth_claims_middleware tokens (authz_server handler)) req ≡ ok answer =
        rw (l, w) at
          (subst
            (λ o.
              routed tokens find authn_server authz_server optional_server optional_auth white_list
                handler o req
              ≡ ok answer)
            p h) in
      let gate : Handler = auth_claims_middleware tokens (authz_server handler) in
      elim (Result-cases (authenticate req)) [
        | inr (e, x) ↦
            absurd (let k = sym (authn.outcome gate req) ∙ h' in let k' = rw x at k in cc)
        | inl (claims, x) ↦
            let (a, answers) =
              auth_claims_middleware-Admitted tokens (authz_server handler)
                (record req { authn = some claims }) answer
                (rw x at (sym (authn.outcome gate req) ∙ h')) in
            (claims, a, x, answers)
      ]
