-- ===== src/Security/Access.antt =====
-- Which requests the middlewares of internal/security/auth.go let through.
use telemetry_punitha.Prelude.{
  ◌≡◌, ◌≢◌, sym, ap, ◌∙◌, ◌⊎◌, inl, inr, ◌↔◌, true, [], ◌++◌, Text, codes, text_eq, text_eqb_iff,
  ◌==◌, has_prefix, has_prefix-append, trim_prefix, trim_prefix-append, arith, Bool-cases,
  append-trim_prefix,
}
use telemetry_punitha.Security.{
  Request, serve, is_open, bearer, key_of, valid_key, validate_api_key, api_key_middleware,
  valid_token, validate_service_token, service_auth_middleware,
}

valid_key_given : (env : Text) → valid_key env ≢ []
unfolding valid_key
valid_key_given env e = ground (arith, text_eqb_iff env [])

-- The request carries the key: in X-API-Key, or, without that, as the bearer of Authorization.
abbrev pub Carries : Text → Request → Type 0
Carries key r = (r.api_key ≡ key) ⊎ ((r.api_key ≡ []) × (r.authorization ≡ bearer ++ key))

Carries-key_of : (key : Text) (r : Request) → key ≢ [] → key_of r ≡ key → Carries key r
unfolding key_of
Carries-key_of key r given e = elim (Bool-cases (r.api_key == [])) [
  | inr direct ↦ inl (ground arith)
  | inl absent ↦ elim (Bool-cases (has_prefix r.authorization bearer)) [
    | inr other ↦ inl (ground arith)
    | inl borne ↦
        let whole = append-trim_prefix r.authorization bearer borne in
        inr (
          ground (arith, text_eqb_iff r.api_key []),
          sym whole ∙ ap (λ k. bearer ++ k) (ground arith),
        )
  ]
]

key_of-Carries : (key : Text) (r : Request) → key ≢ [] → Carries key r → key_of r ≡ key
unfolding key_of
key_of-Carries key r given (inl direct) = ground (arith, text_eqb_iff r.api_key [])
key_of-Carries key r given (inr (absent, borne)) =
    let starts : has_prefix r.authorization bearer ≡ true =
      ap (λ a. has_prefix a bearer) borne ∙ has_prefix-append bearer key in
    let trimmed : trim_prefix r.authorization bearer ≡ key =
      ap (λ a. trim_prefix a bearer) borne ∙ trim_prefix-append bearer key in
    ground (arith, text_eqb_iff r.api_key [])

-- A request passes the API key's middleware exactly if its path is open or it carries the valid
-- key, in X-API-Key or, without that header, as the bearer token of Authorization.
pub api_key_middleware_iff :
    (env : Text) (r : Request)
    → (api_key_middleware env r ≡ serve) ↔ ((is_open r.path ≡ true) ⊎ Carries (valid_key env) r)
unfolding api_key_middleware validate_api_key
api_key_middleware_iff env r = (
  λ e. elim (Bool-cases (is_open r.path)) [
    | inl free ↦ inl free
    | inr guarded ↦ inr (
        Carries-key_of (valid_key env) r (valid_key_given env)
          (ground (arith, text_eqb_iff (key_of r) (valid_key env))))
  ],
  λ c. elim c [
    | inl free ↦ ground arith
    | inr carried ↦
        let e = key_of-Carries (valid_key env) r (valid_key_given env) carried in
        ground (arith, text_eqb_iff (key_of r) (valid_key env))
  ],
)

-- A request passes the service middleware exactly if its path is /health or /topics or its
-- X-Service-Token is the valid token, which is never empty.
pub service_auth_middleware_iff :
    (env : Text) (r : Request)
    → ((service_auth_middleware env r ≡ serve) ↔ (
        (r.path ≡ codes "/health")
        ⊎ (r.path ≡ codes "/topics")
        ⊎ (r.service_token ≡ valid_token env)))
      × (valid_token env ≢ [])
unfolding service_auth_middleware validate_service_token
service_auth_middleware_iff env r = (
  ground (
    arith,
    text_eqb_iff r.path (codes "/health"),
    text_eqb_iff r.path (codes "/topics"),
    text_eqb_iff r.service_token (valid_token env),
  ),
  λ e. unfold valid_token in ground (arith, text_eqb_iff env []),
)
