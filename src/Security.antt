-- ===== src/Security.antt =====
-- internal/security/auth.go: the two middlewares.
pub mod Access
use telemetry_punitha.Prelude.{
  Bool, true, false, ◌||◌, List, [], ◌∷◌, ◌++◌, Text, codes, text_eq, ◌==◌, has_prefix, trim_prefix,
  if◌then◌else◌,
}

-- The path and the headers that the middlewares read, empty if they are absent.
pub record Request : Type 0 where
  pub path : Text
  pub api_key : Text
  pub authorization : Text
  pub service_token : Text

-- Whether the request goes on to the next handler, or is answered with 401 and a text.
pub data Decision : Type 0 where
  serve : Decision
  unauthorized : Text → Decision

-- The paths that need no key.
unfoldable pub is_open : Text → Bool
is_open path =
    path == codes "/health"
    || path == codes "/metrics"
    || path == codes "/topics"
    || has_prefix path (codes "/swagger/")
    || path == codes "/swagger"
    || path == codes "/docs"
    || has_prefix path (codes "/docs/")
    || path == codes "/swagger-ui/"
    || path == codes "/swagger/index.html"
    || path == codes "/swagger.json"
    || path == codes "/swagger.yaml"

abbrev pub bearer : Text
bearer = codes "Bearer "

-- The key of a request.
unfoldable pub key_of : Request → Text
key_of r =
    if r.api_key == []
    then (if has_prefix r.authorization bearer
        then trim_prefix r.authorization bearer
        else r.api_key)
    else r.api_key

-- The environment's value, or the default for an empty one.
unfoldable pub valid_key : Text → Text
valid_key env = if env == [] then codes "telemetry-api-secret-2025" else env

unfoldable pub validate_api_key : Text → Text → Bool
unfolding valid_key
validate_api_key env key = key == valid_key env

unfoldable pub api_key_middleware : Text → Request → Decision
api_key_middleware env r =
    if is_open r.path
    then serve
    else if validate_api_key env (key_of r)
    then serve
    else unauthorized (codes "Unauthorized: Invalid API key")

unfoldable pub valid_token : Text → Text
valid_token env = if env == [] then codes "service-internal-token-change-in-production" else env

unfoldable pub validate_service_token : Text → Text → Bool
unfolding valid_token
validate_service_token env token = token == valid_token env

unfoldable pub service_auth_middleware : Text → Request → Decision
service_auth_middleware env r =
    if r.path == codes "/health" || r.path == codes "/topics"
    then serve
    else if validate_service_token env r.service_token
    then serve
    else unauthorized (codes "Unauthorized: Invalid service token")
