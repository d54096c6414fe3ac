-- ===== src/Api/Guarded.antt =====
-- Which requests to the API service are answered with telemetry.
use telemetry_punitha.Prelude.{
  ℕ, ◌≤◌, ◌<◌, ◌≡◌, ◌≢◌, refl, ap, ◌∙◌, inl, inr, Bool, true, false, not, ◌&&◌, ◌||◌, [], ◌∷◌, ◌++◌,
  none, some, Text, codes, text_eq, text_eqb, text_eqb_iff, ◌==◌, length, length-append, get_elem?,
  has_prefix, has_prefix-append, Bool-cases, arith,
}
use telemetry_punitha.Prelude.Map.{lookup}
use telemetry_punitha.ServeMux.{
  Routed, no_handler, moved, handled, clean_path, longest, handler_of, route_clean, route_request,
  ends_in_slash, is_registered,
}
use telemetry_punitha.Security.{is_open}
use telemetry_punitha.Api.Service.{Endpoint, health, gpu, gpus, routes}

abbrev gpus_path : Text
gpus_path = codes "/api/v1/gpus"

abbrev gpu_prefix : Text
gpu_prefix = codes "/api/v1/gpus/"

-- A path of the two GPU endpoints.
abbrev pub is_gpu_path : Text → Bool
is_gpu_path path = path == gpus_path || has_prefix path gpu_prefix

abbrev pub to_gpu : Endpoint → Bool
to_gpu gpu = true
to_gpu gpus = true
to_gpu e = false

abbrev pub routed_to_gpu : Routed Endpoint → Bool
routed_to_gpu no_handler = false
routed_to_gpu (moved path) = false
routed_to_gpu (handled e) = to_gpu e

has_prefix_second :
    (path p : Text) (a b : ℕ) → has_prefix path (a ∷ b ∷ p) ≡ true → get_elem? path 1 ≡ some b
unfolding has_prefix
has_prefix_second [] p a b h = absurd (ground arith)
has_prefix_second (x ∷ []) p a b h = absurd (ground arith)
has_prefix_second (x ∷ y ∷ s) p a b h = ground arith

has_prefix-length : (path p : Text) → has_prefix path p ≡ true → length p ≤ length path
unfolding has_prefix
has_prefix-length s [] h = omega arith
has_prefix-length [] (b ∷ p) h = absurd (ground arith)
has_prefix-length (a ∷ s) (b ∷ p) h = ground (arith, has_prefix-length s p)

gpu_path_second : (path : Text) → is_gpu_path path ≡ true → get_elem? path 1 ≡ some b'a'
gpu_path_second path h =
    ground
      (arith, text_eqb_iff path gpus_path, has_prefix_second path (codes "pi/v1/gpus/") b'/' b'a')

open_second : (path : Text) → is_open path ≡ true → get_elem? path 1 ≢ some b'a'
unfolding is_open
open_second path h a = ground (
  arith,
  text_eqb_iff path (codes "/health"),
  text_eqb_iff path (codes "/metrics"),
  text_eqb_iff path (codes "/topics"),
  text_eqb_iff path (codes "/swagger"),
  text_eqb_iff path (codes "/docs"),
  text_eqb_iff path (codes "/swagger-ui/"),
  text_eqb_iff path (codes "/swagger/index.html"),
  text_eqb_iff path (codes "/swagger.json"),
  text_eqb_iff path (codes "/swagger.yaml"),
  has_prefix_second path (codes "wagger/") b'/' b's',
  has_prefix_second path (codes "ocs/") b'/' b'd',
)

-- No path that needs no key is a path of the GPU endpoints.
pub is_open-is_gpu_path : (path : Text) → is_open path ≡ true → is_gpu_path path ≡ false
is_open-is_gpu_path path h = ground (arith, open_second path h, gpu_path_second path)

to_gpu-longest :
    (path : Text)
    → (elim (longest path routes) [ none ↦ false | some (pattern', e) ↦ to_gpu e ])
      ≡ has_prefix path gpu_prefix
unfolding routes longest ends_in_slash
to_gpu-longest path = ground (
  arith,
  has_prefix_second path (codes "wagger/") b'/' b's',
  has_prefix_second path (codes "pi/v1/gpus/") b'/' b'a',
)

no_prefix_slash :
    (path : Text) → text_eqb gpu_prefix path ≡ true → has_prefix path gpu_prefix ≡ true
no_prefix_slash path h =
    ground (arith, text_eqb_iff gpu_prefix path, has_prefix-append gpu_prefix [])

to_gpu-routes :
    (path : Text)
    → (elim (handler_of routes path) [ none ↦ false | some e ↦ to_gpu e ]) ≡ is_gpu_path path
unfolding handler_of routes lookup
to_gpu-routes path = ground (
  arith,
  to_gpu-longest path,
  gpu_path_second path,
  no_prefix_slash path,
  text_eqb_iff (codes "/health") path,
  text_eqb_iff (codes "/metrics") path,
  text_eqb_iff (codes "/swagger/") path,
  text_eqb_iff gpus_path path,
  text_eqb_iff path gpus_path,
)

shorter_differs : (s t : Text) → length s < length t → text_eqb s t ≡ false
shorter_differs s t h = ground (arith, text_eqb_iff s t)

unregistered : (path : Text) → 13 < length path → is_registered routes path ≡ false
unfolding is_registered lookup routes
unregistered path h = ground (
  arith,
  shorter_differs (codes "/health") path,
  shorter_differs (codes "/metrics") path,
  shorter_differs (codes "/swagger/") path,
  shorter_differs gpu_prefix path,
  shorter_differs gpus_path path,
)

gpus_registered : is_registered routes gpus_path ≡ true
unfolding is_registered lookup routes text_eqb
gpus_registered = refl

-- A path of the GPU endpoints is not one that only lacks its slash.
slashed :
    (path : Text)
    → is_gpu_path path ≡ true
    → (not (is_registered routes path) && is_registered routes (path ++ b'/' ∷ [])) ≡ false
slashed path h = elim (Bool-cases (path == gpus_path)) [
  | inl same ↦
      let e : is_registered routes path ≡ true =
        ap (is_registered routes) ((text_eqb_iff path gpus_path).0 same) ∙ gpus_registered in
      rw e refl
  | inr other ↦
      let longer : has_prefix path gpu_prefix ≡ true = ground arith in
      ground (
        arith,
        unregistered (path ++ b'/' ∷ []),
        length-append path (b'/' ∷ []),
        has_prefix-length path gpu_prefix longer,
      )
]

found_gpu :
    (path : Text)
    → has_prefix path gpu_prefix ≡ true
    → 13 < length path
    → handler_of routes path ≡ some gpu
unfolding handler_of routes lookup longest ends_in_slash
found_gpu path below long = ground (
  arith,
  has_prefix_second path (codes "wagger/") b'/' b's',
  has_prefix_second path (codes "pi/v1/gpus/") b'/' b'a',
  shorter_differs (codes "/health") path,
  shorter_differs (codes "/metrics") path,
  shorter_differs (codes "/swagger/") path,
  shorter_differs gpu_prefix path,
  shorter_differs gpus_path path,
)

routed_to_gpu-route_clean :
    (clean path : Text)
    → routed_to_gpu (route_clean routes clean path) ≡ (clean == path && is_gpu_path path)
unfolding route_clean
routed_to_gpu-route_clean clean path = elim (Bool-cases (clean == path)) [
  | inr differ ↦ ground arith
  | inl same ↦
      let e = (text_eqb_iff clean path).0 same in ground (arith, slashed path, to_gpu-routes path)
]

abbrev to_health : Endpoint → Bool
to_health e = elim e [ health ↦ true | _ ↦ false ]

to_health-longest :
    (path : Text)
    → (elim (longest path routes) [ none ↦ false | some (pattern', e) ↦ to_health e ]) ≡ false
unfolding routes longest ends_in_slash
to_health-longest path = ground arith

to_health-routes :
    (path : Text)
    → (elim (handler_of routes path) [ none ↦ false | some e ↦ to_health e ]) ≡ true
    → path ≡ codes "/health"
unfolding handler_of routes lookup
to_health-routes path h = ground (
  arith,
  to_health-longest path,
  text_eqb_iff (codes "/health") path,
  text_eqb_iff (codes "/metrics") path,
  text_eqb_iff (codes "/swagger/") path,
  text_eqb_iff gpu_prefix path,
  text_eqb_iff gpus_path path,
)

health_of-route_clean :
    (clean path : Text) → route_clean routes clean path ≡ handled health → path ≡ codes "/health"
unfolding route_clean
health_of-route_clean clean path h = ground (arith, to_health-routes path)

-- Only the path of the health check is handed to its handler.
pub route_request-health :
    (method path : Text)
    → route_request routes method path ≡ handled health
    → path ≡ codes "/health"
unfolding route_request
route_request-health method path h = health_of-route_clean _ path h

-- A longer path below the prefix goes to the handler of one GPU.
pub route_request-gpu :
    (method path : Text)
    → has_prefix path gpu_prefix ≡ true
    → 13 < length path
    → clean_path path ≡ path
    → route_request routes method path ≡ handled gpu
unfolding route_request route_clean handler_of
route_request-gpu method path below long clean = ground (
  arith,
  clean,
  found_gpu path below long,
  unregistered path,
  unregistered (path ++ b'/' ∷ []),
  length-append path (b'/' ∷ []),
  text_eqb_iff path path,
)

-- The mux takes the path as it is.
abbrev pub is_as_is : Text → Text → Bool
is_as_is method path = method == codes "CONNECT" || clean_path path == path

-- The mux hands to the GPU handlers the paths of theirs that it takes as they are, and no others.
pub routed_to_gpu-route_request :
    (method path : Text)
    → routed_to_gpu (route_request routes method path) ≡ (is_as_is method path && is_gpu_path path)
unfolding route_request
routed_to_gpu-route_request method path = ground (
  arith,
  routed_to_gpu-route_clean path path,
  routed_to_gpu-route_clean (clean_path path) path,
  text_eqb_iff path path,
)
