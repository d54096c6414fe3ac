-- ===== src/Api/Secured.antt =====
-- The API service as a whole: its routes behind the API key's middleware.
use telemetry_punitha.Prelude.{
  ◌≡◌, refl, ap, ◌∙◌, ◌↔◌, ◌⊎◌, inl, inr, Bool, true, false, Option, some, Text, codes, text_eq,
  arith,
}
use telemetry_punitha.Prelude.Int.{ℤ}
use telemetry_punitha.Config.{Environment}
use telemetry_punitha.ServeMux.{Routed, no_handler, moved, handled, route_request}
use telemetry_punitha.Security.{Decision, serve, unauthorized, valid_key, api_key_middleware}
use telemetry_punitha.Security.Access.{Carries, api_key_middleware_iff}
use telemetry_punitha.Metrics.Utf8.{is_utf8}
use telemetry_punitha.Metrics.{Prometheus}
use telemetry_punitha.Metrics.Middleware.{
  StatusText, OneStatus, status_first, writes, done, http_middleware_lem,
}
use telemetry_punitha.Influx.Client.{InfluxDb}
use telemetry_punitha.Api.Service.{
  HttpRequest, to_guard, Endpoint, health, metrics, swagger, gpu, gpus, routes, Reply, refused,
  redirected, not_found, healthy, metrics_page, swagger_page, telemetry, gpu_ids, health_actions,
  handle_endpoint, serve_http,
}
use telemetry_punitha.Api.Guarded.{
  is_gpu_path, is_as_is, to_gpu, routed_to_gpu, is_open-is_gpu_path, routed_to_gpu-route_request,
  route_request-health,
}

-- An answer of one of the two GPU handlers.
abbrev pub is_gpu_reply : {F T : Type 0} → Reply F T → Bool
is_gpu_reply (telemetry a) = true
is_gpu_reply (gpu_ids a) = true
is_gpu_reply r = false

Decision-cases : (d : Decision) → (d ≡ serve) ⊎ ((text : Text) × (d ≡ unauthorized text))
Decision-cases serve = inl refl
Decision-cases (unauthorized text) = inr (text, refl)

health_sets_once : OneStatus health_actions
health_sets_once = status_first 200 (omega arith) (omega arith) (writes _ done)

module _ {F T : Type 0} (db : InfluxDb F T) (client : Prometheus F) (status_text : StatusText)
    (parse_time : Text → Option T) (print_time : T → Text) (of_int : ℤ → F) (zero_float : F)
    (env : Environment) (s : db.State) (duration : F) (r : HttpRequest)
    (registry : client.Registry) where
  abbrev handle_at : Endpoint → Option (Reply F T × client.Registry)
  handle_at e =
      handle_endpoint db client status_text parse_time print_time of_int zero_float env s duration r
        registry e

  handle_endpoint_total :
      (e : Endpoint)
      → (e ≡ health → r.path ≡ codes "/health")
      → (reply : Reply F T) × (after : client.Registry) × (handle_at e ≡ some (reply, after))
        × (is_gpu_reply reply ≡ to_gpu e)
  unfolding handle_endpoint is_utf8
  handle_endpoint_total health at =
      let path_valid : is_utf8 r.path ≡ true = ap is_utf8 (at refl) in
      let (i, after, answered, counted) =
        http_middleware_lem client status_text (codes "api-service") r.method r.path duration
          registry health_sets_once refl r.method_valid path_valid in
      (healthy i, after, ground (arith, answered), refl)
  handle_endpoint_total metrics at = (metrics_page, registry, refl, refl)
  handle_endpoint_total swagger at = (swagger_page, registry, refl, refl)
  handle_endpoint_total gpu at = (telemetry _, registry, refl, refl)
  handle_endpoint_total gpus at = (gpu_ids _, registry, refl, refl)

  routed_total :
      (to : Routed Endpoint)
      → route_request routes r.method r.path ≡ to
      → api_key_middleware (env (codes "API_KEY")) (to_guard r) ≡ serve
      → (reply : Reply F T) × (after : client.Registry) × (serve_http db client status_text
            parse_time print_time of_int zero_float env s duration r registry
          ≡ some (reply, after))
        × (is_gpu_reply reply ≡ routed_to_gpu to)
  unfolding serve_http
  routed_total no_handler e passed = (not_found, registry, ground (arith, e, passed), refl)
  routed_total (moved path) e passed = (redirected path, registry, ground (arith, e, passed), refl)
  routed_total (handled endpoint) e passed =
      let (reply, after, answered, same) =
        handle_endpoint_total endpoint
          (λ same'. route_request-health r.method r.path (e ∙ ap handled same')) in
      (reply, after, ground (arith, e, passed, answered), same)

  -- The API service answers every request without a panic, and one of its GPU handlers answers
  -- exactly if the request carries the valid key, its path is /api/v1/gpus or below it, and the
  -- mux takes the path as it is.
  pub serve_http_iff :
      (reply : Reply F T) × (after : client.Registry) × (serve_http db client status_text parse_time
          print_time of_int zero_float env s duration r registry
        ≡ some (reply, after))
      × ((is_gpu_reply reply ≡ true) ↔ (
          Carries (valid_key (env (codes "API_KEY"))) (to_guard r)
          × (is_gpu_path r.path ≡ true)
          × (is_as_is r.method r.path ≡ true)))
  serve_http_iff =
      let guard = api_key_middleware_iff (env (codes "API_KEY")) (to_guard r) in
      elim (Decision-cases (api_key_middleware (env (codes "API_KEY")) (to_guard r))) [
        | inr (text, stopped) ↦ (
          refused text,
          registry,
          unfold serve_http in ground (arith, stopped),
          (λ e. absurd (cc), λ h. absurd (ground (arith, guard.1 (inr h.0), stopped))),
        )
        | inl passed ↦
            let (reply, after, answered, same) =
              routed_total (route_request routes r.method r.path) refl passed in
            let routed = routed_to_gpu-route_request r.method r.path in
            let known : is_gpu_reply reply ≡ true → is_gpu_path r.path ≡ true =
              λ e. ground (arith, same, routed) in
            (
              reply,
              after,
              answered,
              (
                λ e. (
                  elim (guard.0 passed) [
                    | inr carried ↦ carried
                    | inl free ↦ absurd (ground (arith, known e, is_open-is_gpu_path r.path free))
                  ],
                  known e,
                  ground (arith, same, routed),
                ),
                λ h. ground (arith, same, routed, h.1, h.2),
              ),
            )
      ]
