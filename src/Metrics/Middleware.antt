-- ===== src/Metrics/Middleware.antt =====
-- HTTPMiddleware and responseWriter of internal/metrics/metrics.go.
use telemetry_punitha.Prelude.{
  ℕ, ◌+◌, true, ◌≤◌, ◌≡◌, refl, subst, ◌∙◌, not, ◌&&◌, ◌||◌, List, [], ◌∷◌, ◌++◌, Option, none,
  some, Text, text_eqb, text_eqb_iff, eqb, ltb, if◌then◌else◌, arith,
}
use telemetry_punitha.Metrics.Utf8.{is_utf8, all_utf8}
use telemetry_punitha.Metrics.{
  Prometheus, http_requests_total, http_request_duration, inc_with, observe_with,
}

-- The http.ResponseWriter of the server: the status that was sent, and the body.
pub record Inner : Type 0 where
  pub sent : Option ℕ
  pub body : Text

pub record ResponseWriter : Type 0 where
  pub inner : Inner
  pub status_code : ℕ

-- What a handler does with its writer.
pub data Action : Type 0 where
  write_header : ℕ → Action
  write : Text → Action

-- The server ignores a second status, panics at one that has not three digits, and does not take
-- an informational one as the status.
unfoldable pub send_header : ℕ → Inner → Option Inner
send_header code i = elim i.sent [
  | some earlier ↦ some i
  | none ↦
      if ltb code 100 || ltb 999 code
      then none
      else if ltb code 200 && not (eqb code 101)
      then some i
      else some (record i { sent = some code })
]

unfoldable pub send_body : Text → Inner → Inner
send_body text i = record {
  sent = elim i.sent [ none ↦ some 200 | some code ↦ some code ];
  body = i.body ++ text;
}

-- The handler's calls; `none` is a panic.
unfoldable pub serve_actions : List Action → ResponseWriter → Option ResponseWriter
serve_actions [] w = some w
serve_actions (write_header code ∷ actions) w = elim (send_header code w.inner) [
  | none ↦ none
  | some i ↦ serve_actions actions (record { inner = i; status_code = code })
]
serve_actions (write text ∷ actions) w =
    serve_actions actions (record w { inner = send_body text w.inner })

-- http.StatusText, whose texts are ASCII.
pub record StatusText : Type 0 where
  pub text : ℕ → Text
  pub text_valid : (code : ℕ) → is_utf8 (text code) ≡ true

module _ {F : Type 0} (client : Prometheus F) (status_text : StatusText) where
  open client use {Registry}

  unfoldable pub http_middleware :
      Text → Text → Text → F → List Action → Registry → Option (Inner × Registry)
  http_middleware service method path duration actions r =
      let wrapper : ResponseWriter = record {
        inner = record { sent = none; body = [] };
        status_code = 200;
      } in
      elim (serve_actions actions wrapper) [
        | none ↦ none
        | some w ↦
            elim (inc_with client http_requests_total
              (service ∷ method ∷ path ∷ status_text.text w.status_code ∷ []) r) [
                | none ↦ none
                | some counted ↦
                    elim (observe_with client http_request_duration (service ∷ method ∷ path ∷ [])
                      duration counted) [ none ↦ none | some after ↦ some (w.inner, after) ]
              ]
      ]

-- The status that the client receives.
abbrev pub received : Inner → ℕ
received i = elim i.sent [ none ↦ 200 | some code ↦ code ]

-- A handler that sets the status once, and first, or not at all.
pub data Writes : List Action → Type 0 where
  done : Writes []
  writes : {actions : List Action} (text : Text) → Writes actions → Writes (write text ∷ actions)

pub data OneStatus : List Action → Type 0 where
  no_status : {actions : List Action} → Writes actions → OneStatus actions
  status_first :
      {actions : List Action} (code : ℕ)
      → 200 ≤ code
      → code ≤ 999
      → Writes actions
      → OneStatus (write_header code ∷ actions)

serve-Writes :
    {actions : List Action} (w : ResponseWriter)
    → Writes actions
    → w.status_code ≡ received w.inner
    → (v : ResponseWriter) × (serve_actions actions w ≡ some v) × (v.status_code ≡ received v.inner)
unfolding serve_actions send_body
serve-Writes w done same = (w, refl, same)
serve-Writes w (writes text more) same =
    serve-Writes (record w { inner = send_body text w.inner }) more (ground arith)

abbrev fresh : ResponseWriter
fresh = record { inner = record { sent = none; body = [] }; status_code = 200 }

serve-OneStatus :
    {actions : List Action}
    → OneStatus actions
    → (v : ResponseWriter) × (serve_actions actions fresh ≡ some v)
      × (v.status_code ≡ received v.inner)
unfolding serve_actions send_header
serve-OneStatus (no_status more) = serve-Writes fresh more refl
serve-OneStatus (status_first code low high more) =
    let w : ResponseWriter = record {
      inner = record { sent = some code; body = [] };
      status_code = code;
    } in
    let (v, served, same) = serve-Writes w more refl in (v, ground arith, same)

module _ {F : Type 0} (client : Prometheus F) (status_text : StatusText) where
  -- At labels that are valid UTF-8, and for a handler that sets its status once and before it writes, from 200 to 999, or not at
  -- all, the middleware does not panic and counts the request once under the text of the status
  -- that the client receives.
  pub http_middleware_lem :
      {actions : List Action} (service method path : Text) (duration : F) (r : client.Registry)
      → OneStatus actions
      → is_utf8 service ≡ true
      → is_utf8 method ≡ true
      → is_utf8 path ≡ true
      → (i : Inner) × (after : client.Registry) × (http_middleware client status_text service method
            path duration actions r
          ≡ some (i, after))
        × (client.total http_requests_total.name
              (service ∷ method ∷ path ∷ status_text.text (received i) ∷ [])
              after
            ≡ client.total http_requests_total.name
                (service ∷ method ∷ path ∷ status_text.text (received i) ∷ [])
                r
              + 1)
  unfolding http_middleware text_eqb all_utf8
  http_middleware_lem service method path duration r one s m p =
      let (w, served, same) = serve-OneStatus one in
      let ls = service ∷ method ∷ path ∷ status_text.text w.status_code ∷ [] in
      let counted = client.inc http_requests_total ls r in
      let after =
        client.observe http_request_duration (service ∷ method ∷ path ∷ []) duration counted in
      let up : client.total http_requests_total.name ls after
          ≡ client.total http_requests_total.name ls r + 1 =
        client.total-observe_other http_request_duration (service ∷ method ∷ path ∷ []) ls
          http_requests_total.name duration counted
          (λ e. ground (arith, e, text_eqb_iff http_request_duration.name http_requests_total.name))
        ∙ client.total-inc http_requests_total ls r in
      (
        w.inner,
        after,
        rw (http_middleware, served, s, m, p, status_text.text_valid w.status_code, s, m, p) refl,
        subst
            (λ code.
              client.total http_requests_total.name
                (service ∷ method ∷ path ∷ status_text.text code ∷ []) after
              ≡ client.total http_requests_total.name
                  (service ∷ method ∷ path ∷ status_text.text code ∷ []) r
                + 1)
            same up,
      )
