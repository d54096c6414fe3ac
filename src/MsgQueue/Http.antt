-- ===== src/MsgQueue/Http.antt =====
-- Requests and responses of the broker's handlers, services/msg_queue/main.go, and the functions of
-- net/http and strings that the handlers call.
use telemetry_punitha.Prelude.{ℕ, Bool, ◌||◌, [], ◌∷◌, ◌++◌, Option, Text, eqb, if◌then◌else◌}

-- The values of the query parameters, empty if they are absent; the body, or the error of reading.
pub record Request : Type 0 where
  pub topic : Text
  pub partition : Text
  pub group : Text
  pub body : Option Text

pub record Response : Type 0 where
  pub status : ℕ
  pub body : Text

abbrev pub newline : ℕ
newline = 10

-- http.Error
abbrev pub http_error : ℕ → Text → Response
http_error status text = record { status = status; body = text ++ newline ∷ [] }

-- The ASCII white space of strings.TrimSpace: \t \n \v \f \r and the blank.
is_space : ℕ → Bool
is_space c = eqb c 32 || eqb c 9 || eqb c 10 || eqb c 11 || eqb c 12 || eqb c 13

trim_left : Text → Text
unfolding is_space
trim_left [] = []
trim_left (c ∷ s) = if is_space c then trim_left s else c ∷ s

reversed : Text → Text → Text
reversed acc [] = acc
reversed acc (c ∷ s) = reversed (c ∷ acc) s

unfoldable pub trim_space : Text → Text
unfolding trim_left reversed
trim_space s = reversed [] (trim_left (reversed [] (trim_left s)))
