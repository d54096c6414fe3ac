-- ===== src/Url.antt =====
-- URLs as net/http and net/url read them: the query's values, and the server that a URL names.
pub mod Queries
pub mod Wire
use telemetry_punitha.Prelude.{
  ℕ, ◌+◌, ◌-◌, ◌*◌, Bool, true, false, not, ◌&&◌, ◌||◌, List, [], ◌∷◌, ◌++◌, Option, none, some,
  Text, codes, text_eq, ◌==◌, eqb, leb, mentions, split, trim_prefix, if◌then◌else◌,
}

-- The two parts of a text at the first `c`.
unfoldable pub before : ℕ → Text → Text
before c [] = []
before c (x ∷ s) = if eqb x c then [] else x ∷ before c s

unfoldable pub after : ℕ → Text → Text
after c [] = []
after c (x ∷ s) = if eqb x c then s else after c s

hex_digit : ℕ → Option ℕ
hex_digit c =
    if leb b'0' c && leb c b'9'
    then some (c - b'0')
    else if leb b'A' c && leb c b'F'
    then some (c - b'A' + 10)
    else if leb b'a' c && leb c b'f'
    then some (c - b'a' + 10)
    else none

escaped : Option ℕ → Option ℕ → Option Text → Option Text
escaped (some a) (some b) (some s) = some ((a * 16 + b) ∷ s)
escaped a b s = none

kept : ℕ → Option Text → Option Text
kept c none = none
kept c (some s) = some (c ∷ s)

-- url.QueryUnescape; `none` is the error.
unfoldable pub unescape : Text → Option Text
unfolding hex_digit escaped kept
unescape [] = some []
unescape (c ∷ []) = if eqb c b'%' then none else kept (if eqb c b'+' then 32 else c) (some [])
unescape (c ∷ d ∷ []) =
    let rest = unescape (d ∷ []) in
    if eqb c b'%' then none else kept (if eqb c b'+' then 32 else c) rest
unescape (c ∷ d ∷ e ∷ s) =
    let rest = unescape (d ∷ e ∷ s) in
    let behind = unescape s in
    if eqb c b'%'
    then escaped (hex_digit d) (hex_digit e) behind
    else kept (if eqb c b'+' then 32 else c) rest

-- The value of a piece of the query for the key, if it has that key. A piece with a semicolon or a
-- bad escape is dropped.
piece_value : Text → Text → Option Text
piece_value key piece = if mentions b';' piece then none else elim (unescape (before b'=' piece)) [
  | none ↦ none
  | some k ↦ if k == key && not (piece == []) then unescape (after b'=' piece) else none
]

first_value : Text → List Text → Text
first_value key [] = []
first_value key (piece ∷ pieces) = elim (piece_value key piece) [
  | none ↦ first_value key pieces
  | some v ↦ v
]

-- r.URL.Query().Get(key) at the server that the request reaches; a fragment is not sent.
unfoldable pub query_get : Text → Text → Text
unfolding first_value piece_value
query_get url key = first_value key (split b'&' (after b'?' (before b'#' url)))

-- http://<host>
unfoldable pub server_of : Text → Text
server_of url = codes "http://" ++ before b'/' (trim_prefix url (codes "http://"))

-- The path of the URL http://<host>/<path> as it stands: an escape in it is not decoded.
unfoldable pub path_of : Text → Text
path_of url = b'/' ∷ before b'?' (before b'#' (after b'/' (trim_prefix url (codes "http://"))))

-- A text with no blank and no control character. net/http makes no request of a URL with a control
-- character, and its server answers a request line with a blank in the target with 400.
unfoldable pub is_wire : Text → Bool
is_wire [] = true
is_wire (c ∷ s) = not (leb c 32 || eqb c 127) && is_wire s

-- What a request line can carry: the URL up to the fragment, which is not sent.
unfoldable pub is_target : Text → Bool
is_target url = is_wire (before b'#' url)
