-- ===== src/Url/Queries.antt =====
-- The queries that the clients of the broker and of the proxy write.
use telemetry_punitha.Prelude.{
  ℕ, ◌≡◌, refl, ap, ◌∙◌, false, [], ◌∷◌, ◌++◌, none, some, Text, codes, text_eq, text_eqb, mentions,
  mentions-append, split, split-append, split_plain, trim_prefix-append, arith,
}
use telemetry_punitha.Prelude.Int.{ℤ}
use telemetry_punitha.Strconv.{itoa}
use telemetry_punitha.Strconv.RoundTrip.{itoa_plain}
use telemetry_punitha.Url.{
  before, after, unescape, kept, piece_value, first_value, query_get, server_of, path_of,
}

-- A text that stands for itself in a query.
pub record IsQueryText (s : Text) : Type 0 where
  pub no_percent : mentions b'%' s ≡ false
  pub no_plus : mentions b'+' s ≡ false
  pub no_ampersand : mentions b'&' s ≡ false
  pub no_semicolon : mentions b';' s ≡ false
  pub no_fragment : mentions b'#' s ≡ false

unescape_lem : (s : Text) → mentions b'%' s ≡ false → mentions b'+' s ≡ false → unescape s ≡ some s
unfolding unescape mentions
unescape_lem [] p q = refl
unescape_lem (c ∷ []) p q = ground arith
unescape_lem (c ∷ d ∷ []) p q = ground (arith, unescape_lem (d ∷ []))
unescape_lem (c ∷ d ∷ e ∷ s) p q = ground (arith, unescape_lem (d ∷ e ∷ s))

after-append : (c : ℕ) (s t : Text) → mentions c s ≡ false → after c (s ++ t) ≡ after c t
unfolding after mentions
after-append c [] t h = refl
after-append c (x ∷ s) t h = ground (arith, after-append c s t)

before_plain : (c : ℕ) (s : Text) → mentions c s ≡ false → before c s ≡ s
unfolding before mentions
before_plain c [] h = refl
before_plain c (x ∷ s) h = ground (arith, before_plain c s)

before-append : (c : ℕ) (s t : Text) → mentions c s ≡ false → before c (s ++ c ∷ t) ≡ s
unfolding before mentions
before-append c [] t h = ground arith
before-append c (x ∷ s) t h = ground (arith, before-append c s t)

before-append_left :
    (c : ℕ) (s t : Text) → mentions c s ≡ false → before c (s ++ t) ≡ s ++ before c t
unfolding before mentions
before-append_left c [] t h = refl
before-append_left c (x ∷ s) t h = ground (arith, before-append_left c s t)

-- The beginning of a URL, up to the query.
pub record IsBase (s : Text) : Type 0 where
  pub no_query : mentions b'?' s ≡ false
  pub no_fragment : mentions b'#' s ≡ false

query_get_base : (s t key : Text) → IsBase s → query_get (s ++ t) key ≡ query_get t key
unfolding query_get
query_get_base s t key base =
    ap (λ q. first_value key (split b'&' q))
      (ap (after b'?') (before-append_left b'#' s t base.no_fragment)
        ∙ after-append b'?' s (before b'#' t) base.no_query)

module _ (topic : Text) (plain : IsQueryText topic) (n : ℤ) where
  topic_piece : Text
  topic_piece = codes "topic=" ++ topic

  partition_piece : Text
  partition_piece = codes "partition=" ++ itoa n

  -- The query of a produce.
  abbrev pub produce_query : Text
  produce_query = codes "topic=" ++ (topic ++ (codes "&partition=" ++ itoa n))

  itoa_query : IsQueryText (itoa n)
  itoa_query = record {
    no_percent = itoa_plain b'%' n refl;
    no_plus = itoa_plain b'+' n refl;
    no_ampersand = itoa_plain b'&' n refl;
    no_semicolon = itoa_plain b';' n refl;
    no_fragment = itoa_plain b'#' n refl;
  }

  no_fragment_there : mentions b'#' produce_query ≡ false
  unfolding mentions
  no_fragment_there =
      mentions-append b'#' topic (codes "&partition=" ++ itoa n)
      ∙ ground (arith, plain.no_fragment, itoa_query.no_fragment)

  pieces : split b'&' produce_query ≡ topic_piece ∷ partition_piece ∷ []
  unfolding topic_piece partition_piece
  pieces =
      split-append b'&' topic_piece partition_piece (unfold mentions in plain.no_ampersand)
      ∙ ap (λ l. topic_piece ∷ l)
          (split_plain b'&' partition_piece (unfold mentions in itoa_query.no_ampersand))

  topic_value : piece_value (codes "topic") topic_piece ≡ some topic
  unfolding piece_value topic_piece before after text_eqb unescape kept
  topic_value =
      let clear : mentions b';' topic_piece ≡ false = unfold mentions in plain.no_semicolon in
      rw (clear) (unescape_lem topic plain.no_percent plain.no_plus)

  other_value : piece_value (codes "partition") topic_piece ≡ none
  unfolding piece_value topic_piece before after text_eqb unescape kept
  other_value =
      let clear : mentions b';' topic_piece ≡ false = unfold mentions in plain.no_semicolon in
      rw clear refl

  partition_value : piece_value (codes "partition") partition_piece ≡ some (itoa n)
  unfolding piece_value partition_piece before after text_eqb unescape kept
  partition_value =
      let clear : mentions b';' partition_piece ≡ false =
        unfold mentions in itoa_query.no_semicolon in
      rw clear (unescape_lem (itoa n) itoa_query.no_percent itoa_query.no_plus)

  raw_query :
      (base : Text) (key : Text)
      → IsBase base
      → query_get (base ++ (codes "/produce?" ++ produce_query)) key
        ≡ first_value key (topic_piece ∷ partition_piece ∷ [])
  raw_query base key is_base =
      query_get_base base (codes "/produce?" ++ produce_query) key is_base
      ∙ (unfold query_get in
          unfold before in
          unfold after in
          (ap (λ q. first_value key (split b'&' q))
              (before_plain b'#' produce_query no_fragment_there)
            ∙ ap (first_value key) pieces))

  pub query_get-topic :
      (base : Text)
      → IsBase base
      → query_get (base ++ (codes "/produce?" ++ produce_query)) (codes "topic") ≡ topic
  unfolding piece_value mentions topic_piece
  query_get-topic base is_base =
      raw_query base (codes "topic") is_base ∙ (unfold first_value in rw topic_value refl)

  pub query_get-partition :
      (base : Text)
      → IsBase base
      → query_get (base ++ (codes "/produce?" ++ produce_query)) (codes "partition") ≡ itoa n
  unfolding piece_value itoa mentions topic_piece
  query_get-partition base is_base =
      raw_query base (codes "partition") is_base
      ∙ (unfold first_value in rw (other_value, partition_value) refl)

-- The server of a URL is what stands before the path.
pub server_of-append :
    (host rest : Text)
    → mentions b'/' host ≡ false
    → server_of ((codes "http://" ++ host) ++ b'/' ∷ rest) ≡ codes "http://" ++ host
unfolding server_of
server_of-append host rest h =
    ap (λ s. codes "http://" ++ before b'/' s)
      (trim_prefix-append (codes "http://") (host ++ b'/' ∷ rest))
    ∙ ap (λ s. codes "http://" ++ s) (before-append b'/' host rest h)

pub path_of-append :
    (host segment rest : Text)
    → mentions b'/' host ≡ false
    → mentions b'?' segment ≡ false
    → mentions b'#' segment ≡ false
    → path_of ((codes "http://" ++ host) ++ b'/' ∷ (segment ++ b'?' ∷ rest)) ≡ b'/' ∷ segment
unfolding path_of after before
path_of-append host segment rest whole plain clear =
    ap (λ s. b'/' ∷ before b'?' (before b'#' (after b'/' s)))
      (trim_prefix-append (codes "http://") (host ++ b'/' ∷ (segment ++ b'?' ∷ rest)))
    ∙ ap (λ s. b'/' ∷ before b'?' (before b'#' s))
        (after-append b'/' host (b'/' ∷ (segment ++ b'?' ∷ rest)) whole)
    ∙ ap (λ s. b'/' ∷ before b'?' s) (before-append_left b'#' segment (b'?' ∷ rest) clear)
    ∙ ap (λ s. b'/' ∷ s) (before-append b'?' segment (before b'#' rest) plain)

pub path_of_plain :
    (host segment : Text)
    → mentions b'/' host ≡ false
    → mentions b'?' segment ≡ false
    → mentions b'#' segment ≡ false
    → path_of ((codes "http://" ++ host) ++ b'/' ∷ segment) ≡ b'/' ∷ segment
unfolding path_of after before
path_of_plain host segment whole plain clear =
    ap (λ s. b'/' ∷ before b'?' (before b'#' (after b'/' s)))
      (trim_prefix-append (codes "http://") (host ++ b'/' ∷ segment))
    ∙ ap (λ s. b'/' ∷ before b'?' (before b'#' s)) (after-append b'/' host (b'/' ∷ segment) whole)
    ∙ ap (λ s. b'/' ∷ before b'?' s) (before_plain b'#' segment clear)
    ∙ ap (λ s. b'/' ∷ s) (before_plain b'?' segment plain)
