-- ===== src/ServeMux.antt =====
-- The http.ServeMux of net/http, for patterns that are paths: how a server picks a handler. The
-- services give it their routes.
pub mod Canonical
use telemetry_punitha.Prelude.{
  ℕ, Bool, true, false, not, ◌&&◌, ◌||◌, List, [], ◌∷◌, ◌++◌, Option, none, some, Text, codes,
  text_eq, ◌==◌, eqb, ltb, length, split, has_prefix, if◌then◌else◌,
}
use telemetry_punitha.Prelude.Map.{Map, lookup}

unfoldable pub ends_in_slash : Text → Bool
ends_in_slash [] = false
ends_in_slash (c ∷ []) = eqb c b'/'
ends_in_slash (c ∷ d ∷ s) = ends_in_slash (d ∷ s)

-- The segments of a path that path.Clean keeps, the last one first: ".." takes the one before it
-- away, and the root has none before it.
unfoldable pub keep_segments : List Text → List Text → List Text
keep_segments kept [] = kept
keep_segments kept (segment ∷ more) =
    keep_segments
      (if segment == [] || segment == codes "."
        then kept
        else if segment == codes ".."
        then elim kept [ [] ↦ [] | last ∷ before ↦ before ]
        else segment ∷ kept)
      more

-- The segments, given in reverse, each behind a slash.
unfoldable pub join_segments : List Text → Text → Text
join_segments [] end = end
join_segments (segment ∷ before) end = join_segments before (b'/' ∷ (segment ++ end))

-- cleanPath of net/http; the first part of the split is what stands before the first slash.
unfoldable pub clean_path : Text → Text
clean_path path =
    let cleaned = join_segments (keep_segments [] (split b'/' path)) [] in
    if cleaned == []
    then b'/' ∷ []
    else if ends_in_slash path
    then cleaned ++ b'/' ∷ []
    else cleaned

pub data Routed (H : Type 0) : Type 0 where
  no_handler : Routed H
  moved : Text → Routed H
  handled : H → Routed H

module _ {H : Type 0} where
  -- The longest pattern that ends in a slash and starts the path, with its handler.
  unfoldable pub longest : Text → Map Text H → Option (Text × H)
  longest path [] = none
  longest path ((pattern', h) ∷ more) =
      let others = longest path more in
      if ends_in_slash pattern' && has_prefix path pattern'
      then elim others [
        | none ↦ some (pattern', h)
        | some (other, g) ↦
            if ltb (length pattern') (length other) then some (other, g) else some (pattern', h)
      ]
      else others

  unfoldable pub handler_of : Map Text H → Text → Option H
  handler_of patterns path = elim (lookup path patterns) [
    | some h ↦ some h
    | none ↦ elim (longest path patterns) [ none ↦ none | some (pattern', h) ↦ some h ]
  ]

  unfoldable pub is_registered : Map Text H → Text → Bool
  is_registered patterns path = elim (lookup path patterns) [ none ↦ false | some h ↦ true ]

  -- The answer by a path and its clean form: a path that is not clean, or that only lacks its
  -- slash, is answered with a redirect.
  unfoldable pub route_clean : Map Text H → Text → Text → Routed H
  route_clean patterns clean path =
      let slashed = clean ++ b'/' ∷ [] in
      if not (is_registered patterns clean) && is_registered patterns slashed
      then moved slashed
      else if clean == path
      then elim (handler_of patterns path) [ none ↦ no_handler | some h ↦ handled h ]
      else moved clean

  -- ServeMux.Handler by the method and the path; the path of a CONNECT is not cleaned.
  unfoldable pub route_request : Map Text H → Text → Text → Routed H
  unfolding route_clean
  route_request patterns method path =
      route_clean patterns (if method == codes "CONNECT" then path else clean_path path) path
