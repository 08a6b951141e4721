-- ===== src/Loader/Names.antt =====
-- The lists of identifiers in widgets (src/core/config.cpp).
use pixel_status_nx.Prelude.{
  ℕ, ◌+◌, not, Option, none, some, List, [], ◌∷◌, ◌++◌, Text, if◌then◌else◌,
}
use pixel_status_nx.Floating.{Floating}
use pixel_status_nx.Json.{JsonLibrary}
use pixel_status_nx.Loader.{Load, succeed, attempt, or_refuse, ◌>>=◌, ◌>>◌, guard}
use pixel_status_nx.Loader.Fields.{element_path, has_name, is_identifier, string_of}

module _ (fl : Floating) (json : JsonLibrary fl.Double) where
  open json use {Json, view}

  -- The set of the names so far with an element, where that is an identifier.
  abbrev with_name : Option Text → List Text → List Text
  with_name none names = names
  with_name (some name) names = if is_identifier name then name ∷ names else names

  -- One round of the loop, with the set of the names so far: an element that is not an identifier
  -- or repeats one is an error.
  unfoldable pub parse_name : Text → Text → Text → List Text → Json → Load Text
  unfolding or_refuse guard succeed ◌>>◌
  parse_name path invalid duplicate names value = do
    name ← or_refuse (string_of fl json (view value)) (path ++ invalid)
    guard (is_identifier name) (path ++ invalid)
    guard (not (has_name name names)) (path ++ duplicate)
    succeed name

  unfoldable pub parse_names :
      Text → Text → Text → List Text → ℕ → List Json → Load (List (Option Text))
  unfolding parse_name attempt succeed
  parse_names path invalid duplicate names index [] = succeed []
  parse_names path invalid duplicate names index (value ∷ rest) = do
    name ← attempt (parse_name (element_path path index) invalid duplicate names value)
    later ←
        parse_names path invalid duplicate (with_name (string_of fl json (view value)) names)
          (index + 1) rest
    succeed (name ∷ later)
