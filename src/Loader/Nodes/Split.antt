-- ===== src/Loader/Nodes/Split.antt =====
-- How a row or a column divides its extent among its children (`parse_layout_node` of
-- src/core/config.cpp): fixed sizes, and weights for the rest. The sums stay below 2^64.
use pixel_status_nx.Prelude.{
  ℕ, ◌+◌, ◌-◌, ◌*◌, ◌/◌, Bool, true, false, not, ◌&&◌, ◌||◌, Option, List, [], ◌∷◌, ◌++◌, Text, str,
  ltb, leb, ◌==◌, if◌then◌else◌, is_some, length,
}
use pixel_status_nx.Floating.{Floating}
use pixel_status_nx.Config.{find_text}
use pixel_status_nx.Json.{JsonLibrary}
use pixel_status_nx.Loader.{
  Load, succeed, refuse, attempt, or_refuse, or_stop, ◌>>=◌, ◌>>◌, complete, guard,
}
use pixel_status_nx.Loader.Limits.{maximum_dimension, maximum_layout_weight}
use pixel_status_nx.Loader.Fields.{element_path, field_path, object_of, bounded_size}

-- `value` is the size of a fixed child, and the weight of another.
pub record Allocation : Type 0 where
  pub fixed : Bool
  pub value : ℕ

unfoldable pub fixed_total : List Allocation → ℕ
fixed_total [] = 0
fixed_total (a ∷ rest) = if a.fixed then a.value + fixed_total rest else fixed_total rest

unfoldable pub weighted_count : List Allocation → ℕ
weighted_count [] = 0
weighted_count (a ∷ rest) = if a.fixed then weighted_count rest else weighted_count rest + 1

unfoldable pub total_weight : List Allocation → ℕ
total_weight [] = 0
total_weight (a ∷ rest) = if a.fixed then total_weight rest else a.value + total_weight rest

-- The loop over the allocations that are left: the weighted extent and the total weight, the
-- cumulative weight and the extent of the weighted children before.
unfoldable pub resolve_from : Text → ℕ → ℕ → ℕ → ℕ → List Allocation → Load (List ℕ)
unfolding guard succeed ◌>>◌
resolve_from path extent total cumulative previous [] = succeed []
resolve_from path extent total cumulative previous (a ∷ rest) =
    let next = extent * (cumulative + a.value) / total in
    do
      guard (a.fixed || not (next - previous == 0))
          (path ++ str " weight rounding produced a zero-sized child")
      later ←
          resolve_from path extent total (if a.fixed then cumulative else cumulative + a.value)
            (if a.fixed then previous else next) rest
      succeed ((if a.fixed then a.value else next - previous) ∷ later)

-- The tests after the loop over the children, and the extents.
unfoldable pub resolve_extents : Text → ℕ → ℕ → List Allocation → Load (List ℕ)
unfolding fixed_total weighted_count total_weight resolve_from guard ◌>>◌
resolve_extents path extent total_gaps allocations =
    let weighted_extent = extent - fixed_total allocations - total_gaps in
    let count = weighted_count allocations in
    do
      guard (leb (fixed_total allocations + total_gaps) extent)
          (path ++ str " fixed sizes and gaps exceed the available split extent")
      guard (not (count == 0 && not (weighted_extent == 0)))
          (path ++ str " fixed children and gaps must consume the split extent")
      guard (not (ltb 0 count && ltb weighted_extent count))
          (path ++ str " cannot allocate at least one pixel to each weighted child")
      resolve_from path weighted_extent (total_weight allocations) 0 0 allocations

abbrev pub zip_extents : {J : Type 0} → List J → List ℕ → List (J × ℕ)
zip_extents [] extents = []
zip_extents (child ∷ rest) [] = []
zip_extents (child ∷ rest) (extent ∷ extents) = (child, extent) ∷ zip_extents rest extents

module _ (fl : Floating) (json : JsonLibrary fl.Double) where
  open json use {Json, view}

  abbrev allocation : Bool → ℕ → Allocation
  allocation fixed value = record { fixed = fixed; value = value }

  -- The allocation that the fields of a child ask for.
  unfoldable pub child_allocation : List (Text × Json) → Text → Load Allocation
  unfolding bounded_size refuse succeed
  child_allocation child path =
      let has_size = is_some (find_text (str "size") child) in
      let has_weight = is_some (find_text (str "weight") child) in
      if has_size && has_weight
      then refuse (path ++ str " cannot specify both size and weight")
      else if has_size
      then (bounded_size fl json child "size" path 1 maximum_dimension >>= λ value.
          succeed (allocation true value))
      else if has_weight
      then (bounded_size fl json child "weight" path 1 maximum_layout_weight >>= λ value.
          succeed (allocation false value))
      else succeed (allocation false 1)

  unfoldable pub allocate_children : Text → ℕ → List Json → Load (List (Option Allocation))
  unfolding child_allocation or_refuse attempt succeed
  allocate_children path index [] = succeed []
  allocate_children path index (child ∷ rest) = do
    a ← attempt (
        or_refuse (object_of fl json (view child))
          (element_path path index ++ str " must be an object")
        >>= λ fields. child_allocation fields (element_path path index))
    later ← allocate_children path (index + 1) rest
    succeed (a ∷ later)

  -- The children of a node with the extents that they get.
  unfoldable pub split_extent : Text → ℕ → ℕ → List Json → Load (List (Json × ℕ))
  unfolding allocate_children or_stop complete resolve_extents guard succeed ◌>>◌
  split_extent path extent gap children =
      let total_gaps = gap * (length children - 1) in
      do
        guard (leb total_gaps extent) (path ++ str " gaps exceed the available split extent")
        asked ← allocate_children (field_path path "children") 0 children
        allocations ← or_stop (complete asked)
        extents ← resolve_extents path extent total_gaps allocations
        succeed (zip_extents children extents)
