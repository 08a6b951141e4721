-- ===== src/Loader/Nodes/Extents.antt =====
-- The extents that a row or a column gives to its children (`parse_layout_node` of src/core/config.cpp).
use native.Mathlib.Nat.{le-div_iff_mul-le, div-mul-le_self, mul-div_cancel, div-zero, zero-div}
use pixel_status_nx.Prelude.{
  ℕ, zero, suc, ◌+◌, ◌-◌, ◌*◌, ◌/◌, ◌≤◌, ◌<◌, ◌≡◌, refl, sym, subst, ap, ◌∙◌, map, inl, inr, Bool,
  true, false, not, ◌&&◌, ◌==◌, Option, some, List, [], ◌∷◌, Text, String, str, arith, Bool-cases,
  is_some, length, All,
}
use pixel_status_nx.Floating.{Floating}
use pixel_status_nx.Config.{find_text}
use pixel_status_nx.Json.{JsonLibrary}
use pixel_status_nx.Loader.{result_of, ◌>>=◌, succeed}
use pixel_status_nx.Loader.Fields.{bounded_size}
use pixel_status_nx.Loader.Limits.{maximum_dimension, maximum_layout_weight}
use pixel_status_nx.Loader.Inside.{bounded_size-Within}
use pixel_status_nx.Loader.Nodes.Split.{
  Allocation, fixed_total, weighted_count, total_weight, resolve_from, resolve_extents,
  child_allocation, allocate_children, zip_extents, split_extent,
}
use pixel_status_nx.Loader.Results.{
  >>=-Gives, or_stop-Gives, complete-pushed, pushed-All, Ensures, Ensures-succeed, Ensures-refuse,
  Ensures->>=, Ensures-attempt, Ensures-guard, Ensures-if, length-complete,
}

abbrev pub sum : List ℕ → ℕ
sum [] = 0
sum (n ∷ rest) = n + sum rest

abbrev pub AllPositive : List ℕ → Type 0
AllPositive = All (λ n. 1 ≤ n)

abbrev pub AsksPositive : List Allocation → Type 0
AsksPositive = All (λ a. 1 ≤ a.value)

div_mono : (t a b : ℕ) → a ≤ b → a / t ≤ b / t
div_mono zero a b h = omega (arith, div-zero a, div-zero b)
div_mono (suc t) a b h =
    (le-div_iff_mul-le (omega arith)).1 (omega (arith, div-mul-le_self a (suc t), h))

-- What is left of the weighted extent is what the weights that are left get.
abbrev Resolved : ℕ → ℕ → ℕ → ℕ → List Allocation → List ℕ → Type 0
Resolved extent total cumulative previous rest xs =
    (length xs ≡ length rest)
    × (sum xs + previous ≡ fixed_total rest + extent * (cumulative + total_weight rest) / total)
    × AllPositive xs

resolve_from-Resolved :
    (path : Text) (extent total cumulative previous : ℕ) (rest : List Allocation)
    → previous ≡ extent * cumulative / total
    → AsksPositive rest
    → Ensures
        (Resolved extent total cumulative previous rest)
        (resolve_from path extent total cumulative previous rest)
unfolding resolve_from fixed_total total_weight
resolve_from-Resolved path extent total cumulative previous [] e h =
    Ensures-succeed _ (refl, grind (arith, e, total_weight, fixed_total), tt)
resolve_from-Resolved path extent total cumulative previous (a ∷ rest) e h =
    Ensures-guard _ _ _ λ ok. Ensures->>= _ _ λ later l_ok. Ensures-succeed _ (
      let next = extent * (cumulative + a.value) / total in
      elim (Bool-cases a.fixed) [
        | inl f ↦
            (let (same, total_is, positive) =
                (resolve_from-Resolved path extent total cumulative previous rest e h.1).holds later
                  (rw f at l_ok) in
              rw f (ap suc same, omega (arith, total_is), (h.0, positive)))
        | inr f ↦
            (let (same, total_is, positive) =
                (resolve_from-Resolved path extent total (cumulative + a.value) next rest refl
                    h.1).holds
                  later (rw f at l_ok) in
              let grows =
                div_mono total (extent * cumulative) (extent * (cumulative + a.value))
                  (grind arith) in
              rw f (ap suc same, grind (arith, total_is, grows, e), (ground arith, positive)))
      ])

-- What a weight of no child leaves: no child, or a positive total.
weights_positive :
    (asked : List Allocation) → AsksPositive asked → weighted_count asked ≤ total_weight asked
unfolding weighted_count total_weight
weights_positive [] h = omega arith
weights_positive (a ∷ rest) h = ground (arith, weights_positive rest h.1, h.0)

-- The extents, one for each child, with the gaps fill the extent, and none is empty.
pub record Fills (extent total_gaps count : ℕ) (xs : List ℕ) : Type 0 where
  pub one_each : length xs ≡ count
  pub filled : sum xs + total_gaps ≡ extent
  pub positive : AllPositive xs

whole_share :
    (extent : ℕ) (asked : List Allocation)
    → AsksPositive asked
    → not (weighted_count asked == 0 && not (extent == 0)) ≡ true
    → extent * (0 + total_weight asked) / total_weight asked ≡ extent
whole_share extent asked h ok = elim (Bool-cases (total_weight asked == 0)) [
  | inl z ↦
      (let none_left = weights_positive asked h in
        let empty : extent ≡ 0 = ground (arith, none_left) in
        grind (arith, empty, zero-div (total_weight asked)))
  | inr p ↦
      (let weighty : 0 < total_weight asked = ground arith in
        grind (arith, mul-div_cancel extent weighty))
]

resolve_extents-Fills :
    (path : Text) (extent total_gaps : ℕ) (asked : List Allocation)
    → AsksPositive asked
    → Ensures
        (Fills extent total_gaps (length asked))
        (resolve_extents path extent total_gaps asked)
unfolding resolve_extents
resolve_extents-Fills path extent total_gaps asked h =
    let left = extent - fixed_total asked - total_gaps in
    Ensures-guard _ _ _ λ room. Ensures-guard _ _ _ λ consumed. Ensures-guard _ _ _ λ _. record {
      holds = λ xs e.
          let (same, total_is, positive) =
            (resolve_from-Resolved path left (total_weight asked) 0 0 asked
                (grind (arith, zero-div (total_weight asked))) h).holds
              xs e in
          let share = whole_share left asked h consumed in
          record { one_each = same; filled = ground (arith, total_is, share); positive = positive };
    }

child_allocation-positive :
    (fl : Floating) (json : JsonLibrary fl.Double) (child : List (Text × json.Json)) (path : Text)
    → Ensures (λ a. 1 ≤ a.value) (child_allocation fl json child path)
unfolding child_allocation
child_allocation-positive fl json child path = Ensures-if _ (Ensures-refuse _) (
    Ensures-if (is_some (find_text (str "size") child)) (asked true "size" maximum_dimension) (
      Ensures-if (is_some (find_text (str "weight") child))
        (asked false "weight" maximum_layout_weight)
        (Ensures-succeed (record { fixed = false; value = 1 }) (omega arith))))
  where
    asked :
        (fixed : Bool) (key : String) (maximum : ℕ)
        → Ensures {A = Allocation}
            (λ a. 1 ≤ a.value)
            (bounded_size fl json child key path 1 maximum >>= λ n.
              succeed (record { fixed = fixed; value = n }))
    asked fixed key maximum = Ensures->>= _ _ λ n e.
        Ensures-succeed (record { fixed = fixed; value = n })
          (bounded_size-Within fl json child key path 1 maximum e).0

abbrev AskPositive : List (Option Allocation) → Type 0
AskPositive = All (λ o. (a : Allocation) → o ≡ some a → 1 ≤ a.value)

allocate_children-AskPositive :
    (fl : Floating) (json : JsonLibrary fl.Double) (path : Text) (children : List json.Json)
    (index : ℕ)
    → Ensures
        (λ os. (length os ≡ length children) × AskPositive os)
        (allocate_children fl json path index children)
unfolding allocate_children
allocate_children-AskPositive fl json path [] index = Ensures-succeed _ (refl, tt)
allocate_children-AskPositive fl json path (child ∷ rest) index = Ensures-attempt _ _ λ o read.
    Ensures->>= _ _ λ later e. Ensures-succeed _ (
      let asked = (allocate_children-AskPositive fl json path rest (index + 1)).holds later e in
      (
        ap suc asked.0,
        (
          λ a here.
              let (fields, _, given) = >>=-Gives _ _ (read ∙ here) in
              (child_allocation-positive fl json fields _).holds a given,
          asked.1,
        ),
      ))

-- The children of a row or a column, each with its extent.
abbrev pub extents_of : {J : Type 0} → List (J × ℕ) → List ℕ
extents_of pairs = map (λ p. p.1) pairs

extents_of-zip :
    {J : Type 0} (children : List J) (xs : List ℕ)
    → length xs ≡ length children
    → extents_of (zip_extents children xs) ≡ xs
extents_of-zip [] [] e = refl
extents_of-zip [] (x ∷ xs) e = absurd (omega (arith, e))
extents_of-zip (c ∷ rest) [] e = absurd (omega (arith, e))
extents_of-zip (c ∷ rest) (x ∷ xs) e = ap (◌∷◌ x) (extents_of-zip rest xs (omega (arith, e)))

split_extent-Ensures :
    (fl : Floating) (json : JsonLibrary fl.Double) (path : Text) (extent gap : ℕ)
    (children : List json.Json)
    → Ensures
        (λ pairs. Fills extent (gap * (length children - 1)) (length children) (extents_of pairs))
        (split_extent fl json path extent gap children)
unfolding split_extent
split_extent-Ensures fl json path extent gap children = Ensures-guard _ _ _ λ _.
    Ensures->>= _ _ λ os o_ok. Ensures->>= _ _ λ asked a_ok. Ensures->>= _ _ λ xs x_ok.
      Ensures-succeed _ (
        let read = (allocate_children-AskPositive fl json _ children 0).holds os o_ok in
        let all = or_stop-Gives _ a_ok in
        let positive =
          subst AsksPositive (complete-pushed os all) (pushed-All (λ a. 1 ≤ a.value) os read.1) in
        let count = length-complete os all ∙ read.0 in
        let fills = (resolve_extents-Fills path extent _ asked positive).holds xs x_ok in
        let same = fills.one_each ∙ count in
        subst (Fills extent (gap * (length children - 1)) (length children))
          (sym (extents_of-zip children xs same))
          (record { one_each = same; filled = fills.filled; positive = fills.positive }))

-- The extent of a row or a column that is split goes to the children and to the gaps between them:
-- each child has an extent of its own, none of them is empty, and with the gaps they are exactly the
-- extent that is split.
pub split_extent-Fills :
    (fl : Floating) (json : JsonLibrary fl.Double) (path : Text) (extent gap : ℕ)
    (children : List json.Json) {pairs : List (json.Json × ℕ)}
    → result_of (split_extent fl json path extent gap children) ≡ some pairs
    → Fills extent (gap * (length children - 1)) (length children) (extents_of pairs)
split_extent-Fills fl json path extent gap children h =
    (split_extent-Ensures fl json path extent gap children).holds _ h
