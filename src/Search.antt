-- ===== src/Search.antt =====
-- The searches of `std::string` and `std::string_view` that the code uses.
use pixel_status_nx.Prelude.{
  ℕ, suc, Bool, true, false, ◌&&◌, ◌||◌, Option, none, some, [], ◌∷◌, Text, ◌==◌, if◌then◌else◌,
}

-- `std::string::starts_with`, and `std::string::find(…) != npos`.
unfoldable pub is_prefix : Text → Text → Bool
is_prefix [] text = true
is_prefix (a ∷ p) [] = false
is_prefix (a ∷ p) (c ∷ text) = a == c && is_prefix p text

unfoldable pub has_infix : Text → Text → Bool
unfolding is_prefix
has_infix [] p = is_prefix p []
has_infix (c ∷ text) p = is_prefix p (c ∷ text) || has_infix text p

-- The position of the first byte that passes a test: `find` and `find_first_of`.
unfoldable pub find_where : (ℕ → Bool) → Text → Option ℕ
find_where test [] = none
find_where test (c ∷ rest) =
    if test c then some 0 else elim (find_where test rest) [ none ↦ none | some i ↦ some (suc i) ]

-- The position of the last one: `rfind`.
unfoldable pub rfind_where : (ℕ → Bool) → Text → Option ℕ
rfind_where test [] = none
rfind_where test (c ∷ rest) = elim (rfind_where test rest) [
  | some i ↦ some (suc i)
  | none ↦ if test c then some 0 else none
]
