-- ===== src/HttpUrl/Parts.antt =====
-- The parts of a URL (`parse_http_url` of src/core/http_url.cpp).
use pixel_status_nx.Prelude.{◌≡◌, true, [], ◌∷◌, Text}
use pixel_status_nx.HttpUrl.{is_target_start}

-- A text that is empty, or begins with a byte that starts a target.
BeginsTarget : Text → Type 0
BeginsTarget [] = Unit
BeginsTarget (c ∷ rest) = is_target_start c ≡ true
