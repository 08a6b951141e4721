-- ===== src/HttpUrl.antt =====
-- src/core/http_url.cpp and include/pixelstatus/http_url.hpp.
pub mod Authority
pub mod Parts
use pixel_status_nx.Prelude.{
  ℕ, ◌+◌, Bool, true, false, not, ◌&&◌, ◌||◌, Option, none, some, [], ◌∷◌, ◌++◌, Text, String, str,
  ltb, leb, ◌==◌, if◌then◌else◌, length, take, drop, get_or, any_of, is_some,
}
use pixel_status_nx.FromChars.{parse_whole}
use pixel_status_nx.Search.{is_prefix, find_where, rfind_where}

pub data HttpScheme : Type 0 where
  http https : HttpScheme

pub record ParsedHttpUrl : Type 0 where
  pub scheme : HttpScheme
  pub base : Text
  pub target : Text

unfoldable pub valid_port : Text → Bool
unfolding parse_whole
valid_port value = elim (parse_whole 10 4294967295 value) [
  | none ↦ false
  | some port ↦ ltb 0 port && leb port 65535
]

unfoldable pub bracketed : Text → Option ℕ → Bool
unfolding valid_port
bracketed authority none = false
bracketed authority (some bracket) =
    ltb 1 bracket
    && (bracket + 1 == length authority
        || (get_or authority (bracket + 1) 0 == b':' && valid_port (drop (bracket + 2) authority)))

abbrev is_colon : ℕ → Bool
is_colon c = c == b':'

abbrev same_position : Option ℕ → ℕ → Bool
same_position none i = false
same_position (some j) i = j == i

unfoldable pub with_port : Text → Option ℕ → Bool
unfolding valid_port
with_port authority none = true
with_port authority (some colon) =
    ltb 0 colon
    && same_position (find_where is_colon authority) colon
    && valid_port (drop (colon + 1) authority)

unfoldable pub valid_authority : Text → Bool
unfolding bracketed with_port find_where rfind_where
valid_authority authority =
    if length authority == 0 || is_some (find_where (λ c. c == b'@') authority)
    then false
    else if get_or authority 0 0 == b'['
    then bracketed authority (find_where (λ c. c == b']') authority)
    else with_port authority (rfind_where is_colon authority)

unfoldable pub http_prefix : Text
unfolding str
http_prefix = str "http://"

unfoldable pub https_prefix : Text
unfolding str
https_prefix = str "https://"

-- The scheme, and where the authority starts.
unfoldable pub scheme_of : Text → Option (HttpScheme × ℕ)
unfolding is_prefix
scheme_of url =
    if is_prefix http_prefix url
    then some (http, length http_prefix)
    else if is_prefix https_prefix url
    then some (https, length https_prefix)
    else none

-- A byte that no URL holds.
abbrev pub is_forbidden : ℕ → Bool
is_forbidden c = leb c 0x20 || c == 0x7F

-- The first byte of a target.
abbrev pub is_target_start : ℕ → Bool
is_target_start c = c == b'/' || c == b'?'

-- The target, from the text behind the authority.
unfoldable pub target_of : Text → Text
target_of [] = b'/' ∷ []
target_of (c ∷ rest) = if c == b'?' then b'/' ∷ c ∷ rest else c ∷ rest

-- `npos` stands for the length here, so that no target is the empty text behind the authority.
unfoldable pub target_start : ℕ → Text → ℕ
unfolding find_where
target_start authority_start url = elim (find_where is_target_start (drop authority_start url)) [
  | none ↦ length url
  | some i ↦ authority_start + i
]

unfoldable pub parse_from : HttpScheme → ℕ → Text → Option ParsedHttpUrl
unfolding target_start valid_authority target_of
parse_from scheme authority_start url =
    let split = target_start authority_start url in
    if not (valid_authority (drop authority_start (take split url)))
    then none
    else some
        (record { scheme = scheme; base = take split url; target = target_of (drop split url) })

unfoldable pub parse_http_url : Text → Option ParsedHttpUrl
unfolding scheme_of parse_from
parse_http_url url = elim (scheme_of url) [
  | none ↦ none
  | some (scheme, authority_start) ↦
      if is_some (find_where (λ c. c == b'#') url) || any_of is_forbidden url
      then none
      else parse_from scheme authority_start url
]
