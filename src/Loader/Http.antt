-- ===== src/Loader/Http.antt =====
-- The tests of hosts, headers and pointers (src/core/config.cpp).
pub mod Secrets
use pixel_status_nx.Prelude.{
  ℕ, zero, suc, ◌+◌, Bool, true, false, not, ◌&&◌, ◌||◌, Option, none, some, List, [], ◌∷◌, map,
  Text, str, ltb, leb, ◌==◌, if◌then◌else◌, is_some, length, take, drop, all_of, any_of,
}
use pixel_status_nx.Search.{is_prefix, find_where}
use pixel_status_nx.HttpUrl.{parse_http_url}
use pixel_status_nx.State.{is_empty}
use pixel_status_nx.Config.Monitors.{HttpMethod, get, head, post, put, patch, delete}
use pixel_status_nx.Loader.Limits.{
  maximum_url_bytes, maximum_json_pointer_bytes, maximum_host_bytes, maximum_http_header_name_bytes,
  maximum_http_header_value_bytes, maximum_secret_name_bytes,
}
use pixel_status_nx.Loader.Fields.{is_name}

unfoldable pub valid_http_url : Text → Bool
unfolding parse_http_url
valid_http_url url = leb (length url) maximum_url_bytes && is_some (parse_http_url url)

abbrev is_upper : ℕ → Bool
is_upper c = leb b'A' c && leb c b'Z'

abbrev is_alphanumeric : ℕ → Bool
is_alphanumeric c = is_upper c || (leb b'a' c && leb c b'z') || (leb b'0' c && leb c b'9')

unfoldable pub ascii_lower : Text → Text
ascii_lower value = map (λ c. if is_upper c then c + 32 else c) value

unfoldable pub is_token_char : ℕ → Bool
is_token_char c =
    is_alphanumeric c
    || c == b'!'
    || c == b'#'
    || c == b'$'
    || c == b'%'
    || c == b'&'
    || c == 0x27
    || c == b'*'
    || c == b'+'
    || c == b'-'
    || c == b'.'
    || c == b'^'
    || c == b'_'
    || c == 0x60
    || c == b'|'
    || c == b'~'

unfoldable pub valid_http_header_name : Text → Bool
unfolding is_token_char
valid_http_header_name name =
    not (is_empty name)
    && leb (length name) maximum_http_header_name_bytes
    && all_of is_token_char name

unfoldable pub valid_http_header_value : Text → Bool
valid_http_header_value value =
    leb (length value) maximum_http_header_value_bytes
    && all_of (λ c. leb 0x20 c && not (c == 0x7F)) value

unfoldable pub transport_owns_http_header : Text → Bool
transport_owns_http_header lowered_name =
    is_name lowered_name "host"
    || is_name lowered_name "content-length"
    || is_name lowered_name "transfer-encoding"
    || is_name lowered_name "connection"

unfoldable pub is_secret_char : ℕ → Bool
is_secret_char c = is_alphanumeric c || c == b'.' || c == b'_' || c == b'-'

unfoldable pub valid_secret_name : Text → Bool
unfolding is_secret_char
valid_secret_name name =
    not (is_empty name) && leb (length name) maximum_secret_name_bytes && all_of is_secret_char name

abbrev pub secret_prefix : Text
secret_prefix = str "${secret:"

-- What stands behind the first occurrence of a text: `find`, and the size added.
unfoldable pub behind_first : Text → Text → Option Text
unfolding is_prefix
behind_first prefix [] = none
behind_first prefix (c ∷ rest) =
    let later = behind_first prefix rest in
    if is_prefix prefix (c ∷ rest) then some (drop (length prefix) (c ∷ rest)) else later

-- The name in a reference, and what stands behind its brace.
unfoldable pub split_reference : Text → Option (Text × Text)
unfolding find_where
split_reference text = elim (find_where (λ c. c == b'}') text) [
  | none ↦ none
  | some i ↦ some (take i text, drop (i + 1) text)
]

-- The loop of `valid_secret_template`, on what is left of the value, for a number of rounds: `none`
-- where it has not returned by then.
unfoldable pub secrets_valid : ℕ → Text → Option Bool
unfolding behind_first split_reference valid_secret_name
secrets_valid zero text = none
secrets_valid (suc rounds) text = elim (behind_first secret_prefix text) [
  | none ↦ some true
  | some behind ↦ elim (split_reference behind) [
    | none ↦ some false
    | some (name, rest) ↦
        let later = secrets_valid rounds rest in
        if valid_secret_name name then later else some false
  ]
]

-- What the loop returns; a loop that did not return would count as a refusal.
unfoldable pub valid_secret_template : Text → Bool
unfolding secrets_valid
valid_secret_template value = elim (secrets_valid (suc (length value)) value) [
  | none ↦ false
  | some answer ↦ answer
]

unfoldable pub parse_http_method_name : Text → Option HttpMethod
parse_http_method_name method =
    if is_name method "GET"
    then some get
    else if is_name method "HEAD"
    then some head
    else if is_name method "POST"
    then some post
    else if is_name method "PUT"
    then some put
    else if is_name method "PATCH"
    then some patch
    else if is_name method "DELETE"
    then some delete
    else none

-- The loop of `valid_json_pointer`: an escape is a tilde with 0 or 1.
unfoldable pub escapes_valid : Text → Bool
escapes_valid [] = true
escapes_valid (c ∷ []) = not (c == b'~')
escapes_valid (c ∷ d ∷ rest) =
    if c == b'~' then (d == b'0' || d == b'1') && escapes_valid rest else escapes_valid (d ∷ rest)

abbrev starts_well : Text → Bool
starts_well [] = true
starts_well (c ∷ rest) = c == b'/'

unfoldable pub valid_json_pointer : Text → Bool
unfolding escapes_valid
valid_json_pointer pointer =
    leb (length pointer) maximum_json_pointer_bytes && starts_well pointer && escapes_valid pointer

unfoldable pub is_host_delimiter : ℕ → Bool
is_host_delimiter c =
    leb c 0x20 || c == 0x7F || c == b'/' || c == b'?' || c == b'#' || c == b'[' || c == b']'

unfoldable pub valid_network_host : Text → Bool
unfolding is_host_delimiter
valid_network_host host =
    not (is_empty host)
    && leb (length host) maximum_host_bytes
    && not (any_of is_host_delimiter host)
