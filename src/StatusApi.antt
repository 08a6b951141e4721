-- ===== src/StatusApi.antt =====
-- src/core/status_api.cpp and include/pixelstatus/status_api.hpp. The JSON library is a parameter.
-- The handler takes the store and returns it with the response; the update of a POST request runs
-- whole under the API's lock.
pub mod Handle
pub mod Auth
pub mod Effects
pub mod Refused
pub mod Described
pub mod Accepted
use Prim.Native.Nat.{bit_or, bit_xor}
use pixel_status_nx.Prelude.{
  ℕ, zero, suc, ◌+◌, ◌*◌, Bool, not, ◌&&◌, ◌||◌, Option, none, some, List, [], ◌∷◌, ◌++◌, map, Text,
  str, text_eq, ℤ, pos, ◌-ℤ◌, ltb_ℤ, ltb, leb, ◌==◌, if◌then◌else◌, length, take, drop, get_or, max,
}
use pixel_status_nx.Time.{Duration, TimePoint, zero_ms, to_ms, elapsed_since}
use pixel_status_nx.State.{
  StateValue, monostate, boolean, integer, real, string, ResolvedState, is_empty,
}
use pixel_status_nx.Json.{
  JsonView, JsonOut, JsonItems, JsonFields, JsonLibrary, null_view, boolean_view, unsigned_view,
  integer_view, float_view, string_view, array_view, object_view, null_out, boolean_out,
  integer_out, real_out, string_out, array_out, object_out, no_items, item, no_fields, field,
}
use pixel_status_nx.Search.{is_prefix, find_where}

pub record ApiRequest : Type 0 where
  pub method : Text
  pub target : Text
  pub headers : List (Text × Text)
  pub body : Text

pub record ApiResponse : Type 0 where
  pub status : ℕ
  pub content_type : Text
  pub headers : List (Text × Text)
  pub body : Text

pub record StatusApiLimits : Type 0 where
  pub maximum_body_bytes : ℕ
  pub maximum_id_bytes : ℕ
  pub maximum_status_bytes : ℕ
  pub maximum_message_bytes : ℕ
  pub maximum_string_value_bytes : ℕ
  pub maximum_states : ℕ
  pub maximum_ttl : Duration

-- `StatusApiLimits{}`.
abbrev pub default_limits : StatusApiLimits
default_limits = record {
  maximum_body_bytes = 4 * 1024;
  maximum_id_bytes = 64;
  maximum_status_bytes = 64;
  maximum_message_bytes = 512;
  maximum_string_value_bytes = 1024;
  maximum_states = 256;
  maximum_ttl = pos 604_800_000;
}

unfoldable pub status_path : Text
unfolding str
status_path = str "/api/v1/status"

-- `std::tolower` in the "C" locale.
unfoldable pub to_lower : ℕ → ℕ
to_lower c = if leb b'A' c && leb c b'Z' then c + 32 else c

unfoldable pub ascii_lower : Text → Text
unfolding to_lower
ascii_lower value = map to_lower value

unfoldable pub find_header : List (Text × Text) → Text → Option Text
unfolding ascii_lower
find_header [] wanted = none
find_header ((key, value) ∷ rest) wanted =
    if text_eq (ascii_lower key) wanted then some value else find_header rest wanted

unfoldable pub header_value : ApiRequest → Text → Option Text
unfolding find_header
header_value request name = find_header request.headers (ascii_lower name)

-- The loop over the indices that are left.
unfoldable pub compare_bytes : ℕ → ℕ → Text → Text → ℕ → ℕ
compare_bytes zero index left right difference = difference
compare_bytes (suc n) index left right difference =
    compare_bytes n (index + 1) left right
      (bit_or difference (bit_xor (get_or left index 0) (get_or right index 0)))

unfoldable pub constant_time_equal : Text → Text → Bool
unfolding compare_bytes
constant_time_equal left right =
    compare_bytes (max (length left) (length right)) 0 left right
      (bit_xor (length left) (length right))
    == 0

-- `std::isspace` in the "C" locale.
unfoldable pub is_space : ℕ → Bool
is_space c = c == 0x20 || (leb 0x09 c && leb c 0x0D)

unfoldable pub trim_front : Text → Text
unfolding is_space
trim_front [] = []
trim_front (c ∷ rest) = if is_space c then trim_front rest else c ∷ rest

-- The loop over `remove_suffix`.
unfoldable pub trim_back : Text → Text
unfolding is_space
trim_back [] = []
trim_back (c ∷ rest) = elim (trim_back rest) [
  | [] ↦ if is_space c then [] else c ∷ []
  | d ∷ kept ↦ c ∷ d ∷ kept
]

abbrev up_to : Option ℕ → Text → Text
up_to none value = value
up_to (some separator) value = take separator value

unfoldable pub is_json_content_type : Text → Bool
unfolding trim_front trim_back ascii_lower find_where
is_json_content_type value =
    let media_type = up_to (find_where (λ c. c == b';') value) value in
    text_eq (ascii_lower (trim_front (trim_back media_type))) (str "application/json")

unfoldable pub path_identifier : Text → Option Text
unfolding is_prefix
path_identifier target =
    let prefix = status_path ++ b'/' ∷ [] in
    if text_eq target status_path
    then none
    else if not (is_prefix prefix target) || length target == length prefix
    then none
    else some (drop (length prefix) target)

module _ {D : Type 0} where
  unfoldable pub state_value_json : StateValue D → JsonOut D
  state_value_json monostate = null_out
  state_value_json (boolean b) = boolean_out b
  state_value_json (integer n) = integer_out n
  state_value_json (real d) = real_out d
  state_value_json (string s) = string_out s

  ttl_json : Option Duration → JsonOut D
  ttl_json none = null_out
  ttl_json (some ttl) = integer_out ttl

  unfoldable pub resolved_state_json : ResolvedState D → TimePoint → JsonOut D
  unfolding state_value_json ttl_json
  resolved_state_json resolved now = object_out (
      field (str "id") (string_out resolved.state.id) (
        field (str "status") (string_out resolved.effective_status) (
          field (str "reported_status") (string_out resolved.state.status) (
            field (str "value") (state_value_json resolved.state.value) (
              field (str "message") (string_out resolved.state.message) (
                field (str "age_ms") (integer_out (elapsed_since now resolved.state.updated_at)) (
                  field (str "stale") (boolean_out resolved.freshness_expired)
                    (field (str "ttl_ms") (ttl_json resolved.state.ttl) no_fields))))))))

  unfoldable pub statuses_json : List (ResolvedState D) → TimePoint → JsonItems D
  unfolding resolved_state_json
  statuses_json [] now = no_items
  statuses_json (state ∷ rest) now = item (resolved_state_json state now) (statuses_json rest now)
