-- ===== src/Tests/Api.antt =====
-- The theorems on the HTTP interface at concrete inputs.
use pixel_status_nx.Prelude.{
  text_eq, leb, none, true, ◌≤◌, ◌≡◌, refl, ◌↔◌, ◌⊎◌, true, false, none, some, [], ◌++◌, Text, str,
  pos, arith, ◌==◌,
}
use pixel_status_nx.State.{
  is_empty, store_size, find, find_entry, upsert, insert_or_assign, resolve,
}
use pixel_status_nx.State.Snapshot.{IsStore, empty-IsStore, upsert-IsStore}
use pixel_status_nx.Config.{find_text}
use pixel_status_nx.Validation.{is_valid_identifier}
use pixel_status_nx.Search.{is_prefix}
use pixel_status_nx.HttpUrl.{ParsedHttpUrl, http}
use pixel_status_nx.StatusApi.{
  default_limits, status_path, path_identifier, compare_bytes, header_value, find_header,
  ascii_lower, to_lower, constant_time_equal,
}
use pixel_status_nx.StatusApi.Auth.{constant_time_equal_iff}
use pixel_status_nx.StatusApi.Handle.{
  Update, ◌>>◌, ◌>>=◌, read_update, state_of, is_authorized, bears_token, handle, route,
  apply_update, json_response,
}
use pixel_status_nx.StatusApi.Effects.{Stored, handle-Stored, handle-IsStore, is_authorized_iff}
use pixel_status_nx.StatusApi.{is_json_content_type}
use pixel_status_nx.StatusApi.Accepted.{Posted, handle-accepted}
use pixel_status_nx.StatusApi.Refused.{handle-authentication}
use pixel_status_nx.Tests.Samples.{
  integers, sample_json, token, post_request, one_state, door_state,
}

handle-Stored_example :
    let r = handle integers sample_json default_limits token one_state post_request (pos 9) in
    (r.0 ≡ one_state)
    ⊎ ((is_authorized integers sample_json default_limits token post_request ≡ true)
        × ((u : Update integers.Double) × Stored integers sample_json default_limits one_state r.0
              (pos 9)
              r.1.status
              u))
handle-Stored_example =
    handle-Stored integers sample_json default_limits token one_state post_request (pos 9)

one_state-small : store_size one_state ≤ 256
unfolding store_size upsert insert_or_assign str
one_state-small = omega arith

handle-IsStore_example :
    let r = handle integers sample_json default_limits token one_state post_request (pos 9) in
    IsStore r.0 × (store_size r.0 ≤ 256)
handle-IsStore_example =
    handle-IsStore integers sample_json default_limits token one_state post_request (pos 9)
      (upsert-IsStore [] door_state empty-IsStore) one_state-small

handle-authentication_example :
    let r = handle integers sample_json default_limits token one_state post_request (pos 9) in
    ((is_empty token ≡ false)
      × (header_value post_request (str "authorization") ≡ some (str "Bearer " ++ token))
      × (r.1.status == 401 ≡ false))
    ⊎ (¬ (
          (is_empty token ≡ false)
          × (header_value post_request (str "authorization") ≡ some (str "Bearer " ++ token)))
        × (r.1.status ≡ 401)
        × (r.0 ≡ one_state))
handle-authentication_example =
    handle-authentication integers sample_json default_limits token one_state post_request (pos 9)

is_authorized_iff_example :
    (is_authorized integers sample_json default_limits token post_request ≡ true) ↔ (
      (is_empty token ≡ false)
      × (header_value post_request (str "authorization") ≡ some (str "Bearer " ++ token)))
is_authorized_iff_example = is_authorized_iff integers sample_json default_limits token post_request

constant_time_equal_iff_example :
    (constant_time_equal (str "ab") (str "ab") ≡ true) ↔ (str "ab" ≡ str "ab")
constant_time_equal_iff_example = constant_time_equal_iff (str "ab") (str "ab")

-- A URL with a port and a query, and no path.
abbrev url : Text
url = str "http://host:8080?a=1"

abbrev parts : ParsedHttpUrl
parts = record { scheme = http; base = str "http://host:8080"; target = str "/?a=1" }

request_post : text_eq (ascii_lower post_request.method) (str "post") ≡ true
unfolding str text_eq ascii_lower to_lower
request_post = refl

request_answered :
    leb 400
      (handle integers sample_json default_limits token one_state post_request (pos 9)).1.status
    ≡ false
unfolding handle is_authorized bears_token header_value find_header ascii_lower to_lower str text_eq
    constant_time_equal compare_bytes route path_identifier status_path is_prefix read_update ◌>>◌
    ◌>>=◌ is_json_content_type find_text is_valid_identifier apply_update upsert insert_or_assign
    find find_entry store_size resolve state_of json_response
request_answered = refl

handle-accepted_example :
    let r = handle integers sample_json default_limits token one_state post_request (pos 9) in
    (is_empty token ≡ false)
    × (header_value post_request (str "authorization") ≡ some (str "Bearer " ++ token))
    × Posted integers sample_json default_limits one_state r.0 post_request (pos 9) r.1.status
handle-accepted_example =
    handle-accepted integers sample_json default_limits token one_state post_request (pos 9)
      request_post request_answered
