-- ===== src/StatusApi/Handle.antt =====
-- `StatusApi::handle` of src/core/status_api.cpp.
use pixel_status_nx.Prelude.{
  ℕ, ◌-◌, ◌*◌, ◌%◌, ◌^◌, Bool, true, false, not, ◌&&◌, ◌||◌, Option, none, some, List, [], ◌∷◌,
  ◌++◌, Text, str, text_eq, ℤ, pos, negsuc, ◌/ℤ◌, leb_ℤ, ltb, leb, ◌==◌, if◌then◌else◌, length,
  is_some,
}
use pixel_status_nx.Time.{Duration, TimePoint, zero_ms}
use pixel_status_nx.FromChars.{int64_max}
use pixel_status_nx.Floating.{Floating}
use pixel_status_nx.Validation.{is_valid_identifier}
use pixel_status_nx.Config.{find_text}
use pixel_status_nx.State.{
  Store, MonitorState, StateValue, ResolvedState, monostate, boolean, integer, real, string, upsert,
  find, resolve, snapshot, store_size, is_empty,
}
use pixel_status_nx.Json.{
  JsonView, null_view, boolean_view, unsigned_view, integer_view, float_view, string_view,
  object_view, JsonOut, string_out, array_out, object_out, no_fields, field, JsonLibrary,
}
use pixel_status_nx.StatusApi.{
  ApiRequest, ApiResponse, StatusApiLimits, status_path, ascii_lower, header_value,
  constant_time_equal, is_json_content_type, path_identifier, resolved_state_json, statuses_json,
}

-- A step of the handler goes on with a value, or responds.
pub data Checked (A : Type 0) : Type 0 where
  go : A → Checked A
  respond : ApiResponse → Checked A

infixl 5 ◌>>=◌ ◌>>◌
unfoldable pub ◌>>=◌ : {A B : Type 0} → Checked A → (A → Checked B) → Checked B
go a >>= f = f a
respond r >>= f = respond r

unfoldable pub ◌>>◌ : {B : Type 0} → Checked (Unit {0}) → Checked B → Checked B
m >> k = m >>= (λ _. k)

-- `static_cast<std::uint64_t>` of an integer.
unfoldable pub to_uint64 : ℤ → ℕ
to_uint64 (pos n) = n % 2 ^ 64
to_uint64 (negsuc n) = 2 ^ 64 - 1 - n % 2 ^ 64

-- The state that a POST request describes.
pub record Update (D : Type 0) : Type 0 where
  pub id : Text
  pub status : Text
  pub message : Text
  pub value : StateValue D
  pub ttl : Option Duration

module _ (fl : Floating) (json : JsonLibrary fl.Double) (limits : StatusApiLimits) where
  open json use {Json, view, parse, dump}

  unfoldable pub json_response : ℕ → JsonOut fl.Double → ApiResponse
  json_response status body = record {
    status = status;
    content_type = str "application/json";
    headers = [];
    body = dump body;
  }

  unfoldable pub error_response : ℕ → Text → ApiResponse
  unfolding json_response
  error_response status message =
      json_response status (object_out (field (str "error") (string_out message) no_fields))

  unfoldable pub require : Bool → ℕ → Text → Checked (Unit {0})
  require true status message = go tt
  require false status message = respond (error_response status message)

  abbrev pub with_header : Text → Text → ApiResponse → ApiResponse
  with_header name value response = record response { headers = (name, value) ∷ response.headers }

  unfoldable pub parse_state_value : JsonView fl.Double Json → Checked (StateValue fl.Double)
  unfolding error_response
  parse_state_value null_view = go monostate
  parse_state_value (boolean_view b) = go (boolean b)
  parse_state_value (unsigned_view n) =
      if ltb int64_max n
      then respond (error_response 400 (str "value integer is out of range"))
      else go (integer (pos n))
  parse_state_value (integer_view n) = go (integer n)
  parse_state_value (float_view d) =
      if fl.is_finite d
      then go (real d)
      else respond (error_response 400 (str "value must be finite"))
  parse_state_value (string_view s) =
      if ltb limits.maximum_string_value_bytes (length s)
      then respond (error_response 400 (str "value string is too long"))
      else go (string s)
  parse_state_value _ =
      respond (error_response 400 (str "value must be null, boolean, number, or string"))

  abbrev pub known_field : Text → Bool
  known_field key =
      text_eq key (str "id")
      || text_eq key (str "status")
      || text_eq key (str "value")
      || text_eq key (str "message")
      || text_eq key (str "ttl")

  -- The loop over the fields of the body.
  unfoldable pub check_fields : List (Text × Json) → Checked (Unit {0})
  check_fields [] = go tt
  check_fields ((key, value) ∷ rest) =
      let later = check_fields rest in
      if known_field key then later else respond (error_response 400 (str "unknown field: " ++ key))

  abbrev pub string_of : JsonView fl.Double Json → Option Text
  string_of (string_view s) = some s
  string_of _ = none

  -- A field of the body that holds a string.
  abbrev pub text_field : Text → List (Text × Json) → Option Text
  text_field key fields = elim (find_text key fields) [
    | none ↦ none
    | some value ↦ string_of (view value)
  ]

  unfoldable pub or_respond : {A : Type 0} → Option A → Text → Checked A
  or_respond none message = respond (error_response 400 message)
  or_respond (some a) message = go a

  unfoldable pub same_id : Text → Option Text → Bool
  same_id id none = false
  same_id id (some body_id) = text_eq body_id id

  -- The identifier: from the path, or from the body.
  unfoldable pub request_id : Option Text → List (Text × Json) → Checked Text
  unfolding or_respond require same_id
  request_id (some id) fields =
      if is_some (find_text (str "id") fields)
      then (do
        require (same_id id (text_field (str "id") fields)) 400 (str "body id must match path id")
        go id)
      else go id
  request_id none fields = or_respond (text_field (str "id") fields) (str "id is required")

  unfoldable pub short_enough : Option Text → Bool
  short_enough none = false
  short_enough (some message) = leb (length message) limits.maximum_message_bytes

  unfoldable pub request_message : List (Text × Json) → Checked Text
  unfolding or_respond short_enough
  request_message fields =
      if is_some (find_text (str "message") fields)
      then or_respond
          (if short_enough (text_field (str "message") fields)
            then text_field (str "message") fields
            else none)
          (str "message must be a string within the configured limit")
      else go []

  unfoldable pub request_value : List (Text × Json) → Checked (StateValue fl.Double)
  unfolding parse_state_value
  request_value fields = elim (find_text (str "value") fields) [
    | none ↦ go monostate
    | some value ↦ parse_state_value (view value)
  ]

  unfoldable pub bounded_ttl : ℕ → Checked (Option Duration)
  bounded_ttl seconds =
      if seconds == 0 || ltb (to_uint64 (limits.maximum_ttl /ℤ pos 1000)) seconds
      then respond (error_response 400 (str "ttl exceeds the configured limit"))
      else go (some (pos (seconds * 1000)))

  unfoldable pub positive_ttl : ApiResponse
  positive_ttl = error_response 400 (str "ttl must be a positive integer number of seconds")

  unfoldable pub parse_ttl : JsonView fl.Double Json → Checked (Option Duration)
  unfolding bounded_ttl positive_ttl
  parse_ttl (unsigned_view n) = bounded_ttl n
  parse_ttl (integer_view n) =
      if leb_ℤ n zero_ms then respond positive_ttl else bounded_ttl (to_uint64 n)
  parse_ttl _ = respond positive_ttl

  unfoldable pub request_ttl : List (Text × Json) → Checked (Option Duration)
  unfolding parse_ttl
  request_ttl fields = elim (find_text (str "ttl") fields) [
    | none ↦ go none
    | some value ↦ parse_ttl (view value)
  ]

  abbrev pub fields_of : JsonView fl.Double Json → Option (List (Text × Json))
  fields_of (object_view fields) = some fields
  fields_of _ = none

  abbrev pub body_fields : Option Json → Option (List (Text × Json))
  body_fields none = none
  body_fields (some value) = fields_of (view value)

  unfoldable pub accepts_type : Option Text → Bool
  accepts_type none = false
  accepts_type (some content_type) = is_json_content_type content_type

  -- The checks of a POST request, up to the lock.
  unfoldable pub read_update : ApiRequest → Option Text → Checked (Update fl.Double)
  unfolding require or_respond check_fields request_id request_message request_value request_ttl
      accepts_type
  read_update request id_from_path = do
    require (leb (length request.body) limits.maximum_body_bytes) 413
        (str "request body is too large")
    require (accepts_type (header_value request (str "content-type"))) 415
        (str "content type must be application/json")
    fields ←
        or_respond (body_fields (parse request.body))
          (str "request body must be a valid JSON object")
    check_fields fields
    id ← request_id id_from_path fields
    require (is_valid_identifier id limits.maximum_id_bytes) 400 (str "invalid status id")
    status ← or_respond (text_field (str "status") fields) (str "status is required")
    require (is_valid_identifier status limits.maximum_status_bytes) 400 (str "invalid status name")
    message ← request_message fields
    value ← request_value fields
    ttl ← request_ttl fields
    go (record { id = id; status = status; message = message; value = value; ttl = ttl })

  unfoldable pub state_of : Update fl.Double → TimePoint → MonitorState fl.Double
  state_of update now = record {
    id = update.id;
    status = update.status;
    value = update.value;
    message = update.message;
    observed_at = now;
    updated_at = now;
    ttl = update.ttl;
  }

  -- The state is there after the update: see `Post`.
  abbrev pub stored_response : ℕ → Option (ResolvedState fl.Double) → TimePoint → ApiResponse
  stored_response status none now = error_response 500 (str "unable to update state")
  stored_response status (some resolved) now =
      json_response status (resolved_state_json resolved now)

  -- The block under the lock.
  unfoldable pub apply_update :
      Store fl.Double → Update fl.Double → TimePoint → Store fl.Double × ApiResponse
  unfolding error_response json_response
  apply_update states update now =
      let existed = is_some (find states update.id) in
      if not existed && leb limits.maximum_states (store_size states)
      then (states, error_response 507 (str "status store limit reached"))
      else (let (states', updated) = upsert states (state_of update now) in
          if not updated then (states', error_response 500 (str "unable to update state")) else (
            states',
            stored_response (if existed then 200 else 201) (resolve states' update.id now) now,
          ))

  unfoldable pub handle_get : Store fl.Double → Option Text → TimePoint → ApiResponse
  unfolding error_response json_response
  handle_get states none now = json_response 200 (
      object_out
        (field (str "statuses") (array_out (statuses_json (snapshot states now) now)) no_fields))
  handle_get states (some id) now =
      if not (is_valid_identifier id limits.maximum_id_bytes)
      then error_response 400 (str "invalid status id")
      else elim (resolve states id now) [
        | none ↦ error_response 404 (str "status not found")
        | some resolved ↦ json_response 200 (resolved_state_json resolved now)
      ]

  abbrev pub update_or_respond :
      Store fl.Double → Checked (Update fl.Double) → TimePoint → Store fl.Double × ApiResponse
  update_or_respond states (respond response) now = (states, response)
  update_or_respond states (go update) now = apply_update states update now

  unfoldable pub bears_token : Text → Option Text → Bool
  bears_token bearer_token none = false
  bears_token bearer_token (some authorization) =
      not (is_empty bearer_token)
      && constant_time_equal authorization (str "Bearer " ++ bearer_token)

  -- The token is checked before anything else.
  unfoldable pub is_authorized : Text → ApiRequest → Bool
  unfolding bears_token
  is_authorized bearer_token request =
      bears_token bearer_token (header_value request (str "authorization"))

  -- What follows the authentication.
  unfoldable pub route : Store fl.Double → ApiRequest → TimePoint → Store fl.Double × ApiResponse
  unfolding handle_get read_update apply_update error_response
  route states request now =
      let method = ascii_lower request.method in
      let id_from_path = path_identifier request.target in
      if not (text_eq request.target status_path) && not (is_some id_from_path)
      then (states, error_response 404 (str "resource not found"))
      else if text_eq method (str "get")
      then (states, handle_get states id_from_path now)
      else if not (text_eq method (str "post"))
      then (
        states,
        with_header (str "Allow") (str "GET, POST") (error_response 405 (str "method not allowed")),
      )
      else update_or_respond states (read_update request id_from_path) now

  unfoldable pub handle :
      Text → Store fl.Double → ApiRequest → TimePoint → Store fl.Double × ApiResponse
  unfolding is_authorized route
  handle bearer_token states request now =
      if not (is_authorized bearer_token request)
      then (
        states,
        with_header (str "WWW-Authenticate") (str "Bearer")
            (error_response 401 (str "authentication required")),
      )
      else route states request now
