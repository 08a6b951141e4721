-- ===== src/Loader/HttpMonitors.antt =====
-- The source of an HTTP monitor (`parse_http_monitor` of src/core/config.cpp).
use pixel_status_nx.Prelude.{
  ℕ, ◌+◌, Bool, true, false, not, ◌&&◌, ◌||◌, Option, none, some, List, [], ◌∷◌, ◌++◌, Text, str,
  pos, leb, if◌then◌else◌, length,
}
use pixel_status_nx.Floating.{Floating}
use pixel_status_nx.State.{is_empty}
use pixel_status_nx.Config.{find_text}
use pixel_status_nx.Config.Monitors.{
  HttpMonitorConfig, HttpMethod, get, head, HttpHeader, HttpObservation, status_code, json_pointer,
  json_array_length, json_ratio,
}
use pixel_status_nx.Json.{JsonLibrary}
use pixel_status_nx.Loader.{
  Load, succeed, refuse, attempt, or_refuse, or_stop, ◌>>=◌, ◌>>◌, both, value_or, keep_if, pushed,
  complete, guard, check,
}
use pixel_status_nx.Loader.Limits.{
  maximum_http_header_count, maximum_http_headers_bytes, maximum_http_request_body_bytes,
}
use pixel_status_nx.Loader.Fields.{
  field_path, is_name, has_name, only_field, string_of, object_of, is_true, number_of, field_as,
  required_string, reject_unknown_fields,
}
use pixel_status_nx.Loader.Http.{
  valid_http_url, ascii_lower, valid_http_header_name, valid_http_header_value,
  transport_owns_http_header, valid_secret_template, parse_http_method_name, valid_json_pointer,
}
use pixel_status_nx.Loader.NetworkMonitors.{monitor_timeout, response_limit}

-- What is observed of a response.
pub record Observed (D : Type 0) : Type 0 where
  pub observation : HttpObservation
  pub pointer : Text
  pub denominator : Text
  pub scale : D

-- The bytes of the headers.
unfoldable pub headers_bytes : List HttpHeader → ℕ
headers_bytes [] = 0
headers_bytes (header ∷ rest) = length header.name + length header.value + headers_bytes rest

abbrev is_bodyless : HttpMethod → Bool
is_bodyless get = true
is_bodyless head = true
is_bodyless _ = false

module _ (fl : Floating) (json : JsonLibrary fl.Double) where
  open json use {Json, view}

  unfoldable pub monitor_url : List (Text × Json) → Text → Load Text
  unfolding required_string valid_http_url guard succeed ◌>>◌
  monitor_url monitor path = do
    url ← required_string fl json monitor "url" path
    guard (valid_http_url url) (
        field_path path "url"
        ++ str " must be an http:// or https:// URL without credentials or a fragment")
    succeed url

  unfoldable pub http_method : List (Text × Json) → Text → Load HttpMethod
  unfolding or_refuse parse_http_method_name succeed
  http_method monitor path = elim (find_text (str "method") monitor) [
    | none ↦ succeed get
    | some value ↦ (do
      name ←
          or_refuse (string_of fl json (view value))
            (field_path path "method" ++ str " must be a string")
      or_refuse (parse_http_method_name name)
          (field_path path "method" ++ str " must be GET, HEAD, POST, PUT, PATCH, or DELETE"))
  ]

  -- One round of the loop over the headers, with the names that came before.
  unfoldable pub parse_header : Text → List Text → Text → Json → Load HttpHeader
  unfolding valid_http_header_name valid_http_header_value transport_owns_http_header ascii_lower
      valid_secret_template or_refuse guard succeed ◌>>◌
  parse_header path names key value =
      let lowered_name = ascii_lower key in
      let value_message =
        path
        ++ b'.' ∷ key
        ++ str " must be a string of at most 2048 bytes without control characters" in
      do
        guard (valid_http_header_name key) (path ++ str " contains an invalid field name")
        guard (not (has_name lowered_name names))
            (path ++ str " contains duplicate case-insensitive field names")
        guard (not (transport_owns_http_header lowered_name))
            (path ++ str " cannot override " ++ key)
        text ← or_refuse (string_of fl json (view value)) value_message
        guard (valid_http_header_value text) value_message
        guard (valid_secret_template text)
            (path ++ b'.' ∷ key ++ str " contains an invalid secret reference")
        succeed (record { name = key; value = text })

  unfoldable pub parse_headers :
      Text → List Text → List (Text × Json) → Load (List (Option HttpHeader))
  unfolding parse_header valid_http_header_name ascii_lower attempt succeed
  parse_headers path names [] = succeed []
  parse_headers path names ((key, value) ∷ rest) = do
    header ← attempt (parse_header path names key value)
    headers ←
        parse_headers path (if valid_http_header_name key then ascii_lower key ∷ names else names)
          rest
    succeed (header ∷ headers)

  unfoldable pub read_headers : Option (List (Text × Json)) → Text → Load (List HttpHeader)
  unfolding parse_headers or_refuse guard check or_stop complete pushed headers_bytes ◌>>◌
  read_headers object path =
      let message = path ++ str " must be an object with at most 32 fields" in
      do
        fields ← or_refuse object message
        guard (leb (length fields) maximum_http_header_count) message
        headers ← parse_headers path [] fields
        within ←
            check (leb (headers_bytes (pushed headers)) maximum_http_headers_bytes)
              (path ++ str " exceed the 8192-byte aggregate limit")
        or_stop (keep_if within (complete headers))

  unfoldable pub http_headers : List (Text × Json) → Text → Load (List HttpHeader)
  unfolding read_headers succeed
  http_headers monitor path = elim (find_text (str "headers") monitor) [
    | none ↦ succeed []
    | some value ↦ read_headers (object_of fl json (view value)) (field_path path "headers")
  ]

  unfoldable pub http_body : List (Text × Json) → Text → Load Text
  unfolding or_refuse guard succeed ◌>>◌
  http_body monitor path =
      let message = field_path path "body" ++ str " must be a string of at most 16384 bytes" in
      elim (find_text (str "body") monitor) [
        | none ↦ succeed []
        | some value ↦ (do
          text ← or_refuse (string_of fl json (view value)) message
          guard (leb (length text) maximum_http_request_body_bytes) message
          succeed text)
      ]

  -- A field that is a JSON pointer.
  unfoldable pub pointer_or_refuse : Option Text → Text → Load Text
  unfolding valid_json_pointer or_refuse guard succeed ◌>>◌
  pointer_or_refuse text path =
      let message = path ++ str " is invalid" in
      do
        pointer ← or_refuse text message
        guard (valid_json_pointer pointer) message
        succeed pointer

  -- The literal `1'000'000'000.0` as the largest scale, and zero below the smallest.
  abbrev scale_allowed : fl.Double → Bool
  scale_allowed d =
      fl.is_finite d
      && fl.less (fl.of_int (pos 0)) d
      && not (fl.less (fl.of_int (pos 1_000_000_000)) d)

  unfoldable pub ratio_scale : List (Text × Json) → Text → Load fl.Double
  unfolding or_refuse guard succeed ◌>>◌
  ratio_scale ratio path = elim (find_text (str "scale") ratio) [
    | none ↦ succeed (fl.of_int (pos 1))
    | some value ↦ (do
      number ←
          or_refuse (number_of fl json (view value))
            (field_path path "scale" ++ str " must be a number")
      guard (scale_allowed number)
          (field_path path "scale" ++ str " must be greater than zero and no more than 1000000000")
      succeed number)
  ]

  abbrev observed : HttpObservation → Text → Observed fl.Double
  observed observation pointer = record {
    observation = observation;
    pointer = pointer;
    denominator = [];
    scale = fl.of_int (pos 1);
  }

  unfoldable pub observe_ratio : Json → Text → Load (Observed fl.Double)
  unfolding reject_unknown_fields or_refuse pointer_or_refuse ratio_scale succeed ◌>>◌
  observe_ratio value path = do
    ratio ← or_refuse (object_of fl json (view value)) (path ++ str " must be an object")
    reject_unknown_fields fl json ratio ("numerator" ∷ "denominator" ∷ "scale" ∷ []) path
    numerator ←
        pointer_or_refuse (field_as fl json (string_of fl json) ratio "numerator")
          (field_path path "numerator")
    denominator ←
        pointer_or_refuse (field_as fl json (string_of fl json) ratio "denominator")
          (field_path path "denominator")
    scale ← ratio_scale ratio path
    succeed (record {
      observation = json_ratio;
      pointer = numerator;
      denominator = denominator;
      scale = scale;
    })

  -- An observation that is true.
  unfoldable pub observe_true : HttpObservation → Json → Text → Load (Observed fl.Double)
  unfolding guard succeed ◌>>◌
  observe_true observation value path = do
    guard (is_true fl json (view value)) (path ++ str " must be true")
    succeed (observed observation [])

  -- An observation that is a pointer.
  unfoldable pub observe_pointer : HttpObservation → Json → Text → Load (Observed fl.Double)
  unfolding pointer_or_refuse succeed
  observe_pointer observation value path = do
    pointer ← pointer_or_refuse (string_of fl json (view value)) path
    succeed (observed observation pointer)

  unfoldable pub observe_field : Text × Json → Text → Load (Observed fl.Double)
  unfolding observe_true observe_pointer observe_ratio refuse
  observe_field (name, value) path =
      if is_name name "status_code"
      then observe_true status_code value (field_path path "status_code")
      else if is_name name "body"
      then observe_true HttpObservation.body value (field_path path "body")
      else if is_name name "json_pointer"
      then observe_pointer json_pointer value (field_path path "json_pointer")
      else if is_name name "json_array_length"
      then observe_pointer json_array_length value (field_path path "json_array_length")
      else if is_name name "json_ratio"
      then observe_ratio value (field_path path "json_ratio")
      else refuse (path ++ str " contains an unknown observation")

  unfoldable pub http_observation : List (Text × Json) → Text → Load (Observed fl.Double)
  unfolding or_refuse observe_field
  http_observation monitor path = do
    field ←
        or_refuse (only_field (field_as fl json (object_of fl json) monitor "observe"))
          (field_path path "observe" ++ str " must define exactly one observation")
    observe_field field (field_path path "observe")

  unfoldable pub parse_http_monitor : List (Text × Json) → Text → Load (HttpMonitorConfig fl.Double)
  unfolding monitor_url http_method http_headers http_body monitor_timeout response_limit
      http_observation attempt check or_stop succeed
  parse_http_monitor monitor path = do
    url ← attempt (monitor_url monitor path)
    method ← attempt (http_method monitor path)
    headers ← attempt (http_headers monitor path)
    body ← attempt (http_body monitor path)
    allowed ←
        check (is_empty (value_or [] body) || not (is_bodyless (value_or get method)))
          (field_path path "body" ++ str " is not allowed with GET or HEAD")
    timeout ← attempt (monitor_timeout fl json monitor path)
    maximum ← attempt (response_limit fl json monitor path)
    observed ← http_observation monitor path
    (u, (m, (h, b))) ← or_stop (both url (both method (both headers (keep_if allowed body))))
    succeed (record {
      url = u;
      method = m;
      headers = h;
      body = b;
      timeout = value_or (pos 2_000) timeout;
      maximum_response_bytes = value_or 4_096 maximum;
      observation = observed.observation;
      json_pointer = observed.pointer;
      json_denominator_pointer = observed.denominator;
      json_scale = observed.scale;
    })
