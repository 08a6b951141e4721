-- ===== src/StatusApi/Described.antt =====
-- The update that the body of a POST request describes (`StatusApi::handle` of src/core/status_api.cpp).
use pixel_status_nx.Prelude.{
  ℕ, ◌*◌, ◌%◌, ◌^◌, ◌≡◌, refl, subst, ◌⊎◌, inl, inr, Bool, true, false, Option, none, some, List,
  [], Text, str, pos, negsuc, leb_ℤ, arith, Bool-cases, Option-cases, ltb, length, if◌then◌else◌,
  is_some,
}
use pixel_status_nx.Time.{Duration, zero_ms}
use pixel_status_nx.FromChars.{int64_max}
use pixel_status_nx.Floating.{Floating}
use pixel_status_nx.Config.{find_text}
use pixel_status_nx.State.{StateValue, monostate, boolean, integer, real, string}
use pixel_status_nx.Json.{
  JsonLibrary, JsonView, null_view, boolean_view, unsigned_view, integer_view, float_view,
  string_view, array_view, object_view,
}
use pixel_status_nx.StatusApi.{ApiRequest, ApiResponse, StatusApiLimits}
use pixel_status_nx.StatusApi.Handle.{
  go, respond, ◌>>◌, Update, or_respond, request_id, request_message, request_value, request_ttl,
  parse_state_value, bounded_ttl, parse_ttl, to_uint64, read_update, fields_of, body_fields,
  string_of, text_field, short_enough,
}
use pixel_status_nx.StatusApi.Effects.{>>=-go, go-injective}

module _ (fl : Floating) (json : JsonLibrary fl.Double) where
  -- A field of an object that holds a text.
  abbrev pub HasText : List (Text × json.Json) → Text → Text → Type 0
  HasText fields key text =
      (value : json.Json) × (find_text key fields ≡ some value)
      × (json.view value ≡ string_view text)

  -- A scalar, as the value of a state.
  abbrev pub IsScalar : JsonView fl.Double json.Json → StateValue fl.Double → Type 0
  IsScalar null_view value = value ≡ monostate
  IsScalar (boolean_view b) value = value ≡ boolean b
  IsScalar (unsigned_view n) value = value ≡ integer (pos n)
  IsScalar (integer_view n) value = value ≡ integer n
  IsScalar (float_view d) value = value ≡ real d
  IsScalar (string_view s) value = value ≡ string s
  IsScalar _ value = ⊥

  -- A number of seconds, which is not negative.
  abbrev pub IsSeconds : JsonView fl.Double json.Json → ℕ → Type 0
  IsSeconds (unsigned_view n) seconds = seconds ≡ n
  IsSeconds (integer_view (pos n)) seconds = seconds ≡ n % 2 ^ 64
  IsSeconds _ seconds = ⊥

  -- What the path and the body of a request say: an object whose fields give the status, and the
  -- identifier if the path does not; a text or none as the message, a scalar or none as the value, and
  -- a number of seconds or none as the TTL.
  pub record Describes (request : ApiRequest) (id_from_path : Option Text) (u : Update fl.Double)
      : Type 0 where
    pub body : json.Json
    pub fields : List (Text × json.Json)
    pub parsed : json.parse request.body ≡ some body
    pub object : json.view body ≡ object_view fields
    pub id_given :
        (id_from_path ≡ some u.id) ⊎ ((id_from_path ≡ none) × HasText fields (str "id") u.id)
    pub status_given : HasText fields (str "status") u.status
    pub message_given :
        HasText fields (str "message") u.message
        ⊎ ((find_text (str "message") fields ≡ none) × (u.message ≡ []))
    pub value_given :
        ((value : json.Json) × (find_text (str "value") fields ≡ some value)
          × IsScalar (json.view value) u.value)
        ⊎ ((find_text (str "value") fields ≡ none) × (u.value ≡ monostate))
    pub ttl_given :
        ((value : json.Json) × (seconds : ℕ) × (find_text (str "ttl") fields ≡ some value)
          × IsSeconds (json.view value) seconds
          × (u.ttl ≡ some (pos (seconds * 1_000))))
        ⊎ ((find_text (str "ttl") fields ≡ none) × (u.ttl ≡ none))

  module _ (limits : StatusApiLimits) where
    or_respond-go :
        {A : Type 0} (o : Option A) (message : Text) {a : A}
        → or_respond fl json limits o message ≡ go a
        → o ≡ some a
    unfolding or_respond
    or_respond-go none message h = cc h
    or_respond-go (some b) message h = cc h

    not_go : {A : Type 0} {a : A} (r : ApiResponse) → respond r ≡ go a → ⊥
    not_go r h = cc h

    kept :
        {A : Type 0} (b : Bool) (o : Option A) {a : A}
        → (if b then o else none) ≡ some a
        → o ≡ some a
    kept true o h = h
    kept false o h = cc h

    missing : {A : Type 0} (o : Option A) → is_some o ≡ false → o ≡ none
    missing none h = refl
    missing (some a) h = cc h

    string_of-some :
        (v : JsonView fl.Double json.Json) {text : Text}
        → string_of fl json limits v ≡ some text
        → v ≡ string_view text
    string_of-some (string_view s) h = cc h
    string_of-some null_view h = cc h
    string_of-some (boolean_view b) h = cc h
    string_of-some (unsigned_view n) h = cc h
    string_of-some (integer_view n) h = cc h
    string_of-some (float_view d) h = cc h
    string_of-some (array_view items) h = cc h
    string_of-some (object_view fields) h = cc h

    fields_of-some :
        (v : JsonView fl.Double json.Json) {fields : List (Text × json.Json)}
        → fields_of fl json limits v ≡ some fields
        → v ≡ object_view fields
    fields_of-some (object_view fields) h = cc h
    fields_of-some null_view h = cc h
    fields_of-some (boolean_view b) h = cc h
    fields_of-some (unsigned_view n) h = cc h
    fields_of-some (integer_view n) h = cc h
    fields_of-some (float_view d) h = cc h
    fields_of-some (array_view items) h = cc h
    fields_of-some (string_view s) h = cc h

    text_field-HasText :
        (key : Text) (fields : List (Text × json.Json)) {text : Text}
        → text_field fl json limits key fields ≡ some text
        → HasText fields key text
    text_field-HasText key fields h = elim (Option-cases (find_text key fields)) [
      | inl e ↦ cc (rw (e, text_field) at h)
      | inr (value, e) ↦ (value, e, string_of-some (json.view value) (rw (e, text_field) at h))
    ]

    body_fields-some :
        (o : Option json.Json) {fields : List (Text × json.Json)}
        → body_fields fl json limits o ≡ some fields
        → (body : json.Json) × (o ≡ some body) × (json.view body ≡ object_view fields)
    body_fields-some none h = cc h
    body_fields-some (some body) h = (body, refl, fields_of-some (json.view body) h)

    request_id-given :
        (path : Option Text) (fields : List (Text × json.Json)) {id : Text}
        → request_id fl json limits path fields ≡ go id
        → (path ≡ some id) ⊎ ((path ≡ none) × HasText fields (str "id") id)
    unfolding request_id ◌>>◌
    request_id-given none fields h =
        inr (refl, text_field-HasText (str "id") fields (or_respond-go _ _ h))
    request_id-given (some name) fields h =
        elim (Bool-cases (is_some (find_text (str "id") fields))) [
          | inl e ↦ let (_, _, later) = >>=-go _ _ (rw (e, request_id) at h) in inl (cc later)
          | inr e ↦ inl (cc (rw (e, request_id) at h))
        ]

    request_message-given :
        (fields : List (Text × json.Json)) {message : Text}
        → request_message fl json limits fields ≡ go message
        → HasText fields (str "message") message
          ⊎ ((find_text (str "message") fields ≡ none) × (message ≡ []))
    unfolding request_message
    request_message-given fields h =
        elim (Bool-cases (is_some (find_text (str "message") fields))) [
          | inl e ↦ inl (
              text_field-HasText (str "message") fields (
                kept
                  (short_enough fl json limits (text_field fl json limits (str "message") fields)) _
                  (or_respond-go _ _ (rw (e, request_message) at h))))
          | inr e ↦ inr (missing _ e, cc (rw (e, request_message) at h))
        ]

    parse_state_value-IsScalar :
        (v : JsonView fl.Double json.Json) {value : StateValue fl.Double}
        → parse_state_value fl json limits v ≡ go value
        → IsScalar v value
    unfolding parse_state_value
    parse_state_value-IsScalar null_view h = cc h
    parse_state_value-IsScalar (boolean_view b) h = cc h
    parse_state_value-IsScalar (unsigned_view n) h = elim (Bool-cases (ltb int64_max n)) [
      | inl e ↦ cc (rw e at h)
      | inr e ↦ cc (rw e at h)
    ]
    parse_state_value-IsScalar (integer_view n) h = cc h
    parse_state_value-IsScalar (float_view d) h = elim (Bool-cases (fl.is_finite d)) [
      | inl e ↦ cc (rw e at h)
      | inr e ↦ cc (rw e at h)
    ]
    parse_state_value-IsScalar (string_view s) h =
        elim (Bool-cases (ltb limits.maximum_string_value_bytes (length s))) [
          | inl e ↦ cc (rw e at h)
          | inr e ↦ cc (rw e at h)
        ]
    parse_state_value-IsScalar (array_view items) h = cc h
    parse_state_value-IsScalar (object_view fields) h = cc h

    request_value-given :
        (fields : List (Text × json.Json)) {value : StateValue fl.Double}
        → request_value fl json limits fields ≡ go value
        → ((v : json.Json) × (find_text (str "value") fields ≡ some v)
            × IsScalar (json.view v) value)
          ⊎ ((find_text (str "value") fields ≡ none) × (value ≡ monostate))
    unfolding request_value
    request_value-given fields h = elim (Option-cases (find_text (str "value") fields)) [
      | inl e ↦ inr (e, cc (rw (e, request_value) at h))
      | inr (v, e) ↦
          inl (v, e, parse_state_value-IsScalar (json.view v) (rw (e, request_value) at h))
    ]

    bounded_ttl-seconds :
        (seconds : ℕ) {ttl : Option Duration}
        → bounded_ttl fl json limits seconds ≡ go ttl
        → ttl ≡ some (pos (seconds * 1_000))
    unfolding bounded_ttl
    bounded_ttl-seconds seconds h = ground arith

    parse_ttl-IsSeconds :
        (v : JsonView fl.Double json.Json) {ttl : Option Duration}
        → parse_ttl fl json limits v ≡ go ttl
        → (seconds : ℕ) × IsSeconds v seconds × (ttl ≡ some (pos (seconds * 1_000)))
    unfolding parse_ttl to_uint64
    parse_ttl-IsSeconds (unsigned_view n) h = (n, refl, bounded_ttl-seconds n h)
    parse_ttl-IsSeconds (integer_view (pos n)) h = elim (Bool-cases (leb_ℤ (pos n) zero_ms)) [
      | inl e ↦ cc (rw (e, parse_ttl) at h)
      | inr e ↦ (n % 2 ^ 64, refl, bounded_ttl-seconds (n % 2 ^ 64) (rw (e, parse_ttl) at h))
    ]
    parse_ttl-IsSeconds (integer_view (negsuc n)) h = elim (Bool-cases (leb_ℤ (negsuc n) zero_ms)) [
      | inl e ↦ absurd (not_go _ (rw (e, parse_ttl) at h))
      | inr e ↦ absurd (ground arith)
    ]
    parse_ttl-IsSeconds null_view h = cc h
    parse_ttl-IsSeconds (boolean_view b) h = cc h
    parse_ttl-IsSeconds (float_view d) h = cc h
    parse_ttl-IsSeconds (string_view s) h = cc h
    parse_ttl-IsSeconds (array_view items) h = cc h
    parse_ttl-IsSeconds (object_view fields) h = cc h

    request_ttl-given :
        (fields : List (Text × json.Json)) {ttl : Option Duration}
        → request_ttl fl json limits fields ≡ go ttl
        → ((v : json.Json) × (seconds : ℕ) × (find_text (str "ttl") fields ≡ some v)
            × IsSeconds (json.view v) seconds
            × (ttl ≡ some (pos (seconds * 1_000))))
          ⊎ ((find_text (str "ttl") fields ≡ none) × (ttl ≡ none))
    unfolding request_ttl
    request_ttl-given fields h = elim (Option-cases (find_text (str "ttl") fields)) [
      | inl e ↦ inr (e, cc (rw (e, request_ttl) at h))
      | inr (v, e) ↦
          let (seconds, given, same) =
            parse_ttl-IsSeconds (json.view v) (rw (e, request_ttl) at h) in
          inl (v, seconds, e, given, same)
    ]

    -- A request that passes the checks describes the update.
    pub read_update-Describes :
        (request : ApiRequest) (id_from_path : Option Text) {u : Update fl.Double}
        → read_update fl json limits request id_from_path ≡ go u
        → Describes request id_from_path u
    unfolding read_update ◌>>◌
    read_update-Describes request id_from_path {u} h =
        let (_, _, h1) = >>=-go _ _ h in
        let (_, _, h2) = >>=-go _ _ h1 in
        let (fields, f_ok, h3) = >>=-go _ _ h2 in
        let (_, _, h4) = >>=-go _ _ h3 in
        let (id, i_ok, h5) = >>=-go _ _ h4 in
        let (_, _, h6) = >>=-go _ _ h5 in
        let (status, s_ok, h7) = >>=-go _ _ h6 in
        let (_, _, h8) = >>=-go _ _ h7 in
        let (message, m_ok, h9) = >>=-go _ _ h8 in
        let (value, v_ok, h10) = >>=-go _ _ h9 in
        let (ttl, t_ok, h11) = >>=-go _ _ h10 in
        let (body, parsed, object) =
          body_fields-some (json.parse request.body) (or_respond-go _ _ f_ok) in
        subst (Describes request id_from_path) (go-injective h11) (record {
          body = body;
          fields = fields;
          parsed = parsed;
          object = object;
          id_given = request_id-given id_from_path fields i_ok;
          status_given = text_field-HasText (str "status") fields (or_respond-go _ _ s_ok);
          message_given = request_message-given fields m_ok;
          value_given = request_value-given fields v_ok;
          ttl_given = request_ttl-given fields t_ok;
        })
