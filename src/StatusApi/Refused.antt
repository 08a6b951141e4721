-- ===== src/StatusApi/Refused.antt =====
-- The status codes of the responses (`StatusApi::handle` of src/core/status_api.cpp).
use pixel_status_nx.Prelude.{
  ◌*◌, ◌/ℤ◌, pos, ℕ, ◌≡◌, refl, ◌⊎◌, inl, inr, Bool, true, false, not, ◌&&◌, ◌||◌, Option, none,
  some, List, [], ◌∷◌, ◌++◌, Text, str, text_eq, arith, Bool-cases, Option-cases, leb, leb_ℤ, ltb,
  ◌==◌, if◌then◌else◌, is_some, length,
}
use pixel_status_nx.Time.{TimePoint, zero_ms, Duration}
use pixel_status_nx.FromChars.{int64_max}
use pixel_status_nx.Floating.{Floating}
use pixel_status_nx.Validation.{is_valid_identifier}
use pixel_status_nx.Config.{find_text}
use pixel_status_nx.State.{Store, ResolvedState, is_empty, find, upsert, store_size, resolve}
use pixel_status_nx.Json.{
  JsonLibrary, JsonView, null_view, boolean_view, unsigned_view, integer_view, float_view,
  string_view,
}
use pixel_status_nx.StatusApi.{
  ApiRequest, StatusApiLimits, header_value, status_path, path_identifier, ascii_lower,
}
use pixel_status_nx.StatusApi.Handle.{
  Checked, go, respond, ◌>>=◌, ◌>>◌, Update, require, or_respond, check_fields, request_id,
  request_message, request_value, request_ttl, parse_state_value, bounded_ttl, parse_ttl,
  positive_ttl, to_uint64, read_update, state_of, json_response, error_response, apply_update,
  handle_get, is_authorized, route, handle, update_or_respond, known_field, stored_response,
}
use pixel_status_nx.StatusApi.Effects.{is_authorized_iff}

-- A status of an error, other than that of a request that is not authorised.
abbrev pub IsError : ℕ → Type 0
IsError status = (leb 400 status ≡ true) × (status == 401 ≡ false)

-- Each response of a step is an error.
abbrev pub Refuses : {A : Type 0} → Checked A → Type 0
Refuses (go a) = Unit
Refuses (respond r) = IsError r.status

Refuses->>= :
    {A B : Type 0} (m : Checked A) (f : A → Checked B)
    → Refuses m
    → ((a : A) → Refuses (f a))
    → Refuses (m >>= f)
unfolding ◌>>=◌
Refuses->>= (go a) f h k = k a
Refuses->>= (respond r) f h k = h

Refuses->> :
    {B : Type 0} (m : Checked (Unit {0})) (k : Checked B) → Refuses m → Refuses k → Refuses (m >> k)
unfolding ◌>>◌
Refuses->> m k h l = Refuses->>= m (λ _. k) h (λ _. l)

Refuses-if :
    {A : Type 0} (b : Bool) (m n : Checked A) → Refuses m → Refuses n → Refuses (if b then m else n)
Refuses-if true m n h k = h
Refuses-if false m n h k = k

module _ (fl : Floating) (json : JsonLibrary fl.Double) (limits : StatusApiLimits) where
  error_response-IsError :
      (status : ℕ) (message : Text)
      → IsError status
      → IsError (error_response fl json limits status message).status
  unfolding error_response json_response
  error_response-IsError status message h = h

  bad_request : (message : Text) → IsError (error_response fl json limits 400 message).status
  bad_request message = error_response-IsError 400 message (refl, refl)

  require-Refuses :
      (b : Bool) (status : ℕ) (message : Text)
      → IsError status
      → Refuses (require fl json limits b status message)
  unfolding require
  require-Refuses true status message h = tt
  require-Refuses false status message h = error_response-IsError status message h

  or_respond-Refuses :
      {A : Type 0} (o : Option A) (message : Text) → Refuses (or_respond fl json limits o message)
  unfolding or_respond
  or_respond-Refuses none message = bad_request message
  or_respond-Refuses (some a) message = tt

  check_fields-Refuses :
      (fields : List (Text × json.Json)) → Refuses (check_fields fl json limits fields)
  unfolding check_fields
  check_fields-Refuses [] = tt
  check_fields-Refuses ((key, value) ∷ rest) =
      Refuses-if (known_field fl json limits key) (check_fields fl json limits rest) _
        (check_fields-Refuses rest) (bad_request _)

  request_id-Refuses :
      (id : Option Text) (fields : List (Text × json.Json))
      → Refuses (request_id fl json limits id fields)
  unfolding request_id
  request_id-Refuses none fields = or_respond-Refuses _ _
  request_id-Refuses (some id) fields =
      Refuses-if (is_some (find_text (str "id") fields)) _ _
        (Refuses->> _ (go id) (require-Refuses _ 400 _ (refl, refl)) tt) tt

  request_message-Refuses :
      (fields : List (Text × json.Json)) → Refuses (request_message fl json limits fields)
  unfolding request_message
  request_message-Refuses fields =
      Refuses-if (is_some (find_text (str "message") fields)) _ (go []) (or_respond-Refuses _ _) tt

  parse_state_value-Refuses :
      (v : JsonView fl.Double json.Json) → Refuses (parse_state_value fl json limits v)
  unfolding parse_state_value
  parse_state_value-Refuses null_view = tt
  parse_state_value-Refuses (boolean_view b) = tt
  parse_state_value-Refuses (unsigned_view n) =
      Refuses-if (ltb int64_max n) _ (go _) (bad_request (str "value integer is out of range")) tt
  parse_state_value-Refuses (integer_view n) = tt
  parse_state_value-Refuses (float_view d) =
      Refuses-if (fl.is_finite d) (go _) _ tt (bad_request (str "value must be finite"))
  parse_state_value-Refuses (string_view s) =
      Refuses-if (ltb limits.maximum_string_value_bytes (length s)) _ (go _)
        (bad_request (str "value string is too long")) tt
  parse_state_value-Refuses _ = bad_request (str "value must be null, boolean, number, or string")

  request_value-Refuses :
      (fields : List (Text × json.Json)) → Refuses (request_value fl json limits fields)
  unfolding request_value
  request_value-Refuses fields = elim (Option-cases (find_text (str "value") fields)) [
    | inl e ↦ rw (e, request_value) tt
    | inr (value, e) ↦ rw (e, request_value) (parse_state_value-Refuses (json.view value))
  ]

  bounded_ttl-Refuses : (seconds : ℕ) → Refuses (bounded_ttl fl json limits seconds)
  unfolding bounded_ttl
  bounded_ttl-Refuses seconds =
      Refuses-if {A = Option Duration}
        (seconds == 0 || ltb (to_uint64 (limits.maximum_ttl /ℤ pos 1000)) seconds)
        (respond (error_response fl json limits 400 (str "ttl exceeds the configured limit")))
        (go (some (pos (seconds * 1000)))) (bad_request (str "ttl exceeds the configured limit")) tt

  parse_ttl-Refuses : (v : JsonView fl.Double json.Json) → Refuses (parse_ttl fl json limits v)
  unfolding parse_ttl positive_ttl
  parse_ttl-Refuses (unsigned_view n) = bounded_ttl-Refuses n
  parse_ttl-Refuses (integer_view n) =
      Refuses-if (leb_ℤ n zero_ms) _ _
        (bad_request (str "ttl must be a positive integer number of seconds"))
        (bounded_ttl-Refuses (to_uint64 n))
  parse_ttl-Refuses _ = bad_request (str "ttl must be a positive integer number of seconds")

  request_ttl-Refuses :
      (fields : List (Text × json.Json)) → Refuses (request_ttl fl json limits fields)
  unfolding request_ttl
  request_ttl-Refuses fields = elim (Option-cases (find_text (str "ttl") fields)) [
    | inl e ↦ rw (e, request_ttl) tt
    | inr (value, e) ↦ rw (e, request_ttl) (parse_ttl-Refuses (json.view value))
  ]

  pub read_update-Refuses :
      (request : ApiRequest) (id : Option Text) → Refuses (read_update fl json limits request id)
  unfolding read_update
  read_update-Refuses request id = Refuses->> _ _ (require-Refuses _ 413 _ (refl, refl)) (
      Refuses->> _ _ (require-Refuses _ 415 _ (refl, refl)) (
        Refuses->>= _ _ (or_respond-Refuses _ _) λ fields.
          Refuses->> _ _ (check_fields-Refuses fields) (
            Refuses->>= _ _ (request_id-Refuses id fields) λ name.
              Refuses->> _ _ (require-Refuses _ 400 _ (refl, refl)) (
                Refuses->>= _ _ (or_respond-Refuses _ _) λ status.
                  Refuses->> _ _ (require-Refuses _ 400 _ (refl, refl)) (
                    Refuses->>= _ _ (request_message-Refuses fields) λ message.
                      Refuses->>= _ _ (request_value-Refuses fields)
                        λ value. Refuses->>= _ _ (request_ttl-Refuses fields) λ ttl. tt)))))

  handle_get-allowed :
      (states : Store fl.Double) (id : Option Text) (now : TimePoint)
      → (handle_get fl json limits states id now).status == 401 ≡ false
  unfolding handle_get error_response json_response
  handle_get-allowed states none now = refl
  handle_get-allowed states (some id) now =
      elim (Bool-cases (is_valid_identifier id limits.maximum_id_bytes)) [
        | inr e ↦ rw (e, handle_get) refl
        | inl e ↦ elim (Option-cases (resolve states id now)) [
          | inl n ↦ rw (e, n, handle_get) refl
          | inr (resolved, n) ↦ rw (e, n, handle_get) refl
        ]
      ]

  stored_response-allowed :
      (status : ℕ) (o : Option (ResolvedState fl.Double)) (now : TimePoint)
      → status == 401 ≡ false
      → (stored_response fl json limits status o now).status == 401 ≡ false
  unfolding error_response json_response
  stored_response-allowed status none now h = refl
  stored_response-allowed status (some resolved) now h = h

  apply_update-allowed :
      (states : Store fl.Double) (u : Update fl.Double) (now : TimePoint)
      → (apply_update fl json limits states u now).1.status == 401 ≡ false
  unfolding apply_update error_response json_response
  apply_update-allowed states u now =
      elim (Bool-cases
        (not (is_some (find states u.id)) && leb limits.maximum_states (store_size states))) [
          | inl e ↦ rw (e, apply_update) refl
          | inr e ↦ elim (Bool-cases (upsert states (state_of fl json limits u now)).1) [
            | inr n ↦ rw (e, n, apply_update) refl
            | inl n ↦
                rw (e, n, apply_update)
                  (stored_response-allowed (if is_some (find states u.id) then 200 else 201)
                    (resolve (upsert states (state_of fl json limits u now)).0 u.id now) now
                    (ground arith))
          ]
        ]

  update_or_respond-allowed :
      (states : Store fl.Double) (c : Checked (Update fl.Double)) (now : TimePoint)
      → Refuses c
      → (update_or_respond fl json limits states c now).1.status == 401 ≡ false
  update_or_respond-allowed states (respond r) now h = h.1
  update_or_respond-allowed states (go u) now h = apply_update-allowed states u now

  -- What follows the authentication does not answer that it is missing.
  route-allowed :
      (states : Store fl.Double) (request : ApiRequest) (now : TimePoint)
      → (route fl json limits states request now).1.status == 401 ≡ false
  unfolding route error_response json_response
  route-allowed states request now =
      elim (Bool-cases (
        not (text_eq request.target status_path)
        && not (is_some (path_identifier request.target)))) [
          | inl e ↦ rw (e, route) refl
          | inr e ↦ elim (Bool-cases (text_eq (ascii_lower request.method) (str "get"))) [
            | inl g ↦
                rw (e, g, route) (handle_get-allowed states (path_identifier request.target) now)
            | inr g ↦ elim (Bool-cases (text_eq (ascii_lower request.method) (str "post"))) [
              | inr p ↦ rw (e, g, p, route) refl
              | inl p ↦
                  rw (e, g, p, route)
                    (update_or_respond-allowed states
                      (read_update fl json limits request (path_identifier request.target)) now
                      (read_update-Refuses request (path_identifier request.target)))
            ]
          ]
        ]

  -- A request whose authorization header is Bearer, a space, and the token, which is not empty, is
  -- never answered with status 401, on any branch; every other request is answered with status 401 and
  -- leaves the store as it is.
  pub handle-authentication :
      (token : Text) (states : Store fl.Double) (request : ApiRequest) (now : TimePoint)
      → let r = handle fl json limits token states request now in
        ((is_empty token ≡ false)
          × (header_value request (str "authorization") ≡ some (str "Bearer " ++ token))
          × (r.1.status == 401 ≡ false))
        ⊎ (¬ (
              (is_empty token ≡ false)
              × (header_value request (str "authorization") ≡ some (str "Bearer " ++ token)))
            × (r.1.status ≡ 401)
            × (r.0 ≡ states))
  unfolding handle error_response json_response
  handle-authentication token states request now =
      elim (Bool-cases (is_authorized fl json limits token request)) [
        | inl e ↦
            let given = (is_authorized_iff fl json limits token request).0 e in
            rw (e, handle) (inl (given.0, given.1, route-allowed states request now))
        | inr e ↦
            rw (e, handle)
              (inr (
                λ given. clash e ((is_authorized_iff fl json limits token request).1 given),
                refl,
                refl,
              ))
      ]
    where
      clash : {b : Bool} → b ≡ false → b ≡ true → ⊥
      clash h k = cc (h, k)
