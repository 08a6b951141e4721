-- ===== src/StatusApi/Effects.antt =====
-- What a request can do to the store (`StatusApi::handle`).
use pixel_status_nx.Prelude.{
  ℕ, ◌≤◌, ◌≡◌, refl, ◌∙◌, ◌↔◌, ◌⊎◌, inl, inr, Bool, true, false, not, ◌&&◌, ◌||◌, Option, none,
  some, List, [], ◌∷◌, ◌++◌, Text, str, text_eq, text_eq_refl, arith, Bool-cases, Option-cases, leb,
  ltb, leb_ℤ, if◌then◌else◌, is_some,
}
use pixel_status_nx.Time.{Duration, TimePoint, zero_ms}
use pixel_status_nx.Floating.{Floating}
use pixel_status_nx.Validation.{is_valid_identifier}
use pixel_status_nx.Config.{find_text}
use pixel_status_nx.State.{Store, is_empty, negative_ttl, upsert, find, store_size}
use pixel_status_nx.State.Laws.{acceptable, find-upsert, size-upsert, resolve-upsert}
use pixel_status_nx.State.Snapshot.{IsStore, upsert-IsStore}
use pixel_status_nx.Json.{JsonLibrary, JsonView, unsigned_view, integer_view}
use pixel_status_nx.StatusApi.{
  ApiRequest, StatusApiLimits, header_value, status_path, path_identifier, ascii_lower,
}
use pixel_status_nx.StatusApi.Auth.{constant_time_equal_iff}
use pixel_status_nx.StatusApi.Handle.{
  Checked, go, respond, ◌>>=◌, ◌>>◌, Update, require, to_uint64, bounded_ttl, parse_ttl,
  request_ttl, read_update, state_of, apply_update, is_authorized, route, handle, bears_token,
  update_or_respond,
}

-- A step that goes on has gone through its parts.
pub >>=-go :
    {A B : Type 0} (m : Checked A) (f : A → Checked B) {b : B}
    → (m >>= f) ≡ go b
    → (a : A) × (m ≡ go a) × (f a ≡ go b)
unfolding ◌>>=◌
>>=-go (go a) f h = (a, refl, h)
>>=-go (respond r) f h = cc

pub go-injective : {A : Type 0} {a b : A} → go a ≡ go b → a ≡ b
go-injective h = cc h

module _ (fl : Floating) (json : JsonLibrary fl.Double) (limits : StatusApiLimits) where
  pub require-go :
      (b : Bool) (status : ℕ) (message : Text) {u : Unit {0}}
      → require fl json limits b status message ≡ go u
      → b ≡ true
  unfolding require
  require-go true status message h = refl
  require-go false status message h = cc

  -- What the checks of a POST request have established.
  pub record IsUpdate (u : Update fl.Double) : Type 0 where
    pub id_valid : is_valid_identifier u.id limits.maximum_id_bytes ≡ true
    pub status_valid : is_valid_identifier u.status limits.maximum_status_bytes ≡ true
    pub ttl_valid : negative_ttl u.ttl ≡ false

  bounded_ttl-nonnegative :
      (seconds : ℕ) (ttl : Option Duration)
      → bounded_ttl fl json limits seconds ≡ go ttl
      → negative_ttl ttl ≡ false
  unfolding bounded_ttl
  bounded_ttl-nonnegative seconds ttl h = ground arith

  parse_ttl-nonnegative :
      (v : JsonView fl.Double json.Json) (ttl : Option Duration)
      → parse_ttl fl json limits v ≡ go ttl
      → negative_ttl ttl ≡ false
  unfolding parse_ttl
  parse_ttl-nonnegative (unsigned_view n) ttl h = bounded_ttl-nonnegative n ttl h
  parse_ttl-nonnegative (integer_view n) ttl h = elim (Bool-cases (leb_ℤ n zero_ms)) [
    | inl e ↦ cc (rw (e, parse_ttl) at h)
    | inr e ↦ bounded_ttl-nonnegative (to_uint64 n) ttl (rw e at h)
  ]
  parse_ttl-nonnegative _ ttl h = cc

  request_ttl-nonnegative :
      (fields : List (Text × json.Json)) (ttl : Option Duration)
      → request_ttl fl json limits fields ≡ go ttl
      → negative_ttl ttl ≡ false
  unfolding request_ttl
  request_ttl-nonnegative fields ttl h = elim (Option-cases (find_text (str "ttl") fields)) [
    | inl e ↦ ground arith
    | inr (v, e) ↦ parse_ttl-nonnegative (json.view v) ttl (rw (e, request_ttl) at h)
  ]

  -- A request that passes the checks carries valid names, and a TTL that is not negative.
  pub read_update-IsUpdate :
      (request : ApiRequest) (id_from_path : Option Text) (u : Update fl.Double)
      → read_update fl json limits request id_from_path ≡ go u
      → IsUpdate u
  unfolding read_update ◌>>◌
  read_update-IsUpdate request id_from_path u h =
      let (_, _, h1) = >>=-go _ _ h in
      let (_, _, h2) = >>=-go _ _ h1 in
      let (fields, _, h3) = >>=-go _ _ h2 in
      let (_, _, h4) = >>=-go _ _ h3 in
      let (id, _, h5) = >>=-go _ _ h4 in
      let (_, id_ok, h6) = >>=-go _ _ h5 in
      let (status, _, h7) = >>=-go _ _ h6 in
      let (_, status_ok, h8) = >>=-go _ _ h7 in
      let (message, _, h9) = >>=-go _ _ h8 in
      let (value, _, h10) = >>=-go _ _ h9 in
      let (ttl, ttl_ok, h11) = >>=-go _ _ h10 in
      let same = go-injective h11 in
      record {
        id_valid = rw (← same) (require-go _ 400 _ id_ok);
        status_valid = rw (← same) (require-go _ 400 _ status_ok);
        ttl_valid = rw (← same) (request_ttl-nonnegative fields ttl ttl_ok);
      }

  is_empty-valid : (id : Text) (n : ℕ) → is_valid_identifier id n ≡ true → is_empty id ≡ false
  unfolding is_valid_identifier
  is_empty-valid [] n h = cc h
  is_empty-valid (c ∷ rest) n h = refl

  acceptable-update :
      (u : Update fl.Double) (now : TimePoint)
      → IsUpdate u
      → acceptable (state_of fl json limits u now) ≡ true
  unfolding state_of
  acceptable-update u now v = ground (
    arith,
    is_empty-valid u.id limits.maximum_id_bytes v.id_valid,
    is_empty-valid u.status limits.maximum_status_bytes v.status_valid,
    v.ttl_valid,
  )

  -- What a POST request has done where it was carried out.
  pub record Stored (states states' : Store fl.Double) (now : TimePoint) (status : ℕ)
      (u : Update fl.Double) : Type 0 where
    pub valid : IsUpdate u
    pub room : is_some (find states u.id) || ltb (store_size states) limits.maximum_states ≡ true
    pub upserted : states' ≡ (upsert states (state_of fl json limits u now)).0
    pub found : find states' u.id ≡ some (state_of fl json limits u now)
    pub answered : status ≡ (if is_some (find states u.id) then 200 else 201)

  pub found-accepted :
      (states : Store fl.Double) (u : Update fl.Double) (now : TimePoint)
      → IsUpdate u
      → find (upsert states (state_of fl json limits u now)).0 u.id
        ≡ some (state_of fl json limits u now)
  unfolding state_of
  found-accepted states u now v =
      rw (acceptable-update u now v, text_eq_refl) at
        (find-upsert states (state_of fl json limits u now) u.id).1

  pub apply_update-full :
      (states : Store fl.Double) (u : Update fl.Double) (now : TimePoint)
      → is_some (find states u.id) || ltb (store_size states) limits.maximum_states ≡ false
      → (apply_update fl json limits states u now).0 ≡ states
  unfolding apply_update
  apply_update-full states u now h = ground arith

  pub apply_update-accepted :
      (states : Store fl.Double) (u : Update fl.Double) (now : TimePoint)
      → IsUpdate u
      → is_some (find states u.id) || ltb (store_size states) limits.maximum_states ≡ true
      → let r = apply_update fl json limits states u now in
        (r.0 ≡ (upsert states (state_of fl json limits u now)).0)
        × (r.1.status ≡ (if is_some (find states u.id) then 200 else 201))
  unfolding apply_update state_of
  apply_update-accepted states u now v room =
      let stored = state_of fl json limits u now in
      let ok = acceptable-update u now v in
      let (_, resolved, _, _, _, _) = resolve-upsert states stored now ok in
      let accepted = (find-upsert states stored u.id).0 ∙ ok in
      rw (not_full, accepted, resolved) (refl, refl)
    where
      not_full :
          not (is_some (find states u.id)) && leb limits.maximum_states (store_size states) ≡ false
      not_full = ground arith

  apply_update-Stored :
      (states : Store fl.Double) (u : Update fl.Double) (now : TimePoint)
      → IsUpdate u
      → let r = apply_update fl json limits states u now in
        (r.0 ≡ states) ⊎ Stored states r.0 now r.1.status u
  apply_update-Stored states u now v =
      elim (Bool-cases
        (is_some (find states u.id) || ltb (store_size states) limits.maximum_states)) [
          | inr full ↦ inl (apply_update-full states u now full)
          | inl room ↦
              (let (same, answer) = apply_update-accepted states u now v room in
                inr (record {
                  valid = v;
                  room = room;
                  upserted = same;
                  found = rw same (found-accepted states u now v);
                  answered = answer;
                }))
        ]

  route-Stored :
      (states : Store fl.Double) (request : ApiRequest) (now : TimePoint)
      → let r = route fl json limits states request now in
        (r.0 ≡ states) ⊎ ((u : Update fl.Double) × Stored states r.0 now r.1.status u)
  unfolding route
  route-Stored states request now = elim (Bool-cases (unknown_path)) [
    | inl e ↦ rw e (inl refl)
    | inr e ↦ elim (Bool-cases (text_eq (ascii_lower request.method) (str "get"))) [
      | inl g ↦ rw (e, g) (inl refl)
      | inr g ↦ elim (Bool-cases (text_eq (ascii_lower request.method) (str "post"))) [
        | inl p ↦
            rw (e, g, p)
              (posted (read_update fl json limits request (path_identifier request.target)) refl)
        | inr p ↦ rw (e, g, p) (inl refl)
      ]
    ]
  ]
    where
      unknown_path : Bool
      unknown_path =
          not (text_eq request.target status_path) && not (is_some (path_identifier request.target))

      posted :
          (c : Checked (Update fl.Double))
          → read_update fl json limits request (path_identifier request.target) ≡ c
          → let r = update_or_respond fl json limits states c now in
            (r.0 ≡ states) ⊎ ((u : Update fl.Double) × Stored states r.0 now r.1.status u)
      posted (respond response) h = inl refl
      posted (go u) h =
          elim (apply_update-Stored states u now
            (read_update-IsUpdate request (path_identifier request.target) u h)) [
              | inl same ↦ inl same
              | inr stored ↦ inr (u, stored)
            ]

  -- A request leaves the store alone, or it was authorised and there is an update with a valid
  -- identifier, a valid status and no negative TTL: the identifier was there or the store was not
  -- full, the new store is the old one with the state of the update upserted, the identifier finds
  -- that state, and the response is 200 where the identifier was there and 201 otherwise.
  pub handle-Stored :
      (token : Text) (states : Store fl.Double) (request : ApiRequest) (now : TimePoint)
      → let r = handle fl json limits token states request now in
        (r.0 ≡ states)
        ⊎ ((is_authorized fl json limits token request ≡ true)
            × ((u : Update fl.Double) × Stored states r.0 now r.1.status u))
  unfolding handle
  handle-Stored token states request now =
      elim (Bool-cases (is_authorized fl json limits token request)) [
        | inr e ↦ rw e (inl refl)
        | inl e ↦ elim (route-Stored states request now) [
          | inl same ↦ rw e (inl same)
          | inr stored ↦ rw e (inr (refl, stored))
        ]
      ]

  -- A request keeps a store that is well formed and within the limit on its size well formed and
  -- within it.
  pub handle-IsStore :
      (token : Text) (states : Store fl.Double) (request : ApiRequest) (now : TimePoint)
      → IsStore states
      → store_size states ≤ limits.maximum_states
      → let r = handle fl json limits token states request now in
        IsStore r.0 × (store_size r.0 ≤ limits.maximum_states)
  unfolding state_of
  handle-IsStore token states request now v bound = elim (handle-Stored token states request now) [
    | inl same ↦ rw same (v, bound)
    | inr (_, (u, stored)) ↦
        rw stored.upserted
          (upsert-IsStore states (state_of fl json limits u now) v, size_bounded u stored.room)
  ]
    where
      size_bounded :
          (u : Update fl.Double)
          → is_some (find states u.id) || ltb (store_size states) limits.maximum_states ≡ true
          → store_size (upsert states (state_of fl json limits u now)).0 ≤ limits.maximum_states
      size_bounded u room = ground (arith, size-upsert states (state_of fl json limits u now))

  bears_token_iff :
      (token : Text) (header : Option Text)
      → (bears_token fl json limits token header ≡ true)
        ↔ ((is_empty token ≡ false) × (header ≡ some (str "Bearer " ++ token)))
  unfolding bears_token
  bears_token_iff token none = ((λ h. cc h), (λ h. cc h.1))
  bears_token_iff token (some authorization) =
      ground (arith, constant_time_equal_iff authorization (str "Bearer " ++ token))

  -- A request is authorised exactly if the token is not empty and the authorization header is
  -- Bearer, a space, and the token.
  pub is_authorized_iff :
      (token : Text) (request : ApiRequest)
      → (is_authorized fl json limits token request ≡ true) ↔ (
          (is_empty token ≡ false)
          × (header_value request (str "authorization") ≡ some (str "Bearer " ++ token)))
  unfolding is_authorized
  is_authorized_iff token request =
      bears_token_iff token (header_value request (str "authorization"))
