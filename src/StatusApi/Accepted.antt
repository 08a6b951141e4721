-- ===== src/StatusApi/Accepted.antt =====
-- What a POST request that is answered without an error has done (`StatusApi::handle` of
-- src/core/status_api.cpp).
use pixel_status_nx.Prelude.{
  ◌≡◌, refl, ℕ, subst, inl, inr, Bool, true, false, ◌||◌, some, Text, ◌++◌, str, text_eq,
  text_eq_iff, ltb, leb, if◌then◌else◌, is_some, arith, not, ◌&&◌, Bool-cases,
}
use pixel_status_nx.Time.{TimePoint}
use pixel_status_nx.Floating.{Floating}
use pixel_status_nx.State.{Store, MonitorState, find, upsert, store_size, is_empty}
use pixel_status_nx.Json.{JsonLibrary}
use pixel_status_nx.StatusApi.{
  ApiRequest, StatusApiLimits, status_path, path_identifier, ascii_lower, header_value,
}
use pixel_status_nx.StatusApi.Handle.{
  Checked, Update, go, respond, read_update, state_of, is_authorized, route, handle,
  update_or_respond, apply_update, error_response, json_response,
}
use pixel_status_nx.StatusApi.Effects.{
  read_update-IsUpdate, apply_update-accepted, found-accepted, is_authorized_iff,
}
use pixel_status_nx.StatusApi.Refused.{Refuses, read_update-Refuses}
use pixel_status_nx.StatusApi.Described.{Describes, read_update-Describes}

not-get : (method : Text) → text_eq method (str "post") ≡ true → text_eq method (str "get") ≡ false
unfolding str
not-get method h = rw ((text_eq_iff method (str "post")).0 h) (unfold text_eq in refl)

module _ (fl : Floating) (json : JsonLibrary fl.Double) (limits : StatusApiLimits) where
  -- The state that an update becomes at a time.
  abbrev pub state_at : Update fl.Double → TimePoint → MonitorState fl.Double
  state_at u now = record {
    id = u.id;
    status = u.status;
    value = u.value;
    message = u.message;
    observed_at = now;
    updated_at = now;
    ttl = u.ttl;
  }

  -- The store and the status of the response after an update that the path and the body describe.
  pub record Posted (states states' : Store fl.Double) (request : ApiRequest) (now : TimePoint)
      (status : ℕ) : Type 0 where
    pub update : Update fl.Double
    pub described : Describes fl json request (path_identifier request.target) update
    pub found : find states' update.id ≡ some (state_at update now)
    pub stored : states' ≡ (upsert states (state_at update now)).0
    pub room :
        is_some (find states update.id) || ltb (store_size states) limits.maximum_states ≡ true
    pub answered : status ≡ (if is_some (find states update.id) then 200 else 201)

  full-IsError :
      (states : Store fl.Double) (u : Update fl.Double) (now : TimePoint)
      → is_some (find states u.id) || ltb (store_size states) limits.maximum_states ≡ false
      → leb 400 (apply_update fl json limits states u now).1.status ≡ true
  unfolding apply_update error_response json_response
  full-IsError states u now full = rw (no_room, apply_update) refl
    where
      no_room :
          not (is_some (find states u.id)) && leb limits.maximum_states (store_size states) ≡ true
      no_room = ground arith

  update-Posted :
      (states : Store fl.Double) (request : ApiRequest) (now : TimePoint)
      (c : Checked (Update fl.Double))
      → read_update fl json limits request (path_identifier request.target) ≡ c
      → let r = update_or_respond fl json limits states c now in
        leb 400 r.1.status ≡ false → Posted states r.0 request now r.1.status
  unfolding state_of
  update-Posted states request now (respond r) same fine = absurd (
      clash
        (subst Refuses same
          (read_update-Refuses fl json limits request (path_identifier request.target))).0
        fine)
    where
      clash : {b : Bool} → b ≡ true → b ≡ false → ⊥
      clash h k = cc (h, k)
  update-Posted states request now (go u) same fine =
      elim (Bool-cases
        (is_some (find states u.id) || ltb (store_size states) limits.maximum_states)) [
          | inr full ↦ absurd (cc (full-IsError states u now full, fine))
          | inl room ↦
              let v =
                read_update-IsUpdate fl json limits request (path_identifier request.target) u
                  same in
              let (stored, answered) = apply_update-accepted fl json limits states u now v room in
              record {
                update = u;
                described =
                    read_update-Describes fl json limits request (path_identifier request.target)
                      same;
                found = rw stored (found-accepted fl json limits states u now v);
                stored = stored;
                room = room;
                answered = answered;
              }
        ]

  route-Posted :
      (states : Store fl.Double) (request : ApiRequest) (now : TimePoint)
      → text_eq (ascii_lower request.method) (str "post") ≡ true
      → let r = route fl json limits states request now in
        leb 400 r.1.status ≡ false → Posted states r.0 request now r.1.status
  unfolding route error_response json_response
  route-Posted states request now post fine =
      elim (Bool-cases (
        not (text_eq request.target status_path)
        && not (is_some (path_identifier request.target)))) [
          | inl e ↦ absurd (cc (rw (e, route) at fine))
          | inr e ↦
              rw (e, not-get (ascii_lower request.method) post, post, route)
                (update-Posted states request now
                  (read_update fl json limits request (path_identifier request.target)) refl
                  (rw (e, not-get (ascii_lower request.method) post, post, route) at fine))
        ]

  -- A POST request that is answered with a status below 400 had the token, and there is an update that
  -- its path and body describe: the store is the old one with the state of the update at that time
  -- upserted, with its status, value, message and TTL, and the identifier finds that state; the
  -- identifier was there or the store was not full, and the status is 200 where it was there and 201
  -- otherwise.
  pub handle-accepted :
      (token : Text) (states : Store fl.Double) (request : ApiRequest) (now : TimePoint)
      → text_eq (ascii_lower request.method) (str "post") ≡ true
      → leb 400 (handle fl json limits token states request now).1.status ≡ false
      → let r = handle fl json limits token states request now in
        (is_empty token ≡ false)
        × (header_value request (str "authorization") ≡ some (str "Bearer " ++ token))
        × Posted states r.0 request now r.1.status
  unfolding handle error_response json_response
  handle-accepted token states request now post fine =
      elim (Bool-cases (is_authorized fl json limits token request)) [
        | inr e ↦ absurd (cc (rw (e, handle) at fine))
        | inl e ↦
            let given = (is_authorized_iff fl json limits token request).0 e in
            rw (e, handle)
              (given.0, given.1, route-Posted states request now post (rw (e, handle) at fine))
      ]
