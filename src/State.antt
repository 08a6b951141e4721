-- ===== src/State.antt =====
-- src/core/state.cpp and include/pixelstatus/state.hpp. The map is an association list, in the
-- order in which it is walked; each method runs whole under the store's lock.
pub mod Laws
pub mod Snapshot
use pixel_status_nx.Prelude.{
  ℕ, Bool, true, false, not, ◌&&◌, ◌||◌, Option, none, some, List, [], ◌∷◌, map, Text, str, text_eq,
  text_lt, ℤ, ltb_ℤ, leb_ℤ, if◌then◌else◌, length,
}
use pixel_status_nx.Time.{Duration, TimePoint, zero_ms, add_duration}

-- `std::variant<std::monostate, bool, std::int64_t, double, std::string>`.
pub data StateValue (D : Type 0) : Type 0 where
  monostate : StateValue D
  boolean : Bool → StateValue D
  integer : ℤ → StateValue D
  real : D → StateValue D
  string : Text → StateValue D

pub record MonitorState (D : Type 0) : Type 0 where
  pub id : Text
  pub status : Text
  pub value : StateValue D
  pub message : Text
  pub observed_at : TimePoint
  pub updated_at : TimePoint
  pub ttl : Option Duration

pub record ResolvedState (D : Type 0) : Type 0 where
  pub state : MonitorState D
  pub effective_status : Text
  pub status_entered_at : TimePoint
  pub freshness_expired : Bool

pub record Entry (D : Type 0) : Type 0 where
  pub state : MonitorState D
  pub status_entered_at : TimePoint

abbrev pub Store : Type 0 → Type 0
Store D = List (Text × Entry D)

-- `std::string::empty`.
abbrev pub is_empty : Text → Bool
is_empty [] = true
is_empty (c ∷ rest) = false

-- The status of a state that has outlived its TTL.
unfoldable pub stale : Text
unfolding str
stale = str "stale"

-- Whether a state with this TTL, updated at the first time, is over at the second.
abbrev pub is_over : TimePoint → Option Duration → TimePoint → Bool
is_over updated_at none now = false
is_over updated_at (some ttl) now = leb_ℤ (add_duration updated_at ttl) now

abbrev pub negative_ttl : Option Duration → Bool
negative_ttl none = false
negative_ttl (some ttl) = ltb_ℤ ttl zero_ms

module _ {D : Type 0} where
  unfoldable pub expire : MonitorState D → TimePoint → Duration → TimePoint → ResolvedState D
  expire state entered_at ttl now =
      let expires_at = add_duration state.updated_at ttl in
      if leb_ℤ expires_at now
      then record {
        state = state;
        effective_status = stale;
        status_entered_at = expires_at;
        freshness_expired = true;
      }
      else record {
        state = state;
        effective_status = state.status;
        status_entered_at = entered_at;
        freshness_expired = false;
      }

  unfoldable pub resolve_entry : MonitorState D → TimePoint → TimePoint → ResolvedState D
  unfolding expire
  resolve_entry state entered_at now = elim state.ttl [
    | none ↦ record {
      state = state;
      effective_status = state.status;
      status_entered_at = entered_at;
      freshness_expired = false;
    }
    | some ttl ↦ expire state entered_at ttl now
  ]

  -- `std::unordered_map::find`.
  unfoldable pub find_entry : Text → Store D → Option (Entry D)
  find_entry id [] = none
  find_entry id ((key, entry) ∷ rest) = if text_eq key id then some entry else find_entry id rest

  -- `std::unordered_map::insert_or_assign`.
  unfoldable pub insert_or_assign : Text → Entry D → Store D → Store D
  insert_or_assign id new [] = (id, new) ∷ []
  insert_or_assign id new ((key, entry) ∷ rest) =
      if text_eq key id then (key, new) ∷ rest else (key, entry) ∷ insert_or_assign id new rest

  -- When the status of the new state was entered, given the entry that it replaces.
  unfoldable pub entered_at : Option (Entry D) → MonitorState D → TimePoint
  entered_at none state = state.updated_at
  entered_at (some existing) state =
      if text_eq existing.state.status state.status
        && not (is_over existing.state.updated_at existing.state.ttl state.updated_at)
      then existing.status_entered_at
      else state.updated_at

  unfoldable pub upsert : Store D → MonitorState D → Store D × Bool
  upsert states state =
      if is_empty state.id || is_empty state.status
      then (states, false)
      else if negative_ttl state.ttl
      then (states, false)
      else (
        insert_or_assign state.id
            (record {
              state = state;
              status_entered_at = entered_at (find_entry state.id states) state;
            })
            states,
        true,
      )

  unfoldable pub find : Store D → Text → Option (MonitorState D)
  find states id = elim (find_entry id states) [ none ↦ none | some entry ↦ some entry.state ]

  unfoldable pub resolve : Store D → Text → TimePoint → Option (ResolvedState D)
  resolve states id now = elim (find_entry id states) [
    | none ↦ none
    | some entry ↦ some (resolve_entry entry.state entry.status_entered_at now)
  ]

  unfoldable pub insert_by_id : ResolvedState D → List (ResolvedState D) → List (ResolvedState D)
  insert_by_id s [] = s ∷ []
  insert_by_id s (t ∷ rest) =
      if text_lt t.state.id s.state.id then t ∷ insert_by_id s rest else s ∷ t ∷ rest

  -- `std::sort` by the identifier.
  unfoldable pub sort_by_id : List (ResolvedState D) → List (ResolvedState D)
  unfolding insert_by_id
  sort_by_id [] = []
  sort_by_id (s ∷ rest) = insert_by_id s (sort_by_id rest)

  unfoldable pub snapshot : Store D → TimePoint → List (ResolvedState D)
  unfolding sort_by_id
  snapshot states now =
      sort_by_id (map (λ e. resolve_entry e.1.state e.1.status_entered_at now) states)

  unfoldable pub store_size : Store D → ℕ
  store_size states = length states
