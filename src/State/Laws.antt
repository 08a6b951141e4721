-- ===== src/State/Laws.antt =====
-- What `upsert` and `resolve` promise (src/core/state.cpp).
use pixel_status_nx.Prelude.{
  ap, ◌+◌, ◌≡◌, refl, ◌∙◌, Bool, true, false, not, ◌&&◌, Option, none, some, [], ◌∷◌, Text, text_eq,
  text_eq_iff, text_eq_refl, arith, Bool-cases, if◌then◌else◌, is_some, length, inl, inr,
}
use pixel_status_nx.Time.{TimePoint, add_duration}
use pixel_status_nx.State.{
  MonitorState, ResolvedState, Entry, Store, is_empty, is_over, negative_ttl, stale, expire,
  resolve_entry, find_entry, insert_or_assign, entered_at, upsert, find, resolve, store_size,
}

-- What `upsert` asks of a state.
abbrev pub acceptable : {D : Type 0} → MonitorState D → Bool
acceptable state =
    not (is_empty state.id) && not (is_empty state.status) && not (negative_ttl state.ttl)

module _ {D : Type 0} where
  pub find_entry-insert :
      (id other : Text) (e : Entry D) (states : Store D)
      → find_entry other (insert_or_assign id e states)
        ≡ (if text_eq id other then some e else find_entry other states)
  unfolding find_entry insert_or_assign
  find_entry-insert id other e [] = refl
  find_entry-insert id other e ((key, f) ∷ rest) = ground (
    arith,
    find_entry-insert id other e rest,
    text_eq_iff key id,
    text_eq_iff key other,
    text_eq_iff id other,
  )

  pub length-insert :
      (id : Text) (e : Entry D) (states : Store D)
      → length (insert_or_assign id e states)
        ≡ (if is_some (find_entry id states) then length states else length states + 1)
  unfolding find_entry insert_or_assign
  length-insert id e [] = omega arith
  length-insert id e ((key, f) ∷ rest) = ground (arith, length-insert id e rest)

  -- The entry that an accepted state is stored as.
  abbrev pub new_entry : Store D → MonitorState D → Entry D
  new_entry states state = record {
    state = state;
    status_entered_at = entered_at (find_entry state.id states) state;
  }

  pub upsert-cases :
      (states : Store D) (state : MonitorState D)
      → upsert states state ≡ (
          if acceptable state
          then (insert_or_assign state.id (new_entry states state) states, true)
          else (states, false))
  unfolding upsert
  upsert-cases states state = ground arith

  -- An update is accepted exactly if it has an identifier, a status and no negative TTL; an
  -- accepted state is the one that its identifier finds, every other identifier finds what it
  -- found before, and a rejected state changes nothing that is found.
  pub find-upsert :
      (states : Store D) (state : MonitorState D) (id : Text)
      → ((upsert states state).1 ≡ acceptable state)
        × (find (upsert states state).0 id
            ≡ (if acceptable state && text_eq state.id id then some state else find states id))
  unfolding find
  find-upsert states state id = elim (Bool-cases (acceptable state)) [
    | inl e ↦ rw (upsert-cases states state, e) (refl, accepted)
    | inr e ↦ rw (upsert-cases states state, e) (refl, refl)
  ]
    where
      accepted :
          find (insert_or_assign state.id (new_entry states state) states) id
          ≡ (if text_eq state.id id then some state else find states id)
      accepted = ground (arith, find_entry-insert state.id id (new_entry states state) states)

  -- The size grows by one where the identifier is new, and stays otherwise.
  pub size-upsert :
      (states : Store D) (state : MonitorState D)
      → store_size (upsert states state).0 ≡ (
          if acceptable state && not (is_some (find states state.id))
          then store_size states + 1
          else store_size states)
  unfolding store_size find
  size-upsert states state =
      rw (upsert-cases states state)
        (ground (arith, length-insert state.id (new_entry states state) states))

  entered_at_lem :
      (old : Option (Entry D)) (state : MonitorState D)
      → entered_at old state ≡ elim old [
        | none ↦ state.updated_at
        | some old ↦
            if text_eq old.state.status state.status
              && not (is_over old.state.updated_at old.state.ttl state.updated_at)
            then old.status_entered_at
            else state.updated_at
      ]
  unfolding entered_at
  entered_at_lem none state = refl
  entered_at_lem (some old) state = ground arith

  -- When a status that is shown was entered, given the time that is stored: the instant at which the
  -- TTL ended, once it is over.
  abbrev pub shown_since : MonitorState D → TimePoint → TimePoint → TimePoint
  shown_since state entered now = elim state.ttl [
    | none ↦ entered
    | some ttl ↦
        if is_over state.updated_at state.ttl now
        then add_duration state.updated_at ttl
        else entered
  ]

  -- A state is shown under its own status, entered at the time that is stored, until its TTL has
  -- passed; from that instant on it is shown as stale, entered at that instant.
  pub resolve_entry-stale :
      (state : MonitorState D) (entered now : TimePoint)
      → let r = resolve_entry state entered now in
        (r.state ≡ state)
        × (r.freshness_expired ≡ is_over state.updated_at state.ttl now)
        × (r.effective_status
            ≡ (if is_over state.updated_at state.ttl now then stale else state.status))
        × (r.status_entered_at ≡ shown_since state entered now)
  unfolding resolve_entry expire
  resolve_entry-stale state entered now = (ground arith, ground arith, ground arith, ground arith)

  -- After an accepted update the identifier resolves to the new state. Until its TTL is over it
  -- shows the reported status, entered when the state was updated, or at the time of the entry
  -- before it if that had the same status and was not over by then; once the TTL is over it shows
  -- stale, since the TTL ended.
  pub resolve-upsert :
      (states : Store D) (state : MonitorState D) (now : TimePoint)
      → acceptable state ≡ true
      → (r : ResolvedState D) × (resolve (upsert states state).0 state.id now ≡ some r)
        × (r.state ≡ state)
        × (r.freshness_expired ≡ is_over state.updated_at state.ttl now)
        × (r.effective_status
            ≡ (if is_over state.updated_at state.ttl now then stale else state.status))
        × (r.status_entered_at
            ≡ shown_since state
                (elim (find_entry state.id states) [
                  | none ↦ state.updated_at
                  | some old ↦
                      if text_eq old.state.status state.status
                        && not (is_over old.state.updated_at old.state.ttl state.updated_at)
                      then old.status_entered_at
                      else state.updated_at
                ])
                now)
  unfolding resolve
  resolve-upsert states state now h =
      let entered = entered_at (find_entry state.id states) state in
      let shown = resolve_entry-stale state entered now in
      (
        resolve_entry state entered now,
        rw (upsert-cases states state, h)
            (ground (
              arith,
              find_entry-insert state.id state.id (new_entry states state) states,
              text_eq_refl state.id,
            )),
        shown.0,
        shown.1,
        shown.2,
        shown.3
            ∙ ap (λ e. shown_since state e now) (entered_at_lem (find_entry state.id states) state),
      )
