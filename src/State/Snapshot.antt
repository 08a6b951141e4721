-- ===== src/State/Snapshot.antt =====
-- The stored map as a whole: its invariant, and the snapshot of it (src/core/state.cpp).
use pixel_status_nx.Prelude.{
  suc, ◌≡◌, refl, sym, ap, ◌∙◌, Bool, true, false, ◌||◌, some, List, [], ◌∷◌, map, Text, text_eq,
  text_eq_iff, text_lt, text_lt_connex, text_lt_trans, arith, Bool-cases, length, length-map,
  any_of, All, inl, inr,
}
use pixel_status_nx.Time.{TimePoint}
use pixel_status_nx.State.{
  MonitorState, ResolvedState, Entry, Store, resolve_entry, find_entry, insert_or_assign, upsert,
  resolve, insert_by_id, sort_by_id, snapshot, store_size,
}
use pixel_status_nx.State.Laws.{acceptable, new_entry, upsert-cases, resolve_entry-stale}

module _ {D : Type 0} where
  abbrev pub has_key : Text → Text × Entry D → Bool
  has_key id e = text_eq e.0 id

  abbrev pub DistinctKeys : Store D → Type 0
  DistinctKeys [] = Unit
  DistinctKeys (e ∷ rest) = (any_of (has_key e.0) rest ≡ false) × DistinctKeys rest

  -- An entry stands under the identifier of its state, which the store has accepted.
  abbrev pub IsEntry : Text × Entry D → Type 0
  IsEntry e = (e.1.state.id ≡ e.0) × (acceptable e.1.state ≡ true)

  pub record IsStore (states : Store D) : Type 0 where
    pub entries : All IsEntry states
    pub distinct : DistinctKeys states

  pub empty-IsStore : IsStore []
  empty-IsStore = record { entries = tt; distinct = tt }

  insert-entries :
      (id : Text) (e : Entry D) (states : Store D)
      → IsEntry (id, e)
      → All IsEntry states
      → All IsEntry (insert_or_assign id e states)
  unfolding insert_or_assign
  insert-entries id e [] h all = (h, tt)
  insert-entries id e ((key, f) ∷ rest) h all = elim (Bool-cases (text_eq key id)) [
    | inl p ↦ rw (p, insert_or_assign) ((h.0 ∙ sym ((text_eq_iff key id).0 p), h.1), all.1)
    | inr p ↦ rw (p, insert_or_assign) (all.0, insert-entries id e rest h all.1)
  ]

  any_of-insert :
      (k id : Text) (e : Entry D) (states : Store D)
      → any_of (has_key k) (insert_or_assign id e states)
        ≡ text_eq id k || any_of (has_key k) states
  unfolding insert_or_assign
  any_of-insert k id e [] = refl
  any_of-insert k id e ((key, f) ∷ rest) =
      ground
        (arith, any_of-insert k id e rest, text_eq_iff key id, text_eq_iff key k, text_eq_iff id k)

  insert-distinct :
      (id : Text) (e : Entry D) (states : Store D)
      → DistinctKeys states
      → DistinctKeys (insert_or_assign id e states)
  unfolding insert_or_assign
  insert-distinct id e [] h = (refl, tt)
  insert-distinct id e ((key, f) ∷ rest) h = elim (Bool-cases (text_eq key id)) [
    | inl p ↦ rw (p, insert_or_assign) (h.0, h.1)
    | inr p ↦
        rw (p, insert_or_assign)
          (
            ground (arith, any_of-insert key id e rest, text_eq_iff key id, text_eq_iff id key),
            insert-distinct id e rest h.1,
          )
  ]

  -- An update keeps the map well formed: each entry under its own identifier, each identifier
  -- once, and only acceptable states.
  pub upsert-IsStore :
      (states : Store D) (state : MonitorState D) → IsStore states → IsStore (upsert states state).0
  upsert-IsStore states state v = elim (Bool-cases (acceptable state)) [
    | inl h ↦
        rw (upsert-cases states state, h)
          (record {
            entries = insert-entries state.id (new_entry states state) states (refl, h) v.entries;
            distinct = insert-distinct state.id (new_entry states state) states v.distinct;
          })
    | inr h ↦ rw (upsert-cases states state, h) v
  ]

  abbrev Differs : ResolvedState D → ResolvedState D → Type 0
  Differs s t = text_eq t.state.id s.state.id ≡ false

  abbrev Distinct : List (ResolvedState D) → Type 0
  Distinct [] = Unit
  Distinct (s ∷ rest) = All (Differs s) rest × Distinct rest

  abbrev pub Precedes : ResolvedState D → ResolvedState D → Type 0
  Precedes s t = text_lt s.state.id t.state.id ≡ true

  -- Strictly ascending identifiers.
  abbrev pub IsAscending : List (ResolvedState D) → Type 0
  IsAscending [] = Unit
  IsAscending (s ∷ rest) = All (Precedes s) rest × IsAscending rest

  insert_by_id-All :
      (P : ResolvedState D → Type 0) (s : ResolvedState D) (l : List (ResolvedState D))
      → P s
      → All P l
      → All P (insert_by_id s l)
  unfolding insert_by_id
  insert_by_id-All P s [] h all = (h, tt)
  insert_by_id-All P s (t ∷ rest) h all =
      let later = insert_by_id-All P s rest h all.1 in
      elim (Bool-cases (text_lt t.state.id s.state.id)) [
        | inl e ↦ rw (e, insert_by_id) (all.0, later)
        | inr e ↦ rw (e, insert_by_id) (h, (all.0, all.1))
      ]

  sort_by_id-All :
      (P : ResolvedState D → Type 0) (l : List (ResolvedState D)) → All P l → All P (sort_by_id l)
  unfolding sort_by_id
  sort_by_id-All P [] all = tt
  sort_by_id-All P (s ∷ rest) all =
      insert_by_id-All P s (sort_by_id rest) all.0 (sort_by_id-All P rest all.1)

  length-insert_by_id :
      (s : ResolvedState D) (l : List (ResolvedState D))
      → length (insert_by_id s l) ≡ suc (length l)
  unfolding insert_by_id
  length-insert_by_id s [] = refl
  length-insert_by_id s (t ∷ rest) = ground (arith, length-insert_by_id s rest)

  length-sort_by_id : (l : List (ResolvedState D)) → length (sort_by_id l) ≡ length l
  unfolding sort_by_id
  length-sort_by_id [] = refl
  length-sort_by_id (s ∷ rest) =
      length-insert_by_id s (sort_by_id rest) ∙ ap suc (length-sort_by_id rest)

  before_of :
      (s t : ResolvedState D) → Differs s t → text_lt t.state.id s.state.id ≡ false → Precedes s t
  before_of s t d h = elim (Bool-cases (text_lt s.state.id t.state.id)) [
    | inl e ↦ e
    | inr e ↦ cc ((text_eq_iff t.state.id s.state.id).1 (text_lt_connex t.state.id s.state.id h e))
  ]

  Precedes-All :
      (s t : ResolvedState D) (l : List (ResolvedState D))
      → Precedes s t
      → All (Precedes t) l
      → All (Precedes s) l
  Precedes-All s t [] h all = tt
  Precedes-All s t (u ∷ rest) h all =
      (text_lt_trans s.state.id t.state.id u.state.id h all.0, Precedes-All s t rest h all.1)

  insert_by_id-IsAscending :
      (s : ResolvedState D) (l : List (ResolvedState D))
      → All (Differs s) l
      → IsAscending l
      → IsAscending (insert_by_id s l)
  unfolding insert_by_id
  insert_by_id-IsAscending s [] d h = (tt, tt)
  insert_by_id-IsAscending s (t ∷ rest) d h =
      let later = insert_by_id-IsAscending s rest d.1 h.1 in
      elim (Bool-cases (text_lt t.state.id s.state.id)) [
        | inl e ↦ rw (e, insert_by_id) (insert_by_id-All (Precedes t) s rest e h.0, later)
        | inr e ↦
            let first = before_of s t d.0 e in
            rw (e, insert_by_id) ((first, Precedes-All s t rest first h.0), h)
      ]

  sort_by_id-IsAscending : (l : List (ResolvedState D)) → Distinct l → IsAscending (sort_by_id l)
  unfolding sort_by_id
  sort_by_id-IsAscending [] d = tt
  sort_by_id-IsAscending (s ∷ rest) d =
      insert_by_id-IsAscending s (sort_by_id rest) (sort_by_id-All (Differs s) rest d.0)
        (sort_by_id-IsAscending rest d.1)

  -- The states that the walk over the map resolves.
  abbrev resolved_at : TimePoint → Text × Entry D → ResolvedState D
  resolved_at now e = resolve_entry e.1.state e.1.status_entered_at now

  id-resolved :
      (now : TimePoint) (e : Text × Entry D) → IsEntry e → (resolved_at now e).state.id ≡ e.0
  id-resolved now e h =
      ap (λ (m : MonitorState D). m.id) (resolve_entry-stale e.1.state e.1.status_entered_at now).0
      ∙ h.0

  Differs-resolved :
      (now : TimePoint) (e : Text × Entry D) (rest : Store D)
      → IsEntry e
      → All IsEntry rest
      → any_of (has_key e.0) rest ≡ false
      → All (Differs (resolved_at now e)) (map (resolved_at now) rest)
  Differs-resolved now e [] h all new = tt
  Differs-resolved now e (f ∷ rest) h all new = (
    rw (id-resolved now e h, id-resolved now f all.0) (ground arith),
    Differs-resolved now e rest h all.1 (ground arith),
  )

  Distinct-resolved :
      (now : TimePoint) (states : Store D)
      → IsStore states
      → Distinct (map (resolved_at now) states)
  Distinct-resolved now [] v = tt
  Distinct-resolved now (e ∷ rest) v = (
    Differs-resolved now e rest v.entries.0 v.entries.1 v.distinct.0,
    Distinct-resolved now rest (record { entries = v.entries.1; distinct = v.distinct.1 }),
  )

  -- Looking a state of a later entry up passes the first.
  resolve-skip :
      (now : TimePoint) (e : Text × Entry D) (l : List (ResolvedState D)) (rest : Store D)
      → All (λ r. text_eq e.0 r.state.id ≡ false) l
      → All (λ r. resolve rest r.state.id now ≡ some r) l
      → All (λ r. resolve (e ∷ rest) r.state.id now ≡ some r) l
  unfolding resolve find_entry
  resolve-skip now e [] rest d all = tt
  resolve-skip now e (r ∷ l) rest d all =
      (rw (d.0, find_entry, resolve) all.0, resolve-skip now e l rest d.1 all.1)

  other-keys :
      (now : TimePoint) (e : Text × Entry D) (rest : Store D)
      → All IsEntry rest
      → any_of (has_key e.0) rest ≡ false
      → All (λ r. text_eq e.0 r.state.id ≡ false) (map (resolved_at now) rest)
  other-keys now e [] all new = tt
  other-keys now e (f ∷ rest) all new = (
    rw (id-resolved now f all.0) (ground (arith, text_eq_iff e.0 f.0, text_eq_iff f.0 e.0)),
    other-keys now e rest all.1 (ground arith),
  )

  resolve-first :
      (now : TimePoint) (e : Text × Entry D) (rest : Store D)
      → (resolved_at now e).state.id ≡ e.0
      → resolve (e ∷ rest) (resolved_at now e).state.id now ≡ some (resolved_at now e)
  unfolding resolve find_entry
  resolve-first now (key, f) rest h =
      ground (arith, text_eq_iff key (resolve_entry f.state f.status_entered_at now).state.id)

  resolve-All :
      (now : TimePoint) (states : Store D)
      → IsStore states
      → All (λ r. resolve states r.state.id now ≡ some r) (map (resolved_at now) states)
  resolve-All now [] v = tt
  resolve-All now (e ∷ rest) v = (
    resolve-first now e rest (id-resolved now e v.entries.0),
    resolve-skip now e _ rest (other-keys now e rest v.entries.1 v.distinct.0)
        (resolve-All now rest (record { entries = v.entries.1; distinct = v.distinct.1 })),
  )

  -- The snapshot of a well-formed map lists its states by strictly ascending identifier, one for
  -- each entry, and each of them is what resolve returns for its identifier at that time.
  pub snapshot-IsAscending :
      (states : Store D) (now : TimePoint)
      → IsStore states
      → IsAscending (snapshot states now)
        × (length (snapshot states now) ≡ store_size states)
        × All (λ r. resolve states r.state.id now ≡ some r) (snapshot states now)
  unfolding snapshot store_size
  snapshot-IsAscending states now v =
      let l = map (resolved_at now) states in
      (
        sort_by_id-IsAscending l (Distinct-resolved now states v),
        length-sort_by_id l ∙ length-map states (resolved_at now),
        sort_by_id-All _ l (resolve-All now states v),
      )
