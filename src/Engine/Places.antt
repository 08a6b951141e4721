-- ===== src/Engine/Places.antt =====
-- The places of jobs and definitions in their lists, and the identifiers at them
-- (src/core/monitor_engine.cpp).
use pixel_status_nx.Prelude.{
  ℕ, zero, suc, ◌≡◌, refl, ap, subst, ◌∙◌, false, some, List, [], ◌∷◌, Text, text_eq, arith, ◌==◌,
  get_elem?, any_of,
}
use mathlib.Core.Option.{some-injective}
use pixel_status_nx.Engine.{MonitorDefinition, Job, update_at}
use pixel_status_nx.Engine.Registry.{definitions, same_id, Distinct, text_eq_sym}

pub update_at_other :
    {A : Type 0} (xs : List A) (i j : ℕ) (f : A → A)
    → (i == j) ≡ false
    → get_elem? (update_at xs j f) i ≡ get_elem? xs i
unfolding update_at
update_at_other [] i j f h = refl
update_at_other (x ∷ xs) zero zero f h = absurd (ground arith)
update_at_other (x ∷ xs) (suc i) zero f h = refl
update_at_other (x ∷ xs) zero (suc j) f h = refl
update_at_other (x ∷ xs) (suc i) (suc j) f h = update_at_other xs i j f (ground arith)

module _ {D : Type 0} where
  no_same_id :
      (id : Text) (ds : List (MonitorDefinition D)) (i : ℕ) {d : MonitorDefinition D}
      → any_of (same_id id) ds ≡ false
      → get_elem? ds i ≡ some d
      → text_eq d.id id ≡ false
  no_same_id id [] i h at = cc at
  no_same_id id (x ∷ ds) zero h at =
      subst (λ (d : MonitorDefinition D). text_eq d.id id ≡ false) (some-injective _ _ at)
        (ground arith)
  no_same_id id (x ∷ ds) (suc i) h at = no_same_id id ds i (ground arith) at

  -- In a registry two definitions at two places have two identifiers.
  pub ids_apart :
      (ds : List (MonitorDefinition D)) (i j : ℕ) {d e : MonitorDefinition D}
      → Distinct ds
      → get_elem? ds i ≡ some d
      → get_elem? ds j ≡ some e
      → (i == j) ≡ false
      → text_eq d.id e.id ≡ false
  ids_apart [] i j h at at' apart = cc at
  ids_apart (x ∷ ds) zero zero h at at' apart = absurd (ground arith)
  ids_apart (x ∷ ds) (suc i) zero {d} h at at' apart =
      subst (λ (e : MonitorDefinition D). text_eq d.id e.id ≡ false) (some-injective _ _ at')
        (no_same_id x.id ds i h.0 at)
  ids_apart (x ∷ ds) zero (suc j) {d} {e} h at at' apart =
      text_eq_sym d.id e.id
      ∙ subst (λ (d : MonitorDefinition D). text_eq e.id d.id ≡ false) (some-injective _ _ at)
          (no_same_id x.id ds j h.0 at')
  ids_apart (x ∷ ds) (suc i) (suc j) h at at' apart = ids_apart ds i j h.1 at at' (ground arith)

module _ {D R : Type 0} where
  pub definition_at :
      (jobs : List (Job D R)) (i : ℕ) {job : Job D R}
      → get_elem? jobs i ≡ some job
      → get_elem? (definitions jobs) i ≡ some job.definition
  definition_at [] i h = cc h
  definition_at (x ∷ jobs) zero h = ap (λ (j : Job D R). some j.definition) (some-injective _ _ h)
  definition_at (x ∷ jobs) (suc i) h = definition_at jobs i h
