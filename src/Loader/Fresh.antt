-- ===== src/Loader/Fresh.antt =====
-- The sets of identifiers in the loops of src/core/config.cpp.
use pixel_status_nx.Prelude.{
  ℕ, suc, ◌+◌, ◌≤◌, ◌≡◌, refl, ap, subst, false, Option, none, some, List, [], ◌∷◌, Text, arith,
  length,
}
use pixel_status_nx.Floating.{Floating}
use pixel_status_nx.Json.{JsonLibrary}
use pixel_status_nx.Loader.{Load, result_of, pushed}
use pixel_status_nx.Loader.Fields.{has_name}
use pixel_status_nx.Loader.Cards.{parse_items, new_item, with_id}
use pixel_status_nx.Loader.Results.{
  Gives, Ensures, Ensures-succeed, Ensures->>=, Ensures-attempt, Ensures-guard,
}

-- Names that are none of those before, nor of each other.
abbrev pub Fresh : {A : Type 0} → (A → Text) → List Text → List A → Type 0
Fresh id names [] = Unit
Fresh id names (a ∷ rest) = (has_name (id a) names ≡ false) × Fresh id (id a ∷ names) rest

has_name-cons :
    (name : Text) (first : Text) (names : List Text)
    → has_name name (first ∷ names) ≡ false
    → has_name name names ≡ false
has_name-cons name first names h = ground arith

-- With fewer names before, the names are as new.
Fresh-fewer :
    {A : Type 0} (id : A → Text) (names more : List Text) (xs : List A)
    → ((name : Text) → has_name name more ≡ false → has_name name names ≡ false)
    → Fresh id more xs
    → Fresh id names xs
Fresh-fewer id names more [] h k = tt
Fresh-fewer id names more (a ∷ rest) h k = (
  h (id a) k.0,
  Fresh-fewer id (id a ∷ names) (id a ∷ more) rest (λ name new. ground (arith, h name)) k.1,
)

Fresh-with_id :
    {A : Type 0} (id : A → Text) (o : Option A) (names : List Text) (xs : List A)
    → Fresh id (with_id id o names) xs
    → Fresh id names xs
Fresh-with_id id none names xs h = h
Fresh-with_id id (some a) names xs h =
    Fresh-fewer id names (id a ∷ names) xs (λ name new. has_name-cons name (id a) names new) h

pub length-pushed : {A : Type 0} (os : List (Option A)) → length (pushed os) ≤ length os
unfolding pushed
length-pushed [] = omega arith
length-pushed (none ∷ rest) = omega (arith, length-pushed rest)
length-pushed (some a ∷ rest) = omega (arith, length-pushed rest)

new_item-Fresh :
    {A : Type 0} (id : A → Text) (names : List Text) (path duplicate : Text) (m : Load A)
    → Ensures
        (λ a. Gives m a × (has_name (id a) names ≡ false))
        (new_item id names path duplicate m)
new_item-Fresh id names path duplicate m =
    Ensures->>= _ _ λ a e. Ensures-guard _ _ _ λ new. Ensures-succeed a (e, ground arith)

-- A round of a loop.
push-Fresh :
    {A : Type 0} (id : A → Text) (names : List Text) (path duplicate : Text) (m : Load A)
    (o : Option A) (later : List (Option A))
    → result_of (new_item id names path duplicate m) ≡ o
    → Fresh id (with_id id (result_of m) names) (pushed later)
    → Fresh id names (pushed (o ∷ later))
unfolding pushed
push-Fresh id names path duplicate m none later e h =
    Fresh-with_id id (result_of m) names (pushed later) h
push-Fresh id names path duplicate m (some a) later e h =
    let (given, new) = (new_item-Fresh id names path duplicate m).holds a e in
    (new, subst (λ o. Fresh id (with_id id o names) (pushed later)) given h)

module _ (fl : Floating) (json : JsonLibrary fl.Double) where
  -- A loop over items pushes new names, at most one for each item.
  pub parse_items-Fresh :
      {A : Type 0} (id : A → Text) (duplicate : Text) (parse : json.Json → Text → Load A)
      (path : Text) (values : List json.Json) (names : List Text) (index : ℕ)
      → Ensures
          (λ os. Fresh id names (pushed os) × (length os ≡ length values))
          (parse_items fl json id duplicate parse path names index values)
  unfolding parse_items pushed
  parse_items-Fresh id duplicate parse path [] names index = Ensures-succeed [] (tt, refl)
  parse_items-Fresh id duplicate parse path (value ∷ rest) names index =
      Ensures-attempt _ _ λ o read. Ensures->>= _ _ λ later e. Ensures-succeed _ (
        let (new, same) =
          (parse_items-Fresh id duplicate parse path rest _ (index + 1)).holds later e in
        (push-Fresh id names _ duplicate _ o later read new, ap suc same))
