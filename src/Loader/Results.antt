-- ===== src/Loader/Results.antt =====
-- What a part of the loader has established where it has a value.
use pixel_status_nx.Prelude.{
  ◌≡◌, refl, subst, ap, ◌∙◌, inl, inr, suc, length, Option-cases, Bool, true, false, Option, none,
  some, List, [], ◌∷◌, Text, All, if◌then◌else◌,
}
use mathlib.Core.Option.{some-injective}
use pixel_status_nx.Loader.{
  Load, loaded, result_of, after, succeed, refuse, stop, attempt, or_refuse, or_stop, ◌>>=◌, ◌>>◌,
  ◌⊗◌, both, keep_if, pushed, complete, guard, check,
}

-- A result that has this value.
abbrev pub Gives : {A : Type 0} → Load A → A → Type 0
Gives m a = result_of m ≡ some a

module _ {A : Type 0} where
  pub succeed-Gives : (a : A) {b : A} → Gives (succeed a) b → a ≡ b
  unfolding succeed
  succeed-Gives a h = cc h

  pub refuse-Gives : (message : Text) {a : A} → Gives (refuse message) a → ⊥
  unfolding refuse
  refuse-Gives message h = cc h

  pub or_refuse-Gives :
      (o : Option A) (message : Text) {a : A} → Gives (or_refuse o message) a → o ≡ some a
  unfolding or_refuse refuse succeed
  or_refuse-Gives none message h = cc h
  or_refuse-Gives (some b) message h = h

  pub or_stop-Gives : (o : Option A) {a : A} → Gives (or_stop o) a → o ≡ some a
  unfolding or_stop stop succeed
  or_stop-Gives none h = cc h
  or_stop-Gives (some b) h = h

  pub attempt-Gives : (m : Load A) {o : Option A} → Gives (attempt m) o → result_of m ≡ o
  unfolding attempt
  attempt-Gives (loaded result errors) h = cc h

  after-Gives : (before : List Text) (m : Load A) {a : A} → Gives (after before m) a → Gives m a
  after-Gives before (loaded result errors) h = h

  pub keep_if-some :
      (b : Bool) (o : Option A) {a : A} → keep_if b o ≡ some a → (b ≡ true) × (o ≡ some a)
  keep_if-some true o h = (refl, h)
  keep_if-some false o h = cc h

module _ {A B : Type 0} where
  pub >>=-Gives :
      (m : Load A) (f : A → Load B) {b : B}
      → Gives (m >>= f) b
      → (a : A) × Gives m a × Gives (f a) b
  unfolding ◌>>=◌
  >>=-Gives (loaded none errors) f h = cc h
  >>=-Gives (loaded (some a) errors) f h = (a, refl, after-Gives errors (f a) h)

  pub both-some :
      (o : Option A) (p : Option B) {r : A × B}
      → both o p ≡ some r
      → (o ≡ some r.0) × (p ≡ some r.1)
  both-some (some a) (some b) h = (cc h, cc h)
  both-some (some a) none h = cc h
  both-some none p h = cc h

  pub ⊗-Gives : (m : Load A) (n : Load B) {r : A × B} → Gives (m ⊗ n) r → Gives m r.0 × Gives n r.1
  unfolding ◌⊗◌
  ⊗-Gives (loaded a before) (loaded b errors) h = both-some a b h

pub >>-Gives :
    {B : Type 0} (m : Load (Unit {0})) (k : Load B) {b : B}
    → Gives (m >> k) b
    → Gives m tt × Gives k b
unfolding ◌>>◌
>>-Gives m k h = let (u, e, later) = >>=-Gives m (λ _. k) h in (e, later)

pub guard-Gives : (b : Bool) (message : Text) {u : Unit {0}} → Gives (guard b message) u → b ≡ true
unfolding guard refuse
guard-Gives true message h = refl
guard-Gives false message h = cc h

pub check-Gives : (b : Bool) (message : Text) {c : Bool} → Gives (check b message) c → b ≡ c
unfolding check succeed
check-Gives true message h = cc h
check-Gives false message h = cc h

-- What holds of every value that a round can push holds of all that are pushed.
pub pushed-All {κ} :
    {A : Type 0} (P : A → Type κ) (os : List (Option A))
    → All (λ o. (a : A) → o ≡ some a → P a) os
    → All P (pushed os)
unfolding pushed
pushed-All P [] h = tt
pushed-All P (none ∷ rest) h = pushed-All P rest h.1
pushed-All P (some a ∷ rest) h = (h.0 a refl, pushed-All P rest h.1)

-- A property of the value that a result has, if it has one.
pub record Ensures {κ} {A : Type 0} (P : A → Type κ) (m : Load A) : Type κ where
  pub holds : (a : A) → Gives m a → P a

module _ {κ} {A : Type 0} {P : A → Type κ} where
  pub Ensures-succeed : (a : A) → P a → Ensures P (succeed a)
  Ensures-succeed a p = record { holds = λ b h. subst P (succeed-Gives a h) p }

  pub Ensures-refuse : (message : Text) → Ensures P (refuse message)
  Ensures-refuse message = record { holds = λ a h. absurd (refuse-Gives message h) }

  pub Ensures->>= :
      {B : Type 0} (m : Load B) (f : B → Load A)
      → ((b : B) → Gives m b → Ensures P (f b))
      → Ensures P (m >>= f)
  Ensures->>= m f rest = record {
    holds = λ a h. let (b, e, later) = >>=-Gives m f h in (rest b e).holds a later;
  }

  pub Ensures->> :
      (m : Load (Unit {0})) (k : Load A) → (Gives m tt → Ensures P k) → Ensures P (m >> k)
  Ensures->> m k rest = record {
    holds = λ a h. let (e, later) = >>-Gives m k h in (rest e).holds a later;
  }

  pub Ensures-attempt :
      {B : Type 0} (m : Load B) (f : Option B → Load A)
      → ((o : Option B) → result_of m ≡ o → Ensures P (f o))
      → Ensures P (attempt m >>= f)
  Ensures-attempt m f rest = Ensures->>= _ _ λ o e. rest o (attempt-Gives m e)

  pub Ensures-if :
      (b : Bool) {m n : Load A} → Ensures P m → Ensures P n → Ensures P (if b then m else n)
  Ensures-if true h k = h
  Ensures-if false h k = k

  -- A test that was passed.
  pub Ensures-guard :
      (b : Bool) (message : Text) (k : Load A)
      → (b ≡ true → Ensures P k)
      → Ensures P (guard b message >> k)
  Ensures-guard b message k rest = Ensures->> _ _ λ e. rest (guard-Gives b message e)

module _ {A : Type 0} where
  -- A loop whose rounds all pushed something.
  pub complete-pushed :
      (os : List (Option A)) {xs : List A} → complete os ≡ some xs → pushed os ≡ xs
  unfolding complete pushed
  complete-pushed [] h = cc h
  complete-pushed (none ∷ rest) h = cc h
  complete-pushed (some a ∷ rest) h = elim (Option-cases (complete rest)) [
    | inl e ↦ cc (rw (e, complete) at h)
    | inr (later, e) ↦ ap (◌∷◌ a) (complete-pushed rest e) ∙ cc (rw (e, complete) at h)
  ]

  pub length-complete :
      (os : List (Option A)) {xs : List A} → complete os ≡ some xs → length xs ≡ length os
  unfolding complete
  length-complete [] h = cc h
  length-complete (none ∷ rest) h = cc h
  length-complete (some a ∷ rest) h = elim (Option-cases (complete rest)) [
    | inl e ↦ cc (rw (e, complete) at h)
    | inr (later, e) ↦
        rw (← (some-injective _ _ (rw (e, complete) at h))) (ap suc (length-complete rest e))
  ]
