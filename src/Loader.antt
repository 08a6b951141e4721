-- ===== src/Loader.antt =====
-- src/core/config.cpp: what its functions append to the errors of a `ConfigLoadResult`, with their
-- return values. No function reads the errors of the others before the end of `load_config_file`.
pub mod Limits
pub mod Durations
pub mod Fields
pub mod Appearances
pub mod Policies
pub mod Http
pub mod HttpMonitors
pub mod NetworkMonitors
pub mod Monitors
pub mod Widgets
pub mod Names
pub mod Grids
pub mod Bitmaps
pub mod Nodes
pub mod Cards
pub mod Rounds
pub mod File
pub mod Results
pub mod Inside
pub mod Placed
pub mod Fitting
pub mod Outcome
pub mod Acceptable
pub mod Reported
pub mod Shown
pub mod Fresh
use pixel_status_nx.Prelude.{
  Bool, true, false, Option, none, some, List, [], ◌∷◌, ◌++◌, Text, if◌then◌else◌,
}

-- A return value, and the errors.
pub data Load (A : Type 0) : Type 0 where
  loaded : Option A → List Text → Load A

abbrev pub result_of : {A : Type 0} → Load A → Option A
result_of (loaded result errors) = result

abbrev pub errors_of : {A : Type 0} → Load A → List Text
errors_of (loaded result errors) = errors

-- `add_error`.
unfoldable pub report : Text → Load (Unit {0})
report message = loaded (some tt) (message ∷ [])

module _ {A : Type 0} where
  unfoldable pub succeed : A → Load A
  succeed a = loaded (some a) []

  -- `add_error`, and a return without a value.
  unfoldable pub refuse : Text → Load A
  refuse message = loaded none (message ∷ [])

  -- A return without a value.
  unfoldable pub stop : Load A
  stop = loaded none []

  -- The result as a value to go on with, where the code does so without it.
  unfoldable pub attempt : Load A → Load (Option A)
  attempt (loaded result errors) = loaded (some result) errors

  -- A value that is there, or an error.
  unfoldable pub or_refuse : Option A → Text → Load A
  unfolding succeed refuse
  or_refuse none message = refuse message
  or_refuse (some a) message = succeed a

  unfoldable pub or_stop : Option A → Load A
  unfolding succeed stop
  or_stop none = stop
  or_stop (some a) = succeed a

-- A result after errors that came before.
abbrev pub after : {A : Type 0} → List Text → Load A → Load A
after before (loaded result errors) = loaded result (before ++ errors)

module _ {A B : Type 0} where
  infixl 5 ◌>>=◌
  infixr 6 ◌⊗◌
  unfoldable pub ◌>>=◌ : Load A → (A → Load B) → Load B
  loaded none errors >>= f = loaded none errors
  loaded (some a) errors >>= f = after errors (f a)

  -- Two values, and nothing where one of them is missing.
  abbrev pub both : Option A → Option B → Option (A × B)
  both (some a) (some b) = some (a, b)
  both _ _ = none

  -- Two results that are both computed before the code looks at them.
  unfoldable pub ◌⊗◌ : Load A → Load B → Load (A × B)
  loaded a before ⊗ loaded b errors = loaded (both a b) (before ++ errors)

infixl 5 ◌>>◌
unfoldable pub ◌>>◌ : {B : Type 0} → Load (Unit {0}) → Load B → Load B
m >> k = m >>= (λ _. k)

-- A value, or the default.
abbrev pub value_or : {A : Type 0} → A → Option A → A
value_or otherwise none = otherwise
value_or otherwise (some a) = a

-- A value that a later test has left valid.
abbrev pub keep_if : {A : Type 0} → Bool → Option A → Option A
keep_if b o = if b then o else none

-- What the rounds of a loop pushed, and all of it, where every round pushed something.
unfoldable pub pushed : {A : Type 0} → List (Option A) → List A
pushed [] = []
pushed (none ∷ rest) = pushed rest
pushed (some a ∷ rest) = a ∷ pushed rest

abbrev prepend : {A : Type 0} → Option A → Option (List A) → Option (List A)
prepend (some a) (some rest) = some (a ∷ rest)
prepend _ _ = none

unfoldable pub complete : {A : Type 0} → List (Option A) → Option (List A)
complete [] = some []
complete (o ∷ rest) = prepend o (complete rest)

-- An error and a return where a test fails.
unfoldable pub guard : Bool → Text → Load (Unit {0})
unfolding succeed refuse
guard true message = succeed tt
guard false message = refuse message

-- An error where a test fails, without a return: the result is the test.
unfoldable pub check : Bool → Text → Load Bool
unfolding succeed
check true message = succeed true
check false message = loaded (some false) (message ∷ [])
