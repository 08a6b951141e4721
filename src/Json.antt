-- ===== src/Json.antt =====
-- The JSON library (`nlohmann::json`), as a parameter, and the values that the code builds for it.
use pixel_status_nx.Prelude.{ℕ, Bool, Option, List, Text, ℤ}

-- What a JSON value is to the code that reads it: the kind that the `is_…` functions of the library
-- tell, and what `get` returns. A number is `unsigned` where `is_number_unsigned` holds.
pub data JsonView (D Json : Type 0) : Type 0 where
  null_view : JsonView D Json
  boolean_view : Bool → JsonView D Json
  unsigned_view : ℕ → JsonView D Json
  integer_view : ℤ → JsonView D Json
  float_view : D → JsonView D Json
  string_view : Text → JsonView D Json
  -- The elements, in order.
  array_view : List Json → JsonView D Json
  -- The fields, in the order in which they are walked.
  object_view : List (Text × Json) → JsonView D Json

-- A value that the code builds for a response.
mutual
  pub data JsonOut (D : Type 0) : Type 0 where
    null_out : JsonOut D
    boolean_out : Bool → JsonOut D
    integer_out : ℤ → JsonOut D
    real_out : D → JsonOut D
    string_out : Text → JsonOut D
    array_out : JsonItems D → JsonOut D
    object_out : JsonFields D → JsonOut D

  pub data JsonItems (D : Type 0) : Type 0 where
    no_items : JsonItems D
    item : JsonOut D → JsonItems D → JsonItems D

  pub data JsonFields (D : Type 0) : Type 0 where
    no_fields : JsonFields D
    field : Text → JsonOut D → JsonFields D → JsonFields D

pub record JsonLibrary (D : Type 0) : Type 1 where
  pub Json : Type 0
  pub view : Json → JsonView D Json
  -- `Json::parse` without exceptions and with comments: `none` is a discarded value.
  pub parse : Text → Option Json
  pub dump : JsonOut D → Text
