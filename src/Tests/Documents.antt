-- ===== src/Tests/Documents.antt =====
-- A JSON library over trees, with the documents that the tests of the loader read.
use pixel_status_nx.Prelude.{ℕ, true, some, List, [], ◌∷◌, Text, String, str, ℤ, pos}
use pixel_status_nx.Json.{
  JsonView, JsonLibrary, boolean_view, unsigned_view, string_view, array_view, object_view,
}
use pixel_status_nx.Loader.File.{ConfigFile, opened}

mutual
  pub data Tree : Type 0 where
    truth : Tree
    number : ℕ → Tree
    text : Text → Tree
    array : Trees → Tree
    object : TreeFields → Tree

  pub data Trees : Type 0 where
    none_left : Trees
    and_then : Tree → Trees → Trees

  pub data TreeFields : Type 0 where
    no_more : TreeFields
    with : Text → Tree → TreeFields → TreeFields

abbrev items_of : Trees → List Tree
items_of none_left = []
items_of (and_then t rest) = t ∷ items_of rest

abbrev fields_of : TreeFields → List (Text × Tree)
fields_of no_more = []
fields_of (with key t rest) = (key, t) ∷ fields_of rest

abbrev tree_view : Tree → JsonView ℤ Tree
tree_view truth = boolean_view true
tree_view (number n) = unsigned_view n
tree_view (text s) = string_view s
tree_view (array ts) = array_view (items_of ts)
tree_view (object fields) = object_view (fields_of fields)

abbrev array_from : List Tree → Trees
array_from [] = none_left
array_from (t ∷ rest) = and_then t (array_from rest)

abbrev fields_from : List (String × Tree) → TreeFields
fields_from [] = no_more
fields_from ((key, t) ∷ rest) = with (str key) t (fields_from rest)

abbrev pub arr : List Tree → Tree
arr items = array (array_from items)

abbrev pub obj : List (String × Tree) → Tree
obj fields = object (fields_from fields)

abbrev pub txt : String → Tree
txt s = text (str s)

-- A solid colour.
abbrev plain : String → Tree
plain color = obj (("appearance", obj (("solid", txt color) ∷ [])) ∷ [])

abbrev statuses : Tree
statuses =
    obj (("unknown", plain "#404040") ∷ ("stale", plain "#800080") ∷ ("ok", plain "#00FF00") ∷ [])

abbrev monitor : Tree
monitor = obj (
    ("id", txt "door")
    ∷ ("type", txt "tcp_connect")
    ∷ ("host", txt "door.example")
    ∷ ("port", number 443)
    ∷ ("interval", txt "30s")
    ∷ ("ttl", txt "2m")
    ∷ ("transport_failure_status", txt "stale")
    ∷ ("evaluate", arr (obj (("otherwise", obj (("status", txt "ok") ∷ [])) ∷ []) ∷ []))
    ∷ [])

abbrev pub bar_item : Tree
bar_item = obj (("id", txt "load") ∷ ("type", txt "bar") ∷ ("source", txt "door") ∷ [])

abbrev pub grid_item : Tree
grid_item = obj (
    ("id", txt "grid")
    ∷ ("type", txt "status_grid")
    ∷ ("sources", arr (txt "door" ∷ txt "gate" ∷ txt "roof" ∷ []))
    ∷ ("columns", number 2)
    ∷ ("gap", number 1)
    ∷ ("weight", number 2)
    ∷ [])

-- A row of a bar and a grid.
abbrev pub row_item : Tree
row_item =
    obj
      (("type", txt "row") ∷ ("gap", number 1) ∷ ("children", arr (bar_item ∷ grid_item ∷ [])) ∷ [])

abbrev card : Tree
card =
    obj (("id", txt "main") ∷ ("type", txt "layout") ∷ ("hold", txt "5s") ∷ ("root", row_item) ∷ [])

abbrev document : ℕ → Tree
document schema = obj (
    ("schema_version", number schema)
    ∷ ("display", obj (("width", number 16) ∷ ("height", number 16) ∷ []))
    ∷ ("statuses", statuses)
    ∷ ("monitors", arr (monitor ∷ []))
    ∷ ("cards", arr (card ∷ []))
    ∷ [])

-- A library whose parser delivers that document.
abbrev pub trees : ℕ → JsonLibrary ℤ
trees schema = record {
  Json = Tree;
  view = tree_view;
  parse = λ contents. some (document schema);
  dump = λ value. [];
}

abbrev pub small_file : ConfigFile
small_file = opened (pos 2) (some (str "{}"))
