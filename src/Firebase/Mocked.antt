-- ===== src/Firebase/Mocked.antt =====
-- Reading the mock database of backend/src/db/firebaseRestClient.js after a replacement.
use ai_worker_platform.Common.{List, [], ◌∷◌, ◌≡◌, filter, arith}
use ai_worker_platform.Control.Text.{Text, same_text_refl}
use ai_worker_platform.Tree.Paths.{split, is_present}
use ai_worker_platform.Tree.Documents.{Value, object, Fields, child, get_at, opened}
use ai_worker_platform.Tree.Access.{child-put}
use ai_worker_platform.Firebase.Mock.{get_nested_value, replace_nested_value, replace_parts}

get_at-replace_parts :
    (db : Fields) (part : Text) (parts : List Text) (value : Value)
    → get_at (object (replace_parts db (part ∷ parts) value)) (part ∷ parts) ≡ value
unfolding replace_parts get_at
get_at-replace_parts db part [] value =
    ground (arith, child-put part part value db, same_text_refl part)
get_at-replace_parts db part (next ∷ parts) value = ground (
  arith,
  child-put part part (object (replace_parts (opened (child part db)) (next ∷ parts) value)) db,
  same_text_refl part,
  get_at-replace_parts (opened (child part db)) next parts value,
)

-- A value that is put at a path with a part that is not empty is read there.
pub get_nested_value-replace_nested_value :
    (db : Fields) (path part : Text) (parts : List Text) (value : Value)
    → filter is_present (split path) ≡ part ∷ parts
    → get_nested_value (replace_nested_value db path value) path ≡ value
unfolding get_nested_value replace_nested_value
get_nested_value-replace_nested_value db path part parts value h =
    rw h (get_at-replace_parts db part parts value)
