-- ===== src/Firebase/Mock.antt =====
-- The in-memory database of backend/src/db/firebaseRestClient.js, `mockDb`. Values are as in Tree;
-- no text is merged into or walked into.
use ai_worker_platform.Common.{List, [], ◌∷◌, if◌then◌else◌, filter}
use ai_worker_platform.Control.Text.{Text, is_blank}
use ai_worker_platform.Tree.Paths.{split, is_present}
use ai_worker_platform.Tree.Documents.{
  Value, null, scalar, object, Fields, end, field, child, get_at, put, opened,
}

-- getNestedValue: empty parts are skipped
unfoldable pub get_nested_value : Fields → Text → Value
unfolding get_at split
get_nested_value db path = get_at (object db) (filter is_present (split path))

-- { ...current, ...value }
unfoldable pub spread : Fields → Fields → Fields
unfolding put
spread current end = current
spread current (field key value rest) = spread (put key value current) rest

-- The last step of setNestedValue: an object is merged, anything else is stored.
unfoldable pub merge_last : Text → Value → Fields → Fields
unfolding spread child opened put
merge_last key (object payload) parent =
    put key (object (spread (opened (child key parent)) payload)) parent
merge_last key null parent = put key null parent
merge_last key (scalar s) parent = put key (scalar s) parent

-- The walk of setNestedValue: empty parts are skipped, and with an empty last one nothing is stored.
unfoldable pub set_parts : Fields → List Text → Value → Fields
unfolding merge_last child opened put
set_parts parent [] value = parent
set_parts parent (part ∷ []) value = if is_blank part then parent else merge_last part value parent
set_parts parent (part ∷ next ∷ parts) value =
    let skipped = set_parts parent (next ∷ parts) value in
    let inside =
      put part (object (set_parts (opened (child part parent)) (next ∷ parts) value)) parent in
    if is_blank part then skipped else inside

-- setNestedValue, for PATCH
unfoldable pub set_nested_value : Fields → Text → Value → Fields
unfolding set_parts split
set_nested_value db path value = set_parts db (split path) value

-- The walk of replaceNestedValue, over the parts that are not empty.
unfoldable pub replace_parts : Fields → List Text → Value → Fields
unfolding child opened put
replace_parts parent [] value = parent
replace_parts parent (part ∷ []) value = put part value parent
replace_parts parent (part ∷ next ∷ parts) value =
    put part (object (replace_parts (opened (child part parent)) (next ∷ parts) value)) parent

-- replaceNestedValue, for PUT
unfoldable pub replace_nested_value : Fields → Text → Value → Fields
unfolding replace_parts split
replace_nested_value db path value = replace_parts db (filter is_present (split path)) value
