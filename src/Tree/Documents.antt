-- ===== src/Tree/Documents.antt =====
-- JSON values and what backend/src/db/jsonTree.js does with them: `validate`, `get`, `set` and
-- `patch`. Numbers are whole and not negative; no array stands in a value; `clone` copies a value,
-- which is a value here and needs no copy.
use ai_worker_platform.Common.{
  ℕ, Bool, not, Option, none, some, List, [], ◌∷◌, ◌==◌, ◌+◌, if◌then◌else◌, any, ltb,
}
use ai_worker_platform.Control.Text.{Text, same_text}
use ai_worker_platform.Tree.Paths.{
  Checked, valid, invalid, invalid_data_path, invalid_json, invalid_patch, ◌>>=◌, parts, slash,
}

pub data Scalar : Type 0 where
  string : Text → Scalar
  number : ℕ → Scalar
  boolean : Bool → Scalar

mutual
  pub data Value : Type 0 where
    null : Value
    scalar : Scalar → Value
    object : Fields → Value

  pub data Fields : Type 0 where
    end : Fields
    field : Text → Value → Fields → Fields

abbrev pub is_key_without_slash : Text → Bool
is_key_without_slash key = not (any (λ c. c == slash) key)

-- One key of `validate`: parts(key), and no slash in it.
unfoldable pub check_key : Text → Checked (List Text)
check_key key = parts key >>= λ segments.
    if is_key_without_slash key then valid segments else invalid invalid_json

-- validate, with the depth of the value
unfoldable mutual
  unfolding check_key

  pub validate : Value → ℕ → Checked (Unit {0})
  validate null depth = if ltb 40 depth then invalid invalid_json else valid tt
  validate (scalar s) depth = if ltb 40 depth then invalid invalid_json else valid tt
  validate (object fields) depth =
      let entries = validate_entries fields depth in
      if ltb 40 depth then invalid invalid_json else entries

  pub validate_entries : Fields → ℕ → Checked (Unit {0})
  validate_entries end depth = valid tt
  validate_entries (field key child rest) depth =
      check_key key >>= λ _. validate child (depth + 1) >>= λ _. validate_entries rest depth

-- Object.hasOwn(value, key) and value[key]
unfoldable pub child : Text → Fields → Option Value
child key end = none
child key (field name value rest) =
    let later = child key rest in if same_text name key then some value else later

-- The walk of `get`: a step into no object, or to a key that is missing, ends at `null`.
unfoldable pub get_at : Value → List Text → Value
unfolding child
get_at value [] = value
get_at null (key ∷ keys) = null
get_at (scalar s) (key ∷ keys) = null
get_at (object fields) (key ∷ keys) = elim (child key fields) [
  | none ↦ null
  | some v ↦ get_at v keys
]

-- get
unfoldable pub get : Value → Text → Checked Value
unfolding get_at
get tree path = parts path >>= λ keys. valid (get_at tree keys)

-- parent[key] = value
unfoldable pub put : Text → Value → Fields → Fields
put key value end = field key value end
put key value (field name old rest) =
    if same_text name key then field name value rest else field name old (put key value rest)

-- delete parent[key]
unfoldable pub remove_key : Text → Fields → Fields
remove_key key end = end
remove_key key (field name old rest) =
    let later = remove_key key rest in if same_text name key then later else field name old later

-- The last step of `set`: `null` deletes.
unfoldable pub assign : Text → Value → Fields → Fields
unfolding put remove_key
assign key null parent = remove_key key parent
assign key value parent = put key value parent

-- if (!parent[key] || typeof parent[key] !== 'object') parent[key] = {}
unfoldable pub opened : Option Value → Fields
opened (some (object fields)) = fields
opened _ = end

-- The walk of `set`, at the keys of a path that is not empty.
unfoldable pub set_at : Fields → Text → List Text → Value → Fields
unfolding child put assign opened
set_at parent key [] value = assign key value parent
set_at parent key (next ∷ keys) value =
    put key (object (set_at (opened (child key parent)) next keys value)) parent

-- `set` at keys, which refuses to replace the root.
unfoldable pub set_keys : Fields → List Text → Value → Checked Fields
unfolding set_at
set_keys tree [] value = invalid invalid_data_path
set_keys tree (key ∷ keys) value = valid (set_at tree key keys value)

-- set, on an object
unfoldable pub set : Fields → Text → Value → Checked Fields
unfolding set_keys
set tree path value = parts path >>= λ keys. set_keys tree keys value

-- for (const [key, value] of Object.entries(payload)) set(result, key, value)
unfoldable pub set_all : Fields → Fields → Checked Fields
unfolding set
set_all result end = valid result
set_all result (field key value rest) = set result key value >>= λ next. set_all next rest

-- patch, of an object; the payload is validated first
unfoldable pub patch : Value → Value → Checked Fields
unfolding validate opened set_all
patch current null = invalid invalid_patch
patch current (scalar s) = invalid invalid_patch
patch current (object payload) =
    validate (object payload) 0 >>= λ _. set_all (opened (some current)) payload
