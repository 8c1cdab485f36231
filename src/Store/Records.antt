-- ===== src/Store/Records.antt =====
-- The table behind backend/src/db/sqliteStore.js: one row for each document, found by its anchor,
-- and `read` and `write` at a path inside it. `write` is modelled for the paths that name a
-- document or a part of one, not for those that name a whole collection.
use ai_worker_platform.Common.{
  ℕ, Bool, true, false, Option, none, some, List, [], ◌∷◌, ◌+◌, ◌||◌, if◌then◌else◌, length, take,
  drop, leb, suc, zero,
}
use ai_worker_platform.Control.Text.{Text, same_text, is_blank}
use ai_worker_platform.Tree.Paths.{
  Checked, valid, invalid, invalid_data_path, type_error, ◌>>=◌, parts, join,
}
use ai_worker_platform.Tree.Documents.{
  Value, null, scalar, object, Fields, end, Scalar, string, number, boolean, get, set, patch,
  validate,
}

-- A row of `documents`; what is stored is not `null`.
pub record Row : Type 0 where
  pub path : Text
  pub collection : Text
  pub document : Value

pub record Table : Type 0 where
  pub revision : ℕ
  pub rows : List Row

-- job_files
abbrev job_files : Text
job_files = b'j' ∷ b'o' ∷ b'b' ∷ b'_' ∷ b'f' ∷ b'i' ∷ b'l' ∷ b'e' ∷ b's' ∷ []

-- warning_items
abbrev warning_items : Text
warning_items =
    b'w' ∷ b'a' ∷ b'r' ∷ b'n' ∷ b'i' ∷ b'n' ∷ b'g' ∷ b'_' ∷ b'i' ∷ b't' ∷ b'e' ∷ b'm' ∷ b's' ∷ []

-- review_required_items
abbrev review_required_items : Text
review_required_items =
    b'r' ∷ b'e' ∷ b'v' ∷ b'i' ∷ b'e' ∷ b'w' ∷ b'_' ∷ b'r' ∷ b'e' ∷ b'q' ∷ b'u' ∷ b'i' ∷ b'r' ∷ b'e'
    ∷ b'd' ∷ b'_' ∷ b'i' ∷ b't' ∷ b'e' ∷ b'm' ∷ b's' ∷ []

-- NESTED.has
unfoldable pub is_nested : Text → Bool
is_nested collection =
    same_text collection job_files
    || same_text collection warning_items
    || same_text collection review_required_items

-- fullDepth
unfoldable pub full_depth : List Text → ℕ
full_depth [] = 2
full_depth (collection ∷ keys) = if is_nested collection then 3 else 2

-- anchor
unfoldable pub anchor : List Text → Text
unfolding full_depth
anchor segments = join (take (full_depth segments) segments)

-- SELECT document FROM documents WHERE path=?
unfoldable pub find_row : Text → List Row → Option Value
find_row path [] = none
find_row path (row ∷ rows) =
    let later = find_row path rows in if same_text row.path path then some row.document else later

-- SELECT path,document FROM documents WHERE collection=?, each row set in a tree
unfoldable pub collect : (Row → Bool) → List Row → Fields → Checked Fields
unfolding set
collect chosen [] result = valid result
collect chosen (row ∷ rows) result =
    let next = set result row.path row.document in
    let with_row = next >>= collect chosen rows in
    let without_row = collect chosen rows result in if chosen row then with_row else without_row

-- The rows that `read` selects for a path that names no document.
abbrev pub selected : List Text → Row → Bool
selected [] row = true
selected (collection ∷ keys) row = same_text row.collection collection

-- read
unfoldable pub read : Text → Table → Checked Value
unfolding full_depth anchor find_row collect get
read path db = parts path >>= λ segments.
    if leb (full_depth segments) (length segments)
    then elim (find_row (anchor segments) db.rows) [
      | none ↦ valid null
      | some document ↦ get document (join (drop (full_depth segments) segments))
    ]
    else collect (selected segments) db.rows end >>= λ tree. get (object tree) (join segments)

-- DELETE FROM documents WHERE path=?
unfoldable pub delete_row : Text → List Row → List Row
delete_row path [] = []
delete_row path (row ∷ rows) =
    let rest = delete_row path rows in if same_text row.path path then rest else row ∷ rest

-- INSERT INTO documents … ON CONFLICT(path) DO UPDATE SET document
unfoldable pub insert_row : Text → Text → Value → List Row → List Row
insert_row path collection document [] =
    record { path = path; collection = collection; document = document } ∷ []
insert_row path collection document (row ∷ rows) =
    if same_text row.path path
    then record row { document = document } ∷ rows
    else row ∷ insert_row path collection document rows

abbrev pub first : List Text → Text
first [] = []
first (segment ∷ segments) = segment

-- upsert
unfoldable pub upsert : Text → Value → List Row → Checked (List Row)
unfolding delete_row insert_row
upsert path null rows = valid (delete_row path rows)
upsert path (scalar s) rows =
    parts path >>= λ segments. valid (insert_row path (first segments) (scalar s) rows)
upsert path (object fields) rows =
    parts path >>= λ segments. valid (insert_row path (first segments) (object fields) rows)

-- Values that `||` passes over.
unfoldable pub is_falsy : Scalar → Bool
is_falsy (string s) = is_blank s
is_falsy (number zero) = true
is_falsy (number (suc n)) = false
is_falsy (boolean b) = if b then false else true

-- tree.set on a value that is no object and no falsy one: a property that is assigned to it is
-- lost, and the walk to a deeper one meets `undefined`.
unfoldable pub set_scalar : Scalar → List Text → Checked Value
set_scalar s [] = invalid invalid_data_path
set_scalar s (key ∷ []) = valid (scalar s)
set_scalar s (key ∷ next ∷ keys) = invalid type_error

abbrev pub as_object : Checked Fields → Checked Value
as_object fields = fields >>= λ made. valid (object made)

-- tree.set(document || {}, tail, next)
unfoldable pub set_document : Value → Text → Value → Checked Value
unfolding set is_falsy set_scalar
set_document null tail next = as_object (set end tail next)
set_document (object fields) tail next = as_object (set fields tail next)
set_document (scalar s) tail next =
    if is_falsy s then as_object (set end tail next) else parts tail >>= set_scalar s

-- `merge ? tree.patch(current, value) : value`
unfoldable pub merged : Bool → Value → Value → Checked Value
unfolding patch
merged merge current value = if merge then as_object (patch current value) else valid value

-- The branch of `write` for a document or a part of one.
unfoldable pub write_record : List Text → Value → Bool → Table → Checked (List Row)
write_record segments value merge db =
    let tail = join (drop (full_depth segments) segments) in
    read (anchor segments) db >>= λ document.
    (if is_blank tail then valid document else get document tail) >>= λ current.
    merged merge current value >>= λ next.
    (if is_blank tail then valid next else set_document document tail next) >>= λ changed.
    upsert (anchor segments) changed db.rows

-- if (!segments.length) throw
abbrev pub not_root : List Text → Checked (List Text)
not_root [] = invalid invalid_data_path
not_root (segment ∷ segments) = valid (segment ∷ segments)

-- write
unfoldable pub write : Text → Value → Bool → Table → Checked Table
write path value merge db = validate value 0 >>= λ _. parts path >>= λ segments.
    not_root segments >>= λ keys. write_record keys value merge db >>= λ rows.
    valid (record { revision = db.revision + 1; rows = rows })
