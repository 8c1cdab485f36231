-- ===== src/Store/Reading.antt =====
-- `read` of backend/src/db/sqliteStore.js at a path that names a document or a part of one: a walk
-- in the row of its anchor.
use ai_worker_platform.Common.{
  ℕ, zero, suc, Bool, true, none, some, List, [], ◌∷◌, ◌≡◌, ◌≤◌, refl, length, all, take, drop, leb,
  arith, Option, if◌then◌else◌, ap, sym,
}
use ai_worker_platform.Control.Text.{Text, same_text, same_text→eq}
use ai_worker_platform.Tree.Paths.{valid, parts, join, Checked}
use ai_worker_platform.Tree.Joining.{is_segment, cost, parts-join, parts-all_segments}
use ai_worker_platform.Tree.Documents.{Value, null, get, get_at, scalar, object}
use ai_worker_platform.Store.Records.{
  Row, Table, full_depth, anchor, find_row, read, delete_row, insert_row, upsert, first,
}

-- Segments as `parts` gives them.
pub record ArePath (segments : List Text) : Type 0 where
  pub segment : all is_segment segments ≡ true
  pub bounded : cost segments ≤ 1025

pub parts-ArePath :
    (path : Text) {segments : List Text} → parts path ≡ valid segments → ArePath segments
parts-ArePath path h = let (s, b) = parts-all_segments path h in record { segment = s; bounded = b }

take_segments :
    (n : ℕ) (ws : List Text)
    → (all is_segment ws ≡ true)
    → (all is_segment (take n ws) ≡ true) × (cost (take n ws) ≤ cost ws)
take_segments zero ws h = (refl, omega arith)
take_segments (suc n) [] h = (refl, omega arith)
take_segments (suc n) (w ∷ ws) h = ground (arith, take_segments n ws)

drop_segments :
    (n : ℕ) (ws : List Text)
    → (all is_segment ws ≡ true)
    → (all is_segment (drop n ws) ≡ true) × (cost (drop n ws) ≤ cost ws)
drop_segments zero ws h = (h, omega arith)
drop_segments (suc n) [] h = (refl, omega arith)
drop_segments (suc n) (w ∷ ws) h = ground (arith, drop_segments n ws)

pub take-ArePath : (n : ℕ) {ws : List Text} → ArePath ws → ArePath (take n ws)
take-ArePath n {ws} p = ground (arith, take_segments n ws)

pub drop-ArePath : (n : ℕ) {ws : List Text} → ArePath ws → ArePath (drop n ws)
drop-ArePath n {ws} p = ground (arith, drop_segments n ws)

pub ArePath-join : {ws : List Text} → ArePath ws → parts (join ws) ≡ valid ws
ArePath-join {ws} p = parts-join ws p.segment p.bounded

-- What the row of an anchor holds; no row reads as `null`.
abbrev pub document_at : Text → List Row → Value
document_at path rows = elim (find_row path rows) [ none ↦ null | some d ↦ d ]

-- A path that names a document or a part of one.
abbrev pub is_deep : List Text → Bool
is_deep segments = leb (full_depth segments) (length segments)

abbrev pub tail_of : List Text → List Text
tail_of segments = drop (full_depth segments) segments

get_at_null : (keys : List Text) → get_at null keys ≡ null
unfolding get_at
get_at_null [] = refl
get_at_null (key ∷ keys) = refl

get_row :
    (found : Option Value) {tail : List Text}
    → ArePath tail
    → elim found as (λ _. Checked Value) [
      | none ↦ valid null
      | some document ↦ get document (join tail)
    ]
      ≡ valid (get_at (elim found [ none ↦ null | some d ↦ d ]) tail)
unfolding get
get_row none {tail} p = ap valid (sym (get_at_null tail))
get_row (some d) p = rw (ArePath-join p) refl

-- A deep path is read by a walk in the row of its anchor.
pub read_lem :
    (path : Text) (segments : List Text) (db : Table)
    → parts path ≡ valid segments
    → is_deep segments ≡ true
    → read path db ≡ valid (get_at (document_at (anchor segments) db.rows) (tail_of segments))
unfolding read
read_lem path segments db h deep =
    let tail = drop-ArePath (full_depth segments) (parts-ArePath path h) in
    rw h (rw deep (get_row (find_row (anchor segments) db.rows) tail))

-- The row of a path after a deletion or an insertion.
pub find_row-delete_row :
    (path other : Text) (rows : List Row)
    → document_at other (delete_row path rows)
      ≡ (if same_text path other then null else document_at other rows)
unfolding find_row delete_row
find_row-delete_row path other [] = ground arith
find_row-delete_row path other (row ∷ rows) = ground (
  arith,
  find_row-delete_row path other rows,
  same_text→eq row.path path,
  same_text→eq row.path other,
  same_text→eq path other,
)

pub find_row-insert_row :
    (path other collection : Text) (document : Value) (rows : List Row)
    → document_at other (insert_row path collection document rows)
      ≡ (if same_text path other then document else document_at other rows)
unfolding find_row insert_row
find_row-insert_row path other collection document [] = ground arith
find_row-insert_row path other collection document (row ∷ rows) = ground (
  arith,
  find_row-insert_row path other collection document rows,
  same_text→eq row.path path,
  same_text→eq row.path other,
  same_text→eq path other,
)

-- An upsert at a path that can be split changes one row.
pub upsert_lem :
    (path : Text) (document : Value) (rows : List Row) {segments : List Text}
    → parts path ≡ valid segments
    → (changed : List Row) × (upsert path document rows ≡ valid changed)
      × ((other : Text)
          → document_at other changed
            ≡ (if same_text path other then document else document_at other rows))
unfolding upsert
upsert_lem path null rows h =
    (delete_row path rows, refl, λ other. find_row-delete_row path other rows)
upsert_lem path (scalar s) rows {segments} h = (
  insert_row path (first segments) (scalar s) rows,
  rw h refl,
  λ other. find_row-insert_row path other (first segments) (scalar s) rows,
)
upsert_lem path (object fields) rows {segments} h = (
  insert_row path (first segments) (object fields) rows,
  rw h refl,
  λ other. find_row-insert_row path other (first segments) (object fields) rows,
)
