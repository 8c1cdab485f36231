-- ===== src/Store/Writing.antt =====
-- `write` of backend/src/db/sqliteStore.js at a path that names a document or a part of one, and
-- what `read` answers afterwards.
use ai_worker_platform.Common.{
  Bool, true, false, some, List, [], ◌∷◌, ◌≡◌, refl, if◌then◌else◌, all, take, arith, ◌∙◌, subst,
}
use ai_worker_platform.Control.Text.{Text, is_blank, same_text}
use ai_worker_platform.Tree.Paths.{valid, join, parts}
use ai_worker_platform.Tree.Joining.{is_segment}
use ai_worker_platform.Tree.Documents.{
  Value, null, scalar, object, get_at, set, set_keys, set_at, opened, get,
}
use ai_worker_platform.Tree.Access.{diverge, get_at-set_at, get_at-set_at-diverge, get_at-opened}
use ai_worker_platform.Store.Records.{
  Table, full_depth, anchor, read, is_falsy, set_document, merged, Row, write_record,
}
use ai_worker_platform.Store.Reading.{
  ArePath, ArePath-join, document_at, is_deep, tail_of, read_lem, take-ArePath, upsert_lem,
  drop-ArePath,
}

-- The segments of an anchor: as many as they should be, with nothing behind them.
pub anchor_segments :
    (segments : List Text)
    → is_deep segments ≡ true
    → (is_deep (take (full_depth segments) segments) ≡ true)
      × (tail_of (take (full_depth segments) segments) ≡ [])
      × (anchor (take (full_depth segments) segments) ≡ anchor segments)
unfolding full_depth anchor
anchor_segments [] h = cc
anchor_segments (a ∷ []) h = ground arith
anchor_segments (a ∷ b ∷ []) h = ground arith
anchor_segments (a ∷ b ∷ c ∷ segments) h = ground arith

-- `write` reads the document of its anchor.
read-anchor :
    (segments : List Text) (db : Table)
    → ArePath segments
    → is_deep segments ≡ true
    → read (anchor segments) db ≡ valid (document_at (anchor segments) db.rows)
read-anchor segments db p deep =
    let (a_deep, a_tail, same) = anchor_segments segments deep in
    read_lem (anchor segments) (take (full_depth segments) segments) db
      (unfold anchor in ArePath-join (take-ArePath (full_depth segments) p)) a_deep
    ∙ rw same (rw a_tail (unfold get_at in refl))

join_present :
    (key : Text) (keys : List Text)
    → all is_segment (key ∷ keys) ≡ true
    → is_blank (join (key ∷ keys)) ≡ false
unfolding join
join_present [] keys h = cc
join_present (c ∷ key) [] h = refl
join_present (c ∷ key) (next ∷ keys) h = refl

-- What a write makes of the document, at the part that the tail names.
abbrev pub changed : Value → List Text → Value → Value
changed document [] next = next
changed document (key ∷ keys) next = object (set_at (opened (some document)) key keys next)

-- A part is not set in a document that is a text, a number or a flag other than the falsy ones.
unfoldable pub takes_parts : Value → Bool
takes_parts null = true
takes_parts (scalar s) = is_falsy s
takes_parts (object fields) = true

pub get_at-changed :
    (document : Value) (tail : List Text) (next : Value)
    → get_at (changed document tail next) tail ≡ next
get_at-changed document [] next = unfold get_at in refl
get_at-changed document (key ∷ keys) next = get_at-set_at (opened (some document)) key keys next

pub get_at-changed-diverge :
    (document : Value) (tail names : List Text) (next : Value)
    → diverge tail names ≡ true
    → get_at (changed document tail next) names ≡ get_at document names
get_at-changed-diverge document [] names next h = cc
get_at-changed-diverge document (key ∷ keys) [] next h = cc
get_at-changed-diverge document (key ∷ keys) (name ∷ names) next h =
    get_at-set_at-diverge (opened (some document)) key keys next name names h
    ∙ get_at-opened (some document) name names

set_document_lem :
    (document next : Value) (key : Text) (keys : List Text)
    → ArePath (key ∷ keys)
    → takes_parts document ≡ true
    → set_document document (join (key ∷ keys)) next ≡ valid (changed document (key ∷ keys) next)
unfolding set_document takes_parts set opened set_keys
set_document_lem null next key keys p h = rw (ArePath-join p) refl
set_document_lem (scalar s) next key keys p h = rw h (rw (ArePath-join p) refl)
set_document_lem (object fields) next key keys p h = rw (ArePath-join p) refl

pub anchor_path :
    {segments : List Text}
    → ArePath segments
    → parts (anchor segments) ≡ valid (take (full_depth segments) segments)
unfolding anchor
anchor_path {segments} p = ArePath-join (take-ArePath (full_depth segments) p)

get-join :
    (document : Value) {keys : List Text}
    → ArePath keys
    → get document (join keys) ≡ valid (get_at document keys)
unfolding get
get-join document p = rw (ArePath-join p) refl

abbrev pub may_write : List Text → Value → Bool
may_write [] document = true
may_write (key ∷ keys) document = takes_parts document

-- A write that succeeds changes the row of the anchor, and no other.
pub write_rows :
    (segments : List Text) (value next : Value) (merge : Bool) (db : Table)
    → ArePath segments
    → is_deep segments ≡ true
    → (tail : List Text) → tail_of segments ≡ tail
    → may_write tail (document_at (anchor segments) db.rows) ≡ true
    → merged merge (get_at (document_at (anchor segments) db.rows) tail) value ≡ valid next
    → (rows : List Row) × (write_record segments value merge db ≡ valid rows)
      × ((other : Text)
          → document_at other rows ≡ (
              if same_text (anchor segments) other
              then changed (document_at (anchor segments) db.rows) tail next
              else document_at other db.rows))
unfolding write_record join
write_rows segments value next merge db p deep [] t h m =
    let row = upsert_lem (anchor segments) next db.rows (anchor_path p) in
    let whole : merged merge (document_at (anchor segments) db.rows) value ≡ valid next =
      unfold get_at in m in
    (row.0, rw t (rw (read-anchor segments db p deep) (rw whole (row.1))), row.2)
write_rows segments value next merge db p deep (key ∷ keys) t h m =
    let document = document_at (anchor segments) db.rows in
    let next_document = changed document (key ∷ keys) next in
    let row = upsert_lem (anchor segments) next_document db.rows (anchor_path p) in
    let q : ArePath (key ∷ keys) = subst ArePath t (drop-ArePath (full_depth segments) p) in
    let walk : get document (join (key ∷ keys)) ≡ valid (get_at document (key ∷ keys)) =
      get-join document q in
    (
      row.0,
      rw t (
          rw (read-anchor segments db p deep) (
            rw (join_present key keys q.segment)
              (rw walk (rw m (rw (set_document_lem document next key keys q h) (row.1)))))),
      row.2,
    )
