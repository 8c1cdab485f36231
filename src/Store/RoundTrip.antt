-- ===== src/Store/RoundTrip.antt =====
-- What `read` of backend/src/db/sqliteStore.js answers after a `write`, at the written path and
-- at the paths that part from it.
use ai_worker_platform.Common.{
  Bool, true, List, [], ◌∷◌, ◌++◌, ◌+◌, ◌≡◌, refl, take, sym, ap, ◌∙◌, false, take-append-drop,
  if◌then◌else◌, Bool-cases, none, inl, inr,
}
use ai_worker_platform.Control.Text.{Text, same_text_refl, same_text, same_text→eq}
use ai_worker_platform.Tree.Paths.{valid, parts, segments_of, join}
use ai_worker_platform.Tree.Joining.{segments_of-join}
use ai_worker_platform.Tree.Documents.{Value, get_at, validate, Fields, object, child}
use ai_worker_platform.Tree.Access.{diverge}
use ai_worker_platform.Store.Records.{Table, full_depth, anchor, read, merged, write, Row, not_root}
use ai_worker_platform.Store.Reading.{
  ArePath, document_at, is_deep, tail_of, parts-ArePath, take-ArePath, read_lem,
}
use ai_worker_platform.Store.Writing.{
  may_write, write_rows, changed, get_at-changed, get_at-changed-diverge,
}
use ai_worker_platform.Tree.Patching.{HasDistinctKeys, laid_over, patch_lem}

diverge-append : (xs ys zs : List Text) → diverge (xs ++ ys) (xs ++ zs) ≡ diverge ys zs
diverge-append [] ys zs = refl
diverge-append (x ∷ xs) ys zs = rw (same_text_refl x) (diverge-append xs ys zs)

-- A join tells its segments.
join_injective : {xs ys : List Text} → ArePath xs → ArePath ys → join xs ≡ join ys → xs ≡ ys
join_injective {xs} {ys} p q e =
    sym (segments_of-join xs p.segment) ∙ ap segments_of e ∙ segments_of-join ys q.segment

-- Two paths with one anchor that part do so behind it.
diverge_behind :
    (segments names : List Text)
    → take (full_depth segments) segments ≡ take (full_depth names) names
    → diverge segments names ≡ diverge (tail_of segments) (tail_of names)
diverge_behind segments names e =
    let front = take (full_depth segments) segments in
    let behind = tail_of segments in
    sym (ap (λ xs. diverge xs names) (take-append-drop (full_depth segments) segments))
    ∙ sym (ap (λ ys. diverge (front ++ behind) ys) (take-append-drop (full_depth names) names))
    ∙ ap (λ zs. diverge (front ++ behind) (zs ++ tail_of names)) (sym e)
    ∙ diverge-append front behind (tail_of names)

not_root_lem : (segments : List Text) → is_deep segments ≡ true → not_root segments ≡ valid segments
unfolding full_depth
not_root_lem [] h = cc
not_root_lem (a ∷ segments) h = refl

anchor-diverge :
    {segments names : List Text}
    → ArePath segments
    → ArePath names
    → diverge segments names ≡ true
    → anchor segments ≡ anchor names
    → diverge (tail_of segments) (tail_of names) ≡ true
unfolding anchor
anchor-diverge {segments} {names} p q h e =
    let same =
      join_injective (take-ArePath (full_depth segments) p) (take-ArePath (full_depth names) q) e in
    sym (diverge_behind segments names same) ∙ h

elsewhere :
    (segments names : List Text) (next : Value) (rows : List Row) (db : Table)
    → ArePath segments
    → ArePath names
    → diverge segments names ≡ true
    → document_at (anchor names) rows ≡ (
        if same_text (anchor segments) (anchor names)
        then changed (document_at (anchor segments) db.rows) (tail_of segments) next
        else document_at (anchor names) db.rows)
    → get_at (document_at (anchor names) rows) (tail_of names)
      ≡ get_at (document_at (anchor names) db.rows) (tail_of names)
elsewhere segments names next rows db p q apart at =
    elim (Bool-cases (same_text (anchor segments) (anchor names))) [
      | inl same ↦
          let e = same_text→eq (anchor segments) (anchor names) same in
          let document = document_at (anchor segments) db.rows in
          let one : document_at (anchor names) rows ≡ changed document (tail_of segments) next =
            at ∙ rw same refl in
          ap (λ d. get_at d (tail_of names)) one
          ∙ get_at-changed-diverge document (tail_of segments) (tail_of names) next
              (anchor-diverge p q apart e)
          ∙ ap (λ a. get_at (document_at a db.rows) (tail_of names)) e
      | inr distinct ↦ ap (λ d. get_at d (tail_of names)) (at ∙ rw distinct refl)
    ]

-- The premises of a write at a path that names a document or a part of one.
pub record IsWrite (path : Text) (segments : List Text) (value : Value) (db : Table) : Type 0 where
  pub value_valid : validate value 0 ≡ valid tt
  pub path_valid : parts path ≡ valid segments
  pub deep : is_deep segments ≡ true
  pub may : may_write (tail_of segments) (document_at (anchor segments) db.rows) ≡ true

write_lem :
    {path : Text} {segments : List Text} {value next : Value} {db : Table}
    → IsWrite path segments value db
    → (merge : Bool)
    → merged merge (get_at (document_at (anchor segments) db.rows) (tail_of segments)) value
      ≡ valid next
    → (after : Table) × (write path value merge db ≡ valid after)
      × (after.revision ≡ db.revision + 1)
      × (read path after ≡ valid next)
      × ((other : Text) (names : List Text)
          → parts other ≡ valid names
          → is_deep names ≡ true
          → diverge segments names ≡ true
          → read other after ≡ read other db)
unfolding write
write_lem {path} {segments} {value} {next} {db} w merge m =
    let p = parts-ArePath path w.path_valid in
    let document = document_at (anchor segments) db.rows in
    let (rows, made, at) =
      write_rows segments value next merge db p w.deep (tail_of segments) refl w.may m in
    let after : Table = record { revision = db.revision + 1; rows = rows } in
    let here : document_at (anchor segments) rows ≡ changed document (tail_of segments) next =
      at (anchor segments) ∙ rw (same_text_refl (anchor segments)) refl in
    (
      after,
      rw w.value_valid (rw w.path_valid (rw (not_root_lem segments w.deep) (rw made refl))),
      refl,
      read_lem path segments after w.path_valid w.deep
          ∙ ap valid (rw here (get_at-changed document (tail_of segments) next)),
      λ other names h deep apart.
          read_lem other names after h deep
          ∙ ap valid (
              elsewhere segments names next rows db p (parts-ArePath other h) apart
                (at (anchor names)))
          ∙ sym (read_lem other names db h deep),
    )

-- A plain write of a valid value, at a path to a document or to a part of one whose document is no
-- text, number or flag that holds something, succeeds, counts the revision up, and is read back at
-- its path; each path to a document, or to a part of one, that parts from the written one reads as
-- before.
pub read-write :
    {path : Text} {segments : List Text} {value : Value} {db : Table}
    → IsWrite path segments value db
    → (after : Table) × (write path value false db ≡ valid after)
      × (after.revision ≡ db.revision + 1)
      × (read path after ≡ valid value)
      × ((other : Text) (names : List Text)
          → parts other ≡ valid names
          → is_deep names ≡ true
          → diverge segments names ≡ true
          → read other after ≡ read other db)
read-write w = write_lem w false (unfold merged in refl)

-- Under the same conditions a merging write of an object whose keys differ and are not empty
-- succeeds: what the path holds afterwards is an object whose properties are the payload's, and
-- those that the path held before where the payload has none; the paths that part from it read as
-- before.
pub read-write_merge :
    {path : Text} {segments : List Text} {payload : Fields} {db : Table}
    → IsWrite path segments (object payload) db
    → child [] payload ≡ none
    → HasDistinctKeys payload
    → (after : Table) × (next : Fields) × (write path (object payload) true db ≡ valid after)
      × (read path after ≡ valid (object next))
      × ((name : Text)
          → get_at (object next) (name ∷ [])
            ≡ laid_over (child name payload) (
                get_at
                  (get_at (document_at (anchor segments) db.rows) (tail_of segments))
                  (name ∷ [])))
      × ((other : Text) (names : List Text)
          → parts other ≡ valid names
          → is_deep names ≡ true
          → diverge segments names ≡ true
          → read other after ≡ read other db)
read-write_merge {path} {segments} {payload} {db} w present distinct =
    let current = get_at (document_at (anchor segments) db.rows) (tail_of segments) in
    let (next, made, laid) = patch_lem current payload w.value_valid present distinct in
    let (after, written, counted, here, there) =
      write_lem {next = object next} w true (unfold merged in rw made refl) in
    (after, next, written, here, laid, there)
