-- ===== src/Tree/Patching.antt =====
-- What `patch` of backend/src/db/jsonTree.js makes of a document: the payload's properties, and
-- the others as they were.
use ai_worker_platform.Common.{
  true, none, ℕ, List, [], ◌∷◌, ◌≡◌, refl, arith, Option, some, ◌+◌, ◌∙◌,
}
use ai_worker_platform.Control.Text.{Text, same_text→eq}
use ai_worker_platform.Tree.Paths.{valid, parts, is_present, >>=-eq-valid}
use ai_worker_platform.Tree.Joining.{has_no_slash, split_segment, segments_of_eq}
use ai_worker_platform.Tree.Documents.{
  Value, Fields, end, field, child, assign, set, set_keys, set_at, validate, validate_entries,
  check_key, is_key_without_slash, patch, set_all, get_at, object, opened,
}
use ai_worker_platform.Tree.Access.{get_at-assign, get_at-opened}

-- The keys of an object differ, as JSON.parse leaves them.
abbrev pub HasDistinctKeys : Fields → Type 0
HasDistinctKeys end = Unit
HasDistinctKeys (field key value rest) = (child key rest ≡ none) × HasDistinctKeys rest

without_slash : (key : Text) → is_key_without_slash key ≡ true → has_no_slash key ≡ true
without_slash [] h = refl
without_slash (c ∷ key) h = ground (arith, without_slash key)

-- A key that passes the check, and is not empty, is a path of one segment.
check_key_lem :
    (key : Text) {segments : List Text}
    → check_key key ≡ valid segments
    → is_present key ≡ true
    → parts key ≡ valid (key ∷ [])
unfolding check_key parts
check_key_lem key h present =
    ground (arith, without_slash key, segments_of_eq key, split_segment key)

set_key :
    (key : Text) (value : Value) (result : Fields) {segments : List Text}
    → check_key key ≡ valid segments
    → is_present key ≡ true
    → set result key value ≡ valid (assign key value result)
unfolding set
set_key key value result h present =
    rw (check_key_lem key h present) (unfold set_keys set_at in refl)

-- What a validation that succeeds says of the first entry and of the rest.
validate_entries-inv :
    (key : Text) (value : Value) (rest : Fields) (depth : ℕ)
    → validate_entries (field key value rest) depth ≡ valid tt
    → ((segments : List Text) × (check_key key ≡ valid segments))
      × (validate_entries rest depth ≡ valid tt)
unfolding validate
validate_entries-inv key value rest depth h =
    let (segments, checked, later) = >>=-eq-valid (check_key key) _ h in
    let (u, inner, others) = >>=-eq-valid (validate value (depth + 1)) _ later in
    ((segments, checked), others)

present_first :
    (key : Text) (value : Value) (rest : Fields)
    → child [] (field key value rest) ≡ none
    → (is_present key ≡ true) × (child [] rest ≡ none)
unfolding child
present_first [] value rest h = cc
present_first (c ∷ key) value rest h = (refl, h)

-- What is read of one property, when the payload is laid over it.
abbrev pub laid_over : Option Value → Value → Value
laid_over none below = below
laid_over (some v) below = v

-- The loop of `patch`.
set_all_lem :
    (payload result : Fields) (depth : ℕ)
    → validate_entries payload depth ≡ valid tt
    → child [] payload ≡ none
    → HasDistinctKeys payload
    → (next : Fields) × (set_all result payload ≡ valid next)
      × ((name : Text)
          → get_at (object next) (name ∷ [])
            ≡ laid_over (child name payload) (get_at (object result) (name ∷ [])))
unfolding set_all child
set_all_lem end result depth h present distinct = (result, refl, λ name. refl)
set_all_lem (field key value rest) result depth h present distinct =
    let ((segments, checked), others) = validate_entries-inv key value rest depth h in
    let (here, there) = present_first key value rest present in
    let (next, made, read) =
      set_all_lem rest (assign key value result) depth others there (distinct.1) in
    (
      next,
      rw (set_key key value result checked here) made,
      λ name.
          read name
          ∙ ground (arith, get_at-assign key name value result, same_text→eq key name, distinct.0),
    )

-- A payload that passes the validation, with no empty key, is laid over the document: each of its
-- properties reads as the payload says, each other one as before.
pub patch_lem :
    (current : Value) (payload : Fields)
    → validate (object payload) 0 ≡ valid tt
    → child [] payload ≡ none
    → HasDistinctKeys payload
    → (next : Fields) × (patch current (object payload) ≡ valid next)
      × ((name : Text)
          → get_at (object next) (name ∷ [])
            ≡ laid_over (child name payload) (get_at current (name ∷ [])))
unfolding patch
patch_lem current payload h present distinct =
    let (next, made, read) = set_all_lem payload (opened (some current)) 0 h present distinct in
    (next, rw h made, λ name. read name ∙ rw (get_at-opened (some current) name []) refl)
