-- ===== src/Tree/Access.antt =====
-- Reading what was written in a JSON tree: the laws of backend/src/db/jsonTree.js's `get`, `set`
-- and `patch`.
use ai_worker_platform.Common.{
  Bool, true, false, none, some, List, [], ◌∷◌, if◌then◌else◌, ◌≡◌, refl, arith, Option, ◌∙◌,
}
use ai_worker_platform.Control.Text.{Text, same_text, same_text_refl, same_text→eq}
use ai_worker_platform.Tree.Documents.{
  Value, null, scalar, object, Fields, end, field, child, get_at, put, remove_key, assign, opened,
  set_at,
}

pub child-put :
    (key name : Text) (value : Value) (fields : Fields)
    → child name (put key value fields)
      ≡ (if same_text key name then some value else child name fields)
unfolding child put
child-put key name value end = refl
child-put key name value (field other old rest) = ground (
  arith,
  child-put key name value rest,
  same_text→eq other key,
  same_text→eq other name,
  same_text→eq key name,
)

child-remove_key :
    (key name : Text) (fields : Fields)
    → child name (remove_key key fields) ≡ (if same_text key name then none else child name fields)
unfolding child remove_key
child-remove_key key name end = ground arith
child-remove_key key name (field other old rest) = ground (
  arith,
  child-remove_key key name rest,
  same_text→eq other key,
  same_text→eq other name,
  same_text→eq key name,
)

-- One property after an assignment; `null` and no property read alike.
pub get_at-assign :
    (key name : Text) (value : Value) (fields : Fields)
    → get_at (object (assign key value fields)) (name ∷ [])
      ≡ (if same_text key name then value else get_at (object fields) (name ∷ []))
unfolding get_at assign
get_at-assign key name null fields = ground (arith, child-remove_key key name fields)
get_at-assign key name (scalar s) fields = ground (arith, child-put key name (scalar s) fields)
get_at-assign key name (object gs) fields = ground (arith, child-put key name (object gs) fields)

-- The written value is read at its own keys.
pub get_at-set_at :
    (fields : Fields) (key : Text) (keys : List Text) (value : Value)
    → get_at (object (set_at fields key keys value)) (key ∷ keys) ≡ value
unfolding set_at get_at
get_at-set_at fields key [] value = get_at-assign key key value fields ∙ rw (same_text_refl key)
get_at-set_at fields key (next ∷ keys) value = ground (
  arith,
  child-put key key (object (set_at (opened (child key fields)) next keys value)) fields,
  same_text_refl key,
  get_at-set_at (opened (child key fields)) next keys value,
)

-- Two paths of which neither is the start of the other.
abbrev pub diverge : List Text → List Text → Bool
diverge (key ∷ keys) (name ∷ names) =
    let rest = diverge keys names in if same_text key name then rest else true
diverge _ _ = false

-- Nothing is read under a path's end that is no object.
pub get_at-opened :
    (o : Option Value) (key : Text) (keys : List Text)
    → get_at (object (opened o)) (key ∷ keys)
      ≡ elim o [ none ↦ null | some v ↦ get_at v (key ∷ keys) ]
unfolding get_at opened child
get_at-opened none key keys = refl
get_at-opened (some null) key keys = refl
get_at-opened (some (scalar s)) key keys = refl
get_at-opened (some (object fields)) key keys = refl

child-assign_ne :
    (key name : Text) (value : Value) (fields : Fields)
    → same_text key name ≡ false
    → child name (assign key value fields) ≡ child name fields
unfolding assign
child-assign_ne key name null fields h = ground (arith, child-remove_key key name fields)
child-assign_ne key name (scalar s) fields h = ground (arith, child-put key name (scalar s) fields)
child-assign_ne key name (object gs) fields h =
    ground (arith, child-put key name (object gs) fields)

-- A write leaves each path alone that parts from its own.
pub get_at-set_at-diverge :
    (fields : Fields) (key : Text) (keys : List Text) (value : Value) (name : Text)
    (names : List Text)
    → diverge (key ∷ keys) (name ∷ names) ≡ true
    → get_at (object (set_at fields key keys value)) (name ∷ names)
      ≡ get_at (object fields) (name ∷ names)
unfolding set_at get_at
get_at-set_at-diverge fields key [] value name names h =
    ground (arith, child-assign_ne key name value fields)
get_at-set_at-diverge fields key (next ∷ keys) value name [] h =
    ground (
      arith,
      child-put key name (object (set_at (opened (child key fields)) next keys value)) fields,
    )
get_at-set_at-diverge fields key (next ∷ keys) value name (n ∷ ns) h = ground (
  arith,
  child-put key name (object (set_at (opened (child key fields)) next keys value)) fields,
  same_text→eq key name,
  get_at-opened (child key fields) n ns,
  get_at-set_at-diverge (opened (child key fields)) next keys value n ns,
)
