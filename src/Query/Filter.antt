-- ===== src/Query/Filter.antt =====
-- `matchFilter` of backend/src/models/compatibility.js. An item is a function from its fields to
-- their values; how JavaScript reads a value as a date and orders two values are parameters.
use Prim.Native.Nat.{ℕ}
use ai_worker_platform.Common.{
  Bool, Option, none, List, false, if◌then◌else◌, not, some, true, ◌≡◌, ltb, ◌&&◌, ◌==◌, any, ◌||◌,
}

-- The values of fields, and those that a filter compares with.
pub data Value : Type 0 where
  undefined null : Value
  number text : ℕ → Value
  boolean : Bool → Value
  date : ℕ → Value

-- `new Date(v).getTime()`, with `none` for NaN, and `a < b` on values that are not both dates.
pub record Dates : Type 0 where
  pub time : Value → Option ℕ
  pub less : Value → Value → Bool
  pub time_undefined : time undefined ≡ none
  pub time_null : time null ≡ some 0
  pub time_date : (t : ℕ) → time (date t) ≡ some t
  pub less_undefined : (v : Value) → less v undefined ≡ false

-- `a === b`; two dates are two objects
abbrev pub same : Value → Value → Bool
same undefined undefined = true
same null null = true
same (number a) (number b) = a == b
same (text a) (text b) = a == b
same (boolean true) (boolean b) = b
same (boolean false) (boolean b) = not b
same _ _ = false

-- An object of operators; `none` for an operator that is not there.
pub record Operators : Type 0 where
  pub gte : Option Value
  pub lte : Option Value
  pub ne : Option Value
  pub exists : Option Bool
  pub among : Option (List Value)

abbrev pub no_operators : Operators
no_operators = record { gte = none; lte = none; ne = none; exists = none; among = none }

-- What a filter says of one field.
pub data Condition : Type 0 where
  operators : Operators → Condition
  regexp : (Value → Bool) → Condition
  plain : Value → Condition

-- A filter, with its entries in order.
mutual
  pub data Filter (K : Type 0) : Type 0 where
    end : Filter K
    any_of all_of : Filters K → Filter K → Filter K
    field : K → Condition → Filter K → Filter K

  pub data Filters (K : Type 0) : Type 0 where
    nil : Filters K
    cons : Filter K → Filters K → Filters K

-- `value && typeof value === 'object'`
abbrev pub is_object : Condition → Bool
is_object (operators o) = true
is_object (regexp test) = true
is_object (plain (date t)) = true
is_object (plain v) = false

-- The operators that `in` finds on such an object: a RegExp and a Date have none.
abbrev pub operators_of : Condition → Operators
operators_of (operators o) = o
operators_of _ = no_operators

-- `value instanceof RegExp` and its test; then `===`
abbrev pub matches_value : Condition → Value → Bool
matches_value (regexp test) v = test v
matches_value (plain w) v = same v w
matches_value (operators o) v = false

abbrev pub is_there : Value → Bool
is_there undefined = false
is_there null = false
is_there _ = true

module _ (d : Dates) where
  open d use {time, less}

  -- `$gte` and `$lte`: by instant if both values are dates, by `<` otherwise
  unfoldable pub is_before : Value → Value → Bool
  is_before a b = elim (time a) [
    | none ↦ less a b
    | some s ↦ elim (time b) [ none ↦ less a b | some t ↦ ltb s t ]
  ]

  unfoldable pub matches_operators : Operators → Value → Bool
  unfolding is_before
  matches_operators o v =
      elim o.gte [ none ↦ true | some w ↦ not (is_before v w) ]
      && elim o.lte [ none ↦ true | some w ↦ not (is_before w v) ]
      && elim o.ne [ none ↦ true | some w ↦ not (same v w) ]
      && elim o.exists [ none ↦ true | some e ↦ same (boolean e) (boolean (is_there v)) ]
      && elim o.among [ none ↦ true | some ws ↦ any (λ w. same w v) ws ]

  unfoldable pub matches_field : Condition → Value → Bool
  unfolding matches_operators
  matches_field c v =
      if is_object c then matches_operators (operators_of c) v else matches_value c v

  -- The loop of matchFilter over the entries, with that over the alternatives.
  unfoldable mutual
    unfolding matches_field

    pub matches_entries : {K : Type 0} → (K → Value) → Filter K → Bool
    matches_entries item end = true
    matches_entries item (any_of fs rest) = matches_some item fs && matches_entries item rest
    matches_entries item (all_of fs rest) = matches_every item fs && matches_entries item rest
    matches_entries item (field k c rest) = matches_field c (item k) && matches_entries item rest

    pub matches_some : {K : Type 0} → (K → Value) → Filters K → Bool
    matches_some item nil = false
    matches_some item (cons f fs) = matches_entries item f || matches_some item fs

    pub matches_every : {K : Type 0} → (K → Value) → Filters K → Bool
    matches_every item nil = true
    matches_every item (cons f fs) = matches_entries item f && matches_every item fs

  -- matchFilter
  unfoldable pub match_filter : {K : Type 0} → (K → Value) → Bool → Filter K → Bool
  unfolding matches_entries
  match_filter item logical_deleted filter = not logical_deleted && matches_entries item filter
