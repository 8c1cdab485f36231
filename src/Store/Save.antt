-- ===== src/Store/Save.antt =====
-- `save` of backend/src/models/Job.js on SQLite: the fields that the caller changed since it read
-- the job are merged into the job as it now is. A document is its fields, in order; `json` equality
-- of two fields, either of which may be missing, is a parameter.
use ai_worker_platform.Common.{
  ◌≡◌, [], ◌∷◌, none, some, ◌↔◌, List, Option, ℕ, Bool, filter, if◌then◌else◌, not, true, ◌&&◌,
}
use ai_worker_platform.Common.Maps.{insert, lookup, keys}

-- `json(a) === json(b)`
pub record JsonEquality {ℓ} (V : Type ℓ) : Type ℓ where
  pub same : Option V → Option V → Bool
  pub same_iff : (a b : Option V) → (same a b ≡ true) ↔ (a ≡ b)

module _ {ℓ} {V : Type ℓ} (j : JsonEquality V) where
  open j use {same}

  -- `Object.keys(desired).filter(key => json(desired[key]) !== json(baseline[key]))`
  unfoldable pub changed_fields : List (ℕ × V) → List (ℕ × V) → List ℕ
  changed_fields baseline desired =
      filter (λ key. not (same (lookup key desired) (lookup key baseline))) (keys desired)

  -- The test for JOB_WRITE_CONFLICT.
  abbrev pub conflicts : List (ℕ × V) → List (ℕ × V) → List (ℕ × V) → ℕ → Bool
  conflicts baseline desired current key =
      not (same (lookup key current) (lookup key baseline))
      && not (same (lookup key current) (lookup key desired))

  -- `next[key] = desired[key]`
  abbrev pub assign : ℕ → Option V → List (ℕ × V) → List (ℕ × V)
  assign key none next = next
  assign key (some value) next = insert key value next

  -- The loop over the changed fields; `none` is the thrown conflict.
  unfoldable pub merge :
      List (ℕ × V) → List (ℕ × V) → List (ℕ × V) → List ℕ → List (ℕ × V) → Option (List (ℕ × V))
  merge baseline desired current [] next = some next
  merge baseline desired current (key ∷ rest) next =
      let merged = merge baseline desired current rest (assign key (lookup key desired) next) in
      if conflicts baseline desired current key then none else merged

  -- save, inside its transaction, for a job that is there: a missing or deleted one is refused before
  -- anything is merged, which is left out
  unfoldable pub save : List (ℕ × V) → List (ℕ × V) → List (ℕ × V) → Option (List (ℕ × V))
  unfolding changed_fields merge
  save baseline desired current =
      merge baseline desired current (changed_fields baseline desired) current
