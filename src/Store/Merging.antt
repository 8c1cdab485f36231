-- ===== src/Store/Merging.antt =====
-- The merge of `save` in backend/src/models/Job.js loses no update.
use ai_worker_platform.Common.{
  ◌≡◌, refl, [], ◌∷◌, some, ℕ, Bool, List, filter, true, if◌then◌else◌, is_some, ◌&&◌, arith, ◌==◌,
  eqb→eq, false, All, Option-cases, eqb_refl, inl, inr, not, ◌∙◌, ap,
}
use ai_worker_platform.Store.Save.{JsonEquality, merge, assign, conflicts, save, changed_fields}
use ai_worker_platform.Common.Sets.{has}
use ai_worker_platform.Common.Maps.{lookup, keys, lookup-insert}

module _ {ℓ} {V : Type ℓ} (j : JsonEquality V) where
  open j use {same, same_iff}

  has-keys : (k : ℕ) (m : List (ℕ × V)) → has k (keys m) ≡ is_some (lookup k m)
  has-keys k [] = refl
  has-keys k ((i, v) ∷ m) = ground (arith, has-keys k m)

  has-filter : (p : ℕ → Bool) (k : ℕ) (xs : List ℕ) → has k (filter p xs) ≡ has k xs && p k
  has-filter p k [] = refl
  has-filter p k (x ∷ xs) = ground (arith, has-filter p k xs, eqb→eq x k)

  -- The fields of the list stand in the document.
  abbrev StandIn : List (ℕ × V) → List ℕ → Type 0
  StandIn desired = All (λ key. is_some (lookup key desired) ≡ true)

  lookup-assign :
      (desired : List (ℕ × V)) (key k : ℕ) (next : List (ℕ × V))
      → is_some (lookup key desired) ≡ true
      → lookup k (assign j key (lookup key desired) next)
        ≡ (if key == k then lookup k desired else lookup k next)
  lookup-assign desired key k next s = elim (Option-cases (lookup key desired)) [
    | inl e ↦ ground (arith, e)
    | inr (value, e) ↦ rw (e, lookup-insert) (ground (arith, eqb→eq key k))
  ]

  -- What the loop makes of one field.
  merge-lookup :
      (baseline desired current next final : List (ℕ × V)) (changed : List ℕ) (k : ℕ)
      → StandIn desired changed
      → merge j baseline desired current changed next ≡ some final
      → (lookup k final ≡ (if has k changed then lookup k desired else lookup k next))
        × (has k changed ≡ true → conflicts j baseline desired current k ≡ false)
  unfolding merge
  merge-lookup baseline desired current next final [] k d h = ground arith
  merge-lookup baseline desired current next final (key ∷ rest) k d h =
      let next' = assign j key (lookup key desired) next in
      let clear : conflicts j baseline desired current key ≡ false = ground arith in
      let done : merge j baseline desired current rest next' ≡ some final = ground (arith, clear) in
      let (found, clear') = merge-lookup baseline desired current next' final rest k d.1 done in
      let assigned = lookup-assign desired key k next d.0 in ground (arith, eqb→eq key k)

  StandIn-filter :
      (p : ℕ → Bool) (desired : List (ℕ × V)) (xs : List ℕ)
      → StandIn desired xs
      → StandIn desired (filter p xs)
  StandIn-filter p desired [] d = tt
  StandIn-filter p desired (x ∷ xs) d = ground (arith, StandIn-filter p desired xs d.1)

  StandIn-cons :
      (i : ℕ) (v : V) (desired : List (ℕ × V)) (xs : List ℕ)
      → StandIn desired xs
      → StandIn ((i, v) ∷ desired) xs
  StandIn-cons i v desired [] d = tt
  StandIn-cons i v desired (x ∷ xs) d = (ground arith, StandIn-cons i v desired xs d.1)

  StandIn-keys : (desired : List (ℕ × V)) → StandIn desired (keys desired)
  StandIn-keys [] = tt
  StandIn-keys ((i, v) ∷ desired) =
      (ground (arith, eqb_refl i), StandIn-cons i v desired (keys desired) (StandIn-keys desired))

  has-changed_fields :
      (baseline desired : List (ℕ × V)) (k : ℕ)
      → has k (changed_fields j baseline desired)
        ≡ is_some (lookup k desired) && not (same (lookup k desired) (lookup k baseline))
  unfolding changed_fields
  has-changed_fields baseline desired k =
      has-filter (λ key. not (same (lookup key desired) (lookup key baseline))) k (keys desired)
      ∙ ap (λ b. b && not (same (lookup k desired) (lookup k baseline))) (has-keys k desired)

  -- A save that goes through has for each field what the caller's copy holds there, if it holds
  -- something other than the copy as the caller read it, and otherwise what the store now holds. A
  -- field that somebody else changed since the caller read the job is never overwritten: the saved
  -- job has the store's value of it.
  pub save_merges :
      (baseline desired current final : List (ℕ × V)) (k : ℕ)
      → save j baseline desired current ≡ some final
      → (lookup k final ≡ (
          if is_some (lookup k desired) && not (same (lookup k desired) (lookup k baseline))
          then lookup k desired
          else lookup k current))
        × (same (lookup k current) (lookup k baseline) ≡ false → lookup k final ≡ lookup k current)
  unfolding save
  save_merges baseline desired current final k h =
      let differs = λ (key : ℕ). not (same (lookup key desired) (lookup key baseline)) in
      let (found, clear) =
        merge-lookup baseline desired current current final (changed_fields j baseline desired) k
          (StandIn-filter differs desired (keys desired) (StandIn-keys desired)) h in
      let changed = has-changed_fields baseline desired k in
      (
        found ∙ ap (λ b. if b then lookup k desired else lookup k current) changed,
        λ moved. ground (arith, (same_iff (lookup k current) (lookup k desired)).0),
      )
