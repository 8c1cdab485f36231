-- ===== src/Examples/Stores.antt =====
-- Transactions and merges of small stores, whose documents are numbers.
use Prim.Native.Nat.{ℕ}
use ai_worker_platform.Store.Sqlite.{Store, transact, max_retries, write, committed, contention}
use ai_worker_platform.Common.{
  List, Option, Bool, some, ◌∷◌, ◌≡◌, [], true, ◌+◌, ◌≢◌, none, ◌↔◌, refl, ◌==◌, arith, false,
  eqb→eq, if◌then◌else◌, eqb_refl,
}
use ai_worker_platform.Store.Transactions.{
  TookEffect, ShowsInRevision, transact-TookEffect, transact-decides,
}
use ai_worker_platform.Store.Save.{JsonEquality, save}
use ai_worker_platform.Common.Maps.{lookup}
use ai_worker_platform.Store.Merging.{save_merges}

abbrev db : Store ℕ
db = record { revision = 4; documents = (1, 10) ∷ (2, 20) ∷ [] }

-- Adds one to a document that is there.
abbrev count_up : Option ℕ → Option (Option ℕ)
count_up none = none
count_up (some n) = some (some (n + 1))

-- Another process writes the same document during the first attempt only.
abbrev meddles : ℕ → Store ℕ → Store ℕ
meddles n s = if n == 7 then write 1 (some 100) s else s

meddles-ShowsInRevision : (n : ℕ) → ShowsInRevision (meddles n)
unfolding write
meddles-ShowsInRevision n s h = ground (arith, h)

retries :
    transact meddles 1 count_up max_retries db
    ≡ (record { revision = 6; documents = (1, 101) ∷ (2, 20) ∷ [] }, committed (some 101))
unfolding transact write
retries = refl

transact-TookEffect_example :
    TookEffect meddles 1 count_up max_retries db (transact meddles 1 count_up max_retries db)
transact-TookEffect_example =
    transact-TookEffect meddles 1 count_up max_retries db meddles-ShowsInRevision

transact-decides_example : (transact meddles 1 count_up max_retries db).1 ≢ contention
transact-decides_example =
    transact-decides meddles 1 count_up max_retries 3 db (omega arith) (λ s. refl)

abbrev same_field : Option ℕ → Option ℕ → Bool
same_field none none = true
same_field (some a) (some b) = a == b
same_field _ _ = false

same_field_iff : (a b : Option ℕ) → (same_field a b ≡ true) ↔ (a ≡ b)
same_field_iff none none = (λ h. refl, λ h. refl)
same_field_iff none (some b) = (λ h. cc, λ h. cc)
same_field_iff (some a) none = (λ h. cc, λ h. cc)
same_field_iff (some a) (some b) =
    (λ h. ground (arith, eqb→eq a b, h), λ h. ground (arith, eqb_refl a, h))

abbrev fields : JsonEquality ℕ
fields = record { same = same_field; same_iff = same_field_iff }

abbrev baseline : List (ℕ × ℕ)
baseline = (1, 10) ∷ (2, 20) ∷ []

-- The caller changed field 1; somebody else changed field 2 meanwhile.
abbrev saved : List (ℕ × ℕ)
saved = (1, 11) ∷ (2, 21) ∷ []

saves : save fields baseline ((1, 11) ∷ (2, 20) ∷ []) ((1, 10) ∷ (2, 21) ∷ []) ≡ some saved
unfolding save
saves = refl

save_merges_example : lookup 2 saved ≡ some 21
save_merges_example =
    (save_merges fields baseline ((1, 11) ∷ (2, 20) ∷ []) ((1, 10) ∷ (2, 21) ∷ []) saved 2 saves).1
      refl
