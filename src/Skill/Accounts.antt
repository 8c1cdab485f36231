-- ===== src/Skill/Accounts.antt =====
-- What a reconciliation that passes is worth.
use ai_worker_platform.Common.{
  ◌≡◌, ◌+◌, [], ◌∷◌, none, some, ℕ, List, All, arith, false, length, true, Option-cases, inl, inr,
}
use ai_worker_platform.Skill.Reconciliation.{
  Counts, Disposition, check_counts, check_dispositions, check_sites, validate_reconciliation,
  Dispositions, Reconciliation, ResultStatus, accounted, array, counts_of, is_success, undefined,
  is_clean, not_array,
}
use ai_worker_platform.Control.Text.{is_blank, trim}

abbrev pub IsNamed : Disposition → Type 0
IsNamed item = (is_blank (trim item.site_code) ≡ false) × (is_blank (trim item.disposition) ≡ false)

check_sites-IsNamed :
    (index : ℕ) (items : List Disposition) → check_sites index items ≡ none → All IsNamed items
unfolding check_sites
check_sites-IsNamed index [] h = tt
check_sites-IsNamed index (item ∷ rest) h = ground (arith, check_sites-IsNamed (index + 1) rest)

abbrev pub NamesAllSites : Counts → Dispositions → Type 0
NamesAllSites c undefined = Unit
NamesAllSites c not_array = ⊥
NamesAllSites c (array items) = (length items ≡ c.requested) × All IsNamed items

check_dispositions-NamesAllSites :
    (c : Counts) (d : Dispositions) → check_dispositions c d ≡ none → NamesAllSites c d
unfolding check_dispositions
check_dispositions-NamesAllSites c undefined h = tt
check_dispositions-NamesAllSites c not_array h = cc
check_dispositions-NamesAllSites c (array items) h = ground (arith, check_sites-IsNamed 0 items)

check_counts_sound :
    (status : ResultStatus) (c : Counts)
    → check_counts status c ≡ none
    → (c.requested ≡ accounted c)
      × (is_success status ≡ true → c.unaccounted ≡ 0)
      × (is_clean status ≡ true → c.generated ≡ c.requested)
unfolding check_counts
check_counts_sound status c h = ground arith

-- If a reconciliation passes, all its counts are there and add up to the requested sites. A
-- successful result has accounted for every site, a clean one has generated every site, and site
-- dispositions, if there are any, name as many sites as were requested.
pub validate_reconciliation_sound :
    (r : Reconciliation) (status : ResultStatus)
    → validate_reconciliation (some r) status ≡ none
    → (c : Counts) × (counts_of r ≡ some c)
      × (c.requested ≡ accounted c)
      × (is_success status ≡ true → c.unaccounted ≡ 0)
      × (is_clean status ≡ true → c.generated ≡ c.requested)
      × NamesAllSites c r.site_dispositions
unfolding validate_reconciliation
validate_reconciliation_sound r status h = elim (Option-cases (counts_of r)) [
  | inl e ↦ absurd (ground (arith, e))
  | inr (c, e) ↦
      (let counted : check_counts status c ≡ none = ground (arith, e) in
        let named : check_dispositions c r.site_dispositions ≡ none = ground (arith, e) in
        let (sum, success, clean) = check_counts_sound status c counted in
        (c, e, sum, success, clean, check_dispositions-NamesAllSites c r.site_dispositions named))
]
