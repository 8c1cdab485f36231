-- ===== src/Control/Keys.antt =====
-- normalizeBrowserTabSessionId, normalizeIdempotencyKey, normalizeWorkerId and
-- buildIdempotencyReservationKey of backend/src/services/jobControlService.js.
use ai_worker_platform.Common.{
  ◌≡◌, [], ◌∷◌, none, some, if◌then◌else◌, ℕ, Option, all, ◌++◌, false, true, ◌&&◌, leb, ◌≤◌, ◌⊎◌,
  length, arith, ◌<◌, Bool, not, ◌==◌, Option-cases, ◌∙◌, inl, sym, inr,
}
use ai_worker_platform.Control.Text.{Text, trim, is_blank, is_key_char, trim-all}

-- The two normalizers differ in the greatest length, 120 and 160, and in the text of their error.
-- `none` is VALIDATION_ERROR; a missing value is the empty text.
unfoldable pub normalize_key : ℕ → Text → Option Text
normalize_key longest value =
    let normalized = trim value in
    if is_blank normalized
    then none
    else if all is_key_char normalized
        && leb 8 (length normalized)
        && leb (length normalized) longest
    then some normalized
    else none

-- normalizeBrowserTabSessionId
unfoldable pub normalize_browser_tab_session_id : Text → Option Text
unfolding normalize_key
normalize_browser_tab_session_id value = normalize_key 120 value

-- normalizeIdempotencyKey
unfoldable pub normalize_idempotency_key : Text → Option Text
unfolding normalize_key
normalize_idempotency_key value = normalize_key 160 value

-- WORKER_IDS.MW_PR, "mw-pr"
abbrev pub mw_pr : Text
mw_pr = b'm' ∷ b'w' ∷ b'-' ∷ b'p' ∷ b'r' ∷ []

-- `a || b` on texts
abbrev pub text_or : Text → Text → Text
text_or [] other = other
text_or (c ∷ s) other = c ∷ s

-- normalizeWorkerId
unfoldable pub normalize_worker_id : Text → Text
normalize_worker_id worker_id = text_or (trim (text_or worker_id mw_pr)) mw_pr

abbrev pub separator : Text
separator = b':' ∷ b':' ∷ []

-- buildIdempotencyReservationKey
unfoldable pub build_idempotency_reservation_key : Text → Text → Option Text
unfolding normalize_worker_id normalize_idempotency_key
build_idempotency_reservation_key worker_id idempotency_key =
    elim (normalize_idempotency_key idempotency_key) [
      | none ↦ none
      | some key ↦ some (normalize_worker_id worker_id ++ (separator ++ key))
    ]

-- A key that is accepted has 8 to `longest` characters, all of them letters, digits, `:`, `_` or
-- `-`; it is the value without the spaces around it, and it is accepted again as it is.
pub normalize_key_sound :
    (longest : ℕ) (value key : Text)
    → normalize_key longest value ≡ some key
    → (all is_key_char key ≡ true)
      × (8 ≤ length key)
      × (length key ≤ longest)
      × (key ≡ trim value)
      × (normalize_key longest key ≡ some key)
unfolding normalize_key
normalize_key_sound longest value key h =
    let chars : all is_key_char key ≡ true = ground arith in
    let same = trim-all key chars in
    (chars, ground arith, ground arith, ground arith, ground (arith, same))

-- Which values are refused: those whose trimmed text is too short, too long or has another
-- character.
pub normalize_key_refuses :
    (longest : ℕ) (value : Text)
    → normalize_key longest value ≡ none
    → (all is_key_char (trim value) ≡ false)
      ⊎ (length (trim value) < 8)
      ⊎ (longest < length (trim value))
unfolding normalize_key
normalize_key_refuses longest value h = ground arith

abbrev pub has_no_colon : Text → Bool
has_no_colon = all (λ c. not (c == b':'))

colon_splits :
    (w w' s s' : Text)
    → has_no_colon w ≡ true
    → has_no_colon w' ≡ true
    → w ++ b':' ∷ s ≡ w' ++ b':' ∷ s'
    → (w ≡ w') × (s ≡ s')
colon_splits [] [] s s' h h' e = ground arith
colon_splits [] (c ∷ w') s s' h h' e = absurd (ground arith)
colon_splits (c ∷ w) [] s s' h h' e = absurd (ground arith)
colon_splits (c ∷ w) (d ∷ w') s s' h h' e = ground (arith, colon_splits w w' s s')

reservation_parts :
    (worker_id value reservation : Text)
    → build_idempotency_reservation_key worker_id value ≡ some reservation
    → (key : Text) × (normalize_idempotency_key value ≡ some key)
      × (normalize_worker_id worker_id ++ b':' ∷ b':' ∷ key ≡ reservation)
unfolding build_idempotency_reservation_key
reservation_parts worker_id value reservation e =
    elim (Option-cases (normalize_idempotency_key value)) [
      | inl p ↦ absurd (ground (arith, p))
      | inr (key, p) ↦ (key, p, ground (arith, p))
    ]

-- Two creation requests share a reservation only if they are for the same worker and carry the same
-- key, where the worker identifiers have no colon, as those of all registered workers.
pub reservation_key_injective :
    (worker_id worker_id' value value' reservation : Text)
    → has_no_colon (normalize_worker_id worker_id) ≡ true
    → has_no_colon (normalize_worker_id worker_id') ≡ true
    → build_idempotency_reservation_key worker_id value ≡ some reservation
    → build_idempotency_reservation_key worker_id' value' ≡ some reservation
    → (normalize_worker_id worker_id ≡ normalize_worker_id worker_id')
      × (normalize_idempotency_key value ≡ normalize_idempotency_key value')
reservation_key_injective worker_id worker_id' value value' reservation h h' e e' =
    let (key, p, q) = reservation_parts worker_id value reservation e in
    let (key', p', q') = reservation_parts worker_id' value' reservation e' in
    let (same, tail) =
      colon_splits (normalize_worker_id worker_id) (normalize_worker_id worker_id') (b':' ∷ key)
        (b':' ∷ key') h h' (q ∙ sym q') in
    (same, p ∙ ground (arith, tail) ∙ sym p')
