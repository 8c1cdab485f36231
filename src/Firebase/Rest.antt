-- ===== src/Firebase/Rest.antt =====
-- `transactionFirebase` of backend/src/db/firebaseRestClient.js, away from the mock. The database
-- is outside the source: what it holds at the path, its entity tag and a write are a parameter.
use ai_worker_platform.Common.{
  ℕ, zero, suc, Bool, true, false, Option, none, some, ◌==◌, ◌≡◌, if◌then◌else◌,
}

-- A database as its REST interface shows it at one path. An entity tag stands for one value.
pub record Database {ℓ} (S V : Type ℓ) : Type ℓ where
  pub value : S → V
  pub etag : S → Option ℕ
  pub put : V → S → S
  pub etag_value : (s t : S) (e : ℕ) → etag s ≡ some e → etag t ≡ some e → value s ≡ value t

-- The status of the answer to a write: 412, another error, or success.
pub data WriteAnswer {ℓ} (S : Type ℓ) : Type ℓ where
  precondition_failed write_error : WriteAnswer S
  stored : S → WriteAnswer S

-- What transactionFirebase resolves to, or the error that it throws.
pub data Result {ℓ} (V : Type ℓ) : Type ℓ where
  committed uncommitted : V → Result V
  contention read_failed write_failed : Result V

module _ {ℓ} {S V : Type ℓ} (db : Database S V) where
  open db use {value, etag, put}

  -- Whether a condition `if-match` holds; `none` stands for `*`.
  abbrev pub is_match : Option ℕ → Option ℕ → Bool
  is_match none current = true
  is_match (some e) none = false
  is_match (some e) (some f) = f == e

  -- PUT with `if-match`: etag || '*'. An answer may be an error, and then nothing is written.
  unfoldable pub put_if_match : Bool → Option ℕ → V → S → WriteAnswer S
  put_if_match fails condition next s =
      if is_match condition (etag s)
      then if fails then write_error else stored (put next s)
      else precondition_failed

  -- What an attempt does on the answer to its write; `retry` is what the further ones come to.
  unfoldable pub after_write : V → S → S × Result V → WriteAnswer S → S × Result V
  after_write next s retry precondition_failed = retry
  after_write next s retry write_error = (s, write_failed)
  after_write next s retry (stored final) = (final, committed next)

  -- An attempt that has read `seen`, with what the updater made of it.
  unfoldable pub after_read : Bool → Option ℕ → V → S → S × Result V → Option V → S × Result V
  unfolding after_write put_if_match
  after_read fails condition seen s retry none = (s, uncommitted seen)
  after_read fails condition seen s retry (some next) =
      after_write next s retry (put_if_match fails condition next s)

  -- The loop of transactionFirebase, for the number of attempts that are left. `others` is what
  -- others write between the read and the write of an attempt; a read or a write may fail.
  unfoldable pub transaction_firebase :
      (ℕ → S → S) → (ℕ → Bool) → (ℕ → Bool) → (V → Option V) → ℕ → S → S × Result V
  transaction_firebase others read_fails write_fails updater zero s = (s, contention)
  transaction_firebase others read_fails write_fails updater (suc attempts) s =
      let s' = others attempts s in
      let retry = transaction_firebase others read_fails write_fails updater attempts s' in
      let attempt =
        after_read (write_fails attempts) (etag s) (value s) s' retry (updater (value s)) in
      if read_fails attempts then (s, read_failed) else attempt

-- { maxRetries = 8 }
abbrev pub max_retries : ℕ
max_retries = 8
