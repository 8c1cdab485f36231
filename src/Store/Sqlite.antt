-- ===== src/Store/Sqlite.antt =====
-- Documents with a revision counter: `read`, `upsert`, `write`, `revision` and `transact` of
-- backend/src/db/sqliteStore.js, for paths that name one document, such as `jobs/<id>`.
use ai_worker_platform.Common.{◌+◌, none, some, Option, ℕ, List, if◌then◌else◌, suc, zero, ◌==◌}
use ai_worker_platform.Common.Maps.{lookup, delete, insert}

pub record Store {ℓ} (V : Type ℓ) : Type ℓ where
  pub revision : ℕ
  pub documents : List (ℕ × V)

module _ {ℓ} {V : Type ℓ} where
  -- read, at a path that names one document
  unfoldable pub read : ℕ → Store V → Option V
  read path db = lookup path db.documents

  -- upsert: `null` deletes the row
  unfoldable pub upsert : ℕ → Option V → List (ℕ × V) → List (ℕ × V)
  upsert path none documents = delete path documents
  upsert path (some document) documents = insert path document documents

  -- write, with no merge: one atomic operation, which also counts the revision up
  unfoldable pub write : ℕ → Option V → Store V → Store V
  unfolding upsert
  write path value db = record {
    revision = db.revision + 1;
    documents = upsert path value db.documents;
  }

-- What `transact` resolves to, or the error DATABASE_CONTENTION.
pub data Result {ℓ} (V : Type ℓ) : Type ℓ where
  committed uncommitted : Option V → Result V
  contention : Result V

module _ {ℓ} {V : Type ℓ} where
  -- The transaction of one attempt, after the updater has answered: it takes effect only if no
  -- revision came in between.
  unfoldable pub commit : ℕ → ℕ → Option V → Store V → Option (Store V)
  unfolding write
  commit path before next db = if db.revision == before then some (write path next db) else none

  -- transact. `others` is what the rest of the world does to the store while the updater is
  -- awaited, for each number of attempts left; an updater answers `none` for `undefined`.
  unfoldable pub transact :
      (ℕ → Store V → Store V)
      → ℕ
      → (Option V → Option (Option V))
      → ℕ
      → Store V
      → Store V × Result V
  unfolding read commit
  transact others path updater zero db = (db, contention)
  transact others path updater (suc attempts) db =
      let existing = read path db in
      let db' = others attempts db in
      let retry = transact others path updater attempts db' in
      elim (updater existing) [
        | none ↦ (db', uncommitted existing)
        | some next ↦ elim (commit path db.revision next db') [
          | none ↦ retry
          | some db'' ↦ (db'', committed next)
        ]
      ]

-- `{ maxRetries = 8 }`
abbrev pub max_retries : ℕ
max_retries = 8
