-- ===== src/Store/Transactions.antt =====
-- The optimistic transaction acts like one that runs alone.
use ai_worker_platform.Common.{
  ◌≡◌, none, some, ℕ, Option, arith, suc, zero, Option-cases, ◌<◌, inl, ◌≢◌, inr, subst, sym, ap,
  refl,
}
use ai_worker_platform.Store.Sqlite.{
  Store, commit, write, Result, committed, read, uncommitted, contention, transact,
}

module _ {ℓ} {V : Type ℓ} where
  -- What others do to the store either leaves it or shows in the revision.
  abbrev pub ShowsInRevision : (Store V → Store V) → Type ℓ
  ShowsInRevision f = (db : Store V) → (f db).revision ≡ db.revision → f db ≡ db

  -- Every write of the store shows in its revision.
  write-ShowsInRevision : (path : ℕ) (value : Option V) → ShowsInRevision (write path value)
  unfolding write
  write-ShowsInRevision path value db h = absurd (omega (arith, h))

  -- The store after the first rounds of what others do to it, while nothing else writes.
  abbrev pub elapsed : (ℕ → Store V → Store V) → ℕ → ℕ → Store V → Store V
  elapsed others attempts zero db = db
  elapsed others zero (suc rounds) db = db
  elapsed others (suc attempts) (suc rounds) db =
      elapsed others attempts rounds (others attempts db)

  -- What a transaction of so many attempts made of the store, and what it answered.
  abbrev pub TookEffect :
      (ℕ → Store V → Store V)
      → ℕ
      → (Option V → Option (Option V))
      → ℕ
      → Store V
      → Store V × Result V
      → Type ℓ
  TookEffect others path updater attempts db (final, committed next) =
      (k : ℕ) × (k < attempts)
      × (updater (read path (elapsed others attempts (suc k) db)) ≡ some next)
      × (final ≡ write path next (elapsed others attempts (suc k) db))
  TookEffect others path updater attempts db (final, uncommitted seen) =
      (k : ℕ) × (k < attempts)
      × (seen ≡ read path (elapsed others attempts k db))
      × (updater seen ≡ none)
      × (final ≡ elapsed others attempts (suc k) db)
  TookEffect others path updater attempts db (final, contention) =
      final ≡ elapsed others attempts attempts db

  one_round_later :
      (others : ℕ → Store V → Store V) (path : ℕ) (updater : Option V → Option (Option V))
      (attempts : ℕ) (db final : Store V) (result : Result V)
      → TookEffect others path updater attempts (others attempts db) (final, result)
      → TookEffect others path updater (suc attempts) db (final, result)
  one_round_later others path updater attempts db final (committed next) (k, b, saw, made) =
      (suc k, omega (arith, b), saw, made)
  one_round_later others path updater attempts db final (uncommitted seen) (k, b, saw, e, made) =
      (suc k, omega (arith, b), saw, e, made)
  one_round_later others path updater attempts db final contention made = made

  commit-some :
      (path before : ℕ) (next : Option V) (db db' : Store V)
      → commit path before next db ≡ some db'
      → (db.revision ≡ before) × (db' ≡ write path next db)
  unfolding commit
  commit-some path before next db db' h = ground arith

  commit_unchanged :
      (path : ℕ) (next : Option V) (db db' : Store V)
      → db' ≡ db
      → commit path db.revision next db' ≢ none
  unfolding commit
  commit_unchanged path next db db' e h = ground (arith, ap (λ (s : Store V). s.revision) e)

  module _ (others : ℕ → Store V → Store V) (path : ℕ) (updater : Option V → Option (Option V))
      (attempts : ℕ) (db : Store V) where
    transact-declined :
        updater (read path db) ≡ none
        → transact others path updater (suc attempts) db
          ≡ (others attempts db, uncommitted (read path db))
    unfolding transact
    transact-declined e = rw (e, transact)

    transact-retried :
        (next : Option V)
        → updater (read path db) ≡ some next
        → commit path db.revision next (others attempts db) ≡ none
        → transact others path updater (suc attempts) db
          ≡ transact others path updater attempts (others attempts db)
    unfolding transact
    transact-retried next e f = rw (e, transact) (rw (f, transact))

    transact-committed :
        (next : Option V) (final : Store V)
        → updater (read path db) ≡ some next
        → commit path db.revision next (others attempts db) ≡ some final
        → transact others path updater (suc attempts) db ≡ (final, committed next)
    unfolding transact
    transact-committed next final e f = rw (e, transact) (rw (f, transact))

  -- If whatever others do to the store shows in its revision, a transaction acts as one that runs
  -- alone at some instant. One that commits left the store exactly as others had made it by then,
  -- save that the document of its path is what the updater made of the document of that very store:
  -- no write of others is lost. One that does not commit, or gives up, left the store as others made
  -- it, and in the first case its updater declined the document that stood there.
  pub transact-TookEffect :
      (others : ℕ → Store V → Store V) (path : ℕ) (updater : Option V → Option (Option V))
      (attempts : ℕ) (db : Store V)
      → ((n : ℕ) → ShowsInRevision (others n))
      → TookEffect others path updater attempts db (transact others path updater attempts db)
  unfolding transact
  transact-TookEffect others path updater zero db w = refl
  transact-TookEffect others path updater (suc attempts) db w =
      let goal = TookEffect others path updater (suc attempts) db in
      elim (Option-cases (updater (read path db))) [
        | inl e ↦
            subst goal (sym (transact-declined others path updater attempts db e))
              (0, omega arith, refl, e, refl)
        | inr (next, e) ↦ elim (Option-cases (commit path db.revision next (others attempts db))) [
          | inl f ↦ subst goal (sym (transact-retried others path updater attempts db next e f)) (
              one_round_later others path updater attempts db
                (transact others path updater attempts (others attempts db)).0
                (transact others path updater attempts (others attempts db)).1
                (transact-TookEffect others path updater attempts (others attempts db) w))
          | inr (final, f) ↦
              (let (same, made) = commit-some path db.revision next (others attempts db) final f in
                let quiet = w attempts db same in
                subst goal (sym (transact-committed others path updater attempts db next final e f))
                  (0, omega arith, rw quiet e, made))
        ]
      ]

  -- The error DATABASE_CONTENTION is raised only if the store changed during every attempt: one
  -- attempt that finds it unchanged decides the transaction.
  pub transact-decides :
      (others : ℕ → Store V → Store V) (path : ℕ) (updater : Option V → Option (Option V))
      (attempts quiet : ℕ) (db : Store V)
      → quiet < attempts
      → ((db : Store V) → others quiet db ≡ db)
      → (transact others path updater attempts db).1 ≢ contention
  transact-decides others path updater zero quiet db h q = absurd (omega arith)
  transact-decides others path updater (suc attempts) quiet db h q =
      elim (Option-cases (updater (read path db))) [
        | inl e ↦ rw (transact-declined others path updater attempts db e) (λ c. cc)
        | inr (next, e) ↦ elim (Option-cases (commit path db.revision next (others attempts db))) [
          | inl f ↦
              (let later : quiet ≢ attempts = λ p.
                  commit_unchanged path next db (others attempts db)
                    (subst (λ n. others n db ≡ db) p (q db)) f in
                rw (transact-retried others path updater attempts db next e f) (
                  transact-decides others path updater attempts quiet (others attempts db)
                    (omega arith) q))
          | inr (final, f) ↦
              rw (transact-committed others path updater attempts db next final e f) (λ c. cc)
        ]
      ]
