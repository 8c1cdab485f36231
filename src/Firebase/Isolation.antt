-- ===== src/Firebase/Isolation.antt =====
-- What a transaction of backend/src/db/firebaseRestClient.js makes of the database.
use ai_worker_platform.Common.{
  ℕ, zero, suc, Bool, false, Option, none, some, ◌≡◌, ◌≢◌, Bool-cases, Option-cases, inl, refl, ap,
  arith, inr, ◌∙◌,
}
use ai_worker_platform.Firebase.Rest.{
  Database, stored, Result, committed, uncommitted, put_if_match, transaction_firebase, after_read,
  after_write, WriteAnswer, precondition_failed, write_error,
}

module _ {ℓ} {S V : Type ℓ} (db : Database S V) where
  open db use {value, etag, put, etag_value}

  -- A committed value comes from the value that was there when it was written, and is the one write
  -- of the transaction; an uncommitted one was declined by the updater.
  abbrev pub TookEffect : (V → Option V) → S × Result V → Type ℓ
  TookEffect updater (final, committed next) =
      (s : S) × (updater (value s) ≡ some next) × (final ≡ put next s)
  TookEffect updater (final, uncommitted seen) = updater seen ≡ none
  TookEffect updater (final, _) = Unit

  stored_lem :
      (fails : Bool) (e : ℕ) (next : V) (s t : S)
      → put_if_match db fails (some e) next s ≡ stored t
      → (etag s ≡ some e) × (t ≡ put next s)
  unfolding put_if_match
  stored_lem fails e next s t h = elim (Option-cases (etag s)) [
    | inl e' ↦ ground (arith, e')
    | inr (f, e') ↦ ground (arith, e')
  ]

  write_lem :
      (updater : V → Option V) (fails : Bool) (e : ℕ) (s s' : S) (next : V) (retry : S × Result V)
      → etag s ≡ some e
      → updater (value s) ≡ some next
      → TookEffect updater retry
      → (answer : WriteAnswer S) → put_if_match db fails (some e) next s' ≡ answer
      → TookEffect updater (after_write db next s' retry answer)
  unfolding after_write
  write_lem updater fails e s s' next retry tag made later precondition_failed h = later
  write_lem updater fails e s s' next retry tag made later write_error h = tt
  write_lem updater fails e s s' next retry tag made later (stored final) h =
      let (same, written) = stored_lem fails e next s' final h in
      (s', ap updater (etag_value s' s e same tag) ∙ made, written)

  read_lem :
      (updater : V → Option V) (fails : Bool) (condition : Option ℕ) (s s' : S)
      (retry : S × Result V)
      → etag s ≡ condition
      → condition ≢ none
      → (answer : Option V) → updater (value s) ≡ answer
      → TookEffect updater retry
      → TookEffect updater (after_read db fails condition (value s) s' retry answer)
  unfolding after_read
  read_lem updater fails condition s s' retry tag tagged none made later = made
  read_lem updater fails none s s' retry tag tagged (some next) made later = absurd (tagged refl)
  read_lem updater fails (some e) s s' retry tag tagged (some next) made later =
      write_lem updater fails e s s' next retry tag made later
        (put_if_match db fails (some e) next s') refl

  -- Where the database sends an entity tag with each read, a transaction acts like one that runs
  -- alone: whatever others write meanwhile, what is committed was made from the value that the
  -- write replaced.
  pub transaction_firebase-TookEffect :
      (others : ℕ → S → S) (read_fails write_fails : ℕ → Bool) (updater : V → Option V)
      → ((s : S) → etag s ≢ none)
      → (attempts : ℕ) (s : S)
      → TookEffect updater
          (transaction_firebase db others read_fails write_fails updater attempts s)
  unfolding transaction_firebase
  transaction_firebase-TookEffect others read_fails write_fails updater tagged zero s = tt
  transaction_firebase-TookEffect others read_fails write_fails updater tagged (suc attempts) s =
      elim (Bool-cases (read_fails attempts)) [
        | inl fails ↦ rw fails tt
        | inr reads ↦ rw reads (
            read_lem updater (write_fails attempts) (etag s) s (others attempts s) _ refl (tagged s)
              (updater (value s)) refl
              (transaction_firebase-TookEffect others read_fails write_fails updater tagged attempts
                (others attempts s)))
      ]

  -- Without an entity tag the write is unconditional: what others wrote since the read is
  -- overwritten by a value that was made from the older one.
  pub transaction_firebase_untagged :
      (others : ℕ → S → S) (read_fails write_fails : ℕ → Bool) (updater : V → Option V) (next : V)
      (attempts : ℕ) (s : S)
      → etag s ≡ none
      → read_fails attempts ≡ false
      → write_fails attempts ≡ false
      → updater (value s) ≡ some next
      → transaction_firebase db others read_fails write_fails updater (suc attempts) s
        ≡ (put next (others attempts s), committed next)
  unfolding transaction_firebase after_read
  transaction_firebase_untagged others read_fails write_fails updater next attempts s e r w u =
      rw r (rw u (rw e (rw w refl)))
