-- ===== src/Examples/Trees.antt =====
-- Writes and reads of the document store at paths inside a document, and a transaction of the
-- Firebase client.
use ai_worker_platform.Common.{
  true, false, List, [], ◌∷◌, ◌+◌, ◌≡◌, refl, ◌++◌, some, ℕ, arith, if◌then◌else◌, leb,
}
use ai_worker_platform.Control.Text.{Text}
use ai_worker_platform.Tree.Paths.{valid, parts, join}
use ai_worker_platform.Tree.Documents.{
  scalar, object, Fields, end, field, number, validate, get_at, child,
}
use ai_worker_platform.Tree.Access.{diverge}
use ai_worker_platform.Tree.Patching.{laid_over}
use ai_worker_platform.Store.Records.{
  Table, write, read, anchor, is_nested, write_record, merged, set_document, upsert,
}
use ai_worker_platform.Store.Reading.{is_deep, document_at, tail_of}
use ai_worker_platform.Firebase.Rest.{Database, transaction_firebase, max_retries}
use ai_worker_platform.Firebase.Isolation.{TookEffect, transaction_firebase-TookEffect}
use ai_worker_platform.Store.RoundTrip.{IsWrite, read-write, read-write_merge}
use ai_worker_platform.Store.Writing.{takes_parts}

abbrev jobs : Text
jobs = b'j' ∷ b'o' ∷ b'b' ∷ b's' ∷ []

abbrev job_seven : Text
job_seven = b'7' ∷ []

abbrev progress : Text
progress = b'p' ∷ []

abbrev status : Text
status = b's' ∷ []

abbrev segments : List Text
segments = jobs ∷ job_seven ∷ progress ∷ []

-- /jobs/7/p
abbrev path : Text
path = b'/' ∷ b'j' ∷ b'o' ∷ b'b' ∷ b's' ∷ b'/' ∷ b'7' ∷ b'/' ∷ b'p' ∷ []

-- One job, with a status.
abbrev table : Table
table = record {
  revision = 4;
  rows =
      record {
        path = jobs ++ (b'/' ∷ job_seven);
        collection = jobs;
        document = object (field status (scalar (number 1)) end);
      }
      ∷ [];
}

abbrev payload : Fields
payload = field status (scalar (number 2)) end

path_parts : parts path ≡ valid segments
unfolding parts
path_parts = refl

writable : IsWrite path segments (object payload) table
unfolding validate parts anchor read is_nested takes_parts join
writable = record { value_valid = refl; path_valid = refl; deep = refl; may = refl }

read-write_example :
    (after : Table) × (write path (object payload) false table ≡ valid after)
    × (after.revision ≡ 4 + 1)
    × (read path after ≡ valid (object payload))
    × ((other : Text) (names : List Text)
        → parts other ≡ valid names
        → is_deep names ≡ true
        → diverge segments names ≡ true
        → read other after ≡ read other table)
read-write_example = read-write writable

read-write_merge_example :
    (after : Table) × (next : Fields) × (write path (object payload) true table ≡ valid after)
    × (read path after ≡ valid (object next))
    × ((name : Text)
        → get_at (object next) (name ∷ [])
          ≡ laid_over (child name payload) (
              get_at
                (get_at (document_at (anchor segments) table.rows) (tail_of segments))
                (name ∷ [])))
    × ((other : Text) (names : List Text)
        → parts other ≡ valid names
        → is_deep names ≡ true
        → diverge segments names ≡ true
        → read other after ≡ read other table)
unfolding child
read-write_merge_example = read-write_merge writable refl (refl, tt)

-- What the written table reads at the path of the status, which the write left alone.
status_stays :
    write path (object payload) false table
    ≡ valid (record {
      revision = 5;
      rows =
          record {
            path = jobs ++ (b'/' ∷ job_seven);
            collection = jobs;
            document =
                object (field status (scalar (number 1)) (field progress (object payload) end));
          }
          ∷ [];
    })
unfolding write validate parts write_record read join is_nested merged set_document upsert
status_stays = refl

same_tag : (s t e : ℕ) → some s ≡ some e → some t ≡ some e → s ≡ t
same_tag s t e p q = ground arith

-- A database of one number, whose entity tag is the number itself, under writes of others.
abbrev counter : Database ℕ ℕ
counter = record { value = λ s. s; etag = λ s. some s; put = λ v s. v; etag_value = same_tag }

transaction_firebase-TookEffect_example :
    TookEffect counter
      (λ n. some (n + 1))
      (transaction_firebase counter
        (λ left s. if leb 7 left then s + 5 else s)
        (λ left. false)
        (λ left. false)
        (λ n. some (n + 1))
        max_retries
        3)
transaction_firebase-TookEffect_example =
    transaction_firebase-TookEffect counter (λ left s. if leb 7 left then s + 5 else s)
      (λ left. false) (λ left. false) (λ n. some (n + 1)) (λ s h. cc) max_retries 3
