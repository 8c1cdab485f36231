-- ===== src/Query/Meaning.antt =====
-- What filters select.
use ai_worker_platform.Query.Filter.{
  Dates, match_filter, matches_field, Value, is_there, Filter, date, Condition, operators,
  no_operators, cons, field, end, regexp, nil, any_of, is_before, undefined, null,
}
use Prim.Native.Nat.{ℕ}
use ai_worker_platform.Common.{Bool, List, ◌≡◌, false, some, true, not, ◌&&◌, arith, leb}

module _ (d : Dates) where
  open d use {time, time_undefined, time_null, time_date, less_undefined}

  -- A filter by a regular expression selects as if it were not there: a RegExp is an object, so the
  -- test for operators comes first and finds none. In particular a search for jobs, by a regular
  -- expression or by identifiers found otherwise, selects every job.
  pub regexp_ignored :
      {K : Type 0} (item : K → Value) (logical_deleted : Bool) (key : K) (test : Value → Bool)
      (ids : List Value) (rest : Filter K)
      → let found : Condition = operators (record no_operators { among = some ids }) in
        let search = cons (field key (regexp test) end) (cons (field key found end) nil) in
        (match_filter d item logical_deleted (field key (regexp test) rest)
          ≡ match_filter d item logical_deleted rest)
        × (match_filter d item logical_deleted (any_of search rest)
            ≡ match_filter d item logical_deleted rest)
  unfolding match_filter
  regexp_ignored item logical_deleted key test ids rest = (ground arith, ground arith)

  -- A filter by a period selects the documents that are not deleted and whose date lies in it, the
  -- ends included, if the field is a date.
  pub period_exact :
      {K : Type 0} (item : K → Value) (logical_deleted : Bool) (key : K) (t from to : ℕ)
      → item key ≡ date t
      → let period =
          operators (record no_operators { gte = some (date from); lte = some (date to) }) in
        match_filter d item logical_deleted (field key period end)
        ≡ not logical_deleted && leb from t && leb t to
  unfolding match_filter
  period_exact item logical_deleted key t from to h =
      ground (arith, h, time_date t, time_date from, time_date to)

  -- A field that is missing or null passes every upper bound that is a date.
  pub missing_passes_lte :
      (v : Value) (t : ℕ)
      → is_there v ≡ false
      → matches_field d (operators (record no_operators { lte = some (date t) })) v ≡ true
  unfolding matches_field is_before
  missing_passes_lte undefined t h =
      ground (arith, time_date t, time_undefined, less_undefined (date t))
  missing_passes_lte null t h = ground (arith, time_null, time_date t)
  missing_passes_lte _ t h = cc
