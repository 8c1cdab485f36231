-- ===== src/Queue/Single.antt =====
-- At most one drain loop runs in a runtime, so that it behaves as the machine of one loop.
use ai_worker_platform.Common.{
  ◌≡◌, refl, none, some, [], ◌∷◌, List, ℕ, Bool, suc, zero, Option, length, arith, ◌⊎◌, inl, inr,
  true, false, sym, subst, Bool-cases, ◌∙◌, ap,
}
use ai_worker_platform.Queue.Memory.{
  Runtime, Memory, drain_begin, drain_take, drain_end, drain_claimed,
}
use ai_worker_platform.Queue.Machine.{
  writes_elsewhere, Claim, Machine, idle, asked, answered, Event, drains, steps_drain, fire,
  enqueues, reconciles, renews, finishes, cancels, drain_step, drain_throws,
}
use ai_worker_platform.Queue.Loops.{
  System, loop_step, step_loops, start_drain, machine_of, fire_system, run_system,
}
use ai_worker_platform.Queue.Lease.{Config, Identity}
use ai_worker_platform.Queue.Updates.{claim}
use ai_worker_platform.Queue.Effects.{
  transact_job-memory, enqueue_job-memory, reconcile_job-memory, renew_lease-memory,
  execute_finish-memory, cancel_queued_job-memory,
}
use ai_worker_platform.Common.Sets.{bit}

-- A loop runs exactly while `drainInProgress` is set, and only one.
abbrev pub IsSingle : System → Type 0
IsSingle s = length s.loops ≡ bit s.runtime.memory.drain_in_progress

pub machine_of-runtime : (s : System) → (machine_of s).runtime ≡ s.runtime
machine_of-runtime s = go s.runtime s.loops
  where
    go :
        (r : Runtime) (loops : List Claim)
        → (machine_of (record { runtime = r; loops = loops })).runtime ≡ r
    go r [] = refl
    go r (held ∷ rest) = refl

abbrev machine : Runtime → Claim → Machine
machine r held = record { runtime = r; claim = held }

-- The event has done nothing, or what it does to the machine of one loop.
abbrev FollowsFrom : Config → Identity → ℕ → Event → System → System → Type 0
FollowsFrom c me now e s s' =
    IsSingle s'
    × ((machine_of s' ≡ machine_of s) ⊎ (machine_of s' ≡ fire c me now e (machine_of s)))

start_drain-FollowsFrom :
    (c : Config) (me : Identity) (now : ℕ) (r : Runtime) (loops : List Claim)
    → let s : System = record { runtime = r; loops = loops } in
      IsSingle s → FollowsFrom c me now drains s (start_drain s)
unfolding start_drain fire drain_begin
start_drain-FollowsFrom c me now r [] h =
    let p : r.memory.drain_in_progress ≡ false = ground arith in rw p (refl, inr refl)
start_drain-FollowsFrom c me now r (held ∷ []) h =
    let p : r.memory.drain_in_progress ≡ true = ground arith in rw p (ground (arith, p), inr refl)
start_drain-FollowsFrom c me now r (held ∷ other ∷ rest) h = absurd (ground arith)

drain_take-drain_in_progress :
    (c : Config) (mem rest : Memory) (job_id : ℕ)
    → drain_take c mem ≡ some (job_id, rest)
    → rest.drain_in_progress ≡ mem.drain_in_progress
unfolding drain_take
drain_take-drain_in_progress c mem rest job_id e = ground arith

loop_step_idle :
    (c : Config) (me : Identity) (now : ℕ) (throws : Bool) (r : Runtime)
    (taken : Option (ℕ × Memory))
    → drain_take c r.memory ≡ taken
    → r.memory.drain_in_progress ≡ true
    → (drain_step c me now throws (record { runtime = r; claim = idle })
        ≡ machine_of (step_loops c me now throws 0 (idle ∷ []) r))
      × IsSingle (step_loops c me now throws 0 (idle ∷ []) r)
unfolding drain_end drain_step step_loops
loop_step_idle c me now throws r none e p =
    rw (e, drain_step, step_loops, loop_step)
      (rw p (elim (Bool-cases r.memory.drain_requested) [
        | inl again ↦ rw again (refl, ground (arith, p))
        | inr over ↦ rw over (refl, refl)
      ]))
loop_step_idle c me now throws r (some (job_id, rest)) e p =
    let kept = drain_take-drain_in_progress c r.memory rest job_id e in
    rw (e, drain_step, step_loops, loop_step) (rw p (refl, ground (arith, kept, p)))

step_loops-FollowsFrom :
    (c : Config) (me : Identity) (now : ℕ) (throws : Bool) (n : ℕ) (r : Runtime)
    (loops : List Claim)
    → let s : System = record { runtime = r; loops = loops } in
      IsSingle s
      → FollowsFrom c me now (steps_drain throws) s (step_loops c me now throws n loops r)
unfolding step_loops loop_step drain_step fire drain_throws drain_claimed
step_loops-FollowsFrom c me now throws n r [] h = (h, inl refl)
step_loops-FollowsFrom c me now throws (suc n) r (held ∷ []) h = (h, inl refl)
step_loops-FollowsFrom c me now throws zero r (idle ∷ []) h =
    let (same, single) =
      loop_step_idle c me now throws r (drain_take c r.memory) refl (ground arith) in
    (single, inr (sym same))
step_loops-FollowsFrom c me now true zero r (asked job_id ∷ []) h = (refl, inr refl)
step_loops-FollowsFrom c me now false zero r (asked job_id ∷ []) h =
    (ground (arith, transact_job-memory job_id (claim c me now) r), inr refl)
step_loops-FollowsFrom c me now throws zero r (answered job_id claimed ∷ []) h =
    (ground arith, inr refl)
step_loops-FollowsFrom c me now throws n r (held ∷ other ∷ rest) h = absurd (ground arith)

-- The event acts on the runtime alone, and neither starts a drain loop nor ends one.
abbrev Keeps : Config → Identity → ℕ → Event → Type 0
Keeps c me now e =
    (r : Runtime) (held : Claim)
    → let after = fire c me now e (record { runtime = r; claim = held }) in
      (after.claim ≡ held) × (after.runtime.memory.drain_in_progress ≡ r.memory.drain_in_progress)

acts-FollowsFrom :
    (c : Config) (me : Identity) (now : ℕ) (e : Event) (r : Runtime) (loops : List Claim)
    → let s : System = record { runtime = r; loops = loops } in
      Keeps c me now e
      → IsSingle s
      → FollowsFrom c me now e s (record s { runtime = (fire c me now e (machine_of s)).runtime })
acts-FollowsFrom c me now e r [] k h = (
  h ∙ ap bit (sym (k r idle).1),
  inr (
      ap (λ held. machine (fire c me now e (record { runtime = r; claim = idle })).runtime held)
        (sym (k r idle).0)),
)
acts-FollowsFrom c me now e r (held ∷ rest) k h = (
  h ∙ ap bit (sym (k r held).1),
  inr (
      ap (λ at. machine (fire c me now e (record { runtime = r; claim = held })).runtime at)
        (sym (k r held).0)),
)

fire_system-FollowsFrom :
    (c : Config) (me : Identity) (now n : ℕ) (e : Event) (s : System)
    → IsSingle s
    → FollowsFrom c me now e s (fire_system c me now n e s)
unfolding fire_system fire
fire_system-FollowsFrom c me now n drains s h = start_drain-FollowsFrom c me now s.runtime s.loops h
fire_system-FollowsFrom c me now n (steps_drain throws) s h =
    step_loops-FollowsFrom c me now throws n s.runtime s.loops h
fire_system-FollowsFrom c me now n (enqueues job_id recovered) s h =
    acts-FollowsFrom c me now (enqueues job_id recovered) s.runtime s.loops
      (λ r held. (refl, ground (arith, enqueue_job-memory now job_id recovered r))) h
fire_system-FollowsFrom c me now n (reconciles job_id) s h =
    acts-FollowsFrom c me now (reconciles job_id) s.runtime s.loops
      (λ r held. (refl, ground (arith, reconcile_job-memory me now job_id r))) h
fire_system-FollowsFrom c me now n (renews job_id) s h =
    acts-FollowsFrom c me now (renews job_id) s.runtime s.loops
      (λ r held. (refl, ground (arith, renew_lease-memory c me now job_id r))) h
fire_system-FollowsFrom c me now n (finishes job_id has_error) s h =
    acts-FollowsFrom c me now (finishes job_id has_error) s.runtime s.loops
      (λ r held. (ground arith, ground (arith, execute_finish-memory me now job_id has_error r))) h
fire_system-FollowsFrom c me now n (cancels job_id allow_running) s h =
    acts-FollowsFrom c me now (cancels job_id allow_running) s.runtime s.loops
      (λ r held. (refl, ground (arith, cancel_queued_job-memory now job_id allow_running r))) h
fire_system-FollowsFrom c me now n (writes_elsewhere job_id job) s h =
    acts-FollowsFrom c me now (writes_elsewhere job_id job) s.runtime s.loops
      (λ r held. (refl, refl)) h

-- What every event keeps of the machine of one loop holds after every history of the runtime, in
-- which no second loop ever runs.
pub run_system_lem :
    (c : Config) (me : Identity) (P : Machine → Type 0)
    → ((now : ℕ) (e : Event) (m : Machine) → P m → P (fire c me now e m))
    → (events : List (ℕ × ℕ × Event)) (s : System) → IsSingle s
    → P (machine_of s)
    → IsSingle (run_system c me events s) × P (machine_of (run_system c me events s))
unfolding run_system
run_system_lem c me P keeps [] s h p = (h, p)
run_system_lem c me P keeps ((now, n, e) ∷ rest) s h p =
    let (single, follows) = fire_system-FollowsFrom c me now n e s h in
    run_system_lem c me P keeps rest (fire_system c me now n e s) single (elim follows [
      | inl same ↦ subst P (sym same) p
      | inr fired ↦ subst P (sym fired) (keeps now e (machine_of s) p)
    ])
