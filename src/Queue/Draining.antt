-- ===== src/Queue/Draining.antt =====
-- The drain loop ends, and leaves no job waiting beside a free slot.
use ai_worker_platform.Common.{
  Bool-cases, ◌≡◌, refl, ◌⊎◌, inl, inr, [], none, ◌+◌, ◌≤◌, ◌*◌, zero, suc, ◌<◌, ℕ, Bool, false,
  length, some, true, Option, arith, ◌∙◌,
}
use ai_worker_platform.Queue.Updates.{claim}
use ai_worker_platform.Queue.Machine.{
  idle, asked, answered, Claim, drain_loop, drain_step, Machine, drain_throws,
}
use ai_worker_platform.Queue.Memory.{Memory, drain_claimed, drain_take, drain_end, Runtime}
use ai_worker_platform.Queue.Lease.{Config, Identity, get_max_concurrent_jobs}
use ai_worker_platform.Common.Sets.{bit}
use ai_worker_platform.Queue.Effects.{transact_job-memory}
use ai_worker_platform.Queue.Capacity.{drain_take-none}

abbrev pub claim_steps : Claim → ℕ
claim_steps idle = 0
claim_steps (asked job_id) = 2
claim_steps (answered job_id claimed) = 1

-- The steps that the loop may still take: three for each waiting job, those left for the job in
-- hand, one for a round that was asked for, and the last one.
abbrev pub work : Memory → Claim → ℕ
work mem held =
    3 * length mem.queued_job_ids
    + claim_steps held
    + bit mem.drain_requested
    + bit mem.drain_in_progress

-- No job waits beside a free slot.
abbrev pub IsFull : Config → Memory → Type 0
IsFull c mem = (mem.queued_job_ids ≡ []) ⊎ (get_max_concurrent_jobs c ≤ length mem.active_job_ids)

abbrev pub HasStopped : Machine → Type 0
HasStopped m = (m.runtime.memory.drain_in_progress ≡ false) × (m.claim ≡ idle)

abbrev pub Settled : Config → (ℕ → Bool) → Machine → Type 0
Settled c throws m = HasStopped m × (((n : ℕ) → throws n ≡ false) → IsFull c m.runtime.memory)

abbrev Advances : Config → Bool → ℕ → Machine → Type 0
Advances c throws before m =
    (HasStopped m × (throws ≡ false → IsFull c m.runtime.memory))
    ⊎ ((m.runtime.memory.drain_in_progress ≡ true) × (work m.runtime.memory m.claim < before))

drain_take-work :
    (c : Config) (mem rest : Memory) (job_id : ℕ)
    → drain_take c mem ≡ some (job_id, rest)
    → (rest.drain_in_progress ≡ mem.drain_in_progress) × (work rest (asked job_id) < work mem idle)
unfolding drain_take
drain_take-work c mem rest job_id e = ground arith

drain_claimed-work :
    (now job_id : ℕ) (claimed : Bool) (r : Runtime)
    → ((drain_claimed now job_id claimed r).memory.drain_in_progress ≡ r.memory.drain_in_progress)
      × (work (drain_claimed now job_id claimed r).memory idle
          < work r.memory (answered job_id claimed))
unfolding drain_claimed
drain_claimed-work now job_id claimed r = ground arith

drain_step_idle-Advances :
    (c : Config) (me : Identity) (now : ℕ) (throws : Bool) (r : Runtime)
    (taken : Option (ℕ × Memory))
    → drain_take c r.memory ≡ taken
    → r.memory.drain_in_progress ≡ true
    → Advances c throws
        (work r.memory idle)
        (drain_step c me now throws (record { runtime = r; claim = idle }))
unfolding drain_step drain_end
drain_step_idle-Advances c me now throws r none e p =
    let full = drain_take-none c r.memory e in
    rw (e, drain_step)
      (elim (Bool-cases r.memory.drain_requested) [
        | inl again ↦ inr (ground arith, ground arith)
        | inr over ↦ inl ((ground arith, ground arith), λ quiet. ground (arith, full))
      ])
drain_step_idle-Advances c me now throws r (some (job_id, rest)) e p =
    rw (e, drain_step) (ground (arith, drain_take-work c r.memory rest job_id e))

drain_step-Advances :
    (c : Config) (me : Identity) (now : ℕ) (throws : Bool) (r : Runtime) (held : Claim)
    → r.memory.drain_in_progress ≡ true
    → Advances c throws
        (work r.memory held)
        (drain_step c me now throws (record { runtime = r; claim = held }))
unfolding drain_step drain_throws
drain_step-Advances c me now throws r idle p =
    drain_step_idle-Advances c me now throws r (drain_take c r.memory) refl p
drain_step-Advances c me now false r (asked job_id) p =
    rw (transact_job-memory job_id (claim c me now) r) (inr (p, omega arith))
drain_step-Advances c me now true r (asked job_id) p = inl ((refl, refl), λ quiet. cc)
drain_step-Advances c me now throws r (answered job_id claimed) p =
    let (same, less) = drain_claimed-work now job_id claimed r in inr (same ∙ p, less)

drain_loop_stopped :
    (c : Config) (me : Identity) (now : ℕ) (throws : ℕ → Bool) (fuel : ℕ) (m : Machine)
    → m.runtime.memory.drain_in_progress ≡ false
    → drain_loop c me now throws fuel m ≡ m
unfolding drain_loop
drain_loop_stopped c me now throws zero m h = refl
drain_loop_stopped c me now throws (suc fuel) m h = rw h

drain_loop_on :
    (c : Config) (me : Identity) (now : ℕ) (throws : ℕ → Bool) (fuel : ℕ) (m : Machine)
    → m.runtime.memory.drain_in_progress ≡ true
    → drain_loop c me now throws (suc fuel) m
      ≡ drain_loop c me now throws fuel (drain_step c me now (throws fuel) m)
unfolding drain_loop
drain_loop_on c me now throws fuel m h = ground arith

drain_loop_enough :
    (c : Config) (me : Identity) (now : ℕ) (throws : ℕ → Bool) (fuel : ℕ) (m : Machine)
    → m.runtime.memory.drain_in_progress ≡ true
    → work m.runtime.memory m.claim ≤ fuel
    → Settled c throws (drain_loop c me now throws fuel m)
drain_loop_enough c me now throws zero m p h = absurd (ground arith)
drain_loop_enough c me now throws (suc fuel) m p h =
    rw (drain_loop_on c me now throws fuel m p)
      (elim (drain_step-Advances c me now (throws fuel) m.runtime m.claim p) [
        | inl ((stopped, free), full) ↦
            rw
              (drain_loop_stopped c me now throws fuel (drain_step c me now (throws fuel) m)
                stopped)
              ((stopped, free), λ quiet. full (quiet fuel))
        | inr (on, less) ↦
            drain_loop_enough c me now throws fuel (drain_step c me now (throws fuel) m) on
              (omega arith)
      ])

-- A drain loop that nothing interrupts ends, within three steps for each waiting job and at most
-- four more, whether its claims throw or not. It stops with no claim pending and leaves the next
-- drain free to begin; and if no claim throws, no job then waits unless the limit is reached.
pub drain_loop-Settled :
    (c : Config) (me : Identity) (now : ℕ) (throws : ℕ → Bool) (fuel : ℕ) (m : Machine)
    → m.runtime.memory.drain_in_progress ≡ true
    → 3 * length m.runtime.memory.queued_job_ids + 4 ≤ fuel
    → Settled c throws (drain_loop c me now throws fuel m)
drain_loop-Settled c me now throws fuel m p h =
    drain_loop_enough c me now throws fuel m p (ground arith)
