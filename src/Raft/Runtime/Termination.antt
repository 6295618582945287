-- ===== src/Raft/Runtime/Termination.antt =====
-- src/raft/runtime.rs: how long the loop of `drive` runs.
use raft_distributed_log_rs.Prelude.{
  Option, arith, none, refl, some, suc, zero, ℕ, ◌+◌, ◌<◌, ◌≡◌, ◌≤◌,
}
use raft_distributed_log_rs.Raft.Core.{handle}
use raft_distributed_log_rs.Raft.Core.Base.{Outcome}
use raft_distributed_log_rs.Raft.Runtime.Driving.{
  after_handle, drive, drive_rounds, next_round, rounds,
}
use raft_distributed_log_rs.Raft.Runtime.Execution.{Ran, execute}
use raft_distributed_log_rs.Raft.Runtime.Start.{Runtime, Services}
use raft_distributed_log_rs.Raft.Types.{
  Effect, Event, Raft, append_local, apply_committed, election_timeout, entries_applied, err, ok,
  panic, write,
}

-- How many rounds an event can take, and how many can follow an effect.
abbrev event_rank : Event → ℕ
event_rank (entries_applied e) = 1
event_rank (write i) = 3
event_rank _ = 2

abbrev effect_rank : Effect → ℕ
effect_rank (apply_committed i through) = 1
effect_rank (append_local i term index) = 2
effect_rank _ = 0

handle_rank :
    (r : Raft) (e : Event) (f : Effect)
    → (handle r e).1 ≡ ok (some f)
    → effect_rank f < event_rank e
unfolding handle
handle_rank r election_timeout f h = ground arith
handle_rank r _ f h = ground arith

event_rank_pos : (e : Event) → 0 < event_rank e
event_rank_pos (entries_applied e) = omega arith
event_rank_pos (write i) = omega arith
event_rank_pos election_timeout = omega arith
event_rank_pos _ = omega arith

module _ {F : Type 0} (m : Services F) where
  execute_rank :
      (rt : Runtime F) (f : Effect) (e : Event)
      → (execute m rt f).1 ≡ ok (some e)
      → event_rank e ≤ effect_rank f
  unfolding execute
  execute_rank rt (apply_committed i through) e h = ground arith
  execute_rank rt (append_local i term index) e h = ground arith
  execute_rank rt _ e h = ground arith

  next_total :
      (fuel : ℕ) (o : Ran F (Option Event))
      → ((rt : Runtime F) (e : Event)
          → event_rank e ≤ fuel
          → (out : Ran F (Unit {0})) × (drive_rounds m fuel rt e ≡ some out))
      → ((e : Event) → o.1 ≡ ok (some e) → event_rank e ≤ fuel)
      → (out : Ran F (Unit {0})) × (next_round (drive_rounds m fuel) o ≡ some out)
  next_total fuel (rt, ok none) again low = ((rt, ok tt), refl)
  next_total fuel (rt, ok (some e)) again low = again rt e (low e refl)
  next_total fuel (rt, err x) again low = ((rt, err x), refl)
  next_total fuel (rt, panic) again low = ((rt, panic), refl)

  after_total :
      (fuel : ℕ) (rt : Runtime F) (o : Outcome (Option Effect))
      → ((rt : Runtime F) (e : Event)
          → event_rank e ≤ fuel
          → (out : Ran F (Unit {0})) × (drive_rounds m fuel rt e ≡ some out))
      → ((f : Effect) → o.1 ≡ ok (some f) → effect_rank f ≤ fuel)
      → (out : Ran F (Unit {0})) × (after_handle m (drive_rounds m fuel) rt o ≡ some out)
  after_total fuel rt (r, ok none) again low = ((record rt { raft = r }, ok tt), refl)
  after_total fuel rt (r, ok (some f)) again low =
      next_total fuel (execute m (record rt { raft = r }) f) again
        (λ e h. omega (arith, low f refl, execute_rank (record rt { raft = r }) f e h))
  after_total fuel rt (r, err x) again low = ((record rt { raft = r }, err x), refl)
  after_total fuel rt (r, panic) again low = ((record rt { raft = r }, panic), refl)

  rounds_total :
      (fuel : ℕ) (rt : Runtime F) (e : Event)
      → event_rank e ≤ fuel
      → (out : Ran F (Unit {0})) × (drive_rounds m fuel rt e ≡ some out)
  unfolding drive_rounds
  rounds_total zero rt e low = absurd (omega (arith, event_rank_pos e))
  rounds_total (suc fuel) rt e low =
      after_total fuel rt (handle rt.raft e) (rounds_total fuel)
        (λ f h. omega (arith, handle_rank rt.raft e f h))

  event_rank_le : (e : Event) → event_rank e ≤ rounds
  event_rank_le (entries_applied e) = omega arith
  event_rank_le (write i) = omega arith
  event_rank_le election_timeout = omega arith
  event_rank_le _ = omega arith

  next_more :
      (fuel : ℕ) (o : Ran F (Option Event)) (out : Ran F (Unit {0}))
      → ((rt : Runtime F) (e : Event)
          → drive_rounds m fuel rt e ≡ some out
          → drive_rounds m (suc fuel) rt e ≡ some out)
      → next_round (drive_rounds m fuel) o ≡ some out
      → next_round (drive_rounds m (suc fuel)) o ≡ some out
  next_more fuel (rt, ok none) out again h = h
  next_more fuel (rt, ok (some e)) out again h = again rt e h
  next_more fuel (rt, err x) out again h = h
  next_more fuel (rt, panic) out again h = h

  after_more :
      (fuel : ℕ) (rt : Runtime F) (o : Outcome (Option Effect)) (out : Ran F (Unit {0}))
      → ((rt : Runtime F) (e : Event)
          → drive_rounds m fuel rt e ≡ some out
          → drive_rounds m (suc fuel) rt e ≡ some out)
      → after_handle m (drive_rounds m fuel) rt o ≡ some out
      → after_handle m (drive_rounds m (suc fuel)) rt o ≡ some out
  after_more fuel rt (r, ok none) out again h = h
  after_more fuel rt (r, ok (some f)) out again h =
      next_more fuel (execute m (record rt { raft = r }) f) out again h
  after_more fuel rt (r, err x) out again h = h
  after_more fuel rt (r, panic) out again h = h

  rounds_more :
      (fuel : ℕ) (rt : Runtime F) (e : Event) (out : Ran F (Unit {0}))
      → drive_rounds m fuel rt e ≡ some out
      → drive_rounds m (suc fuel) rt e ≡ some out
  unfolding drive_rounds
  rounds_more zero rt e out h = cc
  rounds_more (suc fuel) rt e out h =
      after_more fuel rt (handle rt.raft e) out (λ rt' e'. rounds_more fuel rt' e' out) h

  rounds_enough :
      (n : ℕ) (rt : Runtime F) (e : Event) → drive_rounds m (n + rounds) rt e ≡ some (drive m rt e)
  unfolding drive
  rounds_enough zero rt e = let (out, h) = rounds_total rounds rt e (event_rank_le e) in rw h
  rounds_enough (suc n) rt e =
      let next : suc n + rounds ≡ suc (n + rounds) = omega arith in
      rw next (rounds_more (n + rounds) rt e (drive m rt e) (rounds_enough n rt e))

-- The loop of `drive` ends within three rounds, for every event and in every state: with any
-- number of rounds from three on it has a result, and always the same one.
pub drive_terminates :
    (F : Type 0) (m : Services F) (n : ℕ) (rt : Runtime F) (e : Event)
    → drive_rounds m (n + rounds) rt e ≡ some (drive m rt e)
drive_terminates F m = rounds_enough m
