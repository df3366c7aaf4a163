-- ===== src/Pool/History.antt =====
-- What may happen to the pool of src/server/process-pool.ts, in any order: calls of its methods,
-- timeouts of requests, and exits of processes.
use pipane.Base.{ℕ, Bool, List, [], ◌∷◌}
use pipane.Pool.State.{Lease, Pool}
use pipane.Pool.Operations.{
  spawn, acquire, acquire_any, release_lease, decommission, evict_idle_different_cwd, force_kill,
  decommission_all, prewarm_round, exit_process, finalize_process,
}

pub data Event : Type 0 where
  spawns acquires prewarms evicts force_kills times_out exits finalizes : ℕ → Event
  acquires_any decommissions_all : Event
  releases : Lease → Event

module _ (exists : ℕ → Bool) where
  unfoldable pub step : Event → Pool → Pool
  step (spawns cwd) s = (spawn exists cwd s).1
  step (acquires cwd) s = (acquire exists cwd s).1
  step (prewarms cwd) s = (prewarm_round exists cwd s).1
  step (evicts cwd) s = (evict_idle_different_cwd cwd s).1
  step (force_kills p) s = (force_kill p s).1
  step (times_out p) s = (decommission p s).1
  step (exits p) s = exit_process p s
  step (finalizes p) s = finalize_process p s
  step acquires_any s = (acquire_any s).1
  step decommissions_all s = (decommission_all s).1
  step (releases lease) s = release_lease lease s

  unfoldable pub run : List Event → Pool → Pool
  run [] s = s
  run (e ∷ es) s = run es (step e s)
