-- ===== src/Pool/Operations.antt =====
-- src/server/process-pool.ts: the methods of ProcessPool that change which processes there are, who
-- holds them, and which of them are to go.
use pipane.Base.{
  ℕ, ◌+◌, ◌-◌, Bool, true, false, not, ◌&&◌, ◌||◌, Option, none, some, List, [], ◌∷◌, ◌++◌, ◌==◌,
  if◌then◌else◌, leb, contains, without, Result, ok, err,
}
use Prim.Native.Nat.{min}
use pipane.Base.Dict.{Dict, get, put, remove}
use pipane.Pool.State.{
  Lease, Signal, sigterm, sigkill, Pool, Error, no_directory, not_available, find, count_alive,
  total_processes, all_processes, is_leased, is_available, members,
}

-- `set.add(p)`
abbrev pub add_to : ℕ → List ℕ → List ℕ
add_to p ps = if contains p ps then ps else p ∷ ps

-- `child.kill(signal)`, of a child that runs.
unfoldable pub kill : ℕ → Signal → Pool → Pool
kill p signal s = record s { killed = add_to p s.killed; signals = (p, signal) ∷ s.signals }

-- spawn; `exists` says which directories there are. The child process itself, its output, errors
-- and listeners are left out: its exit is the event that calls finalizeProcess.
unfoldable pub spawn : (ℕ → Bool) → ℕ → Pool → Result Error ℕ × Pool
spawn exists cwd s =
    let p = s.next_proc_id + 1 in
    if not (exists cwd) then (err no_directory, s) else (
      ok p,
      record s {
        next_proc_id = p;
        pools = put cwd (members (get cwd s.pools) ++ p ∷ []) s.pools;
        cwds = put p cwd s.cwds;
      },
    )

-- reserve
unfoldable pub reserve : ℕ → Pool → Result Error Lease × Pool
reserve p s =
    let lease : Lease = record { id = s.next_lease; process = p } in
    if not (is_available s p)
    then (err not_available, s)
    else (ok lease, record s { leases = put p lease s.leases; next_lease = s.next_lease + 1 })

abbrev pub as_some : Result Error Lease × Pool → Result Error (Option Lease) × Pool
as_some (ok lease, s) = (ok (some lease), s)
as_some (err e, s) = (err e, s)

-- `this.reserve(this.spawn(cwd))`
abbrev pub reserve_spawned : Result Error ℕ × Pool → Result Error (Option Lease) × Pool
reserve_spawned (ok p, s) = as_some (reserve p s)
reserve_spawned (err e, s) = (err e, s)

-- acquire
unfoldable pub acquire : (ℕ → Bool) → ℕ → Pool → Result Error (Option Lease) × Pool
acquire exists cwd s = elim (find (is_available s) (members (get cwd s.pools))) [
  | some p ↦ as_some (reserve p s)
  | none ↦
      if leb s.max_processes (total_processes s)
      then (ok none, s)
      else reserve_spawned (spawn exists cwd s)
]

-- The first available process of the pools, in their order.
unfoldable pub find_any : (ℕ → Bool) → Dict (List ℕ) → Option ℕ
find_any test [] = none
find_any test ((cwd, ps) ∷ pools) = elim (find test ps) [
  | none ↦ find_any test pools
  | some p ↦ some p
]

-- acquireAny
unfoldable pub acquire_any : Pool → Result Error (Option Lease) × Pool
acquire_any s = elim (find_any (is_available s) s.pools) [
  | none ↦ (ok none, s)
  | some p ↦ as_some (reserve p s)
]

-- The lease that the pool holds for the process is this one.
abbrev pub is_current : Lease → Option Lease → Bool
is_current lease none = false
is_current lease (some held) = held.id == lease.id

-- releaseLease
unfoldable pub release_lease : Lease → Pool → Pool
unfolding kill
release_lease lease s =
    let p = lease.process in
    let marked = record s { released = add_to lease.id s.released } in
    let freed = record marked { leases = remove p s.leases } in
    if contains lease.id s.released
    then s
    else if not (is_current lease (get p s.leases))
    then marked
    else if contains p s.decommissioning && not (contains p s.exited) && not (contains p s.killed)
    then kill p sigterm freed
    else freed

pub data Decommission : Type 0 where
  ignored draining killed_now : Decommission

-- decommission
unfoldable pub decommission : ℕ → Pool → Decommission × Pool
unfolding kill
decommission p s =
    let marked = record s { decommissioning = add_to p s.decommissioning } in
    if contains p s.exited || contains p s.decommissioning
    then (ignored, s)
    else if is_leased s p
    then (draining, marked)
    else (killed_now, kill p sigterm marked)

-- The victim that evictIdleDifferentCwd picks.
unfoldable pub find_elsewhere : (ℕ → Bool) → ℕ → Dict (List ℕ) → Option ℕ
find_elsewhere test target [] = none
find_elsewhere test target ((cwd, ps) ∷ pools) =
    let rest = find_elsewhere test target pools in
    if cwd == target then rest else elim (find test ps) [ none ↦ rest | some p ↦ some p ]

-- evictIdleDifferentCwd
unfoldable pub evict_idle_different_cwd : ℕ → Pool → Option ℕ × Pool
evict_idle_different_cwd target s = elim (find_elsewhere (is_available s) target s.pools) [
  | none ↦ (none, s)
  | some p ↦ (some p, (decommission p s).1)
]

-- forceKill; the child's `kill` succeeds.
unfoldable pub force_kill : ℕ → Pool → Bool × Pool
unfolding kill
force_kill p s =
    if contains p s.exited
    then (false, s)
    else (true, kill p sigkill (record s { decommissioning = add_to p s.decommissioning }))

abbrev count_killed : Decommission → ℕ → ℕ
count_killed killed_now n = n + 1
count_killed _ n = n

abbrev count_draining : Decommission → ℕ → ℕ
count_draining draining n = n + 1
count_draining _ n = n

-- The loop of decommissionAll.
unfoldable pub decommission_each : List ℕ → ℕ → ℕ → Pool → (ℕ × ℕ) × Pool
decommission_each [] gone left s = ((gone, left), s)
decommission_each (p ∷ ps) gone left s =
    let (result, s') = decommission p s in
    decommission_each ps (count_killed result gone) (count_draining result left) s'

-- decommissionAll: the numbers of processes killed and draining.
unfoldable pub decommission_all : Pool → (ℕ × ℕ) × Pool
unfolding decommission_each
decommission_all s = decommission_each (all_processes s.pools) 0 0 s

-- One round of the loop of prewarm: `true` breaks the loop.
unfoldable pub prewarm_round : (ℕ → Bool) → ℕ → Pool → Result Error Bool × Pool
prewarm_round exists cwd s =
    if leb s.max_processes (total_processes s) then (ok true, s) else elim (spawn exists cwd s).0 [
      | ok p ↦ (ok false, (spawn exists cwd s).1)
      | err e ↦ (err e, s)
    ]

-- The rounds that prewarm plans.
unfoldable pub prewarm_needed : ℕ → Pool → ℕ
prewarm_needed cwd s =
    min s.prewarm_count s.max_processes - count_alive s.exited (members (get cwd s.pools))

-- The process exits: exitCode is set, before the exit event is handled.
unfoldable pub exit_process : ℕ → Pool → Pool
exit_process p s = record s { exited = add_to p s.exited }

-- `lease.markReleased()` of the lease that is held, if any.
abbrev pub mark_held : Option Lease → List ℕ → List ℕ
mark_held none released = released
mark_held (some lease) released = add_to lease.id released

-- A pool that became empty goes.
abbrev pub shrink : ℕ → ℕ → Option (List ℕ) → Dict (List ℕ) → Dict (List ℕ)
shrink p cwd none pools = pools
shrink p cwd (some ps) pools = elim (without p ps) [
  | [] ↦ remove cwd pools
  | q ∷ qs ↦ put cwd (q ∷ qs) pools
]

abbrev pub leave_pool : ℕ → Option ℕ → Dict (List ℕ) → Dict (List ℕ)
leave_pool p none pools = pools
leave_pool p (some cwd) pools = shrink p cwd (get cwd pools) pools

-- finalizeProcess. A process stands in its pool at most once, so removing it everywhere is the
-- code's removal of its first place.
unfoldable pub finalize_process : ℕ → Pool → Pool
finalize_process p s = if contains p s.finalized then s else record s {
  finalized = add_to p s.finalized;
  pools = leave_pool p (get p s.cwds) s.pools;
  released = mark_held (get p s.leases) s.released;
  leases = remove p s.leases;
  decommissioning = without p s.decommissioning;
}
