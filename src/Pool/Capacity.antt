-- ===== src/Pool/Capacity.antt =====
-- The limit on live processes in src/server/process-pool.ts.
use pipane.Base.{
  ℕ, ◌≡◌, ◌≢◌, ◌+◌, ◌≤◌, refl, Bool, false, Option, none, some, List, [], ◌∷◌, ◌++◌, arith, Result,
  ok, err, contains-cons, without, inl, inr, Option-cases, Bool-cases, leb,
}
use pipane.Base.Dict.{Dict, get, put, remove}
use pipane.Pool.State.{
  Lease, Pool, Error, find, count_alive, count_all, total_processes, is_available, members,
  all_processes,
}
use pipane.Pool.Operations.{
  shrink, leave_pool, spawn, reserve, as_some, reserve_spawned, acquire, find_any, acquire_any,
  release_lease, decommission, decommission_each, evict_idle_different_cwd, find_elsewhere,
  force_kill, decommission_all, prewarm_round, exit_process, finalize_process, add_to,
}
use pipane.Pool.History.{
  Event, spawns, acquires, prewarms, evicts, force_kills, times_out, exits, finalizes, acquires_any,
  decommissions_all, releases, step, run,
}

count_alive-concat :
    (exited ps : List ℕ) (p : ℕ) → count_alive exited (ps ++ p ∷ []) ≤ count_alive exited ps + 1
unfolding count_alive
count_alive-concat exited [] p = ground arith
count_alive-concat exited (q ∷ ps) p = ground (arith, count_alive-concat exited ps p)

-- A process more in one of the pools is at most one live process more.
count_all-put :
    (exited : List ℕ) (cwd p : ℕ) (pools : Dict (List ℕ))
    → count_all exited (put cwd (members (get cwd pools) ++ p ∷ []) pools)
      ≤ count_all exited pools + 1
unfolding count_all get put
count_all-put exited cwd p [] = ground (arith, count_alive-concat exited [] p)
count_all-put exited cwd p ((c, ps) ∷ pools) =
    ground (arith, count_alive-concat exited ps p, count_all-put exited cwd p pools)

count_alive-without :
    (exited ps : List ℕ) (p : ℕ) → count_alive exited (without p ps) ≤ count_alive exited ps
unfolding count_alive without
count_alive-without exited [] p = ground arith
count_alive-without exited (q ∷ ps) p = ground (arith, count_alive-without exited ps p)

count_alive-add_to :
    (exited ps : List ℕ) (p : ℕ) → count_alive (add_to p exited) ps ≤ count_alive exited ps
unfolding count_alive
count_alive-add_to exited [] p = ground arith
count_alive-add_to exited (q ∷ ps) p =
    ground (arith, count_alive-add_to exited ps p, contains-cons q p exited)

count_all-remove :
    (exited : List ℕ) (cwd : ℕ) (pools : Dict (List ℕ))
    → count_all exited (remove cwd pools) ≤ count_all exited pools
unfolding count_all remove
count_all-remove exited cwd [] = ground arith
count_all-remove exited cwd ((c, ps) ∷ pools) = ground (arith, count_all-remove exited cwd pools)

count_all-put_le :
    (exited : List ℕ) (cwd : ℕ) (ps qs : List ℕ) (pools : Dict (List ℕ))
    → get cwd pools ≡ some ps
    → count_alive exited qs ≤ count_alive exited ps
    → count_all exited (put cwd qs pools) ≤ count_all exited pools
unfolding count_all get put
count_all-put_le exited cwd ps qs [] e h = cc
count_all-put_le exited cwd ps qs ((c, rs) ∷ pools) e h =
    ground (arith, count_all-put_le exited cwd ps qs pools)

count_all-add_to :
    (exited : List ℕ) (p : ℕ) (pools : Dict (List ℕ))
    → count_all (add_to p exited) pools ≤ count_all exited pools
unfolding count_all
count_all-add_to exited p [] = ground arith
count_all-add_to exited p ((c, ps) ∷ pools) =
    omega (arith, count_alive-add_to exited ps p, count_all-add_to exited p pools)

count_all-shrink :
    (exited : List ℕ) (p cwd : ℕ) (o : Option (List ℕ)) (pools : Dict (List ℕ))
    → get cwd pools ≡ o
    → count_all exited (shrink p cwd o pools) ≤ count_all exited pools
count_all-shrink exited p cwd none pools e = omega arith
count_all-shrink exited p cwd (some ps) pools e = ground (
  arith,
  count_all-remove exited cwd pools,
  count_alive-without exited ps p,
  count_all-put_le exited cwd ps (without p ps) pools e,
)

count_all-leave_pool :
    (exited : List ℕ) (p : ℕ) (o : Option ℕ) (pools : Dict (List ℕ))
    → count_all exited (leave_pool p o pools) ≤ count_all exited pools
count_all-leave_pool exited p none pools = omega arith
count_all-leave_pool exited p (some cwd) pools =
    count_all-shrink exited p cwd (get cwd pools) pools refl

-- The pool holds no more live processes than it may.
abbrev pub WithinLimit : Pool → Type 0
WithinLimit s = total_processes s ≤ s.max_processes

module _ (s : Pool) (h : WithinLimit s) where
  reserve-WithinLimit : (p : ℕ) → WithinLimit (reserve p s).1
  unfolding reserve total_processes
  reserve-WithinLimit p = ground arith

  release-WithinLimit : (l : Lease) → WithinLimit (release_lease l s)
  unfolding release_lease total_processes
  release-WithinLimit l = ground arith

  decommission-WithinLimit : (p : ℕ) → WithinLimit (decommission p s).1
  unfolding decommission total_processes
  decommission-WithinLimit p = ground arith

  force_kill-WithinLimit : (p : ℕ) → WithinLimit (force_kill p s).1
  unfolding force_kill total_processes
  force_kill-WithinLimit p = ground arith

  exit-WithinLimit : (p : ℕ) → WithinLimit (exit_process p s)
  unfolding exit_process total_processes
  exit-WithinLimit p = omega (arith, count_all-add_to s.exited p s.pools)

  finalize-WithinLimit : (p : ℕ) → WithinLimit (finalize_process p s)
  unfolding finalize_process total_processes
  finalize-WithinLimit p = ground (arith, count_all-leave_pool s.exited p (get p s.cwds) s.pools)

  -- A process is spawned only where the limit leaves room.
  spawn-WithinLimit :
      (exists : ℕ → Bool) (cwd : ℕ)
      → leb s.max_processes (total_processes s) ≡ false
      → WithinLimit (spawn exists cwd s).1
  unfolding spawn total_processes
  spawn-WithinLimit exists cwd room =
      ground (arith, count_all-put s.exited cwd (s.next_proc_id + 1) s.pools)

  prewarm-WithinLimit : (exists : ℕ → Bool) (cwd : ℕ) → WithinLimit (prewarm_round exists cwd s).1
  unfolding prewarm_round
  prewarm-WithinLimit exists cwd = ground (arith, spawn-WithinLimit exists cwd)

as_some-WithinLimit : (r : Result Error Lease × Pool) → WithinLimit r.1 → WithinLimit (as_some r).1
as_some-WithinLimit (ok x, t) h = h
as_some-WithinLimit (err x, t) h = h

reserve_spawned-WithinLimit :
    (r : Result Error ℕ × Pool) → WithinLimit r.1 → WithinLimit (reserve_spawned r).1
reserve_spawned-WithinLimit (ok p, t) h = as_some-WithinLimit _ (reserve-WithinLimit t h p)
reserve_spawned-WithinLimit (err x, t) h = h

module _ (s : Pool) (h : WithinLimit s) where
  acquire-WithinLimit : (exists : ℕ → Bool) (cwd : ℕ) → WithinLimit (acquire exists cwd s).1
  unfolding acquire
  acquire-WithinLimit exists cwd =
      elim (Option-cases (find (is_available s) (members (get cwd s.pools)))) [
        | inr (q, found) ↦ rw (found, acquire) (as_some-WithinLimit _ (reserve-WithinLimit s h q))
        | inl nobody ↦ elim (Bool-cases (leb s.max_processes (total_processes s))) [
          | inl full ↦ rw (nobody, acquire) (rw full h)
          | inr room ↦
              rw (nobody, acquire)
                (rw room (reserve_spawned-WithinLimit _ (spawn-WithinLimit s h exists cwd room)))
        ]
      ]

  acquire_any-WithinLimit : WithinLimit (acquire_any s).1
  unfolding acquire_any
  acquire_any-WithinLimit = elim (Option-cases (find_any (is_available s) s.pools)) [
    | inr (q, found) ↦ rw (found, acquire_any) (as_some-WithinLimit _ (reserve-WithinLimit s h q))
    | inl nobody ↦ rw (nobody, acquire_any) h
  ]

  evict-WithinLimit : (cwd : ℕ) → WithinLimit (evict_idle_different_cwd cwd s).1
  unfolding evict_idle_different_cwd
  evict-WithinLimit cwd = elim (Option-cases (find_elsewhere (is_available s) cwd s.pools)) [
    | inr (q, found) ↦ rw (found, evict_idle_different_cwd) (decommission-WithinLimit s h q)
    | inl nobody ↦ rw (nobody, evict_idle_different_cwd) h
  ]

decommission_each-WithinLimit :
    (ps : List ℕ) (gone left : ℕ) (s : Pool)
    → WithinLimit s
    → WithinLimit (decommission_each ps gone left s).1
unfolding decommission_each
decommission_each-WithinLimit [] gone left s h = h
decommission_each-WithinLimit (p ∷ ps) gone left s h =
    decommission_each-WithinLimit ps _ _ (decommission p s).1 (decommission-WithinLimit s h p)

-- No event of the history is a direct call of spawn.
abbrev pub Unspawned : List Event → Type 0
Unspawned [] = Unit
Unspawned (e ∷ es) = ((cwd : ℕ) → e ≢ spawns cwd) × Unspawned es

module _ (exists : ℕ → Bool) where
  step-WithinLimit :
      (e : Event) (s : Pool)
      → ((cwd : ℕ) → e ≢ spawns cwd)
      → WithinLimit s
      → WithinLimit (step exists e s)
  unfolding step decommission_all
  step-WithinLimit (spawns cwd) s called h = absurd (called cwd refl)
  step-WithinLimit (acquires cwd) s called h = acquire-WithinLimit s h exists cwd
  step-WithinLimit (prewarms cwd) s called h = prewarm-WithinLimit s h exists cwd
  step-WithinLimit (evicts cwd) s called h = evict-WithinLimit s h cwd
  step-WithinLimit (force_kills p) s called h = force_kill-WithinLimit s h p
  step-WithinLimit (times_out p) s called h = decommission-WithinLimit s h p
  step-WithinLimit (exits p) s called h = exit-WithinLimit s h p
  step-WithinLimit (finalizes p) s called h = finalize-WithinLimit s h p
  step-WithinLimit acquires_any s called h = acquire_any-WithinLimit s h
  step-WithinLimit decommissions_all s called h =
      decommission_each-WithinLimit (all_processes s.pools) 0 0 s h
  step-WithinLimit (releases l) s called h = release-WithinLimit s h l

  -- A pool within its limit of live processes stays within it, whatever sequence of acquisitions,
  -- prewarmings, releases, evictions, decommissionings, kills, timeouts and ends follows, as long as
  -- nobody outside the pool calls spawn, which does not look at the limit.
  pub run-WithinLimit :
      (es : List Event) (s : Pool) → Unspawned es → WithinLimit s → WithinLimit (run exists es s)
  unfolding run
  run-WithinLimit [] s guarded h = h
  run-WithinLimit (e ∷ es) s guarded h =
      run-WithinLimit es (step exists e s) guarded.1 (step-WithinLimit e s guarded.0 h)
