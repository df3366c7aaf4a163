-- ===== src/Pool/Tenure.antt =====
-- How long a lease and a decommissioning last in src/server/process-pool.ts, over all histories.
use pipane.Base.{
  ap, leb, ℕ, ◌≡◌, ◌≢◌, refl, Bool, true, some, List, [], ◌∷◌, arith, Result, ok, err, contains,
  contains-without, contains-cons, inl, inr, Option-cases, Bool-cases,
}
use pipane.Base.Dict.{get, get-put, get-remove}
use pipane.Pool.State.{
  total_processes, Lease, Pool, Error, find, is_leased, is_decommissioning, is_available, members,
  all_processes,
}
use pipane.Pool.Operations.{
  find_elsewhere, spawn, reserve, as_some, reserve_spawned, acquire, find_any, acquire_any,
  release_lease, decommission, decommission_each, evict_idle_different_cwd, force_kill,
  decommission_all, prewarm_round, exit_process, finalize_process,
}
use pipane.Pool.History.{
  Event, spawns, acquires, prewarms, evicts, force_kills, times_out, exits, finalizes, acquires_any,
  decommissions_all, releases, step, run,
}
use pipane.Pool.Exclusive.{acquire-Handed}

module _ (p : ℕ) where
  -- Who holds p stays its holder, and p stays marked, from s to t.
  record Keeps (s t : Pool) : Type 0 where
    lease : (k : Lease) → get p s.leases ≡ some k → get p t.leases ≡ some k
    leaving : contains p s.decommissioning ≡ true → contains p t.decommissioning ≡ true

  Keeps-refl : (s : Pool) → Keeps s s
  Keeps-refl s = record { lease = λ k h. h; leaving = λ h. h }

  Keeps-trans : {s t u : Pool} → Keeps s t → Keeps t u → Keeps s u
  Keeps-trans a b = record {
    lease = λ k h. b.lease k (a.lease k h);
    leaving = λ h. b.leaving (a.leaving h);
  }

  reserve-Keeps : (q : ℕ) (s : Pool) → Keeps s (reserve q s).1
  unfolding reserve is_available
  reserve-Keeps q s = record { lease = λ k h. grind (arith, get-put); leaving = λ h. ground arith }

  as_some-Keeps : (r : Result Error Lease × Pool) (s : Pool) → Keeps s r.1 → Keeps s (as_some r).1
  as_some-Keeps (ok x, t) s h = h
  as_some-Keeps (err x, t) s h = h

  spawn-Keeps : (exists : ℕ → Bool) (cwd : ℕ) (s : Pool) → Keeps s (spawn exists cwd s).1
  unfolding spawn
  spawn-Keeps exists cwd s = record { lease = λ k h. ground arith; leaving = λ h. ground arith }

  reserve_spawned-Keeps :
      (r : Result Error ℕ × Pool) (s : Pool) → Keeps s r.1 → Keeps s (reserve_spawned r).1
  reserve_spawned-Keeps (ok q, t) s h =
      Keeps-trans h (as_some-Keeps (reserve q t) t (reserve-Keeps q t))
  reserve_spawned-Keeps (err x, t) s h = h

  acquire-Keeps : (exists : ℕ → Bool) (cwd : ℕ) (s : Pool) → Keeps s (acquire exists cwd s).1
  unfolding acquire
  acquire-Keeps exists cwd s =
      elim (Option-cases (find (is_available s) (members (get cwd s.pools)))) [
        | inr (q, found) ↦ rw (found, acquire) (as_some-Keeps (reserve q s) s (reserve-Keeps q s))
        | inl nobody ↦ elim (Bool-cases (leb s.max_processes (total_processes s))) [
          | inl full ↦ rw (nobody, acquire) (rw full (Keeps-refl s))
          | inr room ↦
              rw (nobody, acquire) (rw room (reserve_spawned-Keeps _ s (spawn-Keeps exists cwd s)))
        ]
      ]

  acquire_any-Keeps : (s : Pool) → Keeps s (acquire_any s).1
  unfolding acquire_any
  acquire_any-Keeps s = elim (Option-cases (find_any (is_available s) s.pools)) [
    | inr (q, found) ↦ rw (found, acquire_any) (as_some-Keeps (reserve q s) s (reserve-Keeps q s))
    | inl nobody ↦ rw (nobody, acquire_any) (Keeps-refl s)
  ]

  prewarm-Keeps : (exists : ℕ → Bool) (cwd : ℕ) (s : Pool) → Keeps s (prewarm_round exists cwd s).1
  unfolding prewarm_round spawn
  prewarm-Keeps exists cwd s = record { lease = λ k h. ground arith; leaving = λ h. ground arith }

  decommission-Keeps : (q : ℕ) (s : Pool) → Keeps s (decommission q s).1
  unfolding decommission
  decommission-Keeps q s = record {
    lease = λ k h. ground arith;
    leaving = λ h. grind (arith, contains-cons);
  }

  evict-Keeps : (cwd : ℕ) (s : Pool) → Keeps s (evict_idle_different_cwd cwd s).1
  unfolding evict_idle_different_cwd
  evict-Keeps cwd s = elim (Option-cases (find_elsewhere (is_available s) cwd s.pools)) [
    | inr (q, found) ↦ rw (found, evict_idle_different_cwd) (decommission-Keeps q s)
    | inl nobody ↦ rw (nobody, evict_idle_different_cwd) (Keeps-refl s)
  ]

  force_kill-Keeps : (q : ℕ) (s : Pool) → Keeps s (force_kill q s).1
  unfolding force_kill
  force_kill-Keeps q s = record {
    lease = λ k h. ground arith;
    leaving = λ h. grind (arith, contains-cons);
  }

  decommission_each-Keeps :
      (ps : List ℕ) (gone left : ℕ) (s : Pool) → Keeps s (decommission_each ps gone left s).1
  unfolding decommission_each
  decommission_each-Keeps [] gone left s = Keeps-refl s
  decommission_each-Keeps (q ∷ ps) gone left s =
      Keeps-trans (decommission-Keeps q s) (decommission_each-Keeps ps _ _ (decommission q s).1)

  exit-Keeps : (q : ℕ) (s : Pool) → Keeps s (exit_process q s)
  unfolding exit_process
  exit-Keeps q s = record { lease = λ k h. h; leaving = λ h. h }

  finalize-Keeps : (q : ℕ) (s : Pool) → q ≢ p → Keeps s (finalize_process q s)
  unfolding finalize_process
  finalize-Keeps q s other = record {
    lease = λ k h. grind (arith, get-remove);
    leaving = λ h. grind (arith, contains-without);
  }

  -- Every event but a release and the end of p itself keeps p's holder and mark.
  quiet-Keeps :
      (exists : ℕ → Bool) (e : Event) (s : Pool)
      → ((l : Lease) → e ≢ releases l)
      → e ≢ finalizes p
      → Keeps s (step exists e s)
  unfolding step decommission_all
  quiet-Keeps exists (spawns cwd) s a b = spawn-Keeps exists cwd s
  quiet-Keeps exists (acquires cwd) s a b = acquire-Keeps exists cwd s
  quiet-Keeps exists (prewarms cwd) s a b = prewarm-Keeps exists cwd s
  quiet-Keeps exists (evicts cwd) s a b = evict-Keeps cwd s
  quiet-Keeps exists (force_kills q) s a b = force_kill-Keeps q s
  quiet-Keeps exists (times_out q) s a b = decommission-Keeps q s
  quiet-Keeps exists (exits q) s a b = exit-Keeps q s
  quiet-Keeps exists (finalizes q) s a b = finalize-Keeps q s (λ e. b (ap finalizes e))
  quiet-Keeps exists acquires_any s a b = acquire_any-Keeps s
  quiet-Keeps exists decommissions_all s a b = decommission_each-Keeps (all_processes s.pools) 0 0 s
  quiet-Keeps exists (releases l) s a b = absurd (a l refl)

  release-leaving :
      (l : Lease) (s : Pool)
      → contains p s.decommissioning ≡ true
      → contains p (release_lease l s).decommissioning ≡ true
  unfolding release_lease
  release-leaving l s h = ground arith

  release-lease :
      (l k : Lease) (s : Pool)
      → l.id ≢ k.id
      → get p s.leases ≡ some k
      → get p (release_lease l s).leases ≡ some k
  unfolding release_lease
  release-lease l k s other h = grind (arith, get-remove)

-- No event of the history ends the process p, and none releases the lease k.
abbrev pub Spares : ℕ → Lease → List Event → Type 0
Spares p k [] = Unit
Spares p k (releases l ∷ es) = (l.id ≢ k.id) × Spares p k es
Spares p k (e ∷ es) = (e ≢ finalizes p) × Spares p k es

-- No event of the history ends the process p.
abbrev pub Outlived : ℕ → List Event → Type 0
Outlived p [] = Unit
Outlived p (e ∷ es) = (e ≢ finalizes p) × Outlived p es

module _ (exists : ℕ → Bool) (p : ℕ) where
  run-lease :
      (k : Lease) (es : List Event) (s : Pool)
      → Spares p k es
      → get p s.leases ≡ some k
      → get p (run exists es s).leases ≡ some k
  unfolding run
  run-lease k [] s h e = e
  run-lease k (releases l ∷ es) s h e =
      run-lease k es _ h.1 (unfold step in release-lease p l k s h.0 e)
  run-lease k (event ∷ es) s h e =
      run-lease k es _ h.1 ((quiet-Keeps p exists event s (λ l q. cc) h.0).lease k e)

  run-leaving :
      (es : List Event) (s : Pool)
      → Outlived p es
      → contains p s.decommissioning ≡ true
      → contains p (run exists es s).decommissioning ≡ true
  unfolding run
  run-leaving [] s h e = e
  run-leaving (releases l ∷ es) s h e =
      run-leaving es _ h.1 (unfold step in release-leaving p l s e)
  run-leaving (event ∷ es) s h e =
      run-leaving es _ h.1 ((quiet-Keeps p exists event s (λ l q. cc) h.0).leaving e)

  -- A lease is exclusive: as long as it is not released and its process has not ended, no history
  -- lets acquire hand the process out again.
  pub run-exclusive :
      (k l : Lease) (cwd : ℕ) (es : List Event) (s : Pool)
      → get p s.leases ≡ some k
      → Spares p k es
      → (acquire exists cwd (run exists es s)).0 ≡ ok (some l)
      → l.process ≢ p
  unfolding is_leased
  run-exclusive k l cwd es s held h e same =
      let kept = run-lease k es s h held in
      let handed = acquire-Handed exists cwd (run exists es s) l e in
      ground (arith, kept, handed.not_leased, same)

  -- A process that is to be decommissioned is never handed out again, whatever happens until it
  -- ends.
  pub run-decommissioned :
      (l : Lease) (cwd : ℕ) (es : List Event) (s : Pool)
      → is_decommissioning s p ≡ true
      → Outlived p es
      → (acquire exists cwd (run exists es s)).0 ≡ ok (some l)
      → l.process ≢ p
  unfolding is_decommissioning
  run-decommissioned l cwd es s marked h e same =
      let kept = run-leaving es s h marked in
      let handed = acquire-Handed exists cwd (run exists es s) l e in
      ground (arith, kept, handed.not_leaving, same)
