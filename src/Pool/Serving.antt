-- ===== src/Pool/Serving.antt =====
-- The pool of src/server/process-pool.ts under the requests that it serves: what a timeout does to the
-- process.
use pipane.Base.{
  contains-cons, if◌then◌else◌, ap, ◌∙◌, ℕ, ◌≡◌, ◌≢◌, refl, true, false, Bool, some, List, [], ◌∷◌,
  ◌++◌, arith, inl, inr, Bool-cases, contains, ok, sym, subst,
}
use pipane.Pool.State.{Lease, Pool, is_decommissioning}
use pipane.Pool.Operations.{acquire, decommission, kill, finalize_process}
use pipane.Pool.History.{
  Event, spawns, acquires, prewarms, evicts, force_kills, times_out, exits, finalizes, acquires_any,
  decommissions_all, releases, run,
}
use pipane.Pool.History
use pipane.Pool.Tenure.{Outlived, run-decommissioned}
use pipane.Pool.Requests.{
  Serving, channel, ServingEvent, pool_does, sends, answers, fires, ends, pool_call, serve,
  serve_all,
}

-- The calls of the pool that a history of events comes to.
abbrev pub calls_of : ServingEvent → Serving → List Event
calls_of (pool_does (finalizes p)) s = []
calls_of (pool_does e) s = e ∷ []
calls_of (sends p command) s = []
calls_of (answers p r) s = []
calls_of (fires p id) s = if contains id (channel p s).timers then times_out p ∷ [] else []
calls_of (ends p) s = finalizes p ∷ []

-- No event of the list is the end of p.
abbrev pub Survives : ℕ → List ServingEvent → Type 0
Survives p [] = Unit
Survives p (e ∷ es) = (e ≢ ends p) × Survives p es

Outlived-append :
    (p : ℕ) (xs ys : List Event) → Outlived p xs → Outlived p ys → Outlived p (xs ++ ys)
Outlived-append p [] ys h k = k
Outlived-append p (x ∷ xs) ys h k = (h.0, Outlived-append p xs ys h.1 k)

calls_of-Outlived :
    (p : ℕ) (e : ServingEvent) (s : Serving) → e ≢ ends p → Outlived p (calls_of e s)
calls_of-Outlived p (pool_does (finalizes q)) s h = tt
calls_of-Outlived p (pool_does (spawns cwd)) s h = ((λ x. cc), tt)
calls_of-Outlived p (pool_does (acquires cwd)) s h = ((λ x. cc), tt)
calls_of-Outlived p (pool_does (prewarms cwd)) s h = ((λ x. cc), tt)
calls_of-Outlived p (pool_does (evicts cwd)) s h = ((λ x. cc), tt)
calls_of-Outlived p (pool_does (force_kills q)) s h = ((λ x. cc), tt)
calls_of-Outlived p (pool_does (times_out q)) s h = ((λ x. cc), tt)
calls_of-Outlived p (pool_does (exits q)) s h = ((λ x. cc), tt)
calls_of-Outlived p (pool_does acquires_any) s h = ((λ x. cc), tt)
calls_of-Outlived p (pool_does decommissions_all) s h = ((λ x. cc), tt)
calls_of-Outlived p (pool_does (releases l)) s h = ((λ x. cc), tt)
calls_of-Outlived p (sends q command) s h = tt
calls_of-Outlived p (answers q r) s h = tt
calls_of-Outlived p (fires q id) s h = elim (Bool-cases (contains id (channel q s).timers)) [
  | inl runs ↦ rw (runs, calls_of) ((λ x. cc), tt)
  | inr stopped ↦ rw (stopped, calls_of) tt
]
calls_of-Outlived p (ends q) s h = ((λ x. h (ground arith)), tt)

module _ (exists : ℕ → Bool) where
  ends-calls : (q : ℕ) (s : Serving) → (serve exists (ends q) s).pool ≡ finalize_process q s.pool
  unfolding serve finalize_process
  ends-calls q s = elim (Bool-cases (contains q s.pool.finalized)) [
    | inl gone ↦ rw gone refl
    | inr there ↦ rw there refl
  ]

  serve-calls :
      (e : ServingEvent) (s : Serving) → (serve exists e s).pool ≡ run exists (calls_of e s) s.pool
  unfolding serve run pool_call History.step
  serve-calls (pool_does (finalizes q)) s = refl
  serve-calls (pool_does (spawns cwd)) s = refl
  serve-calls (pool_does (acquires cwd)) s = refl
  serve-calls (pool_does (prewarms cwd)) s = refl
  serve-calls (pool_does (evicts cwd)) s = refl
  serve-calls (pool_does (force_kills q)) s = refl
  serve-calls (pool_does (times_out q)) s = refl
  serve-calls (pool_does (exits q)) s = refl
  serve-calls (pool_does acquires_any) s = refl
  serve-calls (pool_does decommissions_all) s = refl
  serve-calls (pool_does (releases l)) s = refl
  serve-calls (sends q command) s = ground arith
  serve-calls (answers q r) s = ground arith
  serve-calls (fires q id) s = elim (Bool-cases (contains id (channel q s).timers)) [
    | inl runs ↦ rw (runs, serve) refl
    | inr stopped ↦ rw (stopped, serve) refl
  ]
  serve-calls (ends q) s = ends-calls q s

  run-append :
      (xs ys : List Event) (s : Pool) → run exists (xs ++ ys) s ≡ run exists ys (run exists xs s)
  unfolding run
  run-append [] ys s = refl
  run-append (x ∷ xs) ys s = run-append xs ys (History.step exists x s)

  -- The calls that a history comes to.
  abbrev calls : List ServingEvent → Serving → List Event
  calls [] s = []
  calls (e ∷ es) s = calls_of e s ++ calls es (serve exists e s)

  serve_all-calls :
      (es : List ServingEvent) (s : Serving)
      → (serve_all exists es s).pool ≡ run exists (calls es s) s.pool
  unfolding serve_all run
  serve_all-calls [] s = refl
  serve_all-calls (e ∷ es) s =
      serve_all-calls es (serve exists e s)
      ∙ ap (run exists (calls es (serve exists e s))) (serve-calls e s)
      ∙ sym (run-append (calls_of e s) (calls es (serve exists e s)) s.pool)

  calls-Outlived :
      (p : ℕ) (es : List ServingEvent) (s : Serving) → Survives p es → Outlived p (calls es s)
  calls-Outlived p [] s h = tt
  calls-Outlived p (e ∷ es) s h =
      Outlived-append p (calls_of e s) (calls es (serve exists e s)) (calls_of-Outlived p e s h.0)
        (calls-Outlived p es (serve exists e s) h.1)

  fires-decommissioned :
      (p id : ℕ) (s : Serving)
      → contains id (channel p s).timers ≡ true
      → contains p s.pool.exited ≡ false
      → is_decommissioning (serve exists (fires p id) s).pool p ≡ true
  unfolding serve is_decommissioning decommission kill
  fires-decommissioned p id s runs alive =
      rw (runs, serve) (ground (arith, alive, contains-cons p p s.pool.decommissioning))

  -- After a request to a running process has timed out, the process is never handed out by acquire,
  -- whatever happens until the process ends.
  pub acquire-ne-timed_out :
      (p id cwd : ℕ) (l : Lease) (es : List ServingEvent) (s : Serving)
      → contains id (channel p s).timers ≡ true
      → contains p s.pool.exited ≡ false
      → Survives p es
      → (acquire exists cwd (serve_all exists es (serve exists (fires p id) s)).pool).0
        ≡ ok (some l)
      → l.process ≢ p
  acquire-ne-timed_out p id cwd l es s runs alive h handed =
      let after = serve exists (fires p id) s in
      run-decommissioned exists p l cwd (calls es after) after.pool
        (fires-decommissioned p id s runs alive) (calls-Outlived p es after h)
        (subst (λ x. (acquire exists cwd x).0 ≡ ok (some l)) (serve_all-calls es after) handed)
