-- ===== src/Pool/Exclusive.antt =====
-- Exclusive ownership in src/server/process-pool.ts: whom acquire may hand out, and how long a
-- lease lasts.
use pipane.Base.{
  leb, ℕ, ◌≡◌, ◌≢◌, Bool, false, some, arith, Result, ok, err, contains, inl, inr, Option-cases,
  Bool-cases,
}
use pipane.Base.Dict.{get, get-put}
use pipane.Pool.State.{
  total_processes, Lease, Pool, Error, find, is_leased, is_decommissioning, is_available, members,
}
use pipane.Pool.Operations.{spawn, reserve, as_some, reserve_spawned, acquire}

-- A lease that was handed out over the state s, which became s'.
pub record Handed (l : Lease) (s s' : Pool) : Type 0 where
  pub not_leased : is_leased s l.process ≡ false
  pub not_leaving : is_decommissioning s l.process ≡ false
  pub running : contains l.process s.exited ≡ false
  pub recorded : get l.process s'.leases ≡ some l
  pub others_kept : (p : ℕ) → p ≢ l.process → get p s'.leases ≡ get p s.leases

pub reserve-Handed :
    (p : ℕ) (s : Pool) (l : Lease) → (reserve p s).0 ≡ ok l → Handed l s (reserve p s).1
unfolding reserve is_available
reserve-Handed p s l e = record {
  not_leased = ground arith;
  not_leaving = ground arith;
  running = ground arith;
  recorded = grind (arith, get-put);
  others_kept = λ q other. grind (arith, get-put);
}

pub as_some-ok :
    (r : Result Error Lease × Pool) (l : Lease)
    → (as_some r).0 ≡ ok (some l)
    → (r.0 ≡ ok l) × ((as_some r).1 ≡ r.1)
as_some-ok (ok x, s) l e = ground arith
as_some-ok (err x, s) l e = cc

pub Handed-as_some :
    (r : Result Error Lease × Pool) (s : Pool) (l : Lease)
    → (r.0 ≡ ok l → Handed l s r.1)
    → (as_some r).0 ≡ ok (some l)
    → Handed l s (as_some r).1
Handed-as_some (ok x, t) s l keep e = keep (ground arith)
Handed-as_some (err x, t) s l keep e = absurd (ground arith)

-- What decides on availability is the same in both states.
record SameHolders (s t : Pool) : Type 0 where
  leases : t.leases ≡ s.leases
  decommissioning : t.decommissioning ≡ s.decommissioning
  exited : t.exited ≡ s.exited

spawn-SameHolders : (exists : ℕ → Bool) (cwd : ℕ) (s : Pool) → SameHolders s (spawn exists cwd s).1
unfolding spawn
spawn-SameHolders exists cwd s = ground arith

Handed-SameHolders : (l : Lease) (s t u : Pool) → SameHolders s t → Handed l t u → Handed l s u
unfolding is_leased is_decommissioning
Handed-SameHolders l s t u same h = record {
  not_leased = ground (arith, h.not_leased);
  not_leaving = ground (arith, h.not_leaving);
  running = ground (arith, h.running);
  recorded = h.recorded;
  others_kept = λ p other. ground (arith, h.others_kept p other);
}

reserve_spawned-Handed :
    (r : Result Error ℕ × Pool) (s : Pool) (l : Lease)
    → SameHolders s r.1
    → (reserve_spawned r).0 ≡ ok (some l)
    → Handed l s (reserve_spawned r).1
reserve_spawned-Handed (ok p, t) s l same e =
    Handed-SameHolders l s t _ same (Handed-as_some (reserve p t) t l (reserve-Handed p t l) e)
reserve_spawned-Handed (err x, t) s l same e = absurd (ground arith)

-- Whatever acquire hands out was held by nobody, was not to be decommissioned and had not exited;
-- it is recorded as held by the new lease, and no other lease changes.
pub acquire-Handed :
    (exists : ℕ → Bool) (cwd : ℕ) (s : Pool) (l : Lease)
    → (acquire exists cwd s).0 ≡ ok (some l)
    → Handed l s (acquire exists cwd s).1
unfolding acquire
acquire-Handed exists cwd s l e =
    elim (Option-cases (find (is_available s) (members (get cwd s.pools)))) [
      | inr (p, found) ↦
          rw (found, acquire)
            (Handed-as_some (reserve p s) s l (reserve-Handed p s l) (rw (found, acquire) at e))
      | inl nobody ↦ elim (Bool-cases (leb s.max_processes (total_processes s))) [
        | inl full ↦ ground arith
        | inr room ↦
            rw (nobody, acquire)
              (rw room
                (reserve_spawned-Handed _ s l (spawn-SameHolders exists cwd s) (ground arith)))
      ]
    ]
