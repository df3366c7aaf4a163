-- ===== src/Pool/State.antt =====
-- src/server/process-pool.ts: the state of ProcessPool and what it reads off it. A process is named
-- by its id; what the pool asks of a ChildProcess (exitCode, killed) is kept in sets of ids.
use pipane.Base.{
  ℕ, ◌+◌, Bool, not, ◌&&◌, Option, none, some, List, [], ◌∷◌, ◌++◌, if◌then◌else◌, contains,
  is_some,
}
use pipane.Base.Dict.{Dict, get}

-- Exclusive ownership of one process; lease objects are told apart by `id`.
pub record Lease : Type 0 where
  pub id : ℕ
  pub process : ℕ

pub data Signal : Type 0 where
  sigterm sigkill : Signal

pub record Pool : Type 0 where
  pub pools : Dict (List ℕ)
  pub leases : Dict Lease
  pub decommissioning : List ℕ
  pub finalized : List ℕ
  pub next_proc_id : ℕ
  pub max_processes : ℕ
  pub prewarm_count : ℕ
  -- The working directory of each process, and the processes that have exited or were signalled.
  pub cwds : Dict ℕ
  pub exited : List ℕ
  pub killed : List ℕ
  -- The signals sent, the newest first, and the leases whose `released` is set.
  pub signals : List (ℕ × Signal)
  pub released : List ℕ
  pub next_lease : ℕ

pub data Error : Type 0 where
  no_directory not_available : Error

-- `list.find(test)`
unfoldable pub find : (ℕ → Bool) → List ℕ → Option ℕ
find test [] = none
find test (p ∷ ps) = if test p then some p else find test ps

-- `list.filter((proc) => proc.process.exitCode === null).length`
unfoldable pub count_alive : List ℕ → List ℕ → ℕ
count_alive exited [] = 0
count_alive exited (p ∷ ps) =
    let rest = count_alive exited ps in if contains p exited then rest else rest + 1

unfoldable pub count_all : List ℕ → Dict (List ℕ) → ℕ
unfolding count_alive
count_all exited [] = 0
count_all exited ((cwd, ps) ∷ pools) = count_alive exited ps + count_all exited pools

-- totalProcesses
unfoldable pub total_processes : Pool → ℕ
unfolding count_all
total_processes s = count_all s.exited s.pools

-- getAllProcesses
unfoldable pub all_processes : Dict (List ℕ) → List ℕ
all_processes [] = []
all_processes ((cwd, ps) ∷ pools) = ps ++ all_processes pools

-- isLeased
unfoldable pub is_leased : Pool → ℕ → Bool
is_leased s p = is_some (get p s.leases)

-- isDecommissioning
unfoldable pub is_decommissioning : Pool → ℕ → Bool
is_decommissioning s p = contains p s.decommissioning

-- isAvailable
unfoldable pub is_available : Pool → ℕ → Bool
unfolding is_leased is_decommissioning
is_available s p = not (contains p s.exited) && not (is_leased s p) && not (is_decommissioning s p)

-- `pools.get(cwd)`, where a missing pool counts as an empty one.
abbrev pub members : Option (List ℕ) → List ℕ
members none = []
members (some ps) = ps
