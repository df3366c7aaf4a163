-- ===== src/Pool/Requests.antt =====
-- The requests that src/server/process-pool.ts sends to its processes: sendRpc, the handling of a
-- response, and the pool's part in a timeout and at the end of a process. The id `req_n` is the number
-- n, and a command is its type; what a command says is left out.
use pipane.Base.{
  ℕ, ◌+◌, Bool, Option, none, some, List, [], ◌∷◌, ◌==◌, if◌then◌else◌, contains, without,
}
use pipane.Base.Dict.{Dict, get, put, remove}
use pipane.Pool.State.{Pool}
use pipane.Pool.Operations.{decommission, finalize_process}
use pipane.Pool.History.{Event}
use pipane.Pool.History

pub record Response : Type 0 where
  pub id : Option ℕ
  pub command : ℕ
  pub success : Bool

-- How the promise of a request ends.
pub data Outcome : Type 0 where
  resolved : Response → Outcome
  mismatched timed_out ended : Outcome

-- What a RpcProcess has of requests. `timers` are those that still run, `written` what went to the
-- process, and `settled` the promises that have ended, the newest first.
pub record Channel : Type 0 where
  pub pending : Dict ℕ
  pub request_id : ℕ
  pub timers : List ℕ
  pub written : List (ℕ × ℕ)
  pub settled : List (ℕ × Outcome)

abbrev pub new_channel : Channel
new_channel = record { pending = []; request_id = 0; timers = []; written = []; settled = [] }

-- sendRpc, to a process that has not exited.
unfoldable pub send_rpc : ℕ → Channel → Channel
send_rpc command c =
    let id = c.request_id + 1 in
    record c {
      request_id = id;
      pending = put id command c.pending;
      timers = id ∷ c.timers;
      written = (id, command) ∷ c.written;
    }

-- A promise ends: its timer is stopped.
unfoldable pub settle : ℕ → Outcome → Channel → Channel
settle id outcome c = record c { timers = without id c.timers; settled = (id, outcome) ∷ c.settled }

-- The response to a pending request.
unfoldable pub settle_response : ℕ → Response → Option ℕ → Channel → Channel
settle_response id r none c = c
settle_response id r (some command) c =
    settle id (if r.command == command then resolved r else mismatched)
      (record c { pending = remove id c.pending })

unfoldable pub receive_with : Option ℕ → Response → Channel → Channel
receive_with none r c = c
receive_with (some id) r c = settle_response id r (get id c.pending) c

-- The reader of stdout, for a response.
unfoldable pub receive : Response → Channel → Channel
receive r c = receive_with r.id r c

-- The timer of sendRpc fires.
unfoldable pub expire : ℕ → Channel → Channel
expire id c = settle id timed_out (record c { pending = remove id c.pending })

-- `for (const pending of proc.pendingRequests.values()) pending.reject(error)`
unfoldable pub reject_each : Dict ℕ → Channel → Channel
reject_each [] c = c
reject_each ((id, command) ∷ entries) c = reject_each entries (settle id ended c)

-- The requests' part of finalizeProcess.
unfoldable pub reject_all : Channel → Channel
reject_all c = let rejected = reject_each c.pending c in record rejected { pending = [] }

-- The pool with the channels of its processes.
pub record Serving : Type 0 where
  pub pool : Pool
  pub channels : Dict Channel

abbrev or_new : Option Channel → Channel
or_new none = new_channel
or_new (some c) = c

-- The channel of a process. A process starts with a new one.
unfoldable pub channel : ℕ → Serving → Channel
channel p s = or_new (get p s.channels)

abbrev pub update : ℕ → (Channel → Channel) → Serving → Serving
update p f s = record s { channels = put p (f (channel p s)) s.channels }

-- What happens to the pool and its processes. After the end of a process its stdout is not read.
pub data ServingEvent : Type 0 where
  pool_does : Event → ServingEvent
  sends : (process command : ℕ) → ServingEvent
  answers : (process : ℕ) → Response → ServingEvent
  fires : (process id : ℕ) → ServingEvent
  ends : (process : ℕ) → ServingEvent

-- The pool's own calls; the end of a process has an event of its own.
unfoldable pub pool_call : (ℕ → Bool) → Event → Pool → Pool
pool_call exists (History.finalizes p) s = s
pool_call exists e s = History.step exists e s

module _ (exists : ℕ → Bool) where
  unfoldable pub serve : ServingEvent → Serving → Serving
  serve (pool_does e) s = record s { pool = pool_call exists e s.pool }
  serve (sends p command) s = if contains p s.pool.exited then s else update p (send_rpc command) s
  serve (answers p r) s = if contains p s.pool.finalized then s else update p (receive r) s
  serve (fires p id) s =
      if contains id (channel p s).timers
      then update p (expire id) (record s { pool = (decommission p s.pool).1 })
      else s
  serve (ends p) s =
      if contains p s.pool.finalized
      then s
      else update p reject_all (record s { pool = finalize_process p s.pool })

  unfoldable pub serve_all : List ServingEvent → Serving → Serving
  serve_all [] s = s
  serve_all (e ∷ es) s = serve_all es (serve e s)
