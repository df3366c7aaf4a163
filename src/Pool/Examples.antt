-- ===== src/Pool/Examples.antt =====
-- The theorems on src/server/process-pool.ts at a pool of two processes in one directory.
use pipane.Base.{
  without, false, ℕ, ◌≡◌, ◌≢◌, refl, Bool, true, some, List, [], ◌∷◌, ok, arith, contains,
}
use pipane.Base.Dict.{remove, put, get}
use pipane.Pool.State.{
  Lease, Pool, find, count_alive, count_all, total_processes, is_leased, is_decommissioning,
  is_available,
}
use pipane.Pool.Operations.{decommission, kill, exit_process, acquire, reserve, spawn}
use pipane.Pool.History.{Event, acquires, times_out, exits, step, run}
use pipane.Pool.Requests.{
  settle, settle_response, receive_with, receive, Response, send_rpc, Serving, ServingEvent, sends,
  answers, fires, ends, serve, serve_all, channel,
}
use pipane.Pool.Promises.{occurs, Once, new_channel-Once, was_sent}
use pipane.Pool.Settling.{serve_all-Once, at_timeout, serve_all-settled}
use pipane.Pool.Serving.{acquire-ne-timed_out}
use pipane.Pool.Exclusive.{Handed, acquire-Handed}
use pipane.Pool.Tenure.{run-exclusive, run-decommissioned}
use pipane.Pool.Capacity.{WithinLimit, run-WithinLimit}

abbrev everywhere : ℕ → Bool
everywhere cwd = true

abbrev two_idle : Pool
two_idle = record {
  pools = (3, 1 ∷ 2 ∷ []) ∷ [];
  leases = [];
  decommissioning = [];
  finalized = [];
  next_proc_id = 3;
  max_processes = 2;
  prewarm_count = 1;
  cwds = (1, 3) ∷ (2, 3) ∷ [];
  exited = [];
  killed = [];
  signals = [];
  released = [];
  next_lease = 7;
}

abbrev lease_of_1 : Lease
lease_of_1 = record { id = 7; process = 1 }

abbrev one_held : Pool
one_held = record two_idle { leases = (1, lease_of_1) ∷ []; next_lease = 8 }

abbrev one_leaving : Pool
one_leaving = record two_idle { decommissioning = 1 ∷ [] }

handed_out : (acquire everywhere 3 two_idle).0 ≡ ok (some lease_of_1)
unfolding acquire reserve find is_available is_leased is_decommissioning get contains
handed_out = refl

acquire-Handed_example : Handed lease_of_1 two_idle (acquire everywhere 3 two_idle).1
acquire-Handed_example = acquire-Handed everywhere 3 two_idle lease_of_1 handed_out

-- While the process 1 is held, the other is handed out, and a request of it times out.
abbrev busy_day : List Event
busy_day = acquires 4 ∷ exits 2 ∷ times_out 1 ∷ []

first_held : get 1 one_held.leases ≡ some lease_of_1
unfolding get
first_held = refl

abbrev next_lease : Lease
next_lease = record { id = 8; process = 4 }

second_handed_out :
    (acquire everywhere 3 (run everywhere (exits 2 ∷ []) one_held)).0 ≡ ok (some next_lease)
unfolding acquire reserve spawn find total_processes count_all count_alive is_available is_leased
    is_decommissioning get contains run step exit_process put
second_handed_out = refl

run-exclusive_example : next_lease.process ≢ 1
run-exclusive_example =
    run-exclusive everywhere 1 lease_of_1 next_lease 3 (exits 2 ∷ []) one_held first_held
      (λ e. ground arith, tt) second_handed_out

leaving : is_decommissioning one_leaving 1 ≡ true
unfolding is_decommissioning contains
leaving = refl

abbrev lease_of_2 : Lease
lease_of_2 = record { id = 7; process = 2 }

other_handed_out :
    (acquire everywhere 3 (run everywhere (exits 1 ∷ []) one_leaving)).0 ≡ ok (some lease_of_2)
unfolding acquire reserve spawn find total_processes count_all count_alive is_available is_leased
    is_decommissioning get contains run step exit_process put
other_handed_out = refl

run-decommissioned_example : lease_of_2.process ≢ 1
run-decommissioned_example =
    run-decommissioned everywhere 1 lease_of_2 3 (exits 1 ∷ []) one_leaving leaving
      (λ e. ground arith, tt) other_handed_out

two_idle-WithinLimit : WithinLimit two_idle
unfolding total_processes count_all count_alive contains
two_idle-WithinLimit = omega arith

run-WithinLimit_example : WithinLimit (run everywhere busy_day two_idle)
run-WithinLimit_example =
    run-WithinLimit everywhere busy_day two_idle
      ((λ cwd e. ground arith), ((λ cwd e. ground arith), ((λ cwd e. ground arith), tt)))
      two_idle-WithinLimit

abbrev idle : Serving
idle = record { pool = two_idle; channels = [] }

idle-Once : Once (channel 1 idle)
unfolding channel get
idle-Once = new_channel-Once

abbrev reply : Response
reply = record { id = some 1; command = 5; success = true }

-- Two requests to the process 1; the first is answered, and the second times out.
abbrev asked : List ServingEvent
asked = sends 1 5 ∷ sends 1 6 ∷ answers 1 reply ∷ []

serve_all-Once_example : Once (channel 1 (serve_all everywhere asked idle))
serve_all-Once_example = serve_all-Once everywhere 1 asked idle idle-Once

abbrev waiting : Serving
waiting = serve_all everywhere asked idle

second_sent : was_sent 2 (channel 1 waiting) ≡ true
unfolding channel serve_all serve send_rpc receive receive_with settle_response settle get put
    remove contains
second_sent = refl

serve_all-settled_example :
    occurs 2 (channel 1 (serve_all everywhere (fires 1 2 ∷ ends 1 ∷ []) waiting)).settled ≡ 1
serve_all-settled_example =
    serve_all-settled everywhere 1 2 (fires 1 2) (ends 1 ∷ []) waiting serve_all-Once_example
      second_sent at_timeout

second_waits : contains 2 (channel 1 waiting).timers ≡ true
unfolding channel serve_all serve send_rpc receive receive_with settle_response settle get put
    remove contains without
second_waits = refl

still_runs : contains 1 waiting.pool.exited ≡ false
unfolding serve_all serve contains
still_runs = refl

abbrev afterwards : List ServingEvent
afterwards = sends 1 5 ∷ answers 1 reply ∷ []

other_process :
    (acquire everywhere 3
      (serve_all everywhere afterwards (serve everywhere (fires 1 2) waiting)).pool).0
    ≡ ok (some lease_of_2)
unfolding acquire reserve spawn find total_processes count_all count_alive is_available is_leased
    is_decommissioning get contains put channel serve_all serve send_rpc receive receive_with
    settle_response settle remove without decommission kill
other_process = refl

acquire-ne-timed_out_example : lease_of_2.process ≢ 1
acquire-ne-timed_out_example =
    acquire-ne-timed_out everywhere 1 2 3 lease_of_2 afterwards waiting second_waits still_runs
      ((λ e. ground arith), ((λ e. ground arith), tt)) other_process
