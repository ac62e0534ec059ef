-- ===== src/IoWorker/Tests.antt =====
-- A worker whose socket takes three bytes, and the theorem at it.
use cs425a_computer_networks.Base.{◌≡◌, refl, List, [], ◌∷◌, ok}
use cs425a_computer_networks.IoWorker.{
  new_worker, worker_send, consume_send_buf, written, write_ready,
}
use cs425a_computer_networks.IoWorker.Stream.{
  WorkerEvent, client_sends, socket_takes, run_worker, all_sent, run_worker_lem,
}

abbrev events : List WorkerEvent
events = client_sends (1 ∷ 2 ∷ []) ∷ client_sends (3 ∷ 4 ∷ []) ∷ socket_takes 3 ∷ []

three_left :
    run_worker events new_worker
    ≡ ok (1 ∷ 2 ∷ 3 ∷ [], record { send_buf = 4 ∷ []; receive_buf = [] })
unfolding run_worker worker_send write_ready written consume_send_buf
three_left = refl

run_worker_lem_example : 1 ∷ 2 ∷ 3 ∷ 4 ∷ [] ≡ all_sent events
run_worker_lem_example =
    run_worker_lem events new_worker
      (1 ∷ 2 ∷ 3 ∷ [], record { send_buf = 4 ∷ []; receive_buf = [] }) three_left
