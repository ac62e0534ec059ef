-- ===== src/IoWorker/Stream.antt =====
-- The bytes that a client sends through a worker, and those that leave it.
use cs425a_computer_networks.Base.{
  ℕ, ◌≡◌, refl, sym, ap, ◌∙◌, List, [], ◌∷◌, ◌++◌, ltb, Bool-cases, inl, inr, length, take, drop,
  take-append-drop, Result, ok, ◌>>=◌, >>=-eq-ok, ok-injective,
}
use mathlib.Core.Path.{subst}
use mathlib.Core.List.{append-nil, append_assoc}
use cs425a_computer_networks.Bytes.{Bytes}
use cs425a_computer_networks.IoWorker.{Worker, worker_send, consume_send_buf, written, write_ready}

-- What happens to the send buffer.
pub data WorkerEvent : Type 0 where
  client_sends : Bytes → WorkerEvent
  socket_takes : ℕ → WorkerEvent

-- The bytes that left and the worker, after the events.
unfoldable pub run_worker : List WorkerEvent → Worker → Result (Bytes × Worker)
run_worker [] w = ok ([], w)
run_worker (client_sends bytes ∷ es) w = run_worker es (worker_send bytes w)
run_worker (socket_takes l ∷ es) w = do
  (now, w') ← write_ready l w
  (later, w'') ← run_worker es w'
  ok (now ++ later, w'')

-- All that the client has sent.
unfoldable pub all_sent : List WorkerEvent → Bytes
all_sent [] = []
all_sent (client_sends bytes ∷ es) = bytes ++ all_sent es
all_sent (socket_takes l ∷ es) = all_sent es

consume_send_buf_lem :
    (l : ℕ) (w w' : Worker)
    → consume_send_buf l w ≡ ok w'
    → take l w.send_buf ++ w'.send_buf ≡ w.send_buf
unfolding consume_send_buf
consume_send_buf_lem l w w' h = elim (Bool-cases (ltb (length w.send_buf) l)) [
  | inl y ↦ absurd (cc (rw y at h))
  | inr n ↦
      let same : drop l w.send_buf ≡ w'.send_buf =
        ap (λ (v : Worker). v.send_buf) (ok-injective (rw n at h)) in
      rw (sym same) (take-append-drop l w.send_buf)
]

write_ready_lem :
    (l : ℕ) (w : Worker) (out : Bytes × Worker)
    → write_ready l w ≡ ok out
    → out.0 ++ out.1.send_buf ≡ w.send_buf
unfolding write_ready written
write_ready_lem l w out h = elim (Bool-cases (ltb 0 l)) [
  | inr n ↦
      subst (λ (o : Bytes × Worker). o.0 ++ o.1.send_buf ≡ w.send_buf) (ok-injective (rw n at h))
        refl
  | inl y ↦
      let (w', e, k) = >>=-eq-ok (consume_send_buf l w) _ (rw y at h) in
      subst (λ (o : Bytes × Worker). o.0 ++ o.1.send_buf ≡ w.send_buf) (ok-injective k)
        (consume_send_buf_lem l w w' e)
]

-- Over any sends of the client and writes of the select loop that raise nothing, the bytes that
-- left and those that still wait are together what was waiting at first and then what the client
-- has sent, in order.
pub run_worker_lem :
    (es : List WorkerEvent) (w : Worker) (out : Bytes × Worker)
    → run_worker es w ≡ ok out
    → out.0 ++ out.1.send_buf ≡ w.send_buf ++ all_sent es
unfolding run_worker all_sent worker_send
run_worker_lem [] w out h =
    subst (λ (o : Bytes × Worker). o.0 ++ o.1.send_buf ≡ w.send_buf ++ []) (ok-injective h)
      (sym (append-nil w.send_buf))
run_worker_lem (client_sends bytes ∷ es) w out h =
    run_worker_lem es (record w { send_buf = w.send_buf ++ bytes }) out h
    ∙ append_assoc w.send_buf bytes (all_sent es)
run_worker_lem (socket_takes l ∷ es) w out h =
    let (now, e1, h1) = >>=-eq-ok (write_ready l w) _ h in
    let (later, e2, h2) = >>=-eq-ok (run_worker es now.1) _ h1 in
    subst (λ (o : Bytes × Worker). o.0 ++ o.1.send_buf ≡ w.send_buf ++ all_sent es)
      (ok-injective h2)
      (append_assoc now.0 later.0 later.1.send_buf
        ∙ ap (λ r. now.0 ++ r) (run_worker_lem es now.1 later e2)
        ∙ sym (append_assoc now.0 now.1.send_buf (all_sent es))
        ∙ ap (λ r. r ++ all_sent es) (write_ready_lem l w now e1))
