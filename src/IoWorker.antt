-- ===== src/IoWorker.antt =====
-- `IOWorker` of Project-4/pox/pox/lib/ioworker/io_worker.py, and what the select loop does with its
-- send buffer: the operating system says how many bytes it takes.
pub mod Stream
mod Tests
use cs425a_computer_networks.Base.{
  ℕ, List, [], ◌∷◌, ◌++◌, ltb, if◌then◌else◌, length, take, drop, Result, ok, err, ◌>>=◌,
  assertion_error,
}
use cs425a_computer_networks.Bytes.{Bytes}

pub record Worker : Type 0 where
  pub send_buf : Bytes
  pub receive_buf : Bytes

abbrev pub new_worker : Worker
new_worker = record { send_buf = []; receive_buf = [] }

unfoldable pub worker_send : Bytes → Worker → Worker
worker_send bytes w = record w { send_buf = w.send_buf ++ bytes }

-- `_push_receive_data`, less the call of the handler.
unfoldable pub push_receive_data : Bytes → Worker → Worker
push_receive_data bytes w = record w { receive_buf = w.receive_buf ++ bytes }

unfoldable pub consume_receive_buf : ℕ → Worker → Result Worker
consume_receive_buf l w =
    if ltb (length w.receive_buf) l
    then err assertion_error
    else ok (record w { receive_buf = drop l w.receive_buf })

unfoldable pub consume_send_buf : ℕ → Worker → Result Worker
consume_send_buf l w =
    if ltb (length w.send_buf) l
    then err assertion_error
    else ok (record w { send_buf = drop l w.send_buf })

unfoldable pub written : ℕ → Worker → Result (Bytes × Worker)
written l w = do w' ← consume_send_buf l w; ok (take l w.send_buf, w')

-- The select loop on a worker that is ready: `l` is what `socket.send(send_buf)` returned. The
-- bytes that left, and the worker.
unfoldable pub write_ready : ℕ → Worker → Result (Bytes × Worker)
write_ready l w = if ltb 0 l then written l w else ok ([], w)
