-- ===== src/SrHandler/Clients.antt =====
-- Which connections `broadcast` writes to, over any sequence of events.
use cs425a_computer_networks.Base.{
  ℕ, ◌≡◌, refl, ap, ◌∙◌, arith, List, [], ◌∷◌, ◌++◌, map, Option, Bool, Bool-cases, ==→eq, true,
  false, ◌==◌, ◌||◌, Dict, lookup, nat_key, bytes_key, Result, ok, Result-cases, Option-cases, inl,
  inr,
}
use mathlib.Core.List.{Mem, mem-cons_self, mem-cons_of_mem}
use cs425a_computer_networks.Bytes.{Bytes}
use cs425a_computer_networks.Vns.Messages.{Message, VnsInterface}
use cs425a_computer_networks.SrHandler.Listener.{Conn, Listener, Payload, write, Outcome, PortInfo}
use cs425a_computer_networks.SrHandler.Handlers.{
  interface_of, add_port, router_info_loop, handle_router_info, send_then, broadcast_loop,
  broadcast, handle_sr_packet_in, handle_auth_reply, handle_new_client, handle_client_disconnected,
  handle_open_msg, handle_close_msg, handle_packet_msg, handle_recv_msg,
}

-- What the two sides and the connections can do to the listener.
pub data Event : Type 0 where
  new_client : Conn → Bytes → Event
  disconnected : Conn → Event
  received : Conn → Bytes → Option Message → Event
  sr_packet_in : Bytes → ℕ → Event
  router_info : Dict Bytes PortInfo → Event

unfoldable pub contains : Conn → List Conn → Bool
contains c [] = false
contains c (d ∷ ds) = c == d || contains c ds

contains-append :
    (c d : Conn) (cs : List Conn) → contains c cs ≡ true → contains c (cs ++ (d ∷ [])) ≡ true
unfolding contains
contains-append c d [] h = cc
contains-append c d (x ∷ cs) h = ground (arith, contains-append c d cs)

contains-append_self : (c : Conn) (cs : List Conn) → contains c (cs ++ (c ∷ [])) ≡ true
unfolding contains
contains-append_self c [] = ground arith
contains-append_self c (x ∷ cs) = ground (arith, contains-append_self c cs)

Mem-writes :
    (c : Conn) (b : Bytes) (cs : List Conn)
    → contains c cs ≡ true
    → Mem (write c b) (map (λ d. write d b) cs)
unfolding contains
Mem-writes c b [] h = absurd (cc h)
Mem-writes c b (d ∷ ds) h = elim (Bool-cases (c == d)) [
  | inl same ↦ rw (==→eq c d same) mem-cons_self
  | inr other ↦ mem-cons_of_mem (write d b) (Mem-writes c b ds (ground arith))
]

srclients-router_info_loop :
    (d : Dict Bytes PortInfo) (acc : List VnsInterface) (l : Listener)
    → (router_info_loop d acc l).listener.srclients ≡ l.srclients
unfolding router_info_loop
srclients-router_info_loop [] acc l = refl
srclients-router_info_loop ((j, info) ∷ rest) acc l = elim (Result-cases (interface_of j info)) [
  | inl (x, e) ↦
      rw (e, router_info_loop)
        (srclients-router_info_loop rest (acc ++ (x ∷ [])) (add_port j info.port l)
          ∙ (unfold add_port in refl))
  | inr (x, e) ↦ rw (e, router_info_loop) refl
]

module _ (pack_with_header : Payload → Result Bytes) where
  listener-send_then :
      (c : Conn) (p : Payload) (l : Listener) (o : Outcome)
      → o.listener ≡ l
      → (send_then pack_with_header c p l o).listener ≡ l
  unfolding send_then
  listener-send_then c p l o h = ground arith

  listener-broadcast_loop :
      (cs : List Conn) (p : Payload) (l : Listener)
      → (broadcast_loop pack_with_header cs p l).listener ≡ l
  unfolding broadcast_loop
  listener-broadcast_loop [] p l = refl
  listener-broadcast_loop (c ∷ cs) p l = listener-send_then c p l _ (listener-broadcast_loop cs p l)

  module _ (p : Payload) (l : Listener) (b : Bytes) (packed : pack_with_header p ≡ ok b) where
    broadcast_loop-writes :
        (cs : List Conn)
        → broadcast_loop pack_with_header cs p l
          ≡ record { listener = l; effects = map (λ c. write c b) cs; result = ok tt }
    unfolding broadcast_loop send_then
    broadcast_loop-writes [] = refl
    broadcast_loop-writes (c ∷ cs) = ground (arith, broadcast_loop-writes cs)

    -- If the message can be packed, `broadcast` writes it once to every client, in the order in
    -- which they came, does nothing else, and does not raise.
    pub broadcast-writes :
        broadcast pack_with_header p l
        ≡ record { listener = l; effects = map (λ c. write c b) l.srclients; result = ok tt }
    unfolding broadcast
    broadcast-writes = broadcast_loop-writes l.srclients

  -- One event. An exception ends its own handler only.
  unfoldable pub handle : Event → Listener → Outcome
  handle (new_client c salt) l = handle_new_client pack_with_header c salt l
  handle (disconnected c) l = handle_client_disconnected c l
  handle (received c greeting m) l = handle_recv_msg pack_with_header c greeting m l
  handle (sr_packet_in pkt port) l = handle_sr_packet_in pack_with_header pkt port l
  handle (router_info d) l = handle_router_info d l

  unfoldable pub run : List Event → Listener → Listener
  run [] l = l
  run (e ∷ es) l = run es (handle e l).listener

  -- Whatever message the router sends, the listener's state stays as it was.
  pub listener-handle_recv_msg :
      (c : Conn) (greeting : Bytes) (m : Option Message) (l : Listener)
      → (handle_recv_msg pack_with_header c greeting m l).listener ≡ l
  unfolding handle_recv_msg handle_close_msg handle_auth_reply handle_open_msg handle_packet_msg
      send_then
  listener-handle_recv_msg c greeting m l = ground arith

  listener-sr_packet_in :
      (pkt : Bytes) (port : ℕ) (l : Listener)
      → (handle_sr_packet_in pack_with_header pkt port l).listener ≡ l
  unfolding handle_sr_packet_in broadcast
  listener-sr_packet_in pkt port l = elim (Option-cases (lookup port l.port_to_intfname)) [
    | inl e ↦ rw (e, handle_sr_packet_in) refl
    | inr (i, e) ↦ rw (e, handle_sr_packet_in) (listener-broadcast_loop l.srclients _ l)
  ]

  srclients-handle_new_client :
      (c : Conn) (salt : Bytes) (l : Listener)
      → (handle_new_client pack_with_header c salt l).listener.srclients ≡ l.srclients ++ (c ∷ [])
  unfolding handle_new_client
  srclients-handle_new_client c salt l =
      ap (λ (k : Listener). k.srclients) (listener-send_then c _ _ _ refl)

  contains-handle :
      (c : Conn) (e : Event) (l : Listener)
      → contains c l.srclients ≡ true
      → contains c (handle e l).listener.srclients ≡ true
  unfolding handle
  contains-handle c (new_client d salt) l h =
      rw (srclients-handle_new_client d salt l) (contains-append c d l.srclients h)
  contains-handle c (disconnected d) l h = unfold handle_client_disconnected in h
  contains-handle c (received d greeting m) l h = rw (listener-handle_recv_msg d greeting m l) h
  contains-handle c (sr_packet_in pkt port) l h = rw (listener-sr_packet_in pkt port l) h
  contains-handle c (router_info d) l h =
      unfold handle_router_info in rw (srclients-router_info_loop d [] l) h

  contains-run :
      (c : Conn) (es : List Event) (l : Listener)
      → contains c l.srclients ≡ true
      → contains c (run es l).srclients ≡ true
  unfolding run
  contains-run c [] l h = h
  contains-run c (e ∷ es) l h = contains-run c es (handle e l).listener (contains-handle c e l h)

  still_client :
      (c : Conn) (salt : Bytes) (es : List Event) (l : Listener)
      → contains c (run (new_client c salt ∷ es) l).srclients ≡ true
  unfolding run handle
  still_client c salt es l =
      contains-run c es (handle_new_client pack_with_header c salt l).listener
        (rw (srclients-handle_new_client c salt l) (contains-append_self c l.srclients))

  -- A client that has connected is written to by `broadcast` after any further events, its own
  -- disconnection included, if the message can be packed; and then the broadcast does not raise.
  pub broadcast-run :
      (c : Conn) (salt : Bytes) (es : List Event) (l : Listener) (p : Payload) (b : Bytes)
      → pack_with_header p ≡ ok b
      → Mem (write c b) (broadcast pack_with_header p (run (new_client c salt ∷ es) l)).effects
        × ((broadcast pack_with_header p (run (new_client c salt ∷ es) l)).result ≡ ok tt)
  broadcast-run c salt es l p b packed =
      let now = run (new_client c salt ∷ es) l in
      rw (broadcast-writes p now b packed)
        (Mem-writes c b now.srclients (still_client c salt es l), refl)
