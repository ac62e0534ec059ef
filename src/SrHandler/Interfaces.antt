-- ===== src/SrHandler/Interfaces.antt =====
-- The two maps between interface names and switch ports, after a `RouterInfo` event.
use cs425a_computer_networks.Base.{
  ℕ, zero, suc, ◌≡◌, refl, List, [], ◌∷◌, ◌++◌, some, false, ◌==◌, list_eq, All, get_elem?, Dict,
  lookup, lookup-insert, lookup-insert_self, nat_key, bytes_key, ap, Error, Result, Result-cases,
  ok, err, inl, inr,
}
use cs425a_computer_networks.Bytes.{Bytes}
use cs425a_computer_networks.Vns.Messages.{VnsInterface, packet_msg}
use cs425a_computer_networks.SrHandler.Listener.{
  Listener, Outcome, done, raised, after, packet_out, PortInfo, Payload, message,
}
use cs425a_computer_networks.SrHandler.Handlers.{
  interface_of, add_port, router_info_loop, handle_router_info, handle_packet_msg,
  handle_sr_packet_in, broadcast,
}

-- Each of the two maps has the pair.
pub record Binds (intf : Bytes) (port : ℕ) (l : Listener) : Type 0 where
  pub forth : lookup intf l.intfname_to_port ≡ some port
  pub back : lookup port l.port_to_intfname ≡ some intf

-- No entry has this name or this port.
abbrev pub Apart : Bytes → ℕ → Dict Bytes PortInfo → Type 0
Apart intf port = All (λ e. (list_eq e.0 intf ≡ false) × ((e.1.port == port) ≡ false))

-- The names are distinct, and so are the ports.
abbrev pub Distinct : Dict Bytes PortInfo → Type 0
Distinct [] = Unit {0}
Distinct ((intf, info) ∷ rest) = Apart intf info.port rest × Distinct rest

add_port-Binds_self :
    (intf : Bytes) (port : ℕ) (l : Listener) → Binds intf port (add_port intf port l)
unfolding add_port
add_port-Binds_self intf port l = record {
  forth = lookup-insert_self intf port l.intfname_to_port;
  back = lookup-insert_self port intf l.port_to_intfname;
}

add_port-Binds :
    (i j : Bytes) (p q : ℕ) (l : Listener)
    → list_eq j i ≡ false
    → (q == p) ≡ false
    → Binds i p l
    → Binds i p (add_port j q l)
unfolding add_port
add_port-Binds i j p q l hi hp b = record {
  forth = rw (lookup-insert j i q l.intfname_to_port, hi) b.forth;
  back = rw (lookup-insert q p j l.port_to_intfname, hp) b.back;
}

module _ (j : Bytes) (info : PortInfo) (rest : Dict Bytes PortInfo) (acc : List VnsInterface)
    (l : Listener) where
  pub loop_ok :
      (x : VnsInterface)
      → interface_of j info ≡ ok x
      → router_info_loop ((j, info) ∷ rest) acc l
        ≡ router_info_loop rest (acc ++ (x ∷ [])) (add_port j info.port l)
  unfolding router_info_loop
  loop_ok x e = rw (e, router_info_loop) refl

  loop_err :
      (x : Error)
      → interface_of j info ≡ err x
      → router_info_loop ((j, info) ∷ rest) acc l ≡ raised l x
  unfolding router_info_loop
  loop_err x e = rw (e, router_info_loop) refl

-- What the loop records later does not touch a pair that it does not name.
router_info_loop-Binds :
    (d : Dict Bytes PortInfo) (acc : List VnsInterface) (l : Listener) (i : Bytes) (p : ℕ)
    → Apart i p d
    → Binds i p l
    → Binds i p (router_info_loop d acc l).listener
router_info_loop-Binds [] acc l i p h b =
    unfold router_info_loop in record { forth = b.forth; back = b.back }
router_info_loop-Binds ((j, info) ∷ rest) acc l i p ((hi, hp), h) b =
    elim (Result-cases (interface_of j info)) [
      | inl (x, e) ↦ rw (loop_ok j info rest acc l x e) (
          router_info_loop-Binds rest (acc ++ (x ∷ [])) (add_port j info.port l) i p h
            (add_port-Binds i j p info.port l hi hp b))
      | inr (x, e) ↦ rw (loop_err j info rest acc l x e) b
    ]

router_info_loop-entries :
    (d : Dict Bytes PortInfo) (acc : List VnsInterface) (l : Listener) (k : ℕ) (i : Bytes)
    (info : PortInfo)
    → Distinct d
    → (router_info_loop d acc l).result ≡ ok tt
    → get_elem? d k ≡ some (i, info)
    → Binds i info.port (router_info_loop d acc l).listener
router_info_loop-entries [] acc l k i info h r g = cc
router_info_loop-entries ((j, info') ∷ rest) acc l zero i info (apart, h) r g =
    elim (Result-cases (interface_of j info')) [
      | inl (x, e) ↦ rw (loop_ok j info' rest acc l x e) (
          let ej : j ≡ i = cc in
          let ei : info' ≡ info = cc in
          rw (← ej, ← ei)
            (router_info_loop-Binds rest (acc ++ (x ∷ [])) (add_port j info'.port l) j info'.port
              apart (add_port-Binds_self j info'.port l)))
      | inr (x, e) ↦ cc (ap (λ (o : Outcome). o.result) (loop_err j info' rest acc l x e))
    ]
router_info_loop-entries ((j, info') ∷ rest) acc l (suc k) i info (apart, h) r g =
    elim (Result-cases (interface_of j info')) [
      | inl (x, e) ↦ rw (loop_ok j info' rest acc l x e) (
          router_info_loop-entries rest (acc ++ (x ∷ [])) (add_port j info'.port l) k i info h
            (rw (loop_ok j info' rest acc l x e) at r) g)
      | inr (x, e) ↦ cc (ap (λ (o : Outcome). o.result) (loop_err j info' rest acc l x e))
    ]

module _ (info : Dict Bytes PortInfo) (l : Listener) (k : ℕ) (intf : Bytes) (entry : PortInfo)
    (distinct : Distinct info) (accepted : (handle_router_info info l).result ≡ ok tt)
    (at_k : get_elem? info k ≡ some (intf, entry)) where
  registered : Binds intf entry.port (handle_router_info info l).listener
  registered =
      unfold handle_router_info in
      router_info_loop-entries info [] l k intf entry distinct accepted at_k

  -- After a `RouterInfo` event whose names and ports are distinct and which was taken in without
  -- an exception: a frame that a router sends to an interface of the event goes out of the port of
  -- that interface and has no other effect, and a frame that comes in at this port is broadcast
  -- under the interface's name.
  pub handle_packet_msg-handle_router_info :
      (pack_with_header : Payload → Result Bytes) (frame : Bytes)
      → (handle_packet_msg
            (record { intf_name = intf; ethernet_frame = frame })
            (handle_router_info info l).listener
          ≡ after (packet_out frame entry.port ∷ []) (done (handle_router_info info l).listener))
        × (handle_sr_packet_in pack_with_header frame entry.port
              (handle_router_info info l).listener
            ≡ broadcast pack_with_header
                (message (packet_msg (record { intf_name = intf; ethernet_frame = frame })))
                (handle_router_info info l).listener)
  handle_packet_msg-handle_router_info pack_with_header frame = (
    unfold handle_packet_msg in rw (registered.forth, handle_packet_msg) refl,
    unfold handle_sr_packet_in in rw (registered.back, handle_sr_packet_in) refl,
  )
