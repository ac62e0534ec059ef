-- ===== src/SrHandler/Tests.antt =====
-- Runs of the handlers, and the theorems at a switch with two ports.
use cs425a_computer_networks.Base.{
  ℕ, ◌≡◌, refl, [], ◌∷◌, none, some, Dict, nat_key, bytes_key, Result, ok, err, attribute_error,
}
use mathlib.Core.List.{Mem}
use cs425a_computer_networks.Bytes.{Bytes}
use cs425a_computer_networks.Text.{split_on, chr_ints, chr_int}
use cs425a_computer_networks.Vns.Messages.{close_msg, packet_msg, new_interface, auth_request_msg}
use cs425a_computer_networks.SrHandler.Listener.{
  write, initial, Payload, message, text, packet_out, done, raised, after, pack_mac, pack_ip,
  PortInfo,
}
use cs425a_computer_networks.SrHandler.Handlers.{
  handle_router_info, router_info_loop, interface_of, handle_packet_msg, handle_sr_packet_in,
  broadcast, handle_recv_msg,
}
use cs425a_computer_networks.SrHandler.Interfaces.{handle_packet_msg-handle_router_info}
use cs425a_computer_networks.SrHandler.Clients.{
  new_client, disconnected, run, broadcast-run, broadcast-writes,
}
use cs425a_computer_networks.SrHandler.Replies.{close_raises}

-- A `send` that writes the frame or the salt, and refuses plain strings.
abbrev send : Payload → Result Bytes
send (message (packet_msg m)) = ok m.ethernet_frame
send (message (auth_request_msg salt)) = ok salt
send (message _) = ok []
send (text t) = err attribute_error

send_refuses_text : (t : Bytes) → send (text t) ≡ err attribute_error
send_refuses_text t = refl

abbrev eth : ℕ → Bytes
eth n = b'e' ∷ b't' ∷ b'h' ∷ n ∷ []

-- "10.0.1.1" and "0:a:ff:0:0:1"
abbrev address : Bytes
address = b'1' ∷ b'0' ∷ b'.' ∷ b'0' ∷ b'.' ∷ b'1' ∷ b'.' ∷ b'1' ∷ []

abbrev hardware : Bytes
hardware = b'0' ∷ b':' ∷ b'a' ∷ b':' ∷ b'f' ∷ b'f' ∷ b':' ∷ b'0' ∷ b':' ∷ b'0' ∷ b':' ∷ b'1' ∷ []

abbrev entry : ℕ → PortInfo
entry n = record { ip = address; mac = hardware; rate = []; port = n }

abbrev two_ports : Dict Bytes PortInfo
two_ports = (eth b'1', entry 1) ∷ (eth b'2', entry 2) ∷ []

mac_bytes : pack_mac hardware ≡ ok (0 ∷ 10 ∷ 255 ∷ 0 ∷ 0 ∷ 1 ∷ [])
unfolding pack_mac chr_ints chr_int split_on
mac_bytes = refl

two_ports_accepted : (handle_router_info two_ports initial).result ≡ ok tt
unfolding handle_router_info router_info_loop interface_of pack_ip pack_mac new_interface chr_ints
    chr_int split_on
two_ports_accepted = refl

handle_packet_msg-handle_router_info_example :
    (handle_packet_msg
        (record { intf_name = eth b'2'; ethernet_frame = 7 ∷ [] })
        (handle_router_info two_ports initial).listener
      ≡ after (packet_out (7 ∷ []) 2 ∷ []) (done (handle_router_info two_ports initial).listener))
    × (handle_sr_packet_in send (7 ∷ []) 2 (handle_router_info two_ports initial).listener
        ≡ broadcast send
            (message (packet_msg (record { intf_name = eth b'2'; ethernet_frame = 7 ∷ [] })))
            (handle_router_info two_ports initial).listener)
handle_packet_msg-handle_router_info_example =
    handle_packet_msg-handle_router_info two_ports initial 1 (eth b'2') (entry 2)
      ((((refl, refl)), tt), (tt, tt)) two_ports_accepted refl send (7 ∷ [])

broadcast-writes_example :
    broadcast send (message (auth_request_msg (9 ∷ []))) initial
    ≡ record { listener = initial; effects = []; result = ok tt }
broadcast-writes_example =
    broadcast-writes send (message (auth_request_msg (9 ∷ []))) initial (9 ∷ []) refl

broadcast-run_example :
    Mem
      (write 5 (9 ∷ []))
      (broadcast send
        (message (auth_request_msg (9 ∷ [])))
        (run send (new_client 5 (9 ∷ []) ∷ disconnected 5 ∷ []) initial)).effects
    × ((broadcast send
          (message (auth_request_msg (9 ∷ [])))
          (run send (new_client 5 (9 ∷ []) ∷ disconnected 5 ∷ []) initial)).result
        ≡ ok tt)
broadcast-run_example =
    broadcast-run send 5 (9 ∷ []) (disconnected 5 ∷ []) initial
      (message (auth_request_msg (9 ∷ []))) (9 ∷ []) refl

close_raises_example :
    (handle_recv_msg send 5 [] none initial ≡ raised initial attribute_error)
    × (handle_recv_msg send 5 [] (some (close_msg [])) initial ≡ raised initial attribute_error)
close_raises_example = close_raises send send_refuses_text 5 [] [] initial
