-- ===== src/SrHandler/Handlers.antt =====
-- The handlers of `SRServerListener`, in the order of srhandler.py.
use cs425a_computer_networks.Base.{
  ℕ, List, [], ◌∷◌, ◌++◌, Option, none, some, Dict, lookup, insert, Result, ok, err, name_error,
  attribute_error, true, ◌>>=◌, nat_key, bytes_key,
}
use cs425a_computer_networks.Bytes.{Bytes}
use cs425a_computer_networks.Vns.Messages.{
  Message, VnsInterface, VnsPacket, new_interface, open_msg, close_msg, packet_msg,
  open_template_msg, auth_reply_msg, auth_request_msg, auth_status_msg, hardware_info_msg,
}
use cs425a_computer_networks.SrHandler.Listener.{
  Conn, Listener, Payload, message, text, write, lose_connection, packet_out, Outcome, done, raised,
  after, pack_mac, pack_ip, PortInfo,
}

-- '255.255.255.255'
abbrev pub host_mask : Bytes
host_mask =
    b'2' ∷ b'5' ∷ b'5' ∷ b'.' ∷ b'2' ∷ b'5' ∷ b'5' ∷ b'.' ∷ b'2' ∷ b'5' ∷ b'5' ∷ b'.' ∷ b'2' ∷ b'5'
    ∷ b'5' ∷ []

-- "Goodbyte!"
abbrev pub goodbyte : Bytes
goodbyte = b'G' ∷ b'o' ∷ b'o' ∷ b'd' ∷ b'b' ∷ b'y' ∷ b't' ∷ b'e' ∷ b'!' ∷ []

-- One round of the loop of `_handle_RouterInfo`: the interface that it appends.
unfoldable pub interface_of : Bytes → PortInfo → Result VnsInterface
interface_of intf info = do
  ip ← pack_ip info.ip
  mac ← pack_mac info.mac
  mask ← pack_ip host_mask
  new_interface intf mac ip mask

-- `self.intfname_to_port[intf] = port` and the other way round
unfoldable pub add_port : Bytes → ℕ → Listener → Listener
add_port intf port l = record l {
  intfname_to_port = insert intf port l.intfname_to_port;
  port_to_intfname = insert port intf l.port_to_intfname;
}

-- The loop: `acc` is `interfaces`. The ports that came before an exception stay recorded.
unfoldable pub router_info_loop : Dict Bytes PortInfo → List VnsInterface → Listener → Outcome
router_info_loop [] acc l = done (record l { interfaces = some acc })
router_info_loop ((intf, info) ∷ rest) acc l = elim (interface_of intf info) [
  | err e ↦ raised l e
  | ok i ↦ router_info_loop rest (acc ++ (i ∷ [])) (add_port intf info.port l)
]

unfoldable pub handle_router_info : Dict Bytes PortInfo → Listener → Outcome
handle_router_info info l = router_info_loop info [] l

unfoldable pub handle_client_disconnected : Conn → Listener → Outcome
handle_client_disconnected conn l = after (lose_connection conn ∷ []) (done l)

-- The handler of the KeyError reads `out_port`, which has no value then.
unfoldable pub handle_packet_msg : VnsPacket → Listener → Outcome
handle_packet_msg m l = elim (lookup m.intf_name l.intfname_to_port) [
  | none ↦ raised l name_error
  | some out_port ↦ after (packet_out m.ethernet_frame out_port ∷ []) (done l)
]

-- `pack_with_header` is what `conn.send` writes for its argument, or the exception that it raises.
module _ (pack_with_header : Payload → Result Bytes) where
  -- `conn.send(p)`, then the rest of the handler
  unfoldable pub send_then : Conn → Payload → Listener → Outcome → Outcome
  send_then conn p l rest = elim (pack_with_header p) [
    | ok b ↦ after (write conn b ∷ []) rest
    | err e ↦ raised l e
  ]

  unfoldable pub broadcast_loop : List Conn → Payload → Listener → Outcome
  broadcast_loop [] p l = done l
  broadcast_loop (client ∷ rest) p l =
      let others = broadcast_loop rest p l in send_then client p l others

  unfoldable pub broadcast : Payload → Listener → Outcome
  broadcast p l = broadcast_loop l.srclients p l

  unfoldable pub handle_sr_packet_in : Bytes → ℕ → Listener → Outcome
  handle_sr_packet_in pkt port l = elim (lookup port l.port_to_intfname) [
    | none ↦ done l
    | some intfname ↦
        broadcast (message (packet_msg (record { intf_name = intfname; ethernet_frame = pkt }))) l
  ]

  unfoldable pub handle_auth_reply : Conn → Bytes → Listener → Outcome
  handle_auth_reply conn msg l =
      send_then conn (message (auth_status_msg (record { auth_ok = true; msg = msg }))) l (done l)

  -- `salt` is what `os.urandom(20)` returned.
  unfoldable pub handle_new_client : Conn → Bytes → Listener → Outcome
  handle_new_client conn salt l =
      let l' : Listener = record l { srclients = l.srclients ++ (conn ∷ []) } in
      send_then conn (message (auth_request_msg salt)) l' (done l')

  -- The bare `except` catches the missing attribute and whatever `send` raises.
  unfoldable pub handle_open_msg : Conn → Listener → Outcome
  handle_open_msg conn l = elim l.interfaces [
    | none ↦ done l
    | some is ↦ elim (pack_with_header (message (hardware_info_msg is))) [
      | ok b ↦ after (write conn b ∷ []) (done l)
      | err e ↦ done l
    ]
  ]

  unfoldable pub handle_close_msg : Conn → Listener → Outcome
  handle_close_msg conn l =
      send_then conn (text goodbyte) l (after (lose_connection conn ∷ []) (done l))

  -- `_handle_recv_msg`; `none` is a message of unknown type, `greeting` the text about `conn`.
  -- The class has no `_handle_open_template_msg`.
  unfoldable pub handle_recv_msg : Conn → Bytes → Option Message → Listener → Outcome
  handle_recv_msg conn greeting none l = handle_close_msg conn l
  handle_recv_msg conn greeting (some (auth_reply_msg m)) l = handle_auth_reply conn greeting l
  handle_recv_msg conn greeting (some (open_msg m)) l = handle_open_msg conn l
  handle_recv_msg conn greeting (some (close_msg m)) l = handle_close_msg conn l
  handle_recv_msg conn greeting (some (packet_msg m)) l = handle_packet_msg m l
  handle_recv_msg conn greeting (some (open_template_msg m)) l = raised l attribute_error
  handle_recv_msg conn greeting (some _) l = done l
