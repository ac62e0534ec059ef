-- ===== src/SrHandler/Replies.antt =====
-- What a connection gets in answer to a message, on every branch of `_handle_recv_msg`.
use cs425a_computer_networks.Base.{
  ◌≡◌, refl, arith, Option, none, some, All, lookup, nat_key, bytes_key, Result, ok, err,
  attribute_error, name_error,
}
use cs425a_computer_networks.Bytes.{Bytes}
use cs425a_computer_networks.Vns.Messages.{
  Message, VnsPacket, VnsOpen, close_msg, packet_msg, open_msg,
}
use cs425a_computer_networks.SrHandler.Listener.{
  Conn, Listener, Payload, text, Effect, write, lose_connection, packet_out, raised,
}
use cs425a_computer_networks.SrHandler.Handlers.{
  send_then, goodbyte, handle_auth_reply, handle_open_msg, handle_close_msg, handle_packet_msg,
  handle_recv_msg,
}

-- The connection that an effect is about; frames to the switch are about none.
abbrev pub About : Conn → Effect → Type 0
About c (write d b) = d ≡ c
About c (lose_connection d) = d ≡ c
About c (packet_out pkt port) = Unit {0}

module _ (pack_with_header : Payload → Result Bytes) where
  -- A message of one client has effects on no other connection.
  pub handle_recv_msg-About :
      (c : Conn) (greeting : Bytes) (m : Option Message) (l : Listener)
      → All (About c) (handle_recv_msg pack_with_header c greeting m l).effects
  unfolding handle_recv_msg handle_close_msg handle_auth_reply handle_open_msg handle_packet_msg
      send_then
  handle_recv_msg-About c greeting m l = ground arith

  -- If the library refuses to pack a plain string, a request to close, and a message of unknown
  -- type, end in an exception with nothing sent and the connection not closed.
  pub close_raises :
      (text_refused : (t : Bytes) → pack_with_header (text t) ≡ err attribute_error) (c : Conn)
      (greeting reason : Bytes) (l : Listener)
      → (handle_recv_msg pack_with_header c greeting none l ≡ raised l attribute_error)
        × (handle_recv_msg pack_with_header c greeting (some (close_msg reason)) l
            ≡ raised l attribute_error)
  unfolding handle_recv_msg handle_close_msg send_then
  close_raises text_refused c greeting reason l = ground (arith, text_refused goodbyte)

  -- A frame for an interface that no `RouterInfo` event named ends in an exception, and nothing is
  -- sent out.
  pub unknown_interface_raises :
      (c : Conn) (greeting : Bytes) (m : VnsPacket) (l : Listener)
      → lookup m.intf_name l.intfname_to_port ≡ none
      → handle_recv_msg pack_with_header c greeting (some (packet_msg m)) l ≡ raised l name_error
  unfolding handle_recv_msg handle_packet_msg
  unknown_interface_raises c greeting m l h = rw (h, handle_packet_msg) refl

  -- An open message never raises: it is answered if there are interfaces and they can be packed.
  pub open_never_raises :
      (c : Conn) (greeting : Bytes) (m : VnsOpen) (l : Listener)
      → (handle_recv_msg pack_with_header c greeting (some (open_msg m)) l).result ≡ ok tt
  unfolding handle_recv_msg handle_open_msg
  open_never_raises c greeting m l = ground arith
