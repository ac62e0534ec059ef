-- ===== src/SrHandler/Listener.antt =====
-- The state of `SRServerListener`, what its handlers do to the outside, and `pack_mac`, `pack_ip`.
use cs425a_computer_networks.Base.{ℕ, List, [], ◌++◌, Option, none, Dict, Result, ok, err, Error}
use cs425a_computer_networks.Bytes.{Bytes}
use cs425a_computer_networks.Text.{split_on, chr_ints}
use cs425a_computer_networks.Vns.Messages.{Message, VnsInterface}

-- A connection, by its identity.
abbrev pub Conn : Type 0
Conn = ℕ

-- `interfaces` is not an attribute before the first `RouterInfo` event: `none`.
pub record Listener : Type 0 where
  pub srclients : List Conn
  pub intfname_to_port : Dict Bytes ℕ
  pub port_to_intfname : Dict ℕ Bytes
  pub interfaces : Option (List VnsInterface)

abbrev pub initial : Listener
initial = record { srclients = []; intfname_to_port = []; port_to_intfname = []; interfaces = none }

-- What is handed to `conn.send`: a message object, or a plain string.
pub data Payload : Type 0 where
  message : Message → Payload
  text : Bytes → Payload

pub data Effect : Type 0 where
  write : Conn → Bytes → Effect
  lose_connection : Conn → Effect
  -- `raiseEvent(SRPacketOut(pkt, port))`
  packet_out : Bytes → ℕ → Effect

-- How a handler ends: the listener, what it did in order, and whether it raised.
pub record Outcome : Type 0 where
  pub listener : Listener
  pub effects : List Effect
  pub result : Result (Unit {0})

abbrev pub done : Listener → Outcome
done l = record { listener = l; effects = []; result = ok tt }

abbrev pub raised : Listener → Error → Outcome
raised l e = record { listener = l; effects = []; result = err e }

-- First `fs`, then what the outcome did.
abbrev pub after : List Effect → Outcome → Outcome
after fs o = record o { effects = fs ++ o.effects }

unfoldable pub pack_mac : Bytes → Result Bytes
pack_mac macaddr = chr_ints 16 (split_on b':' macaddr)

unfoldable pub pack_ip : Bytes → Result Bytes
pack_ip ipaddr = chr_ints 10 (split_on b'.' ipaddr)

-- The entry of one interface in `RouterInfo.info`; the rate is not read.
pub record PortInfo : Type 0 where
  pub ip : Bytes
  pub mac : Bytes
  pub rate : Bytes
  pub port : ℕ
