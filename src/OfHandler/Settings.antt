-- ===== src/OfHandler/Settings.antt =====
-- `get_ip_setting` of ofhandler.py: the lines of the file IP_CONFIG, or its absence, are the input.
use cs425a_computer_networks.Base.{
  List, [], ◌∷◌, Option, none, some, if◌then◌else◌, list_eq, Dict, lookup, insert, bytes_key,
  Result, ok, err, key_error, value_error, exit_error, ◌>>=◌, codes,
}
use cs425a_computer_networks.Bytes.{Bytes}
use cs425a_computer_networks.Text.{words}

-- A row of the routing table: destination, gateway, mask, interface.
pub record Route : Type 0 where
  pub destination : Bytes
  pub gateway : Bytes
  pub mask : Bytes
  pub interface : Bytes

-- The module's globals `IP_SETTING`, `RTABLE` and `ROUTER_IP`, which are empty at the start.
pub record Settings : Type 0 where
  pub ip_setting : Dict Bytes Bytes
  pub rtable : List Route
  pub router_ip : Dict Bytes Bytes

-- One line, split: a blank one breaks the loop, `next` is the rest of the loop.
unfoldable pub take_words :
    List Bytes
    → Dict Bytes Bytes
    → (Dict Bytes Bytes → Result (Dict Bytes Bytes))
    → Result (Dict Bytes Bytes)
take_words [] d next = ok d
take_words (name ∷ ip ∷ []) d next =
    if list_eq ip (codes "<ELASTIC_IP>") then err exit_error else next (insert name ip d)
take_words _ d next = err value_error

unfoldable pub settings_loop : List Bytes → Dict Bytes Bytes → Result (Dict Bytes Bytes)
settings_loop [] d = ok d
settings_loop (line ∷ rest) d = take_words (words line) d (settings_loop rest)

-- `IP_SETTING[name]`
unfoldable pub setting : Bytes → Dict Bytes Bytes → Result Bytes
setting name d = elim (lookup name d) [ none ↦ err key_error | some ip ↦ ok ip ]

unfoldable pub host_route : Bytes → Bytes → Route
host_route ip interface = record {
  destination = ip;
  gateway = ip;
  mask = codes "255.255.255.255";
  interface = interface;
}

-- The three rows of `RTABLE` and the three addresses of `ROUTER_IP`.
unfoldable pub tables : Dict Bytes Bytes → Result Settings
tables d = do
  client ← setting (codes "client") d
  server1 ← setting (codes "server1") d
  server2 ← setting (codes "server2") d
  sw1 ← setting (codes "sw0-eth1") d
  sw2 ← setting (codes "sw0-eth2") d
  sw3 ← setting (codes "sw0-eth3") d
  ok (record {
    ip_setting = d;
    rtable =
        host_route client (codes "eth3")
        ∷ host_route server1 (codes "eth1")
        ∷ host_route server2 (codes "eth2")
        ∷ [];
    router_ip =
        insert (codes "eth3") sw3 (insert (codes "eth2") sw2 (insert (codes "eth1") sw1 []));
  })

-- `none` for the file: it is not there, and the result is -1, here `none` again.
unfoldable pub get_ip_setting : Option (List Bytes) → Result (Option Settings)
get_ip_setting none = ok none
get_ip_setting (some lines) = do d ← settings_loop lines []; s ← tables d; ok (some s)

-- `launch`: without the file the program exits.
unfoldable pub launch_settings : Option (List Bytes) → Result Settings
launch_settings file = do r ← get_ip_setting file; elim r [ none ↦ err exit_error | some s ↦ ok s ]
