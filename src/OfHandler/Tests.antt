-- ===== src/OfHandler/Tests.antt =====
-- A configuration file and a switch, and the theorems at them.
use cs425a_computer_networks.Base.{
  ◌≡◌, refl, arith, List, [], ◌∷◌, some, lookup, insert, bytes_key, AllValues, ok, err, codes,
  exit_error,
}
use cs425a_computer_networks.Bytes.{Bytes}
use cs425a_computer_networks.Text.{words, split_on, chr_ints, chr_int}
use cs425a_computer_networks.SrHandler.Listener.{initial, pack_ip}
use cs425a_computer_networks.SrHandler.Handlers.{handle_router_info}
use cs425a_computer_networks.OfHandler.Settings.{
  Settings, settings_loop, take_words, tables, setting, host_route, get_ip_setting,
}
use cs425a_computer_networks.OfHandler.Switch.{PhyPort, sw_info}
use cs425a_computer_networks.OfHandler.Loading.{IsLoaded, get_ip_setting-IsLoaded}
use cs425a_computer_networks.OfHandler.Announce.{IsIp, handle_router_info-sw_info}

abbrev file : List Bytes
file =
    codes "server1 192.168.2.2"
    ∷ codes "server2 172.64.3.10"
    ∷ codes "client    10.0.1.100"
    ∷ codes "sw0-eth1 192.168.2.1"
    ∷ codes "sw0-eth2 172.64.3.1"
    ∷ codes "sw0-eth3 10.0.1.1"
    ∷ []

abbrev loaded : Settings
loaded = record {
  ip_setting =
      (codes "server1", codes "192.168.2.2")
      ∷ (codes "server2", codes "172.64.3.10")
      ∷ (codes "client", codes "10.0.1.100")
      ∷ (codes "sw0-eth1", codes "192.168.2.1")
      ∷ (codes "sw0-eth2", codes "172.64.3.1")
      ∷ (codes "sw0-eth3", codes "10.0.1.1")
      ∷ [];
  rtable =
      host_route (codes "10.0.1.100") (codes "eth3")
      ∷ host_route (codes "192.168.2.2") (codes "eth1")
      ∷ host_route (codes "172.64.3.10") (codes "eth2")
      ∷ [];
  router_ip =
      (codes "eth1", codes "192.168.2.1")
      ∷ (codes "eth2", codes "172.64.3.1")
      ∷ (codes "eth3", codes "10.0.1.1")
      ∷ [];
}

file_loads : get_ip_setting (some file) ≡ ok (some loaded)
unfolding get_ip_setting settings_loop take_words tables setting words lookup insert
file_loads = refl

placeholder_exits : get_ip_setting (some (codes "client <ELASTIC_IP>" ∷ [])) ≡ err exit_error
unfolding get_ip_setting settings_loop take_words words
placeholder_exits = refl

abbrev ports : List PhyPort
ports =
    record { port_name = codes "sw0-eth1"; hw_addr = 2 ∷ 0 ∷ 0 ∷ 0 ∷ 0 ∷ 1 ∷ []; port_no = 1 }
    ∷ record { port_name = codes "sw0"; hw_addr = 2 ∷ 0 ∷ 0 ∷ 0 ∷ 0 ∷ 9 ∷ []; port_no = 65534 }
    ∷ []

get_ip_setting-IsLoaded_example : IsLoaded loaded
get_ip_setting-IsLoaded_example = get_ip_setting-IsLoaded file loaded file_loads

addresses : AllValues IsIp loaded.router_ip
unfolding pack_ip chr_ints chr_int split_on
addresses = (
  (192 ∷ 168 ∷ 2 ∷ 1 ∷ [], refl, refl),
  ((172 ∷ 64 ∷ 3 ∷ 1 ∷ [], refl, refl), ((10 ∷ 0 ∷ 1 ∷ 1 ∷ [], refl, refl), tt)),
)

handle_router_info-sw_info_example :
    (handle_router_info (sw_info loaded ports) initial).result ≡ ok tt
handle_router_info-sw_info_example =
    handle_router_info-sw_info loaded ports initial addresses (omega arith)
