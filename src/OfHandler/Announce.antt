-- ===== src/OfHandler/Announce.antt =====
-- The `RouterInfo` event that an `OFHandler` raises, as the listener of srhandler.py takes it.
use cs425a_computer_networks.Base.{
  ◌≡◌, refl, List, [], ◌∷◌, ◌++◌, All, length, Dict, lookup, bytes_key, ok, inl, inr, Option-cases,
  AllValues, AllValues-insert, AllValues-lookup,
}
use cs425a_computer_networks.Bytes.{Bytes, IsByte}
use cs425a_computer_networks.Text.{split_on, chr_ints, chr_int}
use cs425a_computer_networks.Addresses.{to_str}
use cs425a_computer_networks.Addresses.Text.{pack_mac-to_str}
use cs425a_computer_networks.Vns.Messages.{VnsInterface, new_interface}
use cs425a_computer_networks.SrHandler.Listener.{Listener, pack_ip, PortInfo}
use cs425a_computer_networks.SrHandler.Handlers.{
  interface_of, add_port, router_info_loop, handle_router_info, host_mask,
}
use cs425a_computer_networks.SrHandler.Interfaces.{loop_ok}
use cs425a_computer_networks.OfHandler.Settings.{Settings}
use cs425a_computer_networks.OfHandler.Switch.{
  PhyPort, second_piece, add_sw_info, sw_info_loop, sw_info,
}

-- A hardware address as the switch reports it.
pub record IsEth (addr : Bytes) : Type 0 where
  pub six : length addr ≡ 6
  pub bytes : All IsByte addr

-- A dotted quad.
abbrev pub IsIp : Bytes → Type 0
IsIp text = (ip : Bytes) × (pack_ip text ≡ ok ip) × (length ip ≡ 4)

-- An entry that was made from a port with an address of the router.
abbrev Good : PortInfo → Type 0
Good info = IsIp info.ip × ((addr : Bytes) × (info.mac ≡ to_str addr) × IsEth addr)

host_mask-bytes : pack_ip host_mask ≡ ok (255 ∷ 255 ∷ 255 ∷ 255 ∷ [])
unfolding pack_ip chr_ints chr_int split_on
host_mask-bytes = refl

interface_of-Good :
    (intf : Bytes) (info : PortInfo)
    → Good info
    → (i : VnsInterface) × (interface_of intf info ≡ ok i)
unfolding interface_of new_interface
interface_of-Good intf info ((ip, ei, li), (addr, em, isEth)) = (
  record { name = intf; mac = addr; ip = ip; mask = 255 ∷ 255 ∷ 255 ∷ 255 ∷ [] },
  rw (ei, em, pack_mac-to_str addr isEth.six isEth.bytes, host_mask-bytes, isEth.six, li),
)

router_info_loop_total :
    (d : Dict Bytes PortInfo) (acc : List VnsInterface) (l : Listener)
    → AllValues Good d
    → (router_info_loop d acc l).result ≡ ok tt
router_info_loop_total [] acc l h = unfold router_info_loop in refl
router_info_loop_total ((intf, info) ∷ rest) acc l (g, h) =
    let (i, e) = interface_of-Good intf info g in
    rw (loop_ok intf info rest acc l i e)
      (router_info_loop_total rest (acc ++ (i ∷ [])) (add_port intf info.port l) h)

module _ (router_ip : Dict Bytes Bytes) (ips : AllValues IsIp router_ip) where
  add_sw_info-Good :
      (port : PhyPort) (info : Dict Bytes PortInfo)
      → IsEth port.hw_addr
      → AllValues Good info
      → AllValues Good (add_sw_info router_ip port info)
  add_sw_info-Good port info isEth h =
      elim (Option-cases (second_piece (split_on b'-' port.port_name))) [
        | inl e ↦ unfold add_sw_info in rw (e, add_sw_info) h
        | inr (name, e) ↦ elim (Option-cases (lookup name router_ip)) [
          | inl e2 ↦ unfold add_sw_info in rw (e, add_sw_info, e2, add_sw_info) h
          | inr (ip, e2) ↦
              unfold add_sw_info in
              rw (e, add_sw_info, e2, add_sw_info)
                (AllValues-insert Good name _ info
                  (AllValues-lookup IsIp name ip router_ip ips e2, (port.hw_addr, refl, isEth)) h)
        ]
      ]

  sw_info_loop-Good :
      (ports : List PhyPort) (info : Dict Bytes PortInfo)
      → All (λ p. IsEth p.hw_addr) ports
      → AllValues Good info
      → AllValues Good (sw_info_loop router_ip ports info)
  unfolding sw_info_loop
  sw_info_loop-Good [] info hs h = h
  sw_info_loop-Good (port ∷ ports) info (hp, hs) h =
      sw_info_loop-Good ports (add_sw_info router_ip port info) hs (add_sw_info-Good port info hp h)

-- The listener takes in without an exception whatever an `OFHandler` announces, if the router's
-- addresses are dotted quads and the ports have hardware addresses of six bytes.
pub handle_router_info-sw_info :
    (s : Settings) (ports : List PhyPort) (l : Listener)
    → AllValues IsIp s.router_ip
    → All (λ p. IsEth p.hw_addr) ports
    → (handle_router_info (sw_info s ports) l).result ≡ ok tt
unfolding handle_router_info sw_info
handle_router_info-sw_info s ports l ips eths =
    router_info_loop_total (sw_info_loop s.router_ip ports []) [] l
      (sw_info_loop-Good s.router_ip ips ports [] eths tt)
