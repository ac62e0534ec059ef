-- ===== src/OpenFlow/Switch/Ports.antt =====
-- Which ports a packet goes out of.
use cs425a_computer_networks.Base.{
  ℕ, ◌<◌, ◌≡◌, refl, sym, ap, ◌∙◌, arith, List, [], ◌∷◌, ◌==◌, ltb, ==→eq, Bool-cases, inl, inr,
  Option-cases, true, if◌then◌else◌, AllValues, AllValues-insert, lookup-insert_self, none, some,
  Dict, lookup, insert, lookup-insert, nat_key, ok, err, runtime_error,
}
use cs425a_computer_networks.OfHandler.Switch.{PhyPort}
use cs425a_computer_networks.OpenFlow.Match.Packets.{Packet}
use cs425a_computer_networks.OpenFlow.Switch.{
  send, Switch, SwitchEffect, dp_packet_out, Run, and_then,
}
use cs425a_computer_networks.OpenFlow.Switch.Control.{bring_port_up}
use cs425a_computer_networks.OpenFlow.Switch.Dataplane.{
  real_send, flood_loop, output_packet, ofpp_max, ofpp_flood,
}

-- Every port of the dictionary is found there by its own number.
abbrev pub IsWired : Dict ℕ PhyPort → Dict ℕ PhyPort → Type 0
IsWired ports rest = AllValues (λ p. lookup p.port_no ports ≡ some p) rest

-- The packet out of each port but one.
unfoldable pub all_but : Packet → ℕ → Dict ℕ PhyPort → List SwitchEffect
all_but packet in_port [] = []
all_but packet in_port ((number, port) ∷ rest) =
    if number == in_port
    then all_but packet in_port rest
    else dp_packet_out packet port ∷ all_but packet in_port rest

sends : Packet → PhyPort → Switch → Run
sends packet port s = record {
  switch = s;
  effects = dp_packet_out packet port ∷ [];
  result = ok tt;
}

real_send_found :
    (packet : Packet) (number : ℕ) (port : PhyPort) (s : Switch)
    → lookup number s.ports ≡ some port
    → real_send packet number s ≡ sends packet port s
unfolding sends real_send
real_send_found packet number port s h = rw (real_send, h) refl

after_sends :
    (packet : Packet) (port : PhyPort) (s : Switch) (rest : Switch → Run) (fs : List SwitchEffect)
    → rest s ≡ record { switch = s; effects = fs; result = ok tt }
    → and_then (sends packet port s) rest
      ≡ record { switch = s; effects = dp_packet_out packet port ∷ fs; result = ok tt }
unfolding and_then sends
after_sends packet port s rest fs h = rw h refl

flood_loop_lem :
    (packet : Packet) (in_port : ℕ) (rest : Dict ℕ PhyPort) (s : Switch)
    → IsWired s.ports rest
    → flood_loop packet in_port rest s
      ≡ record { switch = s; effects = all_but packet in_port rest; result = ok tt }
unfolding flood_loop all_but
flood_loop_lem packet in_port [] s h = refl
flood_loop_lem packet in_port ((number, port) ∷ rest) s (found, h) =
    elim (Bool-cases (number == in_port)) [
      | inl y ↦ rw y (flood_loop_lem packet in_port rest s h)
      | inr n ↦
          rw (n, real_send_found packet port.port_no port s found)
            (after_sends packet port s (flood_loop packet in_port rest)
              (all_but packet in_port rest) (flood_loop_lem packet in_port rest s h))
    ]

-- If the dictionary of ports finds every port by its own number, a flooded packet goes out once of
-- every port but those under the number that it came in at, nothing raises, and the switch stays
-- as it was.
pub output_packet_flood :
    (packet : Packet) (in_port : ℕ) (s : Switch)
    → IsWired s.ports s.ports
    → output_packet packet ofpp_flood in_port s
      ≡ record { switch = s; effects = all_but packet in_port s.ports; result = ok tt }
unfolding output_packet
output_packet_flood packet in_port s h = flood_loop_lem packet in_port s.ports s h

-- A packet for a physical port goes out of it.
pub output_packet_physical :
    (packet : Packet) (number in_port : ℕ) (port : PhyPort) (s : Switch)
    → number < ofpp_max
    → lookup number s.ports ≡ some port
    → output_packet packet number in_port s
      ≡ record { switch = s; effects = dp_packet_out packet port ∷ []; result = ok tt }
unfolding output_packet
output_packet_physical packet number in_port port s lt h =
    let physical : ltb number ofpp_max ≡ true = ground arith in
    rw physical (unfold sends in real_send_found packet number port s h)

IsWired-insert :
    (port : PhyPort) (ports rest : Dict ℕ PhyPort)
    → lookup port.port_no ports ≡ none
    → IsWired ports rest
    → IsWired (insert port.port_no port ports) rest
IsWired-insert port ports [] fresh h = tt
IsWired-insert port ports ((k, p) ∷ rest) fresh (found, h) = (
  lookup-insert port.port_no p.port_no port ports ∙ elim (Bool-cases (port.port_no == p.port_no)) [
    | inl y ↦
        let same : port.port_no ≡ p.port_no = ==→eq _ _ y in
        let clash : none ≡ some p = sym fresh ∙ ap (λ n. lookup n ports) same ∙ found in absurd (cc)
    | inr n ↦ rw n found
  ],
  IsWired-insert port ports rest fresh h,
)

-- If the dictionary of ports finds every port by its own number, it still does so after a port was
-- brought up without an exception.
pub bring_port_up-IsWired :
    (port : PhyPort) (s : Switch)
    → IsWired s.ports s.ports
    → (bring_port_up port s).result ≡ ok tt
    → IsWired (bring_port_up port s).switch.ports (bring_port_up port s).switch.ports
unfolding bring_port_up send
bring_port_up-IsWired port s h e = elim (Option-cases (lookup port.port_no s.ports)) [
  | inl fresh ↦
      rw (bring_port_up, fresh)
        (AllValues-insert (λ p. lookup p.port_no (insert port.port_no port s.ports) ≡ some p)
          port.port_no port s.ports (lookup-insert_self port.port_no port s.ports)
          (IsWired-insert port s.ports s.ports fresh h))
  | inr (p, taken) ↦
      let refused : (bring_port_up port s).result ≡ err runtime_error =
        rw (bring_port_up, taken) refl in
      absurd (cc (sym refused ∙ e))
]
