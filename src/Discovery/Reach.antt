-- ===== src/Discovery/Reach.antt =====
-- What holds of the state of discovery.py after any events.
use cs425a_computer_networks.Base.{
  ℕ, ◌≡◌, refl, sym, ap, ◌∙◌, arith, List, [], ◌∷◌, Bool, true, false, not, ◌&&◌, ◌||◌, ◌==◌, leb,
  Bool-cases, inl, inr, and_elim, Option, none, some, ok, >>=-eq-ok, ok-injective, Dict, lookup,
  insert, erase, lookup-erase, lookup-insert, guard, assertion_error,
}
use mathlib.Core.Path.{subst}
use cs425a_computer_networks.Text.{Number, number, negative}
use cs425a_computer_networks.Discovery.Originator.{originator, read_port, sub_port, Tlv}
use cs425a_computer_networks.Discovery.Links.{AreDistinct, listed, lookup-delete_links}
use cs425a_computer_networks.Discovery.Sender.{max_port}
use cs425a_computer_networks.Discovery.Handlers.{
  Link, link_eq, link_eq→eq, link_key, Discovery, DiscoveryEffect, connected, disconnect, links_at,
  old_links, delete_links, handle_connection_up, handle_connection_down, handle_port_status,
  PortChange, expire_links, LldpIn, see_link, see_port, see_switch, see_packet, see_payload,
  LldpPayload, no_payload, other_payload, lldp_payload, handle_lldp, new_discovery, lldp_ether_type,
  ndp_multicast,
}

-- The switch and the port that a link leads to are not those that it comes from.
abbrev pub leads_back : Link → Bool
leads_back l = l.dpid2 == l.dpid1 && l.port2 == l.port1

-- Every link comes from a connected switch and does not lead back to its port, and the list that stands
-- for the dictionary has no link twice.
pub record IsConsistent (s : Discovery) : Type 0 where
  pub ends :
      (l : Link) (t : ℕ)
      → lookup l s.adjacency ≡ some t
      → (connected l.dpid1 s.dps ≡ true) × (leads_back l ≡ false)
  pub distinct : AreDistinct s.adjacency

-- One event. A packet may come in from a switch that is not connected.
pub data DiscoveryStep (s : Discovery) (s' : Discovery) : Type 0 where
  switch_up :
      (dpid : ℕ) (ports : List (ℕ × ℕ)) (effects : List DiscoveryEffect)
      → handle_connection_up dpid ports s ≡ ok (s', effects)
      → DiscoveryStep s s'
  switch_down :
      (dpid : ℕ) (effects : List DiscoveryEffect)
      → handle_connection_down dpid s ≡ ok (s', effects)
      → DiscoveryStep s s'
  port_status :
      (change : PortChange) (dpid port addr : ℕ)
      → handle_port_status change dpid port addr s ≡ s'
      → DiscoveryStep s s'
  timer : (now : ℕ) → (expire_links now s).0 ≡ s' → DiscoveryStep s s'
  packet : (now : ℕ) (event : LldpIn) → (handle_lldp now event s).0 ≡ s' → DiscoveryStep s s'

pub data DiscoveryReach (s : Discovery) : Discovery → Type 0 where
  at_start : DiscoveryReach s s
  one_step : {t u : Discovery} → DiscoveryReach s t → DiscoveryStep t u → DiscoveryReach s u

lookup-erase-none : (k j : Link) (d : Dict Link ℕ) → lookup j d ≡ none → lookup j (erase k d) ≡ none
lookup-erase-none k j d h = lookup-erase k j d ∙ ground (arith, h)

AreDistinct-erase : (k : Link) (d : Dict Link ℕ) → AreDistinct d → AreDistinct (erase k d)
unfolding erase
AreDistinct-erase k [] h = tt
AreDistinct-erase k ((l, t) ∷ d) (p, h) = elim (Bool-cases (link_eq l k)) [
  | inl same ↦ rw same (AreDistinct-erase k d h)
  | inr other ↦ rw other (lookup-erase-none k l d p, AreDistinct-erase k d h)
]

AreDistinct-delete_links :
    (ls : List Link) (d : Dict Link ℕ) → AreDistinct d → AreDistinct (delete_links ls d)
unfolding delete_links
AreDistinct-delete_links [] d h = h
AreDistinct-delete_links (l ∷ ls) d h =
    AreDistinct-delete_links ls (erase l d) (AreDistinct-erase l d h)

AreDistinct-insert :
    (k : Link) (v : ℕ) (d : Dict Link ℕ) → AreDistinct d → AreDistinct (insert k v d)
unfolding insert
AreDistinct-insert k v [] h = (unfold lookup in refl, tt)
AreDistinct-insert k v ((l, t) ∷ d) (p, h) = elim (Bool-cases (link_eq l k)) [
  | inl same ↦ rw same (subst (λ j. lookup j d ≡ none) (link_eq→eq l k same) p, h)
  | inr other ↦ rw other (
    lookup-insert k l v d ∙ ground (arith, p, link_eq→eq k l, link_key.beq_refl l, other),
    AreDistinct-insert k v d h,
  )
]

connected-disconnect :
    (x dpid : ℕ) (ds : List ℕ)
    → connected x ds ≡ true
    → (x == dpid) ≡ false
    → connected x (disconnect dpid ds) ≡ true
unfolding connected disconnect
connected-disconnect x dpid [] h k = cc
connected-disconnect x dpid (d ∷ ds) h k = ground (arith, connected-disconnect x dpid ds)

-- A link at a switch is among those that are collected.
listed-links_at :
    (dpid : ℕ) (l : Link) (t : ℕ) (d : Dict Link ℕ)
    → lookup l d ≡ some t
    → (l.dpid1 == dpid || l.dpid2 == dpid) ≡ true
    → listed l (links_at dpid d) ≡ true
unfolding links_at lookup
listed-links_at dpid l t [] h k = cc
listed-links_at dpid l t ((j, u) ∷ d) h k = elim (Bool-cases (link_eq j l)) [
  | inl same ↦
      let at : (j.dpid1 == dpid || j.dpid2 == dpid) ≡ true =
        subst (λ i. (i.dpid1 == dpid || i.dpid2 == dpid) ≡ true) (sym (link_eq→eq j l same)) k in
      ground (arith, at, same)
  | inr other ↦
      let later : lookup l d ≡ some t = ground (arith, h, other) in
      ground (arith, listed-links_at dpid l t d later k)
]

kept :
    (l : Link) (t : ℕ) (ls : List Link) (d : Dict Link ℕ)
    → lookup l (delete_links ls d) ≡ some t
    → (listed l ls ≡ false) × (lookup l d ≡ some t)
kept l t ls d h = let e = sym (lookup-delete_links l ls d) ∙ h in ground (arith, e)

module _ (s : Discovery) (inv : IsConsistent s) where
  delete_links-IsConsistent :
      (ls : List Link) → IsConsistent (record s { adjacency = delete_links ls s.adjacency })
  delete_links-IsConsistent ls = record {
    ends = λ l t h. inv.ends l t (kept l t ls s.adjacency h).1;
    distinct = AreDistinct-delete_links ls s.adjacency inv.distinct;
  }

  up-IsConsistent :
      (dpid : ℕ) (ports : List (ℕ × ℕ)) (s' : Discovery) (effects : List DiscoveryEffect)
      → handle_connection_up dpid ports s ≡ ok (s', effects)
      → IsConsistent s'
  unfolding handle_connection_up connected
  up-IsConsistent dpid ports s' effects h =
      let (u, first, rest) = >>=-eq-ok (guard (not (connected dpid s.dps)) assertion_error) _ h in
      let same = ap (λ r. r.0) (ok-injective rest) in
      subst IsConsistent same
        (record { ends = λ l t e. ground (arith, inv.ends l t e); distinct = inv.distinct })

  down-IsConsistent :
      (dpid : ℕ) (s' : Discovery) (effects : List DiscoveryEffect)
      → handle_connection_down dpid s ≡ ok (s', effects)
      → IsConsistent s'
  unfolding handle_connection_down
  down-IsConsistent dpid s' effects h =
      let (u, first, rest) = >>=-eq-ok (guard (connected dpid s.dps) assertion_error) _ h in
      let same = ap (λ r. r.0) (ok-injective rest) in
      subst IsConsistent same (record {
        ends = λ l t e.
            let (gone, was) = kept l t (links_at dpid s.adjacency) s.adjacency e in
            let (one, two) = inv.ends l t was in
            let away : (l.dpid1 == dpid || l.dpid2 == dpid) ≡ false =
              ground (arith, gone, listed-links_at dpid l t s.adjacency was) in
            (connected-disconnect l.dpid1 dpid s.dps one (ground arith), two);
        distinct = AreDistinct-delete_links (links_at dpid s.adjacency) s.adjacency inv.distinct;
      })

  port_status-IsConsistent :
      (change : PortChange) (dpid port addr : ℕ)
      → IsConsistent (handle_port_status change dpid port addr s)
  unfolding handle_port_status
  port_status-IsConsistent change dpid port addr = elim (Bool-cases (leb port max_port)) [
    | inl sane ↦ rw sane (record { ends = inv.ends; distinct = inv.distinct })
    | inr local ↦ rw local inv
  ]

  see_link-IsConsistent :
      (now : ℕ) (l : Link)
      → connected l.dpid1 s.dps ≡ true
      → leads_back l ≡ false
      → IsConsistent (see_link now l s).0
  unfolding see_link
  see_link-IsConsistent now l one two = record {
    ends = λ j t h. elim (Bool-cases (link_eq l j)) [
      | inl same ↦
          subst (λ i. (connected i.dpid1 s.dps ≡ true) × (leads_back i ≡ false))
            (link_eq→eq l j same) (one, two)
      | inr other ↦
          let e = sym (lookup-insert l j now s.adjacency) ∙ h in
          inv.ends j t (ground (arith, e, other))
    ];
    distinct = AreDistinct-insert l now s.adjacency inv.distinct;
  }

  module _ (now : ℕ) (event : LldpIn) where
    see_port-IsConsistent :
        (dpid : ℕ) (port : Option ℕ)
        → connected dpid s.dps ≡ true
        → IsConsistent (see_port now event dpid port s).0
    unfolding see_port
    see_port-IsConsistent dpid none known = inv
    see_port-IsConsistent dpid (some port) known =
        elim (Bool-cases (event.dpid == dpid && event.port == port)) [
          | inl loop ↦ rw loop inv
          | inr apart ↦ rw apart (see_link-IsConsistent now _ known apart)
        ]

    see_switch-IsConsistent :
        (o : Option (Number × Tlv)) → IsConsistent (see_switch now event o s).0
    unfolding see_switch
    see_switch-IsConsistent none = inv
    see_switch-IsConsistent (some (negative, port)) = inv
    see_switch-IsConsistent (some (number dpid, port)) =
        elim (Bool-cases (connected dpid s.dps && port.subtype == sub_port)) [
          | inl ours ↦
              rw ours (see_port-IsConsistent dpid (read_port port.id) (and_elim _ _ ours).0)
          | inr other ↦ rw other inv
        ]

    see_payload-IsConsistent : (p : LldpPayload) → IsConsistent (see_payload now event p s).0
    unfolding see_payload see_packet
    see_payload-IsConsistent no_payload = inv
    see_payload-IsConsistent other_payload = inv
    see_payload-IsConsistent (lldp_payload tlvs) = see_switch-IsConsistent (originator tlvs)

    handle_lldp-IsConsistent : IsConsistent (handle_lldp now event s).0
    unfolding handle_lldp
    handle_lldp-IsConsistent =
        elim (Bool-cases (event.eth_type == lldp_ether_type && event.dst == ndp_multicast)) [
          | inl ours ↦ rw ours (see_payload-IsConsistent event.payload)
          | inr other ↦ rw other inv
        ]

DiscoveryStep-IsConsistent :
    {s s' : Discovery} → DiscoveryStep s s' → IsConsistent s → IsConsistent s'
DiscoveryStep-IsConsistent {s} {s'} (switch_up dpid ports effects h) inv =
    up-IsConsistent s inv dpid ports s' effects h
DiscoveryStep-IsConsistent {s} {s'} (switch_down dpid effects h) inv =
    down-IsConsistent s inv dpid s' effects h
DiscoveryStep-IsConsistent {s} (port_status change dpid port addr h) inv =
    subst IsConsistent h (port_status-IsConsistent s inv change dpid port addr)
DiscoveryStep-IsConsistent {s} (timer now h) inv =
    subst IsConsistent h
      (unfold expire_links in delete_links-IsConsistent s inv (old_links now s.adjacency))
DiscoveryStep-IsConsistent {s} (packet now event h) inv =
    subst IsConsistent h (handle_lldp-IsConsistent s inv now event)

-- After any events from the start, packets of switches that are not connected included, every link comes
-- from a connected switch and does not lead back to the port that it comes from; and the list that
-- stands for the dictionary of links has no link twice.
pub DiscoveryReach-IsConsistent :
    (install_flow explicit_drop : Bool) {s : Discovery}
    → DiscoveryReach (new_discovery install_flow explicit_drop) s
    → IsConsistent s
DiscoveryReach-IsConsistent i e at_start = record {
  ends = λ l t h. absurd (unfold lookup in cc);
  distinct = tt;
}
DiscoveryReach-IsConsistent i e (one_step r st) =
    DiscoveryStep-IsConsistent st (DiscoveryReach-IsConsistent i e r)
