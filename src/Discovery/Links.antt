-- ===== src/Discovery/Links.antt =====
-- The links that are known: what a discovery packet, the timer and a switch that leaves make of them.
use cs425a_computer_networks.Base.{
  ℕ, ◌+◌, ◌≡◌, refl, ap, ◌∙◌, arith, List, [], ◌∷◌, ◌++◌, Bool, true, false, ◌&&◌, ◌||◌, ◌==◌, ltb,
  if◌then◌else◌, Option, none, some, Dict, lookup, erase, lookup-erase, lookup-insert,
}
use cs425a_computer_networks.Discovery.Originator.{discovery_tlvs}
use cs425a_computer_networks.Discovery.Origin.{originator-discovery_tlvs, read_port-decimal}
use cs425a_computer_networks.Discovery.Handlers.{
  Link, link_eq, link_eq→eq, link_key, Discovery, new_link_events, connected, old_links,
  link_timeout, delete_links, expire_links, LldpIn, lldp_ether_type, ndp_multicast, see_link,
  see_port, see_switch, see_packet, drop_effects, see_payload, lldp_payload, handle_lldp,
}

-- A discovery packet that left a connected switch at a port and comes in somewhere else.
pub record IsDiscovery (dpid port : ℕ) (event : LldpIn) (s : Discovery) : Type 0 where
  pub kind : event.eth_type ≡ lldp_ether_type
  pub group : event.dst ≡ ndp_multicast
  pub payload : event.payload ≡ lldp_payload (discovery_tlvs dpid port)
  pub known : connected dpid s.dps ≡ true
  pub elsewhere : (event.dpid == dpid && event.port == port) ≡ false

abbrev pub link_to : ℕ → ℕ → LldpIn → Link
link_to dpid port event = record {
  dpid1 = dpid;
  port1 = port;
  dpid2 = event.dpid;
  port2 = event.port;
}

module _ (now dpid port : ℕ) (event : LldpIn) (s : Discovery)
    (is : IsDiscovery dpid port event s) where
  handle_lldp-see_link : handle_lldp now event s ≡ (
    (see_link now (link_to dpid port event) s).0,
    drop_effects event s ++ (see_link now (link_to dpid port event) s).1,
  )
  unfolding handle_lldp see_payload see_packet see_switch see_port drop_effects
  handle_lldp-see_link =
      rw
        (
          is.kind,
          is.group,
          is.payload,
          originator-discovery_tlvs dpid port,
          is.known,
          read_port-decimal port,
          is.elsewhere,
        )
        refl

  -- A discovery packet of a connected switch, made for one of its ports, that comes in at another port
  -- or switch: the link from that port to the port where it came in is known, seen now, and all other
  -- links are as before; what is raised besides the dropping of the buffer is the event of this link,
  -- if it was not known.
  pub lookup-handle_lldp :
      ((j : Link)
        → lookup j (handle_lldp now event s).0.adjacency
          ≡ (if link_eq (link_to dpid port event) j then some now else lookup j s.adjacency))
      × ((handle_lldp now event s).1
          ≡ drop_effects event s
            ++ new_link_events
                (link_to dpid port event)
                (lookup (link_to dpid port event) s.adjacency))
  lookup-handle_lldp = (
    λ j.
        ap (λ r. lookup j r.0.adjacency) handle_lldp-see_link
        ∙ unfold see_link in lookup-insert (link_to dpid port event) j now s.adjacency,
    ap (λ r. r.1) handle_lldp-see_link ∙ unfold see_link in refl,
  )

-- A link in a list.
abbrev pub listed : Link → List Link → Bool
listed j [] = false
listed j (l ∷ ls) = link_eq l j || listed j ls

pub lookup-delete_links :
    (j : Link) (ls : List Link) (d : Dict Link ℕ)
    → lookup j (delete_links ls d) ≡ (if listed j ls then none else lookup j d)
unfolding delete_links
lookup-delete_links j [] d = refl
lookup-delete_links j (l ∷ ls) d =
    lookup-delete_links j ls (erase l d) ∙ rw (lookup-erase l j d) (ground arith)

-- Every link is in the dictionary once.
abbrev pub AreDistinct : Dict Link ℕ → Type 0
AreDistinct [] = Unit {0}
AreDistinct ((l, t) ∷ d) = (lookup l d ≡ none) × AreDistinct d

-- The links that were not seen for 10 seconds.
abbrev pub timed_out : ℕ → Option ℕ → Bool
timed_out now none = false
timed_out now (some t) = ltb (t + link_timeout) now

listed-old_links :
    (now : ℕ) (j : Link) (d : Dict Link ℕ)
    → AreDistinct d
    → listed j (old_links now d) ≡ timed_out now (lookup j d)
unfolding old_links lookup
listed-old_links now j [] h = refl
listed-old_links now j ((l, t) ∷ d) (p, h) =
    ground (arith, listed-old_links now j d h, link_eq→eq l j, link_key.beq_refl l, p)

-- Links that were not seen for more than 10 seconds are forgotten, all others stay, provided that no
-- link is there twice.
pub lookup-expire_links :
    (now : ℕ) (s : Discovery) (j : Link)
    → AreDistinct s.adjacency
    → lookup j (expire_links now s).0.adjacency
      ≡ (if timed_out now (lookup j s.adjacency) then none else lookup j s.adjacency)
unfolding expire_links
lookup-expire_links now s j h =
    lookup-delete_links j (old_links now s.adjacency) s.adjacency
    ∙ ap (λ b. if b then none else lookup j s.adjacency) (listed-old_links now j s.adjacency h)
