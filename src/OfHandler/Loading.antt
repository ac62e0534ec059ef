-- ===== src/OfHandler/Loading.antt =====
-- What a file IP_CONFIG gives, line by line and as a whole.
use cs425a_computer_networks.Base.{
  ◌≡◌, refl, sym, ap, ◌∙◌, arith, List, [], ◌∷◌, ◌++◌, some, Dict, lookup, insert, bytes_key, ok,
  >>=-eq-ok, ok-injective, codes,
}
use mathlib.Core.Path.{fun_ext, subst}
use cs425a_computer_networks.Bytes.{Bytes}
use cs425a_computer_networks.Text.{words}
use cs425a_computer_networks.OfHandler.Settings.{
  Settings, take_words, settings_loop, setting, host_route, tables, get_ip_setting,
}

-- The loop over the lines of the settings file ends at the first blank line: what follows it is
-- not read.
pub settings_loop-blank :
    (front back : List Bytes) (blank : Bytes) (d : Dict Bytes Bytes)
    → words blank ≡ []
    → settings_loop (front ++ (blank ∷ back)) d ≡ settings_loop front d
unfolding settings_loop take_words
settings_loop-blank [] back blank d h = rw h
settings_loop-blank (line ∷ front) back blank d h =
    ap (λ next. take_words (words line) d next)
      (fun_ext λ e. settings_loop-blank front back blank e h)

setting-eq-ok :
    (name ip : Bytes) (d : Dict Bytes Bytes) → setting name d ≡ ok ip → lookup name d ≡ some ip
unfolding setting
setting-eq-ok name ip d h = ground arith

-- What a successful run has found and stored.
pub record IsLoaded (s : Settings) : Type 0 where
  pub client : Bytes
  pub server1 : Bytes
  pub server2 : Bytes
  pub client_set : lookup (codes "client") s.ip_setting ≡ some client
  pub server1_set : lookup (codes "server1") s.ip_setting ≡ some server1
  pub server2_set : lookup (codes "server2") s.ip_setting ≡ some server2
  pub routes :
      s.rtable
      ≡ host_route client (codes "eth3")
        ∷ host_route server1 (codes "eth1")
        ∷ host_route server2 (codes "eth2")
        ∷ []
  pub eth1 : lookup (codes "eth1") s.router_ip ≡ lookup (codes "sw0-eth1") s.ip_setting
  pub eth2 : lookup (codes "eth2") s.router_ip ≡ lookup (codes "sw0-eth2") s.ip_setting
  pub eth3 : lookup (codes "eth3") s.router_ip ≡ lookup (codes "sw0-eth3") s.ip_setting

tables-IsLoaded : (d : Dict Bytes Bytes) (s : Settings) → tables d ≡ ok s → IsLoaded s
unfolding tables
tables-IsLoaded d s h =
    let (client, e1, h1) = >>=-eq-ok (setting (codes "client") d) _ h in
    let (server1, e2, h2) = >>=-eq-ok (setting (codes "server1") d) _ h1 in
    let (server2, e3, h3) = >>=-eq-ok (setting (codes "server2") d) _ h2 in
    let (sw1, e4, h4) = >>=-eq-ok (setting (codes "sw0-eth1") d) _ h3 in
    let (sw2, e5, h5) = >>=-eq-ok (setting (codes "sw0-eth2") d) _ h4 in
    let (sw3, e6, h6) = >>=-eq-ok (setting (codes "sw0-eth3") d) _ h5 in
    subst IsLoaded (ok-injective h6) (record {
      client = client;
      server1 = server1;
      server2 = server2;
      client_set = setting-eq-ok _ client d e1;
      server1_set = setting-eq-ok _ server1 d e2;
      server2_set = setting-eq-ok _ server2 d e3;
      routes = refl;
      eth1 = unfold lookup insert in sym (setting-eq-ok (codes "sw0-eth1") sw1 d e4);
      eth2 = unfold lookup insert in sym (setting-eq-ok (codes "sw0-eth2") sw2 d e5);
      eth3 = unfold lookup insert in sym (setting-eq-ok (codes "sw0-eth3") sw3 d e6);
    })

-- A run of `get_ip_setting` that returns 0 has the three routes to the hosts of the file, in this
-- order, and the router's three addresses from the file.
pub get_ip_setting-IsLoaded :
    (lines : List Bytes) (s : Settings) → get_ip_setting (some lines) ≡ ok (some s) → IsLoaded s
unfolding get_ip_setting
get_ip_setting-IsLoaded lines s h =
    let (d, e, h1) = >>=-eq-ok (settings_loop lines []) _ h in
    let (t, e2, h2) = >>=-eq-ok (tables d) _ h1 in tables-IsLoaded d s (e2 ∙ cc h2)
