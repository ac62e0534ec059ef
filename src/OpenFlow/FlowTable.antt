-- ===== src/OpenFlow/FlowTable.antt =====
-- Project-4/pox/pox/openflow/flow_table.py: `TableEntry`, `FlowTable` and `SwitchFlowTable`.
-- Entries are objects: two are the same for `list.remove` if they have one identity. Times are
-- whole numbers of the clock that `now` is read from.
pub mod Sorting
pub mod Removal
pub mod Lookup
pub mod Mods
pub mod Select
pub mod Commands
mod Tests
use cs425a_computer_networks.Base.{
  ℕ, zero, suc, ◌+◌, ◌-◌, ◌^◌, List, [], ◌∷◌, ◌++◌, Bool, true, false, not, ◌&&◌, ◌||◌, ◌==◌, ltb,
  leb, if◌then◌else◌, Option, none, some, Result, ok, err, not_implemented, attribute_error,
}
use cs425a_computer_networks.OpenFlow.Match.{Match, match_eq, matches_with_wildcards, is_wildcarded}
use cs425a_computer_networks.OpenFlow.Match.Packets.{Packet, from_packet}

-- `ofp_action_output(port)`, or another action by its type number.
pub data Action : Type 0 where
  output : ℕ → Action
  other_action : ℕ → Action

pub record Counters : Type 0 where
  pub created : ℕ
  pub last_touched : ℕ
  pub bytes : ℕ
  pub packets : ℕ

pub record TableEntry : Type 0 where
  pub identity : ℕ
  pub counters : Counters
  pub priority : ℕ
  pub cookie : ℕ
  pub idle_timeout : ℕ
  pub hard_timeout : ℕ
  pub matching : Match
  pub actions : List Action
  pub buffer_id : Option ℕ

-- The commands of a flow mod; any other number is `unknown`.
pub data Command : Type 0 where
  add modify modify_strict delete delete_strict : Command
  unknown : ℕ → Command

-- The fields of an `ofp_flow_mod` that the table reads; `check_overlap` is its flag bit.
pub record FlowMod : Type 0 where
  pub command : Command
  pub matching : Match
  pub priority : ℕ
  pub cookie : ℕ
  pub idle_timeout : ℕ
  pub hard_timeout : ℕ
  pub actions : List Action
  pub buffer_id : Option ℕ
  pub out_port : ℕ
  pub check_overlap : Bool

abbrev pub Table : Type 0
Table = List TableEntry

-- `from_flow_mod`: a new object, created at `now`.
unfoldable pub from_flow_mod : ℕ → ℕ → FlowMod → TableEntry
from_flow_mod identity now m = record {
  identity = identity;
  counters = record { created = now; last_touched = now; bytes = 0; packets = 0 };
  priority = m.priority;
  cookie = m.cookie;
  idle_timeout = m.idle_timeout;
  hard_timeout = m.hard_timeout;
  matching = m.matching;
  actions = m.actions;
  buffer_id = m.buffer_id;
}

-- `check_port`: some action is an output to the port, if one is asked for.
unfoldable pub outputs_to : ℕ → List Action → Bool
outputs_to port [] = false
outputs_to port (output p ∷ rest) = p == port || outputs_to port rest
outputs_to port (other_action t ∷ rest) = outputs_to port rest

unfoldable pub check_port : Option ℕ → TableEntry → Bool
check_port none e = true
check_port (some port) e = outputs_to port e.actions

unfoldable pub is_matched_by : TableEntry → Match → ℕ → Bool → Option ℕ → Bool
is_matched_by e m priority strict out_port =
    if strict
    then (match_eq e.matching m && e.priority == priority) && check_port out_port e
    else matches_with_wildcards m e.matching true && check_port out_port e

unfoldable pub touch_packet : ℕ → ℕ → TableEntry → TableEntry
touch_packet byte_count now e =
    let c : Counters = e.counters in
    record e {
      counters = record c {
        last_touched = now;
        bytes = c.bytes + byte_count;
        packets = c.packets + 1;
      };
    }

-- `now - t > timeout`, for a clock that does not go back behind `t`.
unfoldable pub is_expired : ℕ → TableEntry → Bool
is_expired now e =
    (ltb 0 e.hard_timeout && ltb e.hard_timeout (now - e.counters.created))
    || (ltb 0 e.idle_timeout && ltb e.idle_timeout (now - e.counters.last_touched))

-- The key of the sort in `add_entry`: exact matches go before all priorities.
unfoldable pub sort_key : TableEntry → ℕ
sort_key e = if is_wildcarded e.matching then e.priority else 2 ^ 16 + 1

-- `sort(key, reverse=True)` is stable: an entry goes before the first one that has no larger key
-- and came later.
unfoldable pub sort_in : TableEntry → Table → Table
sort_in e [] = e ∷ []
sort_in e (x ∷ xs) = if leb (sort_key x) (sort_key e) then e ∷ x ∷ xs else x ∷ sort_in e xs

unfoldable pub sort_table : Table → Table
sort_table [] = []
sort_table (e ∷ es) = sort_in e (sort_table es)

unfoldable pub add_entry : TableEntry → Table → Table
add_entry e t = sort_table (t ++ (e ∷ []))

-- `self._table.remove(entry)`: the first object with this identity.
unfoldable pub remove : TableEntry → Table → Table
remove e [] = []
remove e (x ∷ xs) = if x.identity == e.identity then xs else x ∷ remove e xs

-- `for entry in remove_flows: self._table.remove(entry)`
unfoldable pub remove_all : List TableEntry → Table → Table
remove_all [] t = t
remove_all (e ∷ es) t = remove_all es (remove e t)

-- `[ entry for entry in self._table if test(entry) ]`
unfoldable pub select : (TableEntry → Bool) → Table → List TableEntry
select test [] = []
select test (e ∷ es) = if test e then e ∷ select test es else select test es

unfoldable pub matching_entries : Match → ℕ → Bool → Option ℕ → Table → List TableEntry
matching_entries m priority strict out_port t =
    select (λ e. is_matched_by e m priority strict out_port) t

unfoldable pub expired_entries : ℕ → Table → List TableEntry
expired_entries now t = select (is_expired now) t

-- The new table, and the entries that the event and the caller get.
unfoldable pub remove_expired_entries : ℕ → Table → Table × List TableEntry
remove_expired_entries now t =
    let remove_flows = expired_entries now t in (remove_all remove_flows t, remove_flows)

unfoldable pub remove_matching_entries : Match → ℕ → Bool → Table → Table × List TableEntry
remove_matching_entries m priority strict t =
    let remove_flows = matching_entries m priority strict none t in
    (remove_all remove_flows t, remove_flows)

-- The first entry whose match lets the packet pass.
unfoldable pub first_match : Match → Table → Option TableEntry
first_match pm [] = none
first_match pm (e ∷ es) =
    if matches_with_wildcards e.matching pm false then some e else first_match pm es

unfoldable pub entry_for_packet : Packet → ℕ → Table → Option TableEntry
entry_for_packet packet in_port t = first_match (from_packet packet (some in_port)) t

-- The loop of MODIFY: the new table and the entries that were modified.
unfoldable pub modify_loop : FlowMod → Bool → Table → Table × List TableEntry
modify_loop m strict [] = ([], [])
modify_loop m strict (e ∷ es) =
    let (t, modified) = modify_loop m strict es in
    let e' : TableEntry = record e { actions = m.actions } in
    if is_matched_by e m.matching m.priority strict none
    then (e' ∷ t, e' ∷ modified)
    else (e ∷ t, modified)

pub data Verb : Type 0 where
  added modified removed : Verb

-- What `process_flow_mod` returns, and the table behind it. `add_entry` returns None.
pub record Processed : Type 0 where
  pub table : Table
  pub verb : Verb
  pub affected : List TableEntry

-- MODIFY acts as ADD where nothing is modified, but nothing is removed then.
unfoldable pub finish_modify : List TableEntry → Table → TableEntry → Result Processed
finish_modify [] t new = ok (record { table = add_entry new t; verb = added; affected = [] })
finish_modify (e ∷ es) t new = ok (record { table = t; verb = modified; affected = e ∷ es })

unfoldable pub modify_or_add : FlowMod → Bool → ℕ → ℕ → Table → Result Processed
modify_or_add m strict identity now t =
    let (t', entries) = modify_loop m strict t in
    finish_modify entries t' (from_flow_mod identity now m)

-- Both DELETE commands call `remove_matching_entries` with `strict=True`.
unfoldable pub delete_matching : FlowMod → Table → Result Processed
delete_matching m t =
    let (t', gone) = remove_matching_entries m.matching m.priority true t in
    ok (record { table = t'; verb = removed; affected = gone })

-- The branches of `process_flow_mod` behind its two guards; `identity` and `now` are those of the
-- entry that may be created.
unfoldable pub run_command : Command → FlowMod → ℕ → ℕ → Table → Result Processed
run_command add m identity now t =
    let (t', gone) = remove_matching_entries m.matching m.priority true t in
    ok (record { table = add_entry (from_flow_mod identity now m) t'; verb = added; affected = [] })
run_command modify m identity now t = modify_or_add m false identity now t
run_command modify_strict m identity now t = modify_or_add m true identity now t
run_command delete m identity now t = delete_matching m t
run_command delete_strict m identity now t = delete_matching m t
run_command (unknown n) m identity now t = err attribute_error

unfoldable pub process_flow_mod : FlowMod → ℕ → ℕ → Table → Result Processed
process_flow_mod m identity now t =
    if m.check_overlap
    then err not_implemented
    else if not (m.out_port == 0xffff)
    then err not_implemented
    else run_command m.command m identity now t
