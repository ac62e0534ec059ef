-- ===== src/Lib.antt =====
-- Verification of the Python programs of this repository: the controller side of Project-4, in
-- which a simple router (a separate process) gets its frames from an OpenFlow switch through two
-- modules of a POX controller, and parts of the POX controller under it; and the flow statistics
-- of Project-5.
--
-- How the parts interact. The OpenFlow handler reads the addresses of the hosts and of the router
-- from a file, and for every switch announces the ports in a `RouterInfo` event. The simple
-- router handler keeps the two maps between interface names and ports, answers its clients,
-- broadcasts the frames that come in and sends the frames of a client out. Both talk in the
-- messages of the VNS protocol. The flow table and the matches are those of POX's OpenFlow
-- library, whose messages go between controller and switch as bytes; the discovery of links sends
-- packets of its own through the same switches.
--
-- Files:
-- - Base, Bytes, Text: lists, results, dictionaries; Python's struct.pack and struct.unpack, with
--   the formats as data in Bytes/Format; Python's split, strip and int on byte strings, and str
--   and hex of a number in Text/Numbers. A Python 2 string is a list of numbers below 256, an
--   exception is a value of `Error`.
-- - Vns: Project-4/pox_module/CSE425/VNSProtocol.py. Vns/Messages has the classes (one record
--   each, `Message` is their sum), Vns/Codec pack_x, unpack_x and length_x for the methods of
--   class VNSX (those of VNSOpenTemplate are in Vns/Template), Vns/Banners get_banners and
--   get_banners_and_close.
-- - SrHandler: Project-4/pox_module/CSE425/srhandler.py. SrHandler/Listener has the state of
--   SRServerListener, SrHandler/Handlers its methods: handle_x is _handle_x. A handler returns
--   the new state, the effects in order and whether it raised. What conn.send writes is the
--   parameter pack_with_header, since it belongs to the library ltprotocol.
-- - OfHandler: Project-4/pox_module/CSE425/ofhandler.py. OfHandler/Settings has get_ip_setting
--   and launch, OfHandler/Switch the class OFHandler.
-- - Addresses: Project-4/pox/pox/lib/addresses.py. An EthAddr is its six bytes, an IPAddr its
--   toUnsigned().
-- - OpenFlow/Match: ofp_match in Project-4/pox/pox/openflow/libopenflow_01.py, with from_packet
--   in OpenFlow/Match/Packets.
-- - Wire: pack, unpack, __len__ and == of the classes in
--   Project-4/pox/pox/openflow/libopenflow_01.py. Wire/Match has ofp_match, Wire/Actions the
--   actions (Wire/Actions/Union their sum, Wire/Actions/Loop the loop of _unpack_actions),
--   Wire/Messages the messages and Wire/Stats the bodies of statistics; Wire/RoundTrip/Objects
--   has the classes of one format as one family. pack_x and unpack_x are the methods of class
--   ofp_x; unpack takes the object as it was before, as the source does, and returns what it
--   returns.
-- - Discovery: Project-4/pox/pox/openflow/discovery.py. Discovery/Sender has LLDPSender,
--   Discovery/Originator what a discovery packet holds and how it is read, Discovery/Handlers the
--   class Discovery. handle_lldp is _handle_PacketIn.
-- - OpenFlow/Switch: SwitchImpl in Project-4/pox/pox/openflow/switch_impl.py;
--   OpenFlow/Switch/Buffer the packet buffer, OpenFlow/Switch/Dataplane what happens to a packet,
--   OpenFlow/Switch/Control the handlers of messages. A method returns the switch, its effects in
--   order and whether it raised.
-- - Learning: LearningSwitch in Project-4/pox/pox/forwarding/l2_learning.py, a controller for
--   such a switch.
-- - OpenFlow/Connection: the read loop of ControllerConnection, also in switch_impl.py, on fuel;
--   the classes by type of make_type_to_class_table (openflow/util.py) for the messages that a
--   controller sends.
-- - IoWorker: IOWorker in Project-4/pox/pox/lib/ioworker/io_worker.py.
-- - Headers: Project-4/pox/pox/lib/packet, Headers/Arp for arp.py, Headers/Ethernet for
--   ethernet.py and vlan.py, Headers/Ipv4 for ipv4.py and the checksum of packet_utils.py,
--   Headers/Udp for udp.py. The bytes behind a header are left to the next parser.
-- - FlowAnalysis: Project-5/flowAnalysis.py, the counts that are plotted.
-- - OpenFlow/FlowTable: Project-4/pox/pox/openflow/flow_table.py. A table is the list of its
--   entries; an entry has an identity, since list.remove compares objects. process_flow_mod
--   returns the new table with the result of the source.
-- - OpenFlow/Pending: NOMFlowTable in the same file, the controller's copy of a switch's table.
--   The events of the switch are calls of its handlers; the time of a change is an argument.
--
-- Bounds and fuel. The loops of the modelled code run over a list or a counted range, and are
-- structural recursion, but for three: the read loop of the connection has fuel, one unit for
-- each message in the stream, the loop over the bytes of actions has one more than there are
-- bytes and says when it is used up, which never happens, and the digits of a number n are
-- written with n + 1. Numbers are those of Python, which do not overflow; the widths of
-- struct.pack are checked as struct checks them.
--
-- Not modelled: the event dispatch of POX (an event is the call of its handler), logging and
-- printing, threads and sockets, the library ltprotocol, and the parts of POX that none of the
-- files above names; of the modelled source files also __str__ and show, the statistics
-- containers and queue lists of libopenflow_01.py, parseCIDR, flow_stats and entries_for_port,
-- and of the switch the actions other than output, its statistics and its connection.
pub mod Base
pub mod Bytes
pub mod Text
pub mod Vns
pub mod SrHandler
pub mod Addresses
pub mod OfHandler
pub mod OpenFlow
pub mod Learning
pub mod FlowAnalysis
pub mod IoWorker
pub mod Headers
pub mod Wire
pub mod Discovery
