-- ===== src/Lib.antt =====
-- The sm4ns3 plugin, by which ns-3 takes part in a Sim Mobility simulation: bundles of JSON messages
-- arrive over a TCP socket, change the agents of the ns-3 simulation, and answers go back at the end
-- of each tick.
--
-- The program's parts and the files that model them (paths from the repository's root):
--   * model/bundle_version.cc, the fixed header of a bundle: Header (make_bundle_header,
--     read_bundle_header, and the older hexadecimal format), with Header/Text for the stream
--     operators that the older format uses.
--   * model/message/serialize.cc and serialize.h: Writer (JsonSingleLineWriter), Conglomerate
--     (MessageConglomerate: addMessage, getCount and the other accessors), Serialize (JsonParser:
--     serialize_begin, addGeneric, serialize_end, deserialize), Messages (parseNewAgents,
--     parseAllLocations, parseOpaqueSend) and Make (the make functions).
--   * model/thread_safe_queue.h: Queue.
--   * model/smb_agent.cc: Agents, the registry AllAgents with AddAgent, getAgent, RemoveAgent,
--     SetPosition and SendTo; Agents/Groups, WFD_Agent::init, figureOutGroup and configAll over the
--     shared node containers; Agents/Sockets, the constructors, init, initSocket, Bind and the
--     destructors over the address object on the heap; Receive, ReceivePacket, which forwards what
--     agents receive.
--   * model/smb_base_wifi.cc, smb_base_ip.cc and smb_base_mobility.cc, with their calls in Agent::init:
--     Agents/Networking.
--   * model/message/handlers.cc: Handlers, the lookup and the handlers of incoming messages.
--   * model/network/smb_session.h and smb_session.cc: Session, bundles over a byte stream, read at once
--     (read) or by completion handlers (async_read); Session/Connect, with Connection::connect of
--     model/network/smb_connection.cc.
--   * model/smb_broker.cc and model/network/smb_connection.cc: Broker, with onMessageReceived and
--     readHandler on the io thread, and pause, which works off one tick, on the ns-3 thread.
--   * model/network/registration.cc, with Broker::start of model/smb_broker.cc: Registration, which
--     connects, answers the server, makes and initialises the agents, and for Wi-Fi Direct assigns the
--     roles and has the networks made.
--   * model/profile_builder.cc: Profiler, the log file that all profile builders share.
--   * model/testing/rr_baseline.cc: Trace, how a recorded trace is read (Trace/Text cuts its tokens),
--     and Trace/Playback, the broker that plays it: createNodes, start, pushToQueue and pause.
--   * examples/simmobility-example.cc and simmobility-RR-baseline.cc: Programs, from the command line
--     to the exit code.
--   * Base holds what they share: Base/Outcomes is the result of a call (it returns, throws, or is
--     undefined), Base/Maps is std::map, Base/Lists has strings of bytes, Base/Integers is
--     the signed int.
--   * Tests runs the model on concrete data, with a small JSON library.
--
-- How they interact: a bundle that has arrived is read by Serialize into a conglomerate and queued
-- (Broker.on_message_received); the next tick takes the conglomerates out (Broker.process_incoming),
-- finds a handler for each message (Handlers.get_handler), which parses it (Messages) and changes
-- the registry or sends packets (Agents). Then the collected answers and the end of the tick are
-- serialized (Make, Serialize) and written (Session). The two threads exclude each other by
-- `mutex_pause`, so a run of a broker is a sequence of whole calls (Broker/Reachable). A trace is
-- played without the network: each tick makes its own messages, reads them back and has the broker
-- handle them, and the profiler logs its begin and its end.
--
-- The library jsoncpp is the parameter JsonLib: its values, the calls that the code makes, and as
-- hypotheses what its documentation says of them (IsTree: values are finite trees; BuildsObjects and
-- ReadsMembers: assigning and reading a member; BuildsArrays: append; ReadsReals: asDouble).
-- JsonLib/Objects draws from them how a value that is built member by member looks. The split and lexical_cast of boost are the
-- parameter Boost. The socket is whether it is open, the bytes that have arrived and the bytes
-- that were written. ns-3 is the positions set, the packets handed to sockets and the number of
-- scheduled ticks; its devices and addresses are the parameter NetworkLib, with the hypotheses Assigns
-- (one device for each node, and each device the next address). That ns-3's helper ends the program
-- when it installs the internet stack on a node that has it is part of Agents/Sockets, and that boost
-- leaves a socket open which it could not connect is part of Session/Connect.
--
-- Integers: a byte is cut modulo 256, an unsigned int modulo 2 ^ 32; sums of ints are checked against
-- 31 bits where the code compares them. Fuel: the writer gets one step more than the value is deep,
-- processIncoming as many rounds as bundles are queued, and doConnect 2 ^ 32 rounds, after which its
-- unsigned counter has met every timeout; that this is enough is shown with each. A number is printed
-- with at most 20 decimal digits, or 8 hexadecimal ones; integers of 64 and 32 bits have no more.
--
-- Not modelled: the defaults that Broker::start and the programs set in ns-3 and the first part of
-- createNodes in model/testing/rr_baseline.cc (settings of ns-3 objects); the thread of the io_service
-- and ~Broker, which stops it; DevRxTrace and GetTypeId; and what is printed.
-- That a file can be opened, the lines of a trace file, what the clock says, the packets that a
-- socket delivers, what the resolver and the network answer, and the run of the simulation in the
-- programs are arguments. An exception ends a run: nothing in the repository catches one, so the state
-- that a throwing call leaves is not kept.
pub mod Base
pub mod Header
pub mod JsonLib
pub mod Writer
pub mod Conglomerate
pub mod Serialize
pub mod Queue
pub mod Messages
pub mod Make
pub mod Agents
pub mod Receive
pub mod Handlers
pub mod Session
pub mod Broker
pub mod Registration
pub mod Profiler
pub mod Trace
pub mod Programs
pub mod Tests
