-- ===== src/Lib.antt =====
-- The trains protocol: processes on a ring pass trains round, which carry wagons of messages, so
-- that all the processes deliver the messages in one order.
--
-- The parts of the program, and the files that model them:
--   * Address: src/address.c. An address is a bit of an `unsigned short`, by the rank of its
--     process; a set of addresses is their `|`. Address/Rank: ranks and addresses; Address/Sets: the sets
--     process by process; Address/Prec: the search for the predecessor.
--   * Memory, Wagon: the packed structs of include/msg.h, include/wagon.h and
--     include/applicationMessage.h as bytes, with src/wagon.c, firstWagon of src/msg.c and
--     nextWagon of src/advanced_struct.c.
--   * World: the global variables of all the files as one record, the memory of reference-counted
--     blocks (womim) as a function from pointers, and the actions on the outside as a list.
--     World/Run: code as functions of the world with an outcome (a result, the end of the process,
--     a fault, or no fuel left). World/Ends and World/Keeps: what a piece of code does whenever it
--     returns, World/Halts: that it ends, and the parts of the world that it does not change.
--   * Hosts: the table that addrGenerator of src/management_addr.c makes of the file of addresses,
--     from the tokens of its lines on, and addrID, which looks hosts up.
--   * Table: the connections of globalAddrArray in src/management_addr.c.
--   * Stamp: isRecentTrain and isInLts of src/advanced_struct.c.
--   * Buffer: newWiw, mallocWiw, releaseWiw, freeWiw and freeWomim of src/advanced_struct.c.
--   * Broadcast: newmsg and utoBroadcast of src/applicationMessage.c, and src/signalArrival.c.
--   * Connect: openConnection, closeConnection and searchSucc of src/connect.c, newMsg of
--     src/msg.c, and sendOther and sendTrain of src/iomsg.c.
--   * Train: trainHandling of src/stateMachine.c, with the loop over the wagons.
--   * Automaton: the automaton of src/stateMachine.c. Automaton/Handlers and Automaton/Several have
--     one function for each state, by the type of the message; Automaton/Step has the
--     transitions as a relation, Automaton/Joining and Automaton/Transitions that the code keeps to
--     them, Automaton/Search the search for a predecessor.
--   * Startup: trInit of src/interface.c. Startup/Alone and Startup/Init are about a process that no
--     other answers.
--   * Link: commRead, commReadFully, commWrite and commWritev of src/comm.c, over a list of the
--     turns that the system calls take. Sockets: the rest of src/comm.c, with the results of the
--     system calls as arguments; Sockets/Dials is about connections that are made, Sockets/Binds
--     about those that are awaited, and Sockets/Accepting has acceptMgt of src/stateMachine.c.
--   * Receive: receive of src/iomsg.c, connectionMgt and msgTreatment of src/connect.c;
--     Receive/Wire and Receive/Frames read what sendOther and sendTrain have written.
--   * Deliver: fillCv and utoDeliveries of src/applicationMessage.c. Deliver/Messages is about the
--     messages of a wagon, Deliver/Wagons about one wagon, Deliver/Queue about the queue of wagons, and
--     Deliver/Append and Deliver/Newmsg are about a wagon that newmsg adds a message to,
--     Deliver/Signal about one that gets a message of an arrival or a departure.
--   * Links: src/list.c and src/bqueue.c on a heap of links, refined to sequences in Links/Refines
--     and Links/Extend;
--     the other modules take a queue as the list of its elements.
--   * The measurement programs, which order messages by a leader's acks. Vector: the interface of
--     vector.h, which is not in the repository. Order: the acked messages with the bits of the
--     processes that still lack them (update_vector). Books: what protocol_tcp/main.c and
--     protocol_udp/mainUDP.c do alike with the messages of a process; Books/History says what
--     the variables stand for, and Books/Agreement compares two histories. Ring:
--     protocol_tcp/main.c, with its sockets in Ring/Opening and its configuration file in Config. Multicast: protocol_udp/mainUDP.c, with its start in Multicast/Prepare.
--     Clock: measure_time_difference of both.
--
-- How they interact: a message from the network is a womim that stateMachine handles under
-- stateMachineMutex, so a call is one step. In the state SEVERAL a recent train is given to
-- trainHandling, which moves the stable wagons to wagonsToDeliver, keeps the new ones in
-- unstableWagons, and adds the wagon that utoBroadcast and signalArrivalDepartures have filled;
-- sendTrain sends it to the successor.
--
-- Numbers are natural numbers, with the wrap-around of the C types written out where the code
-- relies on it. The lengths of wagons and messages are `int`s: mallocWiw and
-- signalArrivalDepartures fault where a length does not stay below 2 ^ 31, and nextWagon goes back by a negative one. An index outside lts (MAX_NTR,
-- 16), unstableWagons (MAX_NTR by NR, 3), vector_no_ack (MAX_NODES, 5) or the nodes of config_info is
-- a fault in automatonInit, trainHandling, initialize and get_ip_port. Loops without a bound in the source run on fuel: 17 rounds for addrToRank, which
-- shifts at most 16 times; 16 for addrPrec, after which the ranks repeat; the length of the train
-- and one more for its wagons, which is enough where each of them takes a byte or more; 17 for fillCv, which shifts a
-- bit out of 16; the number of bytes and one more for commReadFully; the length of a wagon and one
-- more for its messages; 17 for the search for a predecessor, which steps back over the ring. The
-- loops around a system call use up a turn in each round, and listExtend and bqueueExtend a new link;
-- cleanList and freeList take more fuel than the list has values. The counters wrap at 2 ^ 64.
--
-- `malloc` of a womim, the bytes found in a new block, what commNewAndConnect returns to the
-- automaton and `rand` are the parameters `Env`; the sockets behind commNewAndConnect are in Sockets. Not modelled: threads and their waits (a mutex that is
-- locked is a block for ever), the installation of signal handlers, the reading of the address file
-- into tokens, and of the measurement programs main, the sockets of protocol_udp, the
-- arguments, and the latency and throughput, which are doubles.
--
-- A round of a thread of a measurement program is one step; its sequence numbers, of `int` and `long`, are taken
-- without overflow, and its messages are no shorter than their headers. The block that malloc returns for a
-- msg_info is an argument, and a theorem says where it has to be a new one. A vector is full where
-- addElt does not return 1, which ends the program; the theorems on the handlers are for vectors
-- with room. The loop over vectorAck runs over its elements, and the loop that delivers on one
-- more round than it has elements, of which each takes one out.
pub mod Base
pub mod Address
pub mod Memory
pub mod Wagon
pub mod World
pub mod Table
pub mod Stamp
pub mod Buffer
pub mod Broadcast
pub mod Connect
pub mod Train
pub mod Automaton
pub mod Link
pub mod Deliver
pub mod Receive
pub mod Vector
pub mod Order
pub mod Books
pub mod Ring
pub mod Multicast
pub mod Clock
pub mod Links
pub mod Hosts
pub mod Sockets
pub mod Startup
pub mod Config
