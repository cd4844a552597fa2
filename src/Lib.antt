-- ===== src/Lib.antt =====
-- TNSParser: a sniffer of Oracle's TNS protocol. One thread receives frames from a raw socket,
-- keeps those of TCP connections with one target, and queues them; the other takes them from the
-- queue, finds the session of the connection and runs the protocol parser on the packet, which
-- prints what it sees. The program is C; its files lie in src/.
--
-- Which file models which part:
--   Connect    parse_connect_data_to_json of src/oracle_tns.c, which turns a connect descriptor into
--              JSON. Connect/Descriptor has the descriptors as trees, with their two notations;
--              Connect/Scan and Connect/Pieces follow the loop, Connect/Whole says what they
--              compute, Connect/Refine and Connect/Overflow what comes out,
--              Connect/Faithful and Connect/Smuggled what that keeps apart.
--   Visible    parse_continuous_visible_characters of the same file.
--   Wire       the field macros of src/oracle_tns.h over a list of bytes; Wire/Offsets has its offsets,
--              Wire/Fields the macros that the parser does not use, Wire/Head the head of a packet on
--              the network.
--   Tns        the rest of src/oracle_tns.c: Tns/Payload the handlers of the data packet's payloads,
--              Tns/Table their table with msg_data_id_handle, Tns/Handlers the handlers of the packet
--              types, Tns/Parse the table of the types, packet_handle and TNS_protocol_parse.
--   Session    the table of src/session.c.
--   ListQueue  the linked queue of src/queue.c, on an explicit heap of nodes (ListQueue/Memory).
--   RingQueue  the ring of the same file; RingQueue/Runs has sequences of its calls, RingQueue/Views
--              what they can tell apart.
--   Sockets    the packet socket of src/socket.c; Sockets/Device says what it does to the interfaces.
--   Network    the header tests of src/network.c and what it writes into struct Packet of src/common.h;
--              Network/Ethernet has the functions of the network `ethernet`, on a socket of Sockets;
--              Network/Segment has frames as a sender writes them.
--   Pool       the packet pool of src/mempool.c, on an interface of the functions of list.h.
--   Process    mainprocess of src/process.c and the round of process_thread of src/main.c; Process/Sent
--              follows a packet from the frame to its session.
--   Threads    the two threads of src/main.c and what main sets up for them, the network included.
--              Threads/Waits adds the waits of list_queue_get and mem_pool_get, the signals that end
--              them and wakeups without a signal; Threads/Waits/Wakeups and Threads/Waits/Faults say
--              what these change.
--   Util       the hex dump of src/util.c.
--   Base       the shared names, tests, lemmas on lists, and the fault monad.
-- Function and field names are those of the code, in lower case. The modules named Examples hold tests
-- and applications of the theorems to concrete inputs.
--
-- How they interact: main sets up the pool, the queue, the session table and the network
-- (Threads.boot and Threads.main) and starts the threads, which take turns in any order
-- (Threads.turn, and Threads.Trace.Reach for the states that this leads to; Threads.Waits.events is
-- the same with threads that sleep). netrecv_thread takes a node of the pool (Pool.mem_pool_get),
-- has Network.eth_recv fill the Packet in it, and queues it (ListQueue.list_queue_put);
-- process_thread takes it from the queue, handles it and gives the node back. ListQueue carries the
-- addresses of packets; Process.process_all handles them in turn, which calls
-- Session.sess_must_find_node for the slot and Tns.Parse.tns_protocol_parse for the packet, and
-- writes the session back into its slot. The parser calls Connect, Visible and Util.
--
-- How C is read: memory is the list of the bytes from a pointer on. A read or write outside an
-- object, a null pointer that is followed and a string without an end are the value none of Option.
-- Numbers are natural numbers; 16-bit results carry their wrap-around. What printf writes is a list
-- of lines with their arguments. A function that changes an object returns it. The machine is
-- little-endian. time(NULL), malloc and the socket's data are arguments; calls of the JSON library
-- cJSON go to the record Tns.Handlers.CJson, about which nothing is assumed but in the hypotheses
-- of a theorem. The system calls are the record Sockets.Os, and Sockets.Device.Netdevice is what
-- their manual pages say of them. The functions of list.h are the record Pool.Links, and
-- Pool.Documented is what they are relied on for.
--
-- Bounds and fuel: a loop with a counter is a recursion on the rounds left, which its caller
-- computes from the loop's condition. decimal takes as many rounds as its argument can have digits:
-- 3 for a byte, which is below 1000, and 5 for a port, which is below 100000. pad_loop takes 32
-- rounds, since one of 32 numbers in a row is a multiple of 32. list_queue_flush takes the number
-- of nodes that the queue counts, which is exact on a queue that holds them.
--
-- Not modelled: what follows the endless loop in src/main.c, and the text that main and
-- set_sock_nonblock print; the mutexes themselves, which make each call one step up to its wait or
-- its end; cJSON and list.h, which are copies of other projects' libraries.
pub mod Base
pub mod Connect
pub mod Visible
pub mod Util
pub mod Wire
pub mod Session
pub mod Tns
pub mod ListQueue
pub mod RingQueue
pub mod Sockets
pub mod Network
pub mod Pool
pub mod Process
pub mod Threads
