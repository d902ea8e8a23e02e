-- ===== src/Lib.antt =====
-- MiniIM, an instant messenger: clients talk to the connection server, which passes their packets
-- to the user, contact, message and status servers and their replies back. This library models the
-- connection server as a whole, the four backend servers, and what they read their packets with.
--
-- Parts, with the code that each file is about (src/ is the repository's own directory):
--   Base, Base/*          shared names, tests and list lemmas over the native numbers
--   Protocol              src/include/protocol.h, conn_define.h: codes, lengths, connection states
--   Bytes, Packet,        src/include/list_packet.h, fill_packet_header of modules.h, the PARAM macros
--     Packet/Fields       of status.h: a packet is the list of the bytes of its memory
--   Timer, Timer/*        src/include/conn_timer.h: a wheel of 121 slots, one per second and one more
--   Connection            src/include/conn_connection.h: struct connection and conn_init
--   Reader, Reader/*      src/conn/conn_network.c: read_packet, last_packet_incomplete,
--                         last_packet_incomplete_1byte and last_packet_complete
--   Conn/Hash             what the connection server uses of src/include/uthash.h, as an interface
--   Conn/State            src/include/conn_server.h: struct conn_server, get_conn_by_fd,
--                         get_conn_by_uin
--   Conn/Send             src/conn/conn_packet.c: the packets it makes itself, cmd_user, cmd_contact,
--                         cmd_message, conn_destroy and close_connection
--   Conn/Commands         cmd_packet_handler and the handlers of a client's packets
--   Conn/Replies          srv_packet_handler and the handlers of a backend's packets
--   Conn/Events           src/conn/conn_network.c: process_packet, error_handler; conn_timer.c:
--                         timer_expire_time
--   Conn/Sockets          accept_handler, read_handler and write_handler
--   Conn/Loop, Conn/Start a round of epoll_loop, and main of src/conn/conn_server.c
--   Status, Status/*      src/server/status.c: the cache of who is online, and status_packet
--   Modules, Modules/*    src/server/modules.c: packet_read and send_error_packet, and the reads of the
--                         main loop of status.c
--   Query                 what a select of MySQL gives
--   Text, Text/Laws       strings of C in memory, and the numbers that the queries are printed with
--   Message, Message/*    src/server/message.c: the queues of messages, send_msg, store_offline_msg and
--                         message_packet
--   Message/Db            src/server/message_db.c: the offline messages, and the page of message_get
--   Friend, Friend/*      src/server/friend.c: requests, the list of contacts, what is known of
--                         each, and friend_packet
--   Friend/Db             src/server/friend_db.c: the five tables of contacts
--   User, User/*          src/server/user.c: logins, nicks and registrations, and user_packet
--   User/Db               src/server/user_db.c: the users
-- The other files below these hold lemmas and theorems, and those called Tests, EventTests, ExpiryTests
-- or LinkTests the theorems at concrete states.
--
-- How they fit: epoll_round calls the handlers of Conn/Sockets and then timer_expire_time;
-- read_handler fills the queue of a connection with read_packet and empties it with
-- process_packets, which calls cmd_packet_handler or srv_packet_handler; these move packets to the
-- queues that write_handler writes. A client that leaves is reported to the status server by the
-- packet offline_packet, which status_packet reads. A chat message waits in the message server,
-- which asks the status server with request_status and sends it on or stores it by the answer, in
-- message_packet; the friend server puts its requests there with send_friend_msg, and asks for the
-- status of contacts in on_contact_info, whose answer comes to on_multi_status. The user server
-- checks a password with passwd_verify, tells the status server with request_status_change, and
-- answers with the nick.
--
-- State is passed on explicitly. A connection of a client is named by its address, and `conns` has
-- the live ones, so that an access to freed memory is seen: a handler that makes one returns
-- `none`, as does a failed assert. A packet's memory is 5018 bytes, and a write behind it is an
-- outcome of its own. The hash maps are a parameter with the laws of Conn/Hash, and association
-- lists are one. What system calls return is an argument, and so is what stands in memory that is
-- not set. The databases are the parameters OfflineDb, ContactDb and UserDb, whose operations are
-- the queries of the source; what is relied on of MySQL is a hypothesis (InsertLaw, for texts that
-- need no escape, and UpdateLaw). Integers are natural numbers; those of 16 and 32 bits are
-- reduced where they are stored, little end first.
--
-- Loops recurse on a list, or on a number of rounds: read_packet on the number of bytes, of which
-- a round takes one at least; process_packets on the number of packets in the queue, and
-- close_timed_out on that of the connections in the slot, of which a round takes one off;
-- send_pages on the rows left of a result, of which a round fetches one at least.
--
-- Not modelled: logs and dumps, the set-up of sockets, of epoll and of the interval timer, and the
-- assignment of addresses by malloc; the main loops of the backend servers, whose reads are those
-- of Modules, and the opening of their connections; the start of the status server with a file
-- that another process left, since it holds that process's pointers. MD5 is a parameter. The
-- client programs have no model here.
pub mod Base
pub mod Protocol
pub mod Bytes
pub mod Packet
pub mod Timer
pub mod Connection
pub mod Reader
pub mod Status
pub mod Conn
pub mod Modules
pub mod Text
pub mod Message
pub mod Friend
pub mod Query
pub mod User
