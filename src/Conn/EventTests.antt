-- ===== src/Conn/EventTests.antt =====
-- The theorems on the handlers of a socket at concrete calls.
use mini_im.Base.{
  All, subst, ℕ, ◌+◌, ◌≡◌, refl, sym, ap, List, [], ◌∷◌, ◌++◌, map, Option, none, some, arith,
  length,
}
use mini_im.Protocol.{login_ok_connection, cmd_login_code}
use mini_im.Bytes.{put_at, get_field_uint16_t, set_field_uint16_t, set_field_uint32_t}
use mini_im.Packet.{Packet, packet_init, get_length, get_command, fill_packet_header}
use mini_im.Connection.{Connection, conn_init}
use mini_im.Reader.{read_packet, read_loop, read_round, last_packet_complete}
use mini_im.Reader.Contents.{concat, stored}
use mini_im.Conn.Hash.{Assoc, assoc_ops}
use mini_im.Conn.State.{
  Server, user, client, get_conn, set_client, conn_server_init, is_server_socket, get_conn_by_fd,
}
use mini_im.Conn.Send.{cmd_user}
use mini_im.Conn.Commands.{dispatch_command, cmd_packet_handler}
use mini_im.Conn.Events.{accept_client, process_one, process_packets, error_handler}
use mini_im.Conn.Sockets.{
  Wrote, wrote, write_blocked, would_block, read_all, read_handler, write_handler,
}
use mini_im.Conn.Serving.{IsCalm, Passed}
use mini_im.Conn.Reading.{flatten, read_handler-whole, read_handler-cut}
use mini_im.Conn.Writing.{Run, images, write_loop-Run}
use mini_im.Conn.Flushing.{Whole, write_handler-Whole}

-- A client at address 1 on socket 9.
abbrev accepted : Server Assoc
accepted = accept_client assoc_ops (conn_server_init assoc_ops 0 7000) 9 1

abbrev newcomer : Connection
newcomer = record conn_init { sfd = 9 }

abbrev login : List ℕ
login = 12 ∷ 0 ∷ 1 ∷ 0 ∷ 1 ∷ 1 ∷ 0 ∷ 0 ∷ 100 ∷ 0 ∷ 0 ∷ 0 ∷ []

abbrev first_half : List ℕ
first_half = 12 ∷ 0 ∷ 1 ∷ 0 ∷ 1 ∷ []

abbrev last_half : List ℕ
last_half = 1 ∷ 0 ∷ 0 ∷ 100 ∷ 0 ∷ 0 ∷ 0 ∷ []

known : get_conn_by_fd assoc_ops accepted 9 ≡ some (client 1)
unfolding get_conn_by_fd accept_client conn_server_init conn_init
known = refl

live : accepted.conns 1 ≡ some newcomer
unfolding accept_client conn_server_init
live = refl

-- The client after its login, and a message of its.
abbrev logged_in : Connection
logged_in = record newcomer { conn_type = login_ok_connection }

abbrev with_login : Server Assoc
with_login = set_client accepted 1 logged_in

abbrev talk : List ℕ
talk = 12 ∷ 0 ∷ 1 ∷ 0 ∷ 1 ∷ 5 ∷ 0 ∷ 0 ∷ 100 ∷ 0 ∷ 0 ∷ 0 ∷ []

with_login_known : get_conn_by_fd assoc_ops with_login 9 ≡ some (client 1)
unfolding get_conn_by_fd accept_client conn_server_init conn_init
with_login_known = refl

talk-IsCalm : IsCalm (stored talk)
unfolding get_command get_field_uint16_t put_at packet_init
talk-IsCalm = (omega arith, omega arith)

none_waiting : newcomer.recv_packet_list ≡ []
unfolding conn_init
none_waiting = refl

abbrev two_reads : List (List (List ℕ))
two_reads = (talk ∷ talk ∷ []) ∷ (talk ∷ []) ∷ []

two_reads-IsCalm : All IsCalm (logged_in.recv_packet_list ++ map stored (flatten two_reads))
two_reads-IsCalm =
    subst (λ q. All IsCalm (q ++ map stored (flatten two_reads))) (sym none_waiting)
      (talk-IsCalm, (talk-IsCalm, (talk-IsCalm, tt)))

read_handler-whole_example :
    (s' : Server Assoc) × (read_handler assoc_ops with_login 9 (map concat two_reads) would_block
      ≡ some s')
    × Passed 1 logged_in
        (logged_in.recv_packet_list ++ map stored (flatten two_reads))
        with_login
        s'
read_handler-whole_example =
    read_handler-whole assoc_ops with_login 9 1 logged_in two_reads with_login_known refl refl refl
      (unfold conn_init in (refl, refl))
      (((refl, refl), ((refl, refl), tt)), (((refl, refl), tt), tt)) two_reads-IsCalm

abbrev or_accepted : Option (Server Assoc) → Server Assoc
or_accepted none = accepted
or_accepted (some s) = s

abbrev or_newcomer : Option Connection → Connection
or_newcomer none = newcomer
or_newcomer (some c) = c

-- After the first half of the packet.
abbrev half_read : Server Assoc
half_read = or_accepted (read_handler assoc_ops accepted 9 (first_half ∷ []) would_block)

abbrev half_conn : Connection
half_conn = or_newcomer (half_read.conns 1)

half_handled : read_handler assoc_ops accepted 9 (first_half ∷ []) would_block ≡ some half_read
unfolding read_handler read_all read_packet read_loop read_round last_packet_complete get_conn_by_fd
    accept_client conn_server_init conn_init process_packets process_one is_server_socket
    cmd_packet_handler dispatch_command get_command get_field_uint16_t put_at packet_init
half_handled = refl

half_live : half_read.conns 1 ≡ some half_conn
unfolding read_handler read_all read_packet read_loop read_round last_packet_complete get_conn_by_fd
    accept_client conn_server_init conn_init process_packets process_one is_server_socket
    cmd_packet_handler dispatch_command get_command get_field_uint16_t put_at packet_init
half_live = refl

half_known : get_conn_by_fd assoc_ops half_read 9 ≡ some (client 1)
unfolding read_handler read_all read_packet read_loop read_round last_packet_complete get_conn_by_fd
    accept_client conn_server_init conn_init process_packets process_one is_server_socket
    cmd_packet_handler dispatch_command get_command get_field_uint16_t put_at packet_init
half_known = refl

read_handler-cut_example :
    (half_conn.recv_packet_list ≡ [])
    × (half_conn.expect_bytes ≡ 7)
    × (read_handler assoc_ops half_read 9 (last_half ∷ []) would_block
        ≡ error_handler assoc_ops
            (set_client half_read 1 (record half_conn { expect_bytes = 0 }))
            9)
read_handler-cut_example =
    read_handler-cut assoc_ops accepted half_read 9 1 newcomer half_conn first_half last_half 1
      (0 ∷ 0 ∷ 100 ∷ 0 ∷ 0 ∷ 0 ∷ []) [] would_block known live (unfold conn_init in (refl, refl))
      (refl, refl) (omega arith) (omega arith) half_handled half_live half_known

-- The server with a packet for the user server, whose socket is 0.
abbrev packet : Packet
packet = fill_packet_header packet_init 12 cmd_login_code 100

abbrev asking : Server Assoc
asking = cmd_user (conn_server_init assoc_ops 0 7000) packet

user_known : get_conn_by_fd assoc_ops asking 0 ≡ some user
unfolding get_conn_by_fd cmd_user conn_server_init conn_init
user_known = refl

packet_length : get_length packet ≡ 12
unfolding get_length get_field_uint16_t fill_packet_header set_field_uint16_t set_field_uint32_t
    put_at packet_init
packet_length = refl

abbrev all_twelve : ℕ → Wrote
all_twelve k = wrote 12

abbrev blocked : ℕ → Wrote
blocked k = write_blocked

write_loop-Run_example : Run blocked 0 asking user asking.user_conn (packet ∷ [])
write_loop-Run_example =
    write_loop-Run blocked 0 asking user asking.user_conn (packet ∷ [])
      (unfold cmd_user conn_server_init conn_init in refl)

written-Whole : Whole all_twelve 0 asking.user_conn.send_packet_list
unfolding cmd_user conn_server_init conn_init
written-Whole = (omega (arith, packet_length), ap wrote (sym packet_length), tt)

write_handler-Whole_example :
    (s' : Server Assoc) × (write_handler assoc_ops asking 0 all_twelve
      ≡ some (s', images asking.user_conn.send_packet_list))
    × (get_conn s' user ≡ some (record asking.user_conn { send_packet_list = [] }))
    × (s'.free_packets ≡ asking.free_packets + length asking.user_conn.send_packet_list)
write_handler-Whole_example =
    write_handler-Whole assoc_ops asking 0 all_twelve user asking.user_conn user_known refl
      written-Whole
