-- ===== src/Conn/Tests.antt =====
-- The theorems on the connection server at concrete states, with association lists for the maps.
use mini_im.Base.{ℕ, ◌^◌, ◌<◌, ◌≡◌, ◌⊎◌, refl, Option, none, some, true, arith, ◌==◌, if◌then◌else◌}
use mini_im.Protocol.{
  packet_header_len, login_ok_connection, cmd_login_code, srv_login_ok_code, cmd_message_code,
  login_uncomplete_connection, rep_status_changed_code,
}
use mini_im.Bytes.{
  put_at, get_field_uint16_t, get_field_uint32_t, set_field_uint16_t, set_field_uint32_t,
}
use mini_im.Packet.{Packet, packet_init, get_command, get_uin, fill_packet_header}
use mini_im.Packet.Laws.{Header, fill_packet_header-Header, length-packet_init, received}
use mini_im.Connection.{Connection, conn_init}
use mini_im.Status
use mini_im.Status.{
  success, presence, get_status, reply, status_packet, status_list_init, count_down,
}
use mini_im.Status.Invariant.{IsValid, given, status_list_init-IsValid, given-IsValid}
use mini_im.Conn.Hash.{Assoc, assoc_ops}
use mini_im.Conn.State.{Server, conn_server_init, get_conn_by_uin}
use mini_im.Conn.Send.{offline_packet, cmd_user, cmd_message}
use mini_im.Conn.Commands.{cmd_packet_handler, dispatch_command, cmd_login}
use mini_im.Conn.Replies.{srv_packet_handler, srv_login_ok}
use mini_im.Conn.Events.{accept_client}
use mini_im.Conn.Gate.{cmd_packet_handler-Routed}
use mini_im.Conn.Routes.{Routed, route}
use mini_im.Conn.Delivery.{
  logged_in, clients_after, srv_packet_handler-clients, cmd_packet_handler-grants_no_login,
  srv_packet_handler-grants_login,
}
use mini_im.Conn.Offline.{offline_packet-status_packet}

-- A packet of user 100 with this command.
abbrev pub of_100 : ℕ → Packet
of_100 command = fill_packet_header packet_init 12 command 100

Header-of_100 : (command : ℕ) → command < 2 ^ 16 → Header (of_100 command) 12 1 command 100
Header-of_100 command small =
    fill_packet_header-Header packet_init 12 command 100 (omega (arith, length-packet_init))
      (omega arith) small (omega arith)

-- A client at address 1 on socket 9, which has sent its login.
abbrev pub accepted : Server Assoc
accepted = accept_client assoc_ops (conn_server_init assoc_ops 0 7000) 9 1

abbrev pub newcomer : Connection
newcomer = record conn_init { sfd = 9 }

abbrev or_accepted : Option (Server Assoc) → Server Assoc
or_accepted none = accepted
or_accepted (some s) = s

abbrev pub asked : Server Assoc
asked = or_accepted (cmd_packet_handler assoc_ops accepted 1 (of_100 cmd_login_code))

abbrev confirmed : Server Assoc
confirmed = or_accepted (srv_packet_handler assoc_ops asked (of_100 srv_login_ok_code))

abbrev messaging : Server Assoc
messaging = or_accepted (cmd_packet_handler assoc_ops confirmed 1 (of_100 cmd_message_code))

pub login_handled : cmd_packet_handler assoc_ops accepted 1 (of_100 cmd_login_code) ≡ some asked
unfolding cmd_packet_handler dispatch_command cmd_login accept_client conn_server_init conn_init
    get_command get_field_uint16_t fill_packet_header set_field_uint16_t set_field_uint32_t put_at
    packet_init
login_handled = refl

login_confirmed : srv_packet_handler assoc_ops asked (of_100 srv_login_ok_code) ≡ some confirmed
unfolding srv_packet_handler srv_login_ok get_conn_by_uin cmd_packet_handler dispatch_command
    cmd_login cmd_user accept_client conn_server_init conn_init get_command get_uin
    get_field_uint16_t get_field_uint32_t fill_packet_header set_field_uint16_t set_field_uint32_t
    put_at packet_init
login_confirmed = refl

confirmed_is : logged_in (confirmed.conns 1) ≡ true
unfolding srv_packet_handler srv_login_ok get_conn_by_uin cmd_packet_handler dispatch_command
    cmd_login cmd_user accept_client conn_server_init conn_init get_command get_uin
    get_field_uint16_t get_field_uint32_t fill_packet_header set_field_uint16_t set_field_uint32_t
    put_at packet_init
confirmed_is = refl

uin_known : assoc_ops.find asked.uin_conn_map (get_uin (of_100 srv_login_ok_code)) ≡ some 1
unfolding srv_packet_handler srv_login_ok get_conn_by_uin cmd_packet_handler dispatch_command
    cmd_login cmd_user accept_client conn_server_init conn_init get_command get_uin
    get_field_uint16_t get_field_uint32_t fill_packet_header set_field_uint16_t set_field_uint32_t
    put_at packet_init
uin_known = refl

abbrev pub asking : Connection
asking = record newcomer { uin = 100; conn_type = login_uncomplete_connection }

pub client_live : asked.conns 1 ≡ some asking
unfolding srv_packet_handler srv_login_ok get_conn_by_uin cmd_packet_handler dispatch_command
    cmd_login cmd_user accept_client conn_server_init conn_init get_command get_uin
    get_field_uint16_t get_field_uint32_t fill_packet_header set_field_uint16_t set_field_uint32_t
    put_at packet_init
client_live = refl

still_on : logged_in (messaging.conns 1) ≡ true
unfolding srv_packet_handler srv_login_ok get_conn_by_uin cmd_packet_handler dispatch_command
    cmd_login cmd_user cmd_message accept_client conn_server_init conn_init get_command get_uin
    get_field_uint16_t get_field_uint32_t fill_packet_header set_field_uint16_t set_field_uint32_t
    put_at packet_init
still_on = refl

message_handled :
    cmd_packet_handler assoc_ops confirmed 1 (of_100 cmd_message_code) ≡ some messaging
unfolding srv_packet_handler srv_login_ok get_conn_by_uin cmd_packet_handler dispatch_command
    cmd_login cmd_user cmd_message accept_client conn_server_init conn_init get_command get_uin
    get_field_uint16_t get_field_uint32_t fill_packet_header set_field_uint16_t set_field_uint32_t
    put_at packet_init
message_handled = refl

cmd_packet_handler-Routed_example :
    (s' : Server Assoc) × (cmd_packet_handler assoc_ops accepted 1 (of_100 cmd_login_code)
      ≡ some s')
    × Routed
        (route (newcomer.conn_type == login_ok_connection) (get_command (of_100 cmd_login_code)))
        1
        newcomer
        (of_100 cmd_login_code)
        accepted
        s'
cmd_packet_handler-Routed_example =
    cmd_packet_handler-Routed assoc_ops accepted 1 (of_100 cmd_login_code) newcomer
      (unfold accept_client conn_server_init in refl)

srv_packet_handler-grants_login_example :
    (logged_in (asked.conns 1) ≡ true)
    ⊎ ((get_command (of_100 srv_login_ok_code) ≡ srv_login_ok_code)
        × (assoc_ops.find asked.uin_conn_map (get_uin (of_100 srv_login_ok_code)) ≡ some 1))
srv_packet_handler-grants_login_example =
    srv_packet_handler-grants_login assoc_ops asked confirmed (of_100 srv_login_ok_code) 1
      login_confirmed confirmed_is

cmd_packet_handler-grants_no_login_example : logged_in (confirmed.conns 1) ≡ true
cmd_packet_handler-grants_no_login_example =
    cmd_packet_handler-grants_no_login assoc_ops confirmed messaging 1 (of_100 cmd_message_code) 1
      message_handled still_on

srv_packet_handler-clients_example :
    (s' : Server Assoc) × (srv_packet_handler assoc_ops asked (of_100 srv_login_ok_code) ≡ some s')
    × ((b : ℕ) → s'.conns b ≡ clients_after assoc_ops asked 1 asking (of_100 srv_login_ok_code) b)
srv_packet_handler-clients_example =
    srv_packet_handler-clients assoc_ops asked (of_100 srv_login_ok_code) 1 asking uin_known
      client_live

-- A status server on which user 100 is online, and the buffer that it reads into.
abbrev no_one : Status.Server
no_one = status_list_init

abbrev one_online : Status.Server
one_online = given no_one 100 5 7000 999 (count_down 999)

one_online-IsValid : IsValid one_online
unfolding status_list_init count_down
one_online-IsValid =
    given-IsValid no_one status_list_init-IsValid.0 100 5 7000 999 (count_down 999) refl refl
      (omega arith)

offline_packet-status_packet_example :
    (st' : Status.Server) × (status_packet one_online
        (received packet_init (offline_packet 100))
        packet_init
      ≡ reply st' (fill_packet_header packet_init packet_header_len rep_status_changed_code 100))
    × ((j : ℕ)
        → get_status st' j ≡ (if 100 == j then some (presence 0 0 0) else get_status one_online j))
offline_packet-status_packet_example =
    offline_packet-status_packet one_online 100 999 packet_init packet_init one_online-IsValid refl
      length-packet_init
