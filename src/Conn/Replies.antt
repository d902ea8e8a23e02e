-- ===== src/Conn/Replies.antt =====
-- The handlers for the packets of a backend server, conn/conn_packet.c.
use mini_im.Base.{ℕ, Option, none, some, Bool, not, ◌||◌, ◌==◌, if◌then◌else◌, ◌>>=◌}
use mini_im.Protocol.{
  login_ok_connection, login_error_connection, srv_error_code, srv_login_ok_code,
  srv_set_nick_ok_code, srv_add_contact_wait_code, srv_contact_list_code,
  srv_contact_info_multi_code, srv_message_code, srv_offline_msg_code, srv_offline_msg_done_code,
}
use mini_im.Packet.{Packet, get_command, get_uin}
use mini_im.Connection.{Connection}
use mini_im.Conn.Hash.{HashOps}
use mini_im.Conn.State.{Server, set_client, get_conn_by_uin}
use mini_im.Conn.Send.{free_packet, sending, wait_for_write}

-- The commands that srv_other_packet is called for.
abbrev pub is_other : ℕ → Bool
is_other command =
    (command == srv_set_nick_ok_code)
    || (command == srv_add_contact_wait_code)
    || (command == srv_contact_list_code)
    || (command == srv_contact_info_multi_code)
    || (command == srv_message_code)
    || (command == srv_offline_msg_code)
    || (command == srv_offline_msg_done_code)

module _ {M : Type 0} {Unique : M → Type 0} (h : HashOps M Unique) where
  -- The packet goes to the client `a`, whose connection becomes `c`.
  abbrev pub deliver : Server M → ℕ → Connection → Packet → Server M
  deliver s a c packet = wait_for_write (set_client s a (sending c packet)) c.sfd

  -- srv_error and srv_login_ok, which differ in what they make of the connection.
  abbrev pub srv_login_result : ℕ → Server M → Packet → Option (Server M)
  srv_login_result conn_type s packet = elim (get_conn_by_uin h s (get_uin packet)) [
    | none ↦ some (free_packet s)
    | some a ↦ s.conns a >>= λ c. some (deliver s a (record c { conn_type = conn_type }) packet)
  ]

  unfoldable pub srv_error : Server M → Packet → Option (Server M)
  srv_error s packet = srv_login_result login_error_connection s packet

  unfoldable pub srv_login_ok : Server M → Packet → Option (Server M)
  srv_login_ok s packet = srv_login_result login_ok_connection s packet

  unfoldable pub srv_other_packet : Server M → Packet → Option (Server M)
  srv_other_packet s packet = elim (get_conn_by_uin h s (get_uin packet)) [
    | none ↦ some (free_packet s)
    | some a ↦ s.conns a >>= λ c.
        if not (c.conn_type == login_ok_connection)
        then some (free_packet s)
        else some (deliver s a c packet)
  ]

  -- For an unknown command the packet is only logged.
  unfoldable pub srv_packet_handler : Server M → Packet → Option (Server M)
  srv_packet_handler s packet =
      let command = get_command packet in
      if command == srv_error_code
      then srv_error s packet
      else if command == srv_login_ok_code
      then srv_login_ok s packet
      else if is_other command
      then srv_other_packet s packet
      else some s
