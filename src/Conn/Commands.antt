-- ===== src/Conn/Commands.antt =====
-- The handlers for the packets of a client, conn/conn_packet.c. `a` is the client's connection.
use mini_im.Base.{ℕ, [], ◌∷◌, ◌++◌, Option, some, not, ◌&&◌, ◌||◌, ◌==◌, if◌then◌else◌, ◌>>=◌}
use mini_im.Protocol.{
  login_ok_connection, login_uncomplete_connection, cmd_keep_alive_code, cmd_login_code,
  cmd_logout_code, cmd_set_nick_code, cmd_add_contact_code, cmd_add_contact_reply_code,
  cmd_contact_list_code, cmd_contact_info_multi_code, cmd_message_code, cmd_offline_msg_code,
}
use mini_im.Packet.{Packet, get_command, get_uin}
use mini_im.Conn.Hash.{HashOps}
use mini_im.Conn.State.{Server, set_client}
use mini_im.Conn.Send.{
  free_packet, send_offline_to_status, close_connection, cmd_user, cmd_contact, cmd_message,
}

module _ {M : Type 0} where
  unfoldable pub cmd_keep_alive : Server M → Packet → Server M
  cmd_keep_alive s packet = record s { keep_alive_list = s.keep_alive_list ++ packet ∷ [] }

module _ {M : Type 0} {Unique : M → Type 0} (h : HashOps M Unique) where
  open h use {add}

  unfoldable pub cmd_login : Server M → ℕ → Packet → Option (Server M)
  cmd_login s a packet = do
    c ← s.conns a
    let c' = record c { conn_type = login_uncomplete_connection; uin = get_uin packet }
    let s' = set_client s a c'
    some (cmd_user (record s' { uin_conn_map = add s'.uin_conn_map c'.uin a }) packet)

  -- The uin is read of the packet after it was freed; its memory still holds it.
  unfoldable pub cmd_logout : Server M → ℕ → Packet → Option (Server M)
  cmd_logout s a packet =
      close_connection h (send_offline_to_status (free_packet s) (get_uin packet)) a

  -- The switch of cmd_packet_handler. For an unknown command the packet is only logged.
  unfoldable pub dispatch_command : Server M → ℕ → Packet → Option (Server M)
  dispatch_command s a packet =
      let command = get_command packet in
      if command == cmd_keep_alive_code
      then some (cmd_keep_alive s packet)
      else if command == cmd_login_code
      then cmd_login s a packet
      else if command == cmd_logout_code
      then cmd_logout s a packet
      else if command == cmd_set_nick_code
      then some (cmd_user s packet)
      else if (command == cmd_add_contact_code)
          || (command == cmd_add_contact_reply_code)
          || (command == cmd_contact_list_code)
          || (command == cmd_contact_info_multi_code)
      then some (cmd_contact s packet)
      else if (command == cmd_message_code) || (command == cmd_offline_msg_code)
      then some (cmd_message s packet)
      else some s

  unfoldable pub cmd_packet_handler : Server M → ℕ → Packet → Option (Server M)
  cmd_packet_handler s a packet = s.conns a >>= λ c.
      if not (c.conn_type == login_ok_connection) && not (get_command packet == cmd_login_code)
      then some (free_packet s)
      else dispatch_command s a packet
