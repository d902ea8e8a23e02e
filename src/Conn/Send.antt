-- ===== src/Conn/Send.antt =====
-- Packets that the connection server makes or queues for a backend, and the closing of a
-- connection: the first half of conn/conn_packet.c.
use mini_im.Base.{ℕ, ◌+◌, [], ◌∷◌, ◌++◌, Option, none, some, length, ◌>>=◌}
use mini_im.Protocol.{cmd_status_change_code, cmd_conn_info_code, status_change_offline}
use mini_im.Packet.{
  Packet, packet_init, set_length, set_command, set_uin, set_param_uint16_t, set_param_uint32_t,
}
use mini_im.Connection.{Connection}
use mini_im.Timer.{timer_del}
use mini_im.Conn.Hash.{HashOps}
use mini_im.Conn.State.{Server, update, allocator_malloc}

-- The packet that send_offline_to_status makes.
unfoldable pub offline_packet : ℕ → Packet
offline_packet uin =
    let a = set_uin (set_command (set_length packet_init 24) cmd_status_change_code) uin in
    set_param_uint16_t (set_param_uint32_t a 0 uin) 10 status_change_offline

-- The packet that send_conn_info_to_message makes.
unfoldable pub conn_info_packet : ℕ → ℕ → Packet
conn_info_packet ip port =
    let a = set_command (set_length packet_init 18) cmd_conn_info_code in
    set_param_uint16_t (set_param_uint32_t a 0 ip) 4 port

abbrev pub sending : Connection → Packet → Connection
sending c packet = record c { send_packet_list = c.send_packet_list ++ packet ∷ [] }

-- conn_destroy gives the packets of both queues back.
abbrev pub queued_packets : Connection → ℕ
queued_packets c = length c.recv_packet_list + length c.send_packet_list

module _ {M : Type 0} where
  -- wait_for_write
  abbrev pub wait_for_write : Server M → ℕ → Server M
  wait_for_write s fd = record s { write_waits = s.write_waits ++ fd ∷ [] }

  -- allocator_free of a packet
  abbrev pub free_packet : Server M → Server M
  free_packet s = record s { free_packets = s.free_packets + 1 }

  unfoldable pub send_offline_to_status : Server M → ℕ → Server M
  send_offline_to_status s uin =
      wait_for_write
        (record s {
          free_packets = allocator_malloc s.free_packets;
          status_conn = sending s.status_conn (offline_packet uin);
        })
        s.status_conn.sfd

  unfoldable pub send_conn_info_to_message : Server M → Server M
  send_conn_info_to_message s =
      wait_for_write
        (record s {
          free_packets = allocator_malloc s.free_packets;
          message_conn = sending s.message_conn (conn_info_packet s.conn_user_ip s.conn_user_port);
        })
        s.message_conn.sfd

  unfoldable pub cmd_user : Server M → Packet → Server M
  cmd_user s packet =
      wait_for_write (record s { user_conn = sending s.user_conn packet }) s.user_conn.sfd

  unfoldable pub cmd_contact : Server M → Packet → Server M
  cmd_contact s packet =
      wait_for_write (record s { contact_conn = sending s.contact_conn packet }) s.contact_conn.sfd

  unfoldable pub cmd_message : Server M → Packet → Server M
  cmd_message s packet =
      wait_for_write (record s { message_conn = sending s.message_conn packet }) s.message_conn.sfd

module _ {M : Type 0} {Unique : M → Type 0} (h : HashOps M Unique) where
  open h use {find, del}

  -- HASH_FIND_INT, and HASH_DEL of what it finds.
  abbrev pub forget : M → ℕ → M
  forget m k = elim (find m k) [ none ↦ m | some _ ↦ del m k ]

  -- `none` is a connection that has been freed already.
  unfoldable pub close_connection : Server M → ℕ → Option (Server M)
  close_connection s a = do
    c ← s.conns a
    some (record s {
      closed_fds = s.closed_fds ++ c.sfd ∷ [];
      fd_conn_map = forget s.fd_conn_map c.sfd;
      uin_conn_map = forget s.uin_conn_map c.uin;
      timer = timer_del s.timer a;
      free_packets = s.free_packets + queued_packets c;
      conns = update s.conns a none;
    })
