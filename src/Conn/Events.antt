-- ===== src/Conn/Events.antt =====
-- What the event loop does: conn/conn_network.c, and timer_expire_time of conn/conn_timer.c.
-- `none` is an access to a connection that has been freed, or a failed assert.
use mini_im.Base.{
  ℕ, zero, suc, List, [], ◌∷◌, ◌++◌, Option, none, some, ◌==◌, if◌then◌else◌, ◌>>=◌, length, get_or,
}
use mini_im.Protocol.{login_ok_connection}
use mini_im.Packet.{Packet, get_uin}
use mini_im.Connection.{Connection, conn_init}
use mini_im.Timer.{timer_tick, timer_add, timer_mark_alive, get_timeout_list}
use mini_im.Conn.Hash.{HashOps}
use mini_im.Conn.State.{
  Server, ConnPtr, client, get_conn, set_conn, set_client, is_server_socket, get_conn_by_fd,
  get_conn_by_uin,
}
use mini_im.Conn.Send.{free_packet, send_offline_to_status, close_connection}
use mini_im.Conn.Commands.{cmd_packet_handler}
use mini_im.Conn.Replies.{srv_packet_handler}

module _ {M : Type 0} {Unique : M → Type 0} (h : HashOps M Unique) where
  open h use {add}

  -- One round of the loop of accept_handler in which all the calls succeed: `fd` is what accept
  -- returns, and `a` the address that the allocator gives.
  unfoldable pub accept_client : Server M → (fd a : ℕ) → Server M
  accept_client s fd a =
      let s' = set_client s a (record conn_init { sfd = fd }) in
      record s' { fd_conn_map = add s'.fd_conn_map fd a; timer = timer_add s'.timer a }

  -- One packet of process_packet. A server's socket has a connection inside the server.
  unfoldable pub process_one : Server M → ConnPtr → Connection → Packet → Option (Server M)
  process_one s p c packet =
      if is_server_socket s c.sfd
      then srv_packet_handler h s packet
      else elim p [ client a ↦ cmd_packet_handler h s a packet | _ ↦ none ]

  -- process_packet: `rounds` is the number of packets in the queue. A handler that closes the
  -- connection has emptied the queue, and the loop ends.
  unfoldable pub process_packets : ℕ → Server M → ConnPtr → Option (Server M)
  process_packets zero s p = some s
  process_packets (suc rounds) s p = elim (get_conn s p) [
    | none ↦ some s
    | some c ↦ elim c.recv_packet_list [
      | [] ↦ some s
      | packet ∷ rest ↦
          process_one (set_conn s p (record c { recv_packet_list = rest })) p c packet >>= λ s'.
          process_packets rounds s' p
    ]
  ]

  unfoldable pub error_handler : Server M → ℕ → Option (Server M)
  error_handler s fd = elim (get_conn_by_fd h s fd) [
    | none ↦ some (record s { closed_fds = s.closed_fds ++ fd ∷ [] })
    | some p ↦ get_conn s p >>= λ c. if is_server_socket s fd then some s else elim p [
      | client a ↦
          close_connection h
            (if c.conn_type == login_ok_connection then send_offline_to_status s c.uin else s) a
      | _ ↦ some s
    ]
  ]

  -- The loop of timer_expire_time over the keep-alive packets.
  unfoldable pub mark_alive_all : Server M → List Packet → Option (Server M)
  mark_alive_all s [] = some s
  mark_alive_all s (packet ∷ rest) =
      let s' = record (free_packet s) { keep_alive_list = rest } in
      elim (get_conn_by_uin h s' (get_uin packet)) [
        | none ↦ mark_alive_all s' rest
        | some a ↦ s'.conns a >>= λ _.
            mark_alive_all (record s' { timer = timer_mark_alive s'.timer a }) rest
      ]

  -- Its loop over the slot `i` of the connections that have timed out; each round takes one off.
  unfoldable pub close_timed_out : ℕ → Server M → ℕ → Option (Server M)
  close_timed_out zero s i = some s
  close_timed_out (suc rounds) s i = elim (get_or s.timer.timer_slots i []) [
    | [] ↦ some s
    | a ∷ _ ↦ s.conns a >>= λ c.
        close_connection h (send_offline_to_status s c.uin) a >>= λ s'. close_timed_out rounds s' i
  ]

  -- timer_expire_time, `interval` seconds after the last call that saw time go by.
  unfoldable pub timer_expire_time : Server M → ℕ → Option (Server M)
  timer_expire_time s interval =
      if interval == 0
      then some s
      else (timer_tick s.timer interval >>= λ ticked.
          mark_alive_all (record s { timer = ticked }) s.keep_alive_list >>= λ alive.
          get_timeout_list alive.timer >>= λ (i, swept).
          close_timed_out (length (get_or swept.timer_slots i [])) (record alive { timer = swept })
            i)
