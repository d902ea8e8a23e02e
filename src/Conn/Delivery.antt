-- ===== src/Conn/Delivery.antt =====
-- What a backend's packet does to the clients, and how a client becomes logged in.
use mini_im.Base.{
  ℕ, ◌≡◌, ◌⊎◌, inl, inr, Option, none, some, Bool, true, false, ◌&&◌, ◌||◌, ◌==◌, if◌then◌else◌,
  arith, Option-cases,
}
use mini_im.Protocol.{
  login_ok_connection, login_error_connection, srv_error_code, srv_login_ok_code,
}
use mini_im.Packet.{Packet, get_command, get_uin}
use mini_im.Connection.{Connection}
use mini_im.Conn.Hash.{HashOps}
use mini_im.Conn.State.{Server, get_conn_by_uin}
use mini_im.Conn.Send.{
  sending, send_offline_to_status, close_connection, cmd_user, cmd_contact, cmd_message,
}
use mini_im.Conn.Commands.{
  cmd_keep_alive, cmd_login, cmd_logout, dispatch_command, cmd_packet_handler,
}
use mini_im.Conn.Replies.{
  srv_login_result, srv_error, srv_login_ok, srv_other_packet, is_other, srv_packet_handler,
}

-- The state that a reply brings a connection to.
abbrev pub type_after : ℕ → ℕ → ℕ
type_after command old =
    if command == srv_error_code
    then login_error_connection
    else if command == srv_login_ok_code
    then login_ok_connection
    else old

-- Whether a connection in this state is sent the reply.
abbrev pub accepts : ℕ → ℕ → Bool
accepts command conn_type =
    (command == srv_error_code)
    || (command == srv_login_ok_code)
    || (is_other command && (conn_type == login_ok_connection))

abbrev pub logged_in : Option Connection → Bool
logged_in none = false
logged_in (some c) = c.conn_type == login_ok_connection

module _ {M : Type 0} {Unique : M → Type 0} (h : HashOps M Unique) where
  open h use {find}

  -- The clients after a packet for the live connection `a` with contents `c`.
  abbrev pub clients_after : Server M → ℕ → Connection → Packet → ℕ → Option Connection
  clients_after s a c p b =
      if (a == b) && accepts (get_command p) c.conn_type
      then some (sending (record c { conn_type = type_after (get_command p) c.conn_type }) p)
      else s.conns b

  srv_login_result-clients :
      (s s' : Server M) (p : Packet) (a : ℕ) (c : Connection) (t b : ℕ)
      → find s.uin_conn_map (get_uin p) ≡ some a
      → s.conns a ≡ some c
      → srv_login_result h t s p ≡ some s'
      → s'.conns b ≡ (if a == b then some (sending (record c { conn_type = t }) p) else s.conns b)
  unfolding get_conn_by_uin
  srv_login_result-clients s s' p a c t b known live e = ground (arith, known, live)

  srv_other-clients :
      (s s' : Server M) (p : Packet) (a : ℕ) (c : Connection) (b : ℕ)
      → find s.uin_conn_map (get_uin p) ≡ some a
      → s.conns a ≡ some c
      → srv_other_packet h s p ≡ some s'
      → s'.conns b ≡ (
          if (a == b) && (c.conn_type == login_ok_connection)
          then some (sending c p)
          else s.conns b)
  unfolding srv_other_packet get_conn_by_uin
  srv_other-clients s s' p a c b known live e = ground (arith, known, live)

-- The packet of a backend whose uin the server knows, with a live connection, is handled without an
-- access to freed memory. The client's connection gets the packet at the end of its queue and the
-- state that the reply stands for, if the command is SRV_ERROR or SRV_LOGIN_OK, or one of the others
-- that are passed on and the client is logged in. Otherwise that connection stays as it is, and so do
-- those of all other clients in every case.
pub srv_packet_handler-clients :
    {M : Type 0} {Unique : M → Type 0} (h : HashOps M Unique) (s : Server M) (p : Packet) (a : ℕ)
    (c : Connection)
    → h.find s.uin_conn_map (get_uin p) ≡ some a
    → s.conns a ≡ some c
    → (s' : Server M) × (srv_packet_handler h s p ≡ some s')
      × ((b : ℕ) → s'.conns b ≡ clients_after h s a c p b)
srv_packet_handler-clients h s p a c known live = elim (Option-cases (srv_packet_handler h s p)) [
  | inl e ↦ absurd (total e)
  | inr (s', e) ↦ (s', e, clients s' e)
]
  where
    total : ¬ (srv_packet_handler h s p ≡ none)
    total e =
        unfold srv_packet_handler srv_error srv_login_ok srv_other_packet get_conn_by_uin in
        ground (arith, known, live)

    clients :
        (s' : _)
        → srv_packet_handler h s p ≡ some s'
        → (b : ℕ) → s'.conns b ≡ clients_after h s a c p b
    clients s' e b =
        unfold srv_packet_handler srv_error srv_login_ok in
        ground (
          arith,
          srv_login_result-clients h s s' p a c login_error_connection b known live,
          srv_login_result-clients h s s' p a c login_ok_connection b known live,
          srv_other-clients h s s' p a c b known live,
        )

-- No packet of a client makes a connection logged in.
pub cmd_packet_handler-grants_no_login :
    {M : Type 0} {Unique : M → Type 0} (h : HashOps M Unique) (s s' : Server M) (a : ℕ) (p : Packet)
    (b : ℕ)
    → cmd_packet_handler h s a p ≡ some s'
    → logged_in (s'.conns b) ≡ true
    → logged_in (s.conns b) ≡ true
unfolding cmd_packet_handler dispatch_command cmd_login cmd_logout cmd_user cmd_contact cmd_message
    cmd_keep_alive close_connection send_offline_to_status
cmd_packet_handler-grants_no_login h s s' a p b e on = ground arith

-- A packet of a backend makes a connection logged in only if it was so before, or the packet is
-- SRV_LOGIN_OK and its uin leads to that connection.
pub srv_packet_handler-grants_login :
    {M : Type 0} {Unique : M → Type 0} (h : HashOps M Unique) (s s' : Server M) (p : Packet) (b : ℕ)
    → srv_packet_handler h s p ≡ some s'
    → logged_in (s'.conns b) ≡ true
    → (logged_in (s.conns b) ≡ true)
      ⊎ ((get_command p ≡ srv_login_ok_code) × (h.find s.uin_conn_map (get_uin p) ≡ some b))
unfolding srv_packet_handler srv_error srv_login_ok srv_other_packet get_conn_by_uin
srv_packet_handler-grants_login h s s' p b e on = ground arith
