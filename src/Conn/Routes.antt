-- ===== src/Conn/Routes.antt =====
-- Where the packets of a client go, and that each handler sends its packet there.
use mini_im.Base.{
  none, Option, subst, ◌+◌, refl, ◌≢◌, ℕ, ◌≡◌, List, [], ◌∷◌, ◌++◌, some, Bool, true, false, not,
  ◌||◌, ◌==◌, if◌then◌else◌, arith,
}
use mini_im.Protocol.{
  login_uncomplete_connection, cmd_keep_alive_code, cmd_login_code, cmd_logout_code,
  cmd_set_nick_code, cmd_add_contact_code, cmd_add_contact_reply_code, cmd_contact_list_code,
  cmd_contact_info_multi_code, cmd_message_code, cmd_offline_msg_code,
}
use mini_im.Packet.{Packet, get_uin}
use mini_im.Connection.{Connection}
use mini_im.Conn.Hash.{HashOps}
use mini_im.Conn.State.{Server}
use mini_im.Conn.Send.{
  offline_packet, queued_packets, free_packet, send_offline_to_status, close_connection, cmd_user,
  cmd_contact, cmd_message,
}
use mini_im.Conn.Commands.{cmd_keep_alive, cmd_login, cmd_logout}

-- Where a client's packet should go.
pub data Route : Type 0 where
  to_user to_contact to_message to_keep_alive to_allocator leaves nowhere : Route

-- The protocol's table, for a connection that is logged in or not.
abbrev pub route : Bool → ℕ → Route
route logged_in command =
    if command == cmd_login_code
    then to_user
    else if not logged_in
    then to_allocator
    else if command == cmd_set_nick_code
    then to_user
    else if command == cmd_keep_alive_code
    then to_keep_alive
    else if command == cmd_logout_code
    then leaves
    else if (command == cmd_message_code) || (command == cmd_offline_msg_code)
    then to_message
    else if (command == cmd_add_contact_code)
        || (command == cmd_add_contact_reply_code)
        || (command == cmd_contact_list_code)
        || (command == cmd_contact_info_multi_code)
    then to_contact
    else nowhere

abbrev pub queue_if : Bool → List Packet → Packet → List Packet
queue_if b q p = if b then q ++ p ∷ [] else q

abbrev pub is_to : Route → Route → Bool
is_to to_user to_user = true
is_to to_contact to_contact = true
is_to to_message to_message = true
is_to to_keep_alive to_keep_alive = true
is_to leaves leaves = true
is_to _ _ = false

-- What comes back to the allocator: a packet that is refused, or for a client that leaves its packet
-- and those of its two queues, less the one that tells the status server.
abbrev pub given_back : Route → Connection → ℕ
given_back to_allocator c = 1
given_back leaves c = queued_packets c
given_back _ c = 0

-- The connection of the client: freed if it leaves, or there with its queues and the count of the
-- bytes that its last packet lacks.
abbrev pub Stays : Route → Connection → Option Connection → Type 0
Stays leaves c o = o ≡ none
Stays to_user c o =
    (c' : Connection) × (o ≡ some c')
    × (c'.send_packet_list ≡ c.send_packet_list)
    × (c'.recv_packet_list ≡ c.recv_packet_list)
    × (c'.expect_bytes ≡ c.expect_bytes)
    × (c'.sfd ≡ c.sfd)
Stays _ c o = o ≡ some c

-- All queues and connections of the server after the packet of the client `a` took its route.
pub record Routed {M : Type 0} (r : Route) (a : ℕ) (c : Connection) (p : Packet) (s s' : Server M)
    : Type 0 where
  pub users :
      s'.user_conn.send_packet_list ≡ queue_if (is_to r to_user) s.user_conn.send_packet_list p
  pub contacts :
      s'.contact_conn.send_packet_list
      ≡ queue_if (is_to r to_contact) s.contact_conn.send_packet_list p
  pub messages :
      s'.message_conn.send_packet_list
      ≡ queue_if (is_to r to_message) s.message_conn.send_packet_list p
  pub statuses :
      s'.status_conn.send_packet_list
      ≡ queue_if (is_to r leaves) s.status_conn.send_packet_list (offline_packet (get_uin p))
  pub alive : s'.keep_alive_list ≡ queue_if (is_to r to_keep_alive) s.keep_alive_list p
  pub freed : s'.free_packets ≡ s.free_packets + given_back r c
  pub own : Stays r c (s'.conns a)
  pub others : (b : ℕ) → a ≢ b → s'.conns b ≡ s.conns b

module _ {M : Type 0} {Unique : M → Type 0} (h : HashOps M Unique) (s s' : Server M) (a : ℕ)
    (p : Packet) (c : Connection) (live : s.conns a ≡ some c) where
  pub cmd_logout-Routed : cmd_logout h s a p ≡ some s' → Routed leaves a c p s s'
  unfolding cmd_logout send_offline_to_status close_connection
  cmd_logout-Routed e = record {
    users = ground (arith, live);
    contacts = ground (arith, live);
    messages = ground (arith, live);
    statuses = ground (arith, live);
    alive = ground (arith, live);
    freed = ground (arith, live);
    own = ground (arith, live);
    others = λ b ne. ground (arith, live);
  }

  pub cmd_login-Routed : cmd_login h s a p ≡ some s' → Routed to_user a c p s s'
  unfolding cmd_login cmd_user
  cmd_login-Routed e = record {
    users = ground (arith, live);
    contacts = ground (arith, live);
    messages = ground (arith, live);
    statuses = ground (arith, live);
    alive = ground (arith, live);
    freed = ground (arith, live);
    own = (
      record c { conn_type = login_uncomplete_connection; uin = get_uin p },
      ground (arith, live),
      refl,
      refl,
      refl,
      refl,
    );
    others = λ b ne. ground (arith, live);
  }

-- The packets that are queued, or left alone.
module _ {M : Type 0} (s : Server M) (a : ℕ) (p : Packet) (c : Connection)
    (live : s.conns a ≡ some c) where
  pub cmd_user-Routed : Routed to_user a c p s (cmd_user s p)
  unfolding cmd_user
  cmd_user-Routed = record {
    users = refl;
    contacts = refl;
    messages = refl;
    statuses = refl;
    alive = refl;
    freed = omega arith;
    own = (c, live, refl, refl, refl, refl);
    others = λ b ne. refl;
  }

  pub cmd_contact-Routed : Routed to_contact a c p s (cmd_contact s p)
  unfolding cmd_contact
  cmd_contact-Routed = record {
    users = refl;
    contacts = refl;
    messages = refl;
    statuses = refl;
    alive = refl;
    freed = omega arith;
    own = live;
    others = λ b ne. refl;
  }

  pub cmd_message-Routed : Routed to_message a c p s (cmd_message s p)
  unfolding cmd_message
  cmd_message-Routed = record {
    users = refl;
    contacts = refl;
    messages = refl;
    statuses = refl;
    alive = refl;
    freed = omega arith;
    own = live;
    others = λ b ne. refl;
  }

  pub cmd_keep_alive-Routed : Routed to_keep_alive a c p s (cmd_keep_alive s p)
  unfolding cmd_keep_alive
  cmd_keep_alive-Routed = record {
    users = refl;
    contacts = refl;
    messages = refl;
    statuses = refl;
    alive = refl;
    freed = omega arith;
    own = live;
    others = λ b ne. refl;
  }

  pub free_packet-Routed : Routed to_allocator a c p s (free_packet s)
  free_packet-Routed = record {
    users = refl;
    contacts = refl;
    messages = refl;
    statuses = refl;
    alive = refl;
    freed = refl;
    own = live;
    others = λ b ne. refl;
  }

  pub unknown-Routed : Routed nowhere a c p s s
  unknown-Routed = record {
    users = refl;
    contacts = refl;
    messages = refl;
    statuses = refl;
    alive = refl;
    freed = omega arith;
    own = live;
    others = λ b ne. refl;
  }

-- What a handler returns took this route.
abbrev pub GoesTo :
    {M : Type 0} → Option (Server M) → Route → ℕ → Connection → Packet → Server M → Type 0
GoesTo {M} o r a c p s = (s' : Server M) → o ≡ some s' → Routed r a c p s s'

pub is_some :
    {M : Type 0} (s t : Server M) (r : Route) (a : ℕ) (c : Connection) (p : Packet)
    → Routed r a c p s t
    → GoesTo (some t) r a c p s
is_some s t r a c p h s' e = let q : t ≡ s' = cc in subst (Routed r a c p s) q h

pub if_goes :
    {M : Type 0} (b : Bool) (o o' : Option (Server M)) (r r' : Route) (a : ℕ) (c : Connection)
    (p : Packet) (s : Server M)
    → GoesTo o r a c p s
    → GoesTo o' r' a c p s
    → GoesTo (if b then o else o') (if b then r else r') a c p s
if_goes true o o' r r' a c p s h h' = h
if_goes false o o' r r' a c p s h h' = h'
