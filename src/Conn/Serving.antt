-- ===== src/Conn/Serving.antt =====
-- process_packet for a client that is logged in: its packets go to the backends one after the other.
use mini_im.Base.{
  ℕ, suc, ◌≡◌, ◌≢◌, refl, sym, ap, ◌∙◌, List, [], ◌∷◌, ◌++◌, some, Bool, true, false, arith,
  if◌then◌else◌, length, All, append_assoc, append-nil, test_of_eq, test_of_ne,
}
use mini_im.Protocol.{login_ok_connection, cmd_login_code, cmd_logout_code}
use mini_im.Packet.{Packet, get_command, get_uin}
use mini_im.Connection.{Connection}
use mini_im.Conn.Hash.{HashOps}
use mini_im.Conn.State.{Server, client, set_client, is_server_socket}
use mini_im.Conn.Send.{offline_packet, cmd_user, cmd_contact, cmd_message}
use mini_im.Conn.Commands.{cmd_packet_handler, dispatch_command, cmd_keep_alive}
use mini_im.Conn.Events.{process_one, process_packets}
use mini_im.Conn.Draining.{set_client_self}
use mini_im.Conn.Gate.{cmd_packet_handler-Routed}
use mini_im.Conn.Routes.{
  Route, to_user, to_contact, to_message, to_keep_alive, leaves, route, queue_if, is_to, Routed,
}

-- A packet that neither logs its client in nor out.
abbrev pub IsCalm : Packet → Type 0
IsCalm p = (get_command p ≢ cmd_login_code) × (get_command p ≢ cmd_logout_code)

-- The packets that the protocol's table sends to a place, in their order.
abbrev pub picked : Route → List Packet → List Packet
picked r [] = []
picked r (p ∷ ps) =
    let rest = picked r ps in if is_to (route true (get_command p)) r then p ∷ rest else rest

-- The server after the packets of the client `a` were handled one after the other.
pub record Passed {M : Type 0} (a : ℕ) (c : Connection) (ps : List Packet) (s s' : Server M)
    : Type 0 where
  pub users : s'.user_conn.send_packet_list ≡ s.user_conn.send_packet_list ++ picked to_user ps
  pub contacts :
      s'.contact_conn.send_packet_list ≡ s.contact_conn.send_packet_list ++ picked to_contact ps
  pub messages :
      s'.message_conn.send_packet_list ≡ s.message_conn.send_packet_list ++ picked to_message ps
  pub alive : s'.keep_alive_list ≡ s.keep_alive_list ++ picked to_keep_alive ps
  pub statuses : s'.status_conn.send_packet_list ≡ s.status_conn.send_packet_list
  pub own : s'.conns a ≡ some (record c { recv_packet_list = [] })
  pub others : (b : ℕ) → a ≢ b → s'.conns b ≡ s.conns b

queue_if-picked :
    (b : Bool) (q : List Packet) (p : Packet) (rest : List Packet)
    → queue_if b q p ++ rest ≡ q ++ (if b then p ∷ rest else rest)
queue_if-picked true q p rest = append_assoc q (p ∷ []) rest
queue_if-picked false q p rest = refl

-- A queue after one packet and those behind it.
queued-picked :
    (r : Route) (p : Packet) (ps q q₁ q₂ : List Packet)
    → q₂ ≡ q₁ ++ picked r ps
    → q₁ ≡ queue_if (is_to (route true (get_command p)) r) q p
    → q₂ ≡ q ++ picked r (p ∷ ps)
queued-picked r p ps q q₁ q₂ later first =
    later
    ∙ ap (λ l. l ++ picked r ps) first
    ∙ queue_if-picked (is_to (route true (get_command p)) r) q p (picked r ps)

stays : (command : ℕ) → command ≢ cmd_logout_code → is_to (route true command) leaves ≡ false
stays command out = ground arith

module _ {M : Type 0} {Unique : M → Type 0} (h : HashOps M Unique) where
  -- Such a packet leaves the connections and the sockets of the servers alone.
  calm_keeps :
      (s s' : Server M) (a fd : ℕ) (p : Packet) (c : Connection)
      → s.conns a ≡ some c
      → c.conn_type ≡ login_ok_connection
      → IsCalm p
      → cmd_packet_handler h s a p ≡ some s'
      → (s'.conns ≡ s.conns) × (is_server_socket s' fd ≡ is_server_socket s fd)
  unfolding cmd_packet_handler dispatch_command cmd_user cmd_contact cmd_message cmd_keep_alive
      is_server_socket
  calm_keeps s s' a fd p c live on calm e = ground (arith, live, calm.0, calm.1)

  handled :
      (s : Server M) (a : ℕ) (p : Packet) (c : Connection)
      → s.conns a ≡ some c
      → c.conn_type ≡ login_ok_connection
      → (s' : Server M) × (cmd_packet_handler h s a p ≡ some s')
        × Routed (route true (get_command p)) a c p s s'
  handled s a p c live on =
      let (s', e, r) = cmd_packet_handler-Routed h s a p c live in
      (s', e, rw (test_of_eq c.conn_type login_ok_connection on) at r)

  -- One round of the loop.
  process_round-handled :
      (rounds : ℕ) (s s₁ : Server M) (a : ℕ) (c : Connection) (p : Packet) (rest : List Packet)
      → s.conns a ≡ some c
      → c.recv_packet_list ≡ p ∷ rest
      → is_server_socket s c.sfd ≡ false
      → cmd_packet_handler h (set_client s a (record c { recv_packet_list = rest })) a p ≡ some s₁
      → process_packets h (suc rounds) s (client a) ≡ process_packets h rounds s₁ (client a)
  unfolding process_packets process_one is_server_socket
  process_round-handled rounds s s₁ a c p rest live front off e =
      ground (arith, live, front, off, e)

  pub process_packets-Passed :
      (ps : List Packet) (s : Server M) (a : ℕ) (c : Connection)
      → s.conns a ≡ some c
      → c.recv_packet_list ≡ ps
      → c.conn_type ≡ login_ok_connection
      → is_server_socket s c.sfd ≡ false
      → All IsCalm ps
      → (s' : Server M) × (process_packets h (length ps) s (client a) ≡ some s')
        × Passed a c ps s s'
  unfolding process_packets
  process_packets-Passed [] s a c live front on off calm = (
    s,
    refl,
    record {
      users = sym (append-nil _);
      contacts = sym (append-nil _);
      messages = sym (append-nil _);
      alive = sym (append-nil _);
      statuses = refl;
      own = live ∙ ap (λ q. some (record c { recv_packet_list = q })) front;
      others = λ b ne. refl;
    },
  )
  process_packets-Passed (p ∷ ps) s a c live front on off (calm, calms) =
      let d = record c { recv_packet_list = ps } in
      let t = set_client s a d in
      let here = set_client_self s a d in
      let (s₁, e, r) = handled t a p d here on in
      let (kept, sockets) = calm_keeps t s₁ a c.sfd p d here on calm e in
      let (s', run, q) =
        process_packets-Passed ps s₁ a d (ap (λ f. f a) kept ∙ here) refl on
          (sockets ∙ (unfold is_server_socket in off)) calms in
      (
        s',
        process_round-handled (length ps) s s₁ a c p ps live front off e ∙ run,
        record {
          users = queued-picked to_user p ps s.user_conn.send_packet_list _ _ q.users r.users;
          contacts =
              queued-picked to_contact p ps s.contact_conn.send_packet_list _ _ q.contacts
                r.contacts;
          messages =
              queued-picked to_message p ps s.message_conn.send_packet_list _ _ q.messages
                r.messages;
          alive = queued-picked to_keep_alive p ps s.keep_alive_list _ _ q.alive r.alive;
          statuses =
              q.statuses
              ∙ r.statuses
              ∙ ap (λ b. queue_if b s.status_conn.send_packet_list (offline_packet (get_uin p)))
                  (stays (get_command p) calm.1);
          own = q.own;
          others = λ b ne. q.others b ne ∙ ap (λ f. f b) kept ∙ rw (test_of_ne a b ne) refl;
        },
      )
