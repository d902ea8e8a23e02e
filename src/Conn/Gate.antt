-- ===== src/Conn/Gate.antt =====
-- What becomes of a packet of a client, for every command and every state of its connection.
use mini_im.Base.{
  none, ◌⊎◌, ◌∙◌, sym, subst, Bool-cases, Option-cases, inl, inr, ◌≢◌, ℕ, ◌≡◌, some, true, ◌||◌,
  ◌==◌, if◌then◌else◌, arith,
}
use mini_im.Protocol.{
  login_ok_connection, cmd_keep_alive_code, cmd_login_code, cmd_logout_code, cmd_set_nick_code,
  cmd_add_contact_code, cmd_add_contact_reply_code, cmd_contact_list_code,
  cmd_contact_info_multi_code, cmd_message_code, cmd_offline_msg_code,
}
use mini_im.Packet.{Packet, get_command}
use mini_im.Connection.{Connection}
use mini_im.Conn.Hash.{HashOps}
use mini_im.Conn.State.{Server}
use mini_im.Conn.Send.{free_packet, send_offline_to_status, close_connection}
use mini_im.Conn.Commands.{cmd_login, cmd_logout, dispatch_command, cmd_packet_handler}
use mini_im.Conn.Routes.{
  to_user, to_contact, to_message, to_keep_alive, to_allocator, leaves, nowhere, Route, route,
  Routed, cmd_logout-Routed, cmd_login-Routed, cmd_user-Routed, cmd_contact-Routed,
  cmd_message-Routed, cmd_keep_alive-Routed, free_packet-Routed, unknown-Routed, GoesTo, is_some,
  if_goes,
}

module _ {M : Type 0} {Unique : M → Type 0} (h : HashOps M Unique) (s : Server M) (a : ℕ)
    (p : Packet) (c : Connection) (live : s.conns a ≡ some c) where
  -- The tests of the switch in its order.
  abbrev switch : ℕ → Route
  switch command =
      if command == cmd_keep_alive_code
      then to_keep_alive
      else if command == cmd_login_code
      then to_user
      else if command == cmd_logout_code
      then leaves
      else if command == cmd_set_nick_code
      then to_user
      else if (command == cmd_add_contact_code)
          || (command == cmd_add_contact_reply_code)
          || (command == cmd_contact_list_code)
          || (command == cmd_contact_info_multi_code)
      then to_contact
      else if (command == cmd_message_code) || (command == cmd_offline_msg_code)
      then to_message
      else nowhere

  switch-route : (command : ℕ) → switch command ≡ route true command
  switch-route command = ground arith

  dispatch-Routed : GoesTo (dispatch_command h s a p) (route true (get_command p)) a c p s
  unfolding dispatch_command
  dispatch-Routed =
      subst (λ r. GoesTo (dispatch_command h s a p) r a c p s) (switch-route (get_command p))
        (if_goes _ _ _ _ _ a c p s
          (is_some s _ to_keep_alive a c p (cmd_keep_alive-Routed s a p c live))
          (if_goes _ _ _ _ _ a c p s (λ s' e. cmd_login-Routed h s s' a p c live e)
            (if_goes _ _ _ _ _ a c p s (λ s' e. cmd_logout-Routed h s s' a p c live e)
              (if_goes _ _ _ _ _ a c p s (is_some s _ to_user a c p (cmd_user-Routed s a p c live))
                (if_goes _ _ _ _ _ a c p s
                  (is_some s _ to_contact a c p (cmd_contact-Routed s a p c live))
                  (if_goes _ _ _ _ _ a c p s
                    (is_some s _ to_message a c p (cmd_message-Routed s a p c live))
                    (is_some s s nowhere a c p (unknown-Routed s a p c live))))))))

  handled_total : cmd_packet_handler h s a p ≢ none
  unfolding cmd_packet_handler dispatch_command cmd_login cmd_logout close_connection
      send_offline_to_status
  handled_total e = ground (arith, live)

  -- A packet that is refused, or goes through the switch.
  handled_how :
      ((cmd_packet_handler h s a p ≡ some (free_packet s))
        × (route (c.conn_type == login_ok_connection) (get_command p) ≡ to_allocator))
      ⊎ ((cmd_packet_handler h s a p ≡ dispatch_command h s a p)
          × (route (c.conn_type == login_ok_connection) (get_command p)
              ≡ route true (get_command p)))
  unfolding cmd_packet_handler
  handled_how = elim (Bool-cases (c.conn_type == login_ok_connection)) [
    | inl on ↦ inr (ground (arith, live, on), ground (arith, on))
    | inr off ↦ elim (Bool-cases (get_command p == cmd_login_code)) [
      | inl login ↦ inr (ground (arith, live, off, login), ground (arith, off, login))
      | inr other ↦ inl (ground (arith, live, off, other), ground (arith, off, other))
    ]
  ]

  handled-Routed :
      GoesTo
        (cmd_packet_handler h s a p)
        (route (c.conn_type == login_ok_connection) (get_command p))
        a
        c
        p
        s
  handled-Routed s' e = elim handled_how [
    | inl (run, r) ↦
        subst (λ k. Routed k a c p s s') (sym r)
          (is_some s (free_packet s) to_allocator a c p (free_packet-Routed s a p c live) s'
            (sym run ∙ e))
    | inr (run, r) ↦ subst (λ k. Routed k a c p s s') (sym r) (dispatch-Routed s' (sym run ∙ e))
  ]

-- A packet of a client whose connection is live is handled without an access to freed memory, and
-- goes where the table of the protocol sends it, and to no other place: for a client that is not
-- logged in a login goes to the user server and any other packet back to the allocator, and for one
-- that is logged in each command has its queue. Of the queues to the four backends and that of the
-- keep-alive packets, the one named gets the packet at its end, and the others stay as they are. A
-- logout frees the connection with the packets of its queues, and the packet that tells the status
-- server of it is put at the end of the status server's queue. The queues of the client do not change
-- otherwise, and the connections of other clients not at all.
pub cmd_packet_handler-Routed :
    {M : Type 0} {Unique : M → Type 0} (h : HashOps M Unique) (s : Server M) (a : ℕ) (p : Packet)
    (c : Connection)
    → s.conns a ≡ some c
    → (s' : Server M) × (cmd_packet_handler h s a p ≡ some s')
      × Routed (route (c.conn_type == login_ok_connection) (get_command p)) a c p s s'
cmd_packet_handler-Routed h s a p c live = elim (Option-cases (cmd_packet_handler h s a p)) [
  | inl e ↦ absurd (handled_total h s a p c live e)
  | inr (s', e) ↦ (s', e, handled-Routed h s a p c live s' e)
]
