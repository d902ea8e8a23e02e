-- ===== src/Conn/Faults.antt =====
-- The handlers of the connection server go from a state whose maps lead to live connections to such
-- a state, and make no access to a freed connection.
use mini_im.Base.{
  ℕ, ◌≡◌, ◌≢◌, refl, ap, ◌∙◌, inl, inr, none, some, true, false, arith, Option-cases, Bool-cases,
  ◌==◌,
}
use native.Mathlib.Decide.{ℕ_discrete}
use mini_im.Protocol.{login_ok_connection, cmd_login_code, cmd_logout_code}
use mini_im.Packet.{Packet, get_command, get_uin}
use mini_im.Connection.{Connection}
use mini_im.Conn.Hash.{HashOps}
use mini_im.Conn.State.{Server}
use mini_im.Conn.Commands.{cmd_login, cmd_logout, dispatch_command, cmd_packet_handler}
use mini_im.Conn.Replies.{srv_packet_handler}
use mini_im.Conn.Live.{Linked}
use mini_im.Conn.Safety.{
  Linked-kept, replied-maps, replied-SameKeys, srv_packet_handler-total, cmd_login-Linked,
  cmd_logout-Linked, other_packet,
}

-- As long as each entry of the maps leads to a live connection with that key, a backend's packet
-- makes no access to a freed one, and leaves the maps so.
pub srv_packet_handler-Linked :
    {M : Type 0} {Unique : M → Type 0} (h : HashOps M Unique) (s : Server M) (p : Packet)
    → Linked h s
    → (s' : Server M) × (srv_packet_handler h s p ≡ some s') × Linked h s'
srv_packet_handler-Linked h s p l = elim (Option-cases (srv_packet_handler h s p)) [
  | inl e ↦ absurd (srv_packet_handler-total h s p l e)
  | inr (s', e) ↦
      let (uins, fds) = replied-maps h s s' p e in
      (s', e, Linked-kept h s s' l uins fds (replied-SameKeys h s s' p e))
]

module _ {M : Type 0} {Unique : M → Type 0} (h : HashOps M Unique) where
  pub login_dispatched :
      (s : Server M) (a : ℕ) (p : Packet) (c : Connection)
      → s.conns a ≡ some c
      → get_command p ≡ cmd_login_code
      → cmd_packet_handler h s a p ≡ cmd_login h s a p
  unfolding cmd_packet_handler dispatch_command
  login_dispatched s a p c live is = ground (arith, live, is)

  logout_dispatched :
      (s : Server M) (a : ℕ) (p : Packet) (c : Connection)
      → s.conns a ≡ some c
      → get_command p ≡ cmd_logout_code
      → (c.conn_type == login_ok_connection) ≡ true
      → cmd_packet_handler h s a p ≡ cmd_logout h s a p
  unfolding cmd_packet_handler dispatch_command
  logout_dispatched s a p c live is on = ground (arith, live, is, on)

  other-Linked :
      (s : Server M) (a : ℕ) (p : Packet) (c : Connection)
      → Linked h s
      → s.conns a ≡ some c
      → get_command p ≢ cmd_login_code
      → (get_command p ≡ cmd_logout_code → (c.conn_type == login_ok_connection) ≡ false)
      → (s' : Server M) × (cmd_packet_handler h s a p ≡ some s') × Linked h s'
  other-Linked s a p c l live ne quiet =
      let (s', e, conns, uins, fds) = other_packet h s a p c live ne quiet in
      (
        s',
        e,
        Linked-kept h s s' l uins fds λ b d there. (d, ap (λ f. f b) conns ∙ there, refl, refl),
      )

-- As long as each entry of the maps leads to a live connection with that key, a packet of a live
-- client makes no access to a freed connection, and leaves the maps so. A login must be under a uin
-- that no entry has, and from a client that no entry of that map leads to.
pub cmd_packet_handler-Linked :
    {M : Type 0} {Unique : M → Type 0} (h : HashOps M Unique) (s : Server M) (a : ℕ) (p : Packet)
    (c : Connection)
    → Linked h s
    → s.conns a ≡ some c
    → (get_command p ≡ cmd_login_code → h.find s.uin_conn_map (get_uin p) ≡ none)
    → (get_command p ≡ cmd_login_code → (k : ℕ) → h.find s.uin_conn_map k ≢ some a)
    → (s' : Server M) × (cmd_packet_handler h s a p ≡ some s') × Linked h s'
cmd_packet_handler-Linked h s a p c l live free unled =
    elim (ℕ_discrete (get_command p) cmd_login_code) [
      | yes is ↦
          let (s', e, l') = cmd_login-Linked h s a p c l live (free is) (unled is) in
          (s', login_dispatched h s a p c live is ∙ e, l')
      | no ne ↦ elim (ℕ_discrete (get_command p) cmd_logout_code) [
        | no other ↦ other-Linked h s a p c l live ne (λ is. absurd (other is))
        | yes is ↦ elim (Bool-cases (c.conn_type == login_ok_connection)) [
          | inl on ↦
              let (s', e, l') = cmd_logout-Linked h s a p c l live in
              (s', logout_dispatched h s a p c live is on ∙ e, l')
          | inr off ↦ other-Linked h s a p c l live ne (λ _. off)
        ]
      ]
    ]
