-- ===== src/Conn/Draining.antt =====
-- process_packet empties the queue of a client and leaves the count of the missing bytes alone.
use mini_im.Base.{
  ℕ, zero, suc, ◌≤◌, ◌≡◌, ◌≢◌, sym, ap, ◌∙◌, inl, inr, List, [], ◌∷◌, none, some, arith, length,
  Option-cases,
}
use mini_im.Packet.{Packet}
use mini_im.Connection.{Connection}
use mini_im.Conn.Hash.{HashOps}
use mini_im.Conn.State.{Server, client, set_client}
use mini_im.Conn.Send.{close_connection, cmd_user, cmd_contact, cmd_message, send_offline_to_status}
use mini_im.Conn.Commands.{
  cmd_packet_handler, dispatch_command, cmd_login, cmd_logout, cmd_keep_alive,
}
use mini_im.Conn.Replies.{srv_packet_handler, srv_error, srv_login_ok, srv_other_packet}
use mini_im.Conn.Events.{process_one, process_packets}

some_injective : {A : Type 0} {a b : A} → some a ≡ some b → a ≡ b
some_injective e = cc

pub set_client_self :
    {M : Type 0} (s : Server M) (a : ℕ) (c : Connection) → (set_client s a c).conns a ≡ some c
set_client_self s a c = ground arith

-- The handlers of a client's packet leave the bytes that the client has sent alone.
module _ {M : Type 0} {Unique : M → Type 0} (h : HashOps M Unique) where
  handled_keeps :
      (s s' : Server M) (a : ℕ) (p : Packet) (c c' : Connection)
      → cmd_packet_handler h s a p ≡ some s'
      → s.conns a ≡ some c
      → s'.conns a ≡ some c'
      → (c'.recv_packet_list ≡ c.recv_packet_list) × (c'.expect_bytes ≡ c.expect_bytes)
  unfolding cmd_packet_handler dispatch_command cmd_login cmd_logout cmd_user cmd_contact
      cmd_message cmd_keep_alive close_connection send_offline_to_status
  handled_keeps s s' a p c c' e live live' = ground arith

  replied_keeps :
      (s s' : Server M) (a : ℕ) (p : Packet) (c c' : Connection)
      → srv_packet_handler h s p ≡ some s'
      → s.conns a ≡ some c
      → s'.conns a ≡ some c'
      → (c'.recv_packet_list ≡ c.recv_packet_list) × (c'.expect_bytes ≡ c.expect_bytes)
  unfolding srv_packet_handler srv_error srv_login_ok srv_other_packet
  replied_keeps s s' a p c c' e live live' = ground arith

  process_one-keeps :
      (s s' : Server M) (a : ℕ) (p : Packet) (c₀ c c' : Connection)
      → process_one h s (client a) c₀ p ≡ some s'
      → s.conns a ≡ some c
      → s'.conns a ≡ some c'
      → (c'.recv_packet_list ≡ c.recv_packet_list) × (c'.expect_bytes ≡ c.expect_bytes)
  unfolding process_one
  process_one-keeps s s' a p c₀ c c' e live live' =
      ground (arith, handled_keeps s s' a p c c', replied_keeps s s' a p c c')

  process_gone :
      (rounds : ℕ) (s s' : Server M) (a : ℕ) (c' : Connection)
      → s.conns a ≡ none
      → process_packets h rounds s (client a) ≡ some s'
      → s'.conns a ≢ some c'
  unfolding process_packets
  process_gone zero s s' a c' gone e live = ground arith
  process_gone (suc rounds) s s' a c' gone e live = ground (arith, gone)

  process_empty :
      (rounds : ℕ) (s s' : Server M) (a : ℕ) (c : Connection)
      → s.conns a ≡ some c
      → c.recv_packet_list ≡ []
      → process_packets h rounds s (client a) ≡ some s'
      → s' ≡ s
  unfolding process_packets
  process_empty zero s s' a c live none_left e = ground arith
  process_empty (suc rounds) s s' a c live none_left e = ground (arith, live, none_left)

  -- One packet is taken off the queue, and the others remain.
  process_round :
      (rounds : ℕ) (s s' : Server M) (a : ℕ) (c : Connection) (packet : Packet) (rest : List Packet)
      → s.conns a ≡ some c
      → c.recv_packet_list ≡ packet ∷ rest
      → process_packets h (suc rounds) s (client a) ≡ some s'
      → (s₁ : Server M) × (process_one h
            (set_client s a (record c { recv_packet_list = rest }))
            (client a)
            c
            packet
          ≡ some s₁)
        × (process_packets h rounds s₁ (client a) ≡ some s')
  unfolding process_packets
  process_round rounds s s' a c packet rest live front e =
      elim (Option-cases (
        process_one h (set_client s a (record c { recv_packet_list = rest })) (client a) c
          packet)) [
            | inl f ↦ absurd (ground (arith, live, front, f))
            | inr (s₁, f) ↦ (s₁, f, ground (arith, live, front, f))
          ]

  pub process_packets-drains :
      (q : List Packet) (rounds : ℕ) (s s' : Server M) (a : ℕ) (c c' : Connection)
      → s.conns a ≡ some c
      → c.recv_packet_list ≡ q
      → length q ≤ rounds
      → process_packets h rounds s (client a) ≡ some s'
      → s'.conns a ≡ some c'
      → (c'.recv_packet_list ≡ []) × (c'.expect_bytes ≡ c.expect_bytes)
  process_packets-drains [] rounds s s' a c c' live f size e live' =
      let same = process_empty rounds s s' a c live f e in
      let is : c' ≡ c = some_injective (sym live' ∙ ap (λ t. t.conns a) same ∙ live) in
      (ap (λ d. d.recv_packet_list) is ∙ f, ap (λ d. d.expect_bytes) is)
  process_packets-drains (packet ∷ rest) zero s s' a c c' live f size e live' = absurd (omega arith)
  process_packets-drains (packet ∷ rest) (suc rounds) s s' a c c' live f size e live' =
      let (s₁, one, more) = process_round rounds s s' a c packet rest live f e in
      elim (Option-cases (s₁.conns a)) [
        | inl gone ↦ absurd (process_gone rounds s₁ s' a c' gone more live')
        | inr (c₁, live₁) ↦
            let d = record c { recv_packet_list = rest } in
            let (left, expects) =
              process_one-keeps (set_client s a d) s₁ a packet c d c₁ one (set_client_self s a d)
                live₁ in
            let (none_left, same) =
              process_packets-drains rest rounds s₁ s' a c₁ c' live₁ left (omega arith) more
                live' in
            (none_left, same ∙ expects)
      ]
