-- ===== src/Conn/LinkTests.antt =====
-- The theorems on the maps of the connection server at concrete states.
use mini_im.Base.{ℕ, ◌≡◌, ◌≢◌, refl, sym, ◌∙◌, subst, none, some, arith}
use mini_im.Protocol.{cmd_login_code, srv_login_ok_code}
use mini_im.Bytes.{
  put_at, get_field_uint16_t, get_field_uint32_t, set_field_uint16_t, set_field_uint32_t,
}
use mini_im.Packet.{Packet, packet_init, get_command, get_uin, fill_packet_header}
use mini_im.Connection.{conn_init}
use mini_im.Conn.Hash.{Assoc, assoc_ops}
use mini_im.Conn.State.{Server, conn_server_init}
use mini_im.Conn.Send.{cmd_user, close_connection}
use mini_im.Conn.Commands.{cmd_packet_handler, dispatch_command, cmd_login}
use mini_im.Conn.Replies.{srv_packet_handler}
use mini_im.Conn.Events.{accept_client, error_handler}
use mini_im.Conn.Live.{Linked}
use mini_im.Conn.Faults.{srv_packet_handler-Linked, cmd_packet_handler-Linked}
use mini_im.Conn.Closing.{conn_server_init-Linked, accept_client-Linked, error_handler-Linked}
use mini_im.Conn.Relogin.{second_login_dangles}
use mini_im.Conn.Tests.{of_100, accepted, newcomer, asked, asking, login_handled, client_live}

started : Linked assoc_ops (conn_server_init assoc_ops 0 7000)
started = conn_server_init-Linked assoc_ops 0 7000

accept_client-Linked_example : Linked assoc_ops accepted
accept_client-Linked_example =
    accept_client-Linked assoc_ops (conn_server_init assoc_ops 0 7000) 9 1 started
      (unfold conn_server_init in refl) (unfold conn_server_init in refl)

accepted-Linked : Linked assoc_ops accepted
accepted-Linked =
    accept_client-Linked assoc_ops (conn_server_init assoc_ops 0 7000) 9 1 started
      (unfold conn_server_init in refl) (unfold conn_server_init in refl)

accepted_live : accepted.conns 1 ≡ some newcomer
unfolding accept_client conn_server_init
accepted_live = refl

no_uin : (k : ℕ) → assoc_ops.find accepted.uin_conn_map k ≡ none
unfolding accept_client conn_server_init
no_uin k = refl

cmd_packet_handler-Linked_example :
    (s' : Server Assoc) × (cmd_packet_handler assoc_ops accepted 1 (of_100 cmd_login_code)
      ≡ some s')
    × Linked assoc_ops s'
cmd_packet_handler-Linked_example =
    cmd_packet_handler-Linked assoc_ops accepted 1 (of_100 cmd_login_code) newcomer accepted-Linked
      accepted_live (λ is. no_uin (get_uin (of_100 cmd_login_code)))
      (λ is k e. ground (arith, no_uin k))

asked-Linked : Linked assoc_ops asked
asked-Linked =
    let (s', e, l) =
      cmd_packet_handler-Linked assoc_ops accepted 1 (of_100 cmd_login_code) newcomer
        accepted-Linked accepted_live (λ is. no_uin (get_uin (of_100 cmd_login_code)))
        (λ is k e. ground (arith, no_uin k)) in
    subst (Linked assoc_ops) (some_injective (sym e ∙ login_handled)) l
  where
    some_injective : {a b : Server Assoc} → some a ≡ some b → a ≡ b
    some_injective e = cc

srv_packet_handler-Linked_example :
    (s' : Server Assoc) × (srv_packet_handler assoc_ops asked (of_100 srv_login_ok_code) ≡ some s')
    × Linked assoc_ops s'
srv_packet_handler-Linked_example =
    srv_packet_handler-Linked assoc_ops asked (of_100 srv_login_ok_code) asked-Linked

error_handler-Linked_example :
    (s' : Server Assoc) × (error_handler assoc_ops asked 9 ≡ some s') × Linked assoc_ops s'
error_handler-Linked_example = error_handler-Linked assoc_ops asked 9 asked-Linked

-- A login of user 101.
abbrev of_101 : Packet
of_101 = fill_packet_header packet_init 12 cmd_login_code 101

entry : assoc_ops.find asked.uin_conn_map 100 ≡ some 1
unfolding cmd_packet_handler dispatch_command cmd_login cmd_user accept_client conn_server_init
    conn_init get_command get_uin get_field_uint16_t get_field_uint32_t fill_packet_header
    set_field_uint16_t set_field_uint32_t put_at packet_init
entry = refl

is_login : get_command of_101 ≡ cmd_login_code
unfolding get_command get_field_uint16_t fill_packet_header set_field_uint16_t set_field_uint32_t
    put_at packet_init
is_login = refl

uin_101 : get_uin of_101 ≡ 101
unfolding get_uin get_field_uint32_t fill_packet_header set_field_uint16_t set_field_uint32_t put_at
    packet_init
uin_101 = refl

other : get_uin of_101 ≢ 100
other e = omega (arith, uin_101)

is_reply : get_command (of_100 srv_login_ok_code) ≡ srv_login_ok_code
unfolding get_command get_field_uint16_t fill_packet_header set_field_uint16_t set_field_uint32_t
    put_at packet_init
is_reply = refl

same : get_uin (of_100 srv_login_ok_code) ≡ 100
unfolding get_uin get_field_uint32_t fill_packet_header set_field_uint16_t set_field_uint32_t put_at
    packet_init
same = refl

second_login_dangles_example :
    (s₁ : Server Assoc) × (s₂ : Server Assoc) × (cmd_packet_handler assoc_ops asked 1 of_101
      ≡ some s₁)
    × (close_connection assoc_ops s₁ 1 ≡ some s₂)
    × (srv_packet_handler assoc_ops s₂ (of_100 srv_login_ok_code) ≡ none)
second_login_dangles_example =
    second_login_dangles assoc_ops asked 1 asking of_101 (of_100 srv_login_ok_code) client_live
      entry is_login other is_reply same
