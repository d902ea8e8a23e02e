-- ===== src/Conn/ExpiryTests.antt =====
-- The theorems on the timer of the connection server at concrete states.
use mini_im.Base.{
  All, subst, zero, suc, replicate, length-replicate, get_or, has, ◌∙◌, ℕ, ◌≡◌, refl, sym, ap, List,
  [], none, some, arith,
}
use mini_im.Protocol.{client_timeout}
use mini_im.Connection.{conn_init}
use mini_im.Conn.Hash.{Assoc, assoc_ops}
use mini_im.Conn.State.{Server, conn_server_init}
use mini_im.Conn.Events.{accept_client, timer_expire_time}
use mini_im.Timer.{timer_init, timer_add}
use mini_im.Timer.Sweep.{IsValid}
use mini_im.Timer.Silence.{Waits, IsAbsent, timer_add-IsValid, timer_add-Waits}
use mini_im.Timer.Others.{timer_add-Alike}
use mini_im.Conn.Live.{Leads}
use mini_im.Conn.Closing.{conn_server_init-Linked}
use mini_im.Conn.Sweeping.{IsSilent}
use mini_im.Conn.Timeout.{Spared}
use mini_im.Conn.Expiry.{IsRooted, timer_expire_time-Spared, accept_client-Spared}
use mini_im.Conn.Tests.{accepted, newcomer}

live : accepted.conns 1 ≡ some newcomer
unfolding accept_client conn_server_init
live = refl

abbrev no_clients : Server Assoc
no_clients = conn_server_init assoc_ops 0 7000

timer_init-IsValid : IsValid timer_init
unfolding timer_init
timer_init-IsValid = record {
  slots = length-replicate {A = List ℕ} 121 [];
  max = refl;
  current_in = omega arith;
  prev_in = omega arith;
}

empty_slot : (n j : ℕ) → get_or (replicate {A = List ℕ} n []) j [] ≡ []
empty_slot zero j = refl
empty_slot (suc n) zero = refl
empty_slot (suc n) (suc j) = empty_slot n j

timer_init-IsAbsent : (c : ℕ) → IsAbsent timer_init c
unfolding timer_init
timer_init-IsAbsent c j = ap (has c) (empty_slot 121 j)

no_clients_timer : no_clients.timer ≡ timer_init
unfolding conn_server_init
no_clients_timer = refl

no_packets : All (IsSilent assoc_ops accepted 1) no_clients.keep_alive_list
unfolding conn_server_init
no_packets = tt

no_clients-IsRooted : IsRooted no_clients
unfolding conn_server_init
no_clients-IsRooted b freed = timer_init-IsAbsent b

no_clients-IsValid : IsValid no_clients.timer
no_clients-IsValid = subst IsValid (sym no_clients_timer) timer_init-IsValid

no_clients-Leads : Leads assoc_ops no_clients.uin_conn_map no_clients.conns (λ c. c.uin)
no_clients-Leads = (conn_server_init-Linked assoc_ops 0 7000).uins

address_free : no_clients.conns 1 ≡ none
unfolding conn_server_init
address_free = refl

accept_client-Spared_example :
    (s' : Server Assoc) × (timer_expire_time assoc_ops accepted 60 ≡ some s')
    × Spared assoc_ops s' 1 client_timeout 60 (record conn_init { sfd = 9 })
accept_client-Spared_example =
    accept_client-Spared assoc_ops no_clients 9 1 60 no_clients-IsValid no_clients-IsRooted
      no_clients-Leads address_free no_packets (omega arith) (omega arith)

accepted_timer : accepted.timer ≡ timer_add timer_init 1
unfolding accept_client conn_server_init
accepted_timer = refl

none_alive : All (IsSilent assoc_ops accepted 1) accepted.keep_alive_list
unfolding accept_client conn_server_init
none_alive = tt

accepted-IsRooted : IsRooted accepted
unfolding accept_client conn_server_init
accepted-IsRooted b freed j =
    (timer_add-Alike timer_init 1 b (λ same. ground (arith, same, freed)) timer_init-IsValid).seen j
    ∙ timer_init-IsAbsent b j

accepted-Leads : Leads assoc_ops accepted.uin_conn_map accepted.conns (λ c. c.uin)
unfolding accept_client conn_server_init
accepted-Leads k b found = absurd cc

timer_expire_time-Spared_example :
    (s' : Server Assoc) × (timer_expire_time assoc_ops accepted 60 ≡ some s')
    × IsRooted s'
    × Spared assoc_ops s' 1 120 60 newcomer
timer_expire_time-Spared_example =
    timer_expire_time-Spared assoc_ops accepted 60 1 120 newcomer
      (subst IsValid (sym accepted_timer) (timer_add-IsValid timer_init 1 timer_init-IsValid))
      accepted-IsRooted accepted-Leads
      (subst (λ t. Waits t 1 120) (sym accepted_timer)
        (timer_add-Waits timer_init 1 timer_init-IsValid (timer_init-IsAbsent 1)))
      live none_alive (omega arith) (omega arith)
