-- ===== src/Conn/Relogin.antt =====
-- What a second login of one client does to the maps.
use mini_im.Base.{ℕ, ◌≡◌, ◌≢◌, ap, ◌∙◌, inl, inr, none, some, arith, Option-cases}
use mini_im.Protocol.{login_uncomplete_connection, cmd_login_code, srv_login_ok_code}
use mini_im.Packet.{Packet, get_command, get_uin}
use mini_im.Connection.{Connection}
use mini_im.Conn.Hash.{HashOps}
use mini_im.Conn.State.{Server, update, get_conn_by_uin}
use mini_im.Conn.Send.{forget, close_connection, cmd_user}
use mini_im.Conn.Commands.{cmd_login, cmd_packet_handler}
use mini_im.Conn.Replies.{srv_login_ok, srv_packet_handler}
use mini_im.Conn.Live.{forget_ne}
use mini_im.Conn.Faults.{login_dispatched}

module _ {M : Type 0} {Unique : M → Type 0} (h : HashOps M Unique) where
  -- A connection after its login.
  abbrev logged : Connection → Packet → Connection
  logged c p = record c { conn_type = login_uncomplete_connection; uin = get_uin p }

  abbrev after_login : Server M → ℕ → Connection → Packet → Server M
  after_login s a c p =
      cmd_user
        (record s {
          conns = update s.conns a (some (logged c p));
          uin_conn_map = h.add s.uin_conn_map (get_uin p) a;
        })
        p

  login_done :
      (s : Server M) (a : ℕ) (c : Connection) (p : Packet)
      → s.conns a ≡ some c
      → cmd_login h s a p ≡ some (after_login s a c p)
  unfolding cmd_login
  login_done s a c p live = ground (arith, live)

  closed :
      (s : Server M) (a : ℕ) (c : Connection)
      → s.conns a ≡ some c
      → (s' : Server M) × (close_connection h s a ≡ some s')
        × (s'.uin_conn_map ≡ forget h s.uin_conn_map c.uin)
        × (s'.conns a ≡ none)
  closed s a c live = elim (Option-cases (close_connection h s a)) [
    | inl e ↦ absurd (unfold close_connection in ground (arith, live))
    | inr (s', e) ↦ (
      s',
      e,
      unfold close_connection in ground (arith, live),
      unfold close_connection in ground (arith, live),
    )
  ]

  dangling :
      (s : Server M) (a : ℕ) (q : Packet)
      → h.find s.uin_conn_map (get_uin q) ≡ some a
      → s.conns a ≡ none
      → get_command q ≡ srv_login_ok_code
      → srv_packet_handler h s q ≡ none
  unfolding srv_packet_handler srv_login_ok get_conn_by_uin
  dangling s a q known gone is = ground (arith, known, gone, is)

-- A client who has an entry in the map of uins logs in again under another uin, and is closed
-- afterwards. No access to freed memory is made so far, but the first entry is left, and a packet
-- SRV_LOGIN_OK for its uin makes one.
pub second_login_dangles :
    {M : Type 0} {Unique : M → Type 0} (h : HashOps M Unique) (s : Server M) (a : ℕ)
    (c : Connection) (p q : Packet)
    → s.conns a ≡ some c
    → h.find s.uin_conn_map c.uin ≡ some a
    → get_command p ≡ cmd_login_code
    → get_uin p ≢ c.uin
    → get_command q ≡ srv_login_ok_code
    → get_uin q ≡ c.uin
    → (s₁ : Server M) × (s₂ : Server M) × (cmd_packet_handler h s a p ≡ some s₁)
      × (close_connection h s₁ a ≡ some s₂)
      × (srv_packet_handler h s₂ q ≡ none)
second_login_dangles h s a c p q live known login other reply same =
    let s₁ = after_login h s a c p in
    let live₁ : s₁.conns a ≡ some (logged h c p) = unfold cmd_user in ground arith in
    let (s₂, e, uins, gone) = closed h s₁ a (logged h c p) live₁ in
    let left : h.find s₂.uin_conn_map c.uin ≡ some a =
      ap (λ m. h.find m c.uin) uins
      ∙ unfold cmd_user in
        (forget_ne h (h.add s.uin_conn_map (get_uin p) a) (get_uin p) c.uin other
          ∙ h.find-add_ne s.uin_conn_map (get_uin p) a c.uin other
          ∙ known) in
    (
      s₁,
      s₂,
      login_dispatched h s a p c live login ∙ login_done h s a c p live,
      e,
      dangling h s₂ a q (ap (h.find s₂.uin_conn_map) same ∙ left) gone reply,
    )
