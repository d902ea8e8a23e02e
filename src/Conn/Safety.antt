-- ===== src/Conn/Safety.antt =====
-- The handlers of the connection server make no access to a freed connection, and keep the maps.
use mini_im.Base.{
  ℕ, ◌≡◌, ◌≢◌, refl, sym, ap, subst, ◌∙◌, inl, inr, Option, none, some, false, arith, [], ◌∷◌, ◌++◌,
  ◌+◌, Option-cases, ◌==◌,
}
use native.Mathlib.Decide.{ℕ_discrete}
use mini_im.Protocol.{
  login_ok_connection, login_uncomplete_connection, cmd_login_code, cmd_logout_code,
}
use mini_im.Packet.{Packet, get_command, get_uin}
use mini_im.Connection.{Connection}
use mini_im.Timer.{timer_del}
use mini_im.Conn.Hash.{HashOps}
use mini_im.Conn.State.{Server, update, get_conn_by_uin}
use mini_im.Conn.Send.{
  forget, queued_packets, close_connection, send_offline_to_status, free_packet, cmd_user,
  cmd_contact, cmd_message,
}
use mini_im.Conn.Commands.{
  cmd_keep_alive, cmd_login, cmd_logout, dispatch_command, cmd_packet_handler,
}
use mini_im.Conn.Replies.{srv_error, srv_login_ok, srv_other_packet, srv_packet_handler}
use mini_im.Conn.Live.{Leads, Linked, Leads-closed, Leads-kept, Leads-added, Unique-forget}

-- The clients of `s` are clients of `s'`, with the same keys.
abbrev pub SameKeys : {M : Type 0} → Server M → Server M → Type 0
SameKeys s s' =
    (b : ℕ) (c : Connection)
    → s.conns b ≡ some c
    → (c' : Connection) × (s'.conns b ≡ some c') × (c'.uin ≡ c.uin) × (c'.sfd ≡ c.sfd)

abbrev sfd_of : Option Connection → ℕ
sfd_of none = 0
sfd_of (some c) = c.sfd

module _ {M : Type 0} {Unique : M → Type 0} (h : HashOps M Unique) where
  open h use {find, add}

  pub Linked-kept :
      (s s' : Server M)
      → Linked h s
      → s'.uin_conn_map ≡ s.uin_conn_map
      → s'.fd_conn_map ≡ s.fd_conn_map
      → SameKeys s s'
      → Linked h s'
  Linked-kept s s' l uins fds keeps = record {
    uins =
        subst (λ m. Leads h m s'.conns (λ c. c.uin)) (sym uins)
          (Leads-kept h s.uin_conn_map s.conns s'.conns (λ c. c.uin) l.uins
            λ b c live. let (c', live', u, f) = keeps b c live in (c', live', u));
    fds =
        subst (λ m. Leads h m s'.conns (λ c. c.sfd)) (sym fds)
          (Leads-kept h s.fd_conn_map s.conns s'.conns (λ c. c.sfd) l.fds
            λ b c live. let (c', live', u, f) = keeps b c live in (c', live', f));
    unique_uins = subst Unique (sym uins) l.unique_uins;
    unique_fds = subst Unique (sym fds) l.unique_fds;
  }

  pub Same : (s : Server M) → SameKeys s s
  Same s b c live = (c, live, refl, refl)

  -- What close_connection leaves.
  abbrev without_client : Server M → ℕ → Connection → Server M
  without_client s a c = record s {
    closed_fds = s.closed_fds ++ c.sfd ∷ [];
    fd_conn_map = forget h s.fd_conn_map c.sfd;
    uin_conn_map = forget h s.uin_conn_map c.uin;
    timer = timer_del s.timer a;
    free_packets = s.free_packets + queued_packets c;
    conns = update s.conns a none;
  }

  pub close_connection-Linked :
      (s : Server M) (a : ℕ) (c : Connection)
      → Linked h s
      → s.conns a ≡ some c
      → (s' : Server M) × (close_connection h s a ≡ some s') × Linked h s'
  unfolding close_connection
  close_connection-Linked s a c l live = (
    without_client s a c,
    ground (arith, live),
    record {
      uins = Leads-closed h s.uin_conn_map s.conns (λ d. d.uin) a c l.unique_uins l.uins live;
      fds = Leads-closed h s.fd_conn_map s.conns (λ d. d.sfd) a c l.unique_fds l.fds live;
      unique_uins = Unique-forget h s.uin_conn_map c.uin l.unique_uins;
      unique_fds = Unique-forget h s.fd_conn_map c.sfd l.unique_fds;
    },
  )

  pub offline-Linked :
      (s : Server M) (uin : ℕ) → Linked h s → Linked h (send_offline_to_status s uin)
  unfolding send_offline_to_status
  offline-Linked s uin l = record {
    uins = l.uins;
    fds = l.fds;
    unique_uins = l.unique_uins;
    unique_fds = l.unique_fds;
  }

  freed-Linked : (s : Server M) → Linked h s → Linked h (free_packet s)
  freed-Linked s l = record {
    uins = l.uins;
    fds = l.fds;
    unique_uins = l.unique_uins;
    unique_fds = l.unique_fds;
  }

  found_keys :
      (s' : Server M) (b : ℕ) (c : Connection)
      → ¬ (s'.conns b ≡ none)
      → ((c' : Connection) → s'.conns b ≡ some c' → (c'.uin ≡ c.uin) × (c'.sfd ≡ c.sfd))
      → (c' : Connection) × (s'.conns b ≡ some c') × (c'.uin ≡ c.uin) × (c'.sfd ≡ c.sfd)
  found_keys s' b c there keyed = elim (Option-cases (s'.conns b)) [
    | inl gone ↦ absurd (there gone)
    | inr (c', live) ↦ let (u, f) = keyed c' live in (c', live, u, f)
  ]

  pub replied-maps :
      (s s' : Server M) (p : Packet)
      → srv_packet_handler h s p ≡ some s'
      → (s'.uin_conn_map ≡ s.uin_conn_map) × (s'.fd_conn_map ≡ s.fd_conn_map)
  unfolding srv_packet_handler srv_error srv_login_ok srv_other_packet
  replied-maps s s' p e = ground arith

  pub replied-SameKeys :
      (s s' : Server M) (p : Packet) → srv_packet_handler h s p ≡ some s' → SameKeys s s'
  replied-SameKeys s s' p e b c live =
      found_keys s' b c
        (λ gone. unfold srv_packet_handler srv_error srv_login_ok srv_other_packet in ground arith)
        (λ c' live'.
          unfold srv_packet_handler srv_error srv_login_ok srv_other_packet in ground arith)

  pub srv_packet_handler-total :
      (s : Server M) (p : Packet) → Linked h s → ¬ (srv_packet_handler h s p ≡ none)
  unfolding srv_packet_handler srv_error srv_login_ok srv_other_packet get_conn_by_uin
  srv_packet_handler-total s p l e = elim (Option-cases (find s.uin_conn_map (get_uin p))) [
    | inl unknown ↦ ground (arith, unknown)
    | inr (a, known) ↦ let (c, live, k) = l.uins (get_uin p) a known in ground (arith, known, live)
  ]

  -- A client's login, under a uin that no entry has, from a connection that no entry leads to.
  pub cmd_login-Linked :
      (s : Server M) (a : ℕ) (p : Packet) (c : Connection)
      → Linked h s
      → s.conns a ≡ some c
      → find s.uin_conn_map (get_uin p) ≡ none
      → ((k : ℕ) → find s.uin_conn_map k ≢ some a)
      → (s' : Server M) × (cmd_login h s a p ≡ some s') × Linked h s'
  unfolding cmd_login cmd_user
  cmd_login-Linked s a p c l live free unled =
      let c' = record c { conn_type = login_uncomplete_connection; uin = get_uin p } in
      (
        cmd_user
            (record s {
              conns = update s.conns a (some c');
              uin_conn_map = add s.uin_conn_map (get_uin p) a;
            })
            p,
        ground (arith, live),
        record {
          uins = Leads-added h s.uin_conn_map s.conns (λ d. d.uin) a c' l.uins free unled;
          fds =
              Leads-kept h s.fd_conn_map s.conns (update s.conns a (some c')) (λ d. d.sfd) l.fds
                λ b d there. elim (ℕ_discrete a b) [
                  | yes it ↦
                      (c', ground arith, ap (λ o. sfd_of o) (sym live ∙ ap s.conns it ∙ there))
                  | no other ↦ (d, ground arith, refl)
                ];
          unique_uins = h.Unique-add s.uin_conn_map (get_uin p) a l.unique_uins free;
          unique_fds = l.unique_fds;
        },
      )

  pub cmd_logout-Linked :
      (s : Server M) (a : ℕ) (p : Packet) (c : Connection)
      → Linked h s
      → s.conns a ≡ some c
      → (s' : Server M) × (cmd_logout h s a p ≡ some s') × Linked h s'
  unfolding cmd_logout
  cmd_logout-Linked s a p c l live =
      close_connection-Linked (send_offline_to_status (free_packet s) (get_uin p)) a c
        (offline-Linked (free_packet s) (get_uin p) (freed-Linked s l))
        (unfold send_offline_to_status in live)

  -- Any other packet of a client.
  pub other_packet :
      (s : Server M) (a : ℕ) (p : Packet) (c : Connection)
      → s.conns a ≡ some c
      → get_command p ≢ cmd_login_code
      → (get_command p ≡ cmd_logout_code → (c.conn_type == login_ok_connection) ≡ false)
      → (s' : Server M) × (cmd_packet_handler h s a p ≡ some s')
        × (s'.conns ≡ s.conns)
        × (s'.uin_conn_map ≡ s.uin_conn_map)
        × (s'.fd_conn_map ≡ s.fd_conn_map)
  other_packet s a p c live ne quiet = elim (Option-cases (cmd_packet_handler h s a p)) [
    | inl e ↦ absurd (unfold cmd_packet_handler dispatch_command in ground (arith, live))
    | inr (s', e) ↦ (
      s',
      e,
      unfold cmd_packet_handler dispatch_command cmd_user cmd_contact cmd_message cmd_keep_alive in
          ground (arith, live),
      unfold cmd_packet_handler dispatch_command cmd_user cmd_contact cmd_message cmd_keep_alive in
          ground (arith, live),
      unfold cmd_packet_handler dispatch_command cmd_user cmd_contact cmd_message cmd_keep_alive in
          ground (arith, live),
    )
  ]
