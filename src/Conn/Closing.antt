-- ===== src/Conn/Closing.antt =====
-- The start of the connection server, a new client and an error of a socket keep the maps leading to
-- live connections.
use mini_im.Base.{
  ℕ, ◌≡◌, ◌≢◌, refl, ap, ◌∙◌, ◌⊎◌, inl, inr, none, some, true, false, arith, Option-cases,
  Bool-cases, ◌==◌, if◌then◌else◌, List, [], ◌∷◌, ◌++◌,
}
use mini_im.Protocol.{login_ok_connection}
use mini_im.Connection.{Connection, conn_init}
use mini_im.Conn.Hash.{HashOps}
use mini_im.Conn.State.{
  Server, ConnPtr, user, contact, status, message, client, get_conn, update, conn_server_init,
  is_server_socket, get_conn_by_fd,
}
use mini_im.Conn.Send.{close_connection, send_offline_to_status}
use mini_im.Conn.Events.{accept_client, error_handler}
use mini_im.Conn.Live.{Linked, Leads-kept, Leads-added}
use mini_im.Conn.Safety.{close_connection-Linked, offline-Linked}

module _ {M : Type 0} {Unique : M → Type 0} (h : HashOps M Unique) where
  Linked_log : (s : Server M) (fds : List ℕ) → Linked h s → Linked h (record s { closed_fds = fds })
  Linked_log s fds l = record {
    uins = l.uins;
    fds = l.fds;
    unique_uins = l.unique_uins;
    unique_fds = l.unique_fds;
  }

  client_entry :
      (s : Server M) (fd a : ℕ)
      → get_conn_by_fd h s fd ≡ some (client a)
      → h.find s.fd_conn_map fd ≡ some a
  unfolding get_conn_by_fd
  client_entry s fd a e = ground arith

  backend_error :
      (s : Server M) (fd : ℕ) (p : ConnPtr) (c : Connection)
      → get_conn_by_fd h s fd ≡ some p
      → get_conn s p ≡ some c
      → ((a : ℕ) → p ≢ client a)
      → error_handler h s fd ≡ some s
  unfolding error_handler
  backend_error s fd user c e live ne = ground (arith, e)
  backend_error s fd contact c e live ne = ground (arith, e)
  backend_error s fd status c e live ne = ground (arith, e)
  backend_error s fd message c e live ne = ground (arith, e)
  backend_error s fd (client a) c e live ne = absurd (ne a refl)

  no_conn :
      (s : Server M) (fd : ℕ)
      → get_conn_by_fd h s fd ≡ none
      → error_handler h s fd ≡ some (record s { closed_fds = s.closed_fds ++ fd ∷ [] })
  unfolding error_handler
  no_conn s fd e = ground (arith, e)

  -- The state in which error_handler closes a client.
  abbrev reported : Server M → Connection → Server M
  reported s c = if c.conn_type == login_ok_connection then send_offline_to_status s c.uin else s

  reported-Linked : (s : Server M) (c : Connection) → Linked h s → Linked h (reported s c)
  reported-Linked s c l =
      elim (c.conn_type == login_ok_connection)
        as (λ b. Linked h (if b then send_offline_to_status s c.uin else s)) [
          | true ↦ offline-Linked h s c.uin l
          | false ↦ l
        ]

  reported_conns : (s : Server M) (c : Connection) → (reported s c).conns ≡ s.conns
  unfolding send_offline_to_status
  reported_conns s c = ground arith

  client_error :
      (s : Server M) (fd a : ℕ) (c : Connection)
      → get_conn_by_fd h s fd ≡ some (client a)
      → s.conns a ≡ some c
      → (error_handler h s fd ≡ some s)
        ⊎ (error_handler h s fd ≡ close_connection h (reported s c) a)
  unfolding error_handler
  client_error s fd a c e live = elim (Bool-cases (is_server_socket s fd)) [
    | inl is ↦ inl (ground (arith, e, live, is))
    | inr off ↦ inr (ground (arith, e, live, off))
  ]

  client_error-Linked :
      (s : Server M) (fd a : ℕ)
      → get_conn_by_fd h s fd ≡ some (client a)
      → Linked h s
      → (s' : Server M) × (error_handler h s fd ≡ some s') × Linked h s'
  client_error-Linked s fd a e l =
      let (c, live, keyed) = l.fds fd a (client_entry s fd a e) in
      elim (client_error s fd a c e live) [
        | inl r ↦ (s, r, l)
        | inr r ↦
            let (s', closed, l') =
              close_connection-Linked h (reported s c) a c (reported-Linked s c l)
                (ap (λ f. f a) (reported_conns s c) ∙ live) in
            (s', r ∙ closed, l')
      ]

-- As long as each entry of the maps leads to a live connection with that key, error_handler makes no
-- access to a freed connection, whatever the socket is, and leaves the maps so.
pub error_handler-Linked :
    {M : Type 0} {Unique : M → Type 0} (h : HashOps M Unique) (s : Server M) (fd : ℕ)
    → Linked h s
    → (s' : Server M) × (error_handler h s fd ≡ some s') × Linked h s'
error_handler-Linked h s fd l = elim (Option-cases (get_conn_by_fd h s fd)) [
  | inl e ↦ (_, no_conn h s fd e, Linked_log h s (s.closed_fds ++ fd ∷ []) l)
  | inr (client a, e) ↦ client_error-Linked h s fd a e l
  | inr (user, e) ↦ (s, backend_error h s fd user s.user_conn e refl (λ a. cc), l)
  | inr (contact, e) ↦ (s, backend_error h s fd contact s.contact_conn e refl (λ a. cc), l)
  | inr (status, e) ↦ (s, backend_error h s fd status s.status_conn e refl (λ a. cc), l)
  | inr (message, e) ↦ (s, backend_error h s fd message s.message_conn e refl (λ a. cc), l)
]

-- The server starts with maps each of whose entries leads to a live connection with that key.
pub conn_server_init-Linked :
    {M : Type 0} {Unique : M → Type 0} (h : HashOps M Unique) (ip port : ℕ)
    → Linked h (conn_server_init h ip port)
unfolding conn_server_init
conn_server_init-Linked h ip port = record {
  uins = λ k a e. absurd (ground (arith, h.find-empty k));
  fds = λ k a e. absurd (ground (arith, h.find-empty k));
  unique_uins = h.Unique-empty;
  unique_fds = h.Unique-empty;
}

-- A new client, on a socket that no entry has and at an address that no live connection has, leaves
-- each entry of the maps leading to a live connection with that key.
pub accept_client-Linked :
    {M : Type 0} {Unique : M → Type 0} (h : HashOps M Unique) (s : Server M) (fd a : ℕ)
    → Linked h s
    → s.conns a ≡ none
    → h.find s.fd_conn_map fd ≡ none
    → Linked h (accept_client h s fd a)
unfolding accept_client
accept_client-Linked h s fd a l free_address free = record {
  uins =
      Leads-kept h s.uin_conn_map s.conns (update s.conns a (some (record conn_init { sfd = fd })))
        (λ c. c.uin) l.uins λ b c live. (c, ground arith, refl);
  fds =
      Leads-added h s.fd_conn_map s.conns (λ c. c.sfd) a (record conn_init { sfd = fd }) l.fds free
        λ k e. let (c, live, keyed) = l.fds k a e in cc;
  unique_uins = l.unique_uins;
  unique_fds = h.Unique-add s.fd_conn_map fd a l.unique_fds free;
}
