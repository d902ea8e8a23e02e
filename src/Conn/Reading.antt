-- ===== src/Conn/Reading.antt =====
-- What read_handler makes of the bytes of a socket.
use mini_im.Base.{
  ℕ, ◌-◌, ◌≤◌, ◌<◌, ◌≡◌, refl, sym, ap, ◌∙◌, List, [], ◌∷◌, ◌++◌, map, some, false, arith,
  test_of_ne, length, All, append_assoc, append-nil,
}
use mini_im.Protocol.{login_ok_connection}
use mini_im.Packet.{Packet}
use mini_im.Connection.{Connection}
use mini_im.Reader.{done, error, read_packet, read_loop, read_round, last_packet_incomplete, unsnoc}
use mini_im.Reader.Contents.{IsWhole, IsBetween, stored, queued, concat, read_packet_whole}
use mini_im.Reader.Cut.{begun, read_packet_cut}
use mini_im.Conn.Hash.{HashOps}
use mini_im.Conn.State.{
  Server, ConnPtr, client, get_conn, get_conn_by_fd, set_client, is_server_socket,
}
use mini_im.Conn.Serving.{IsCalm, Passed, process_packets-Passed}
use mini_im.Conn.Events.{process_packets, error_handler}
use mini_im.Conn.Sockets.{read_all, after_reads, read_handler, Ending, would_block}
use mini_im.Conn.Draining.{set_client_self, process_packets-drains}

-- Packets that arrive in several reads, each of whole packets.
abbrev pub flatten : List (List (List ℕ)) → List (List ℕ)
flatten [] = []
flatten (ps ∷ pss) = ps ++ flatten pss

map-append_stored : (ps qs : List (List ℕ)) → map stored (ps ++ qs) ≡ map stored ps ++ map stored qs
map-append_stored [] qs = refl
map-append_stored (p ∷ ps) qs = ap (◌∷◌ (stored p)) (map-append_stored ps qs)

read_all_whole :
    (c : Connection) (pss : List (List (List ℕ)))
    → IsBetween c
    → All (All IsWhole) pss
    → read_all c (map concat pss) ≡ done (queued c (map stored (flatten pss)))
unfolding read_all
read_all_whole c [] i w =
    ap (λ q. done (record c { recv_packet_list = q })) (sym (append-nil c.recv_packet_list))
read_all_whole c (ps ∷ pss) i w =
    let first = (read_packet_whole c ps i w.0).0 in
    let rest = read_all_whole (queued c (map stored ps)) pss i w.1 in
    rw (first, read_all)
      (rest
        ∙ ap (λ q. done (record c { recv_packet_list = q }))
            (append_assoc c.recv_packet_list (map stored ps) (map stored (flatten pss))
              ∙ ap (λ l. c.recv_packet_list ++ l) (sym (map-append_stored ps (flatten pss)))))

-- The handler by what its reads come to.
module _ {M : Type 0} {Unique : M → Type 0} (h : HashOps M Unique) (s : Server M) (fd : ℕ)
    (p : ConnPtr) (c c' : Connection) (reads : List (List ℕ))
    (known : get_conn_by_fd h s fd ≡ some p) (live : get_conn s p ≡ some c) where
  read_handler-done :
      read_all c reads ≡ done c'
      → read_handler h s fd reads would_block
        ≡ process_packets h (length c'.recv_packet_list) (after_reads s p c c') p
  unfolding read_handler
  read_handler-done r = ground (arith, known, live, r)

  read_handler-error :
      (ending : Ending)
      → read_all c reads ≡ error c'
      → read_handler h s fd reads ending ≡ error_handler h (after_reads s p c c') fd
  unfolding read_handler
  read_handler-error ending r = ground (arith, known, live, r)

client_socket :
    {M : Type 0} {Unique : M → Type 0} (h : HashOps M Unique) (s : Server M) (fd a : ℕ)
    → get_conn_by_fd h s fd ≡ some (client a)
    → is_server_socket s fd ≡ false
unfolding get_conn_by_fd is_server_socket
client_socket h s fd a known = ground (arith, known)

-- The state that the packets are handled in differs in the client alone.
Passed-after_reads :
    {M : Type 0} (s s' : Server M) (a : ℕ) (c d : Connection) (ps : List Packet)
    → Passed a d ps (after_reads s (client a) c d) s'
    → Passed a d ps s s'
Passed-after_reads s s' a c d ps q = record {
  users = q.users;
  contacts = q.contacts;
  messages = q.messages;
  alive = q.alive;
  statuses = q.statuses;
  own = q.own;
  others = λ b ne. q.others b ne ∙ rw (test_of_ne a b ne) refl;
}

-- read_handler, for the socket of a client that is logged in and has begun no packet, when its reads
-- return any number of whole packets each and then EAGAIN, and no packet is a login or a logout: the
-- handler ends without an access to freed memory, and the queues to the user, contact and message
-- servers and that of the keep-alive packets each get at their ends the packets that the protocol's
-- table sends there, in the order in which their bytes came and behind those that the client's queue
-- held already. The queue to the status server and the connections of other clients stay as they are,
-- and the client's is as before, with no packet left on it.
pub read_handler-whole :
    {M : Type 0} {Unique : M → Type 0} (h : HashOps M Unique) (s : Server M) (fd a : ℕ)
    (c : Connection) (pss : List (List (List ℕ)))
    → get_conn_by_fd h s fd ≡ some (client a)
    → s.conns a ≡ some c
    → c.sfd ≡ fd
    → c.conn_type ≡ login_ok_connection
    → IsBetween c
    → All (All IsWhole) pss
    → All IsCalm (c.recv_packet_list ++ map stored (flatten pss))
    → (s' : Server M) × (read_handler h s fd (map concat pss) would_block ≡ some s')
      × Passed a c (c.recv_packet_list ++ map stored (flatten pss)) s s'
read_handler-whole h s fd a c pss known live socket on i w calm =
    let q = c.recv_packet_list ++ map stored (flatten pss) in
    let d = record c { recv_packet_list = q } in
    let t = after_reads s (client a) c d in
    let off : is_server_socket s c.sfd ≡ false =
      ap (is_server_socket s) socket ∙ client_socket h s fd a known in
    let off' : is_server_socket t c.sfd ≡ false = unfold is_server_socket in off in
    let (s', run, passed) =
      process_packets-Passed h q t a d (set_client_self s a d) refl on off' calm in
    let out : Passed a d q s s' = Passed-after_reads s s' a c d q passed in
    (
      s',
      read_handler-done h s fd (client a) c d (map concat pss) known live (read_all_whole c pss i w)
          ∙ run,
      record {
        users = out.users;
        contacts = out.contacts;
        messages = out.messages;
        alive = out.alive;
        statuses = out.statuses;
        own = out.own;
        others = out.others;
      },
    )

-- A packet has been begun, and is not on the queue.
missing_packet :
    (c : Connection) (b : ℕ) (bs : List ℕ)
    → c.recv_packet_list ≡ []
    → 0 < c.expect_bytes
    → read_packet c (b ∷ bs) ≡ error (record c { expect_bytes = 0 })
unfolding read_packet read_loop read_round last_packet_incomplete unsnoc
missing_packet c b bs none_left begun = ground arith

read_all_missing :
    (c : Connection) (b : ℕ) (bs : List ℕ) (more : List (List ℕ))
    → c.recv_packet_list ≡ []
    → 0 < c.expect_bytes
    → read_all c ((b ∷ bs) ∷ more) ≡ error (record c { expect_bytes = 0 })
unfolding read_all
read_all_missing c b bs more none_left waiting =
    rw (missing_packet c b bs none_left waiting, read_all)

no_new :
    {M : Type 0} (s : Server M) (a : ℕ) (c : Connection)
    → after_reads s (client a) c (record c { expect_bytes = 0 })
      ≡ set_client s a (record c { expect_bytes = 0 })
no_new s a c =
    let same : s.free_packets - (length c.recv_packet_list - length c.recv_packet_list)
        ≡ s.free_packets =
      omega arith in
    ap (λ n. set_client (record s { free_packets = n }) a (record c { expect_bytes = 0 })) same

read_all_one :
    (c c' : Connection) (xs : List ℕ) → read_packet c xs ≡ done c' → read_all c (xs ∷ []) ≡ done c'
unfolding read_all
read_all_one c c' xs e = rw (e, read_all)

-- A client's packet whose bytes come in two events, `xs` of at least two bytes and then the rest, on
-- a connection with no packet begun. After the first event's handler the connection, if
-- it is still there, has an empty queue and waits for the bytes that are missing. If its socket still
-- leads to it, then whatever bytes the next event brings are taken for an error: the handler does
-- not process any packet but calls error_handler.
pub read_handler-cut :
    {M : Type 0} {Unique : M → Type 0} (h : HashOps M Unique) (s s' : Server M) (fd a : ℕ)
    (c c' : Connection) (xs ys : List ℕ) (b : ℕ) (bs : List ℕ) (more : List (List ℕ))
    (ending : Ending)
    → get_conn_by_fd h s fd ≡ some (client a)
    → s.conns a ≡ some c
    → IsBetween c
    → IsWhole (xs ++ ys)
    → 2 ≤ length xs
    → 0 < length ys
    → read_handler h s fd (xs ∷ []) would_block ≡ some s'
    → s'.conns a ≡ some c'
    → get_conn_by_fd h s' fd ≡ some (client a)
    → (c'.recv_packet_list ≡ [])
      × (c'.expect_bytes ≡ length ys)
      × (read_handler h s' fd ((b ∷ bs) ∷ more) ending
          ≡ error_handler h (set_client s' a (record c' { expect_bytes = 0 })) fd)
read_handler-cut h s s' fd a c c' xs ys b bs more ending known live i w two pos e live' known' =
    let d = begun c xs (length ys) in
    let cut = (read_packet_cut c xs ys i w two pos).0 in
    let done_first =
      read_handler-done h s fd (client a) c d (xs ∷ []) known live (read_all_one c d xs cut) in
    let t = after_reads s (client a) c d in
    let (none_left, waits) =
      process_packets-drains h d.recv_packet_list (length d.recv_packet_list) t s' a d c'
        (set_client_self s a d) refl (omega arith) (sym done_first ∙ e) live' in
    (
      none_left,
      waits,
      read_handler-error h s' fd (client a) c' (record c' { expect_bytes = 0 }) ((b ∷ bs) ∷ more)
            known' live' ending (read_all_missing c' b bs more none_left (omega arith))
          ∙ ap (λ t. error_handler h t fd) (no_new s' a c'),
    )
