-- ===== src/Conn/Flushing.antt =====
-- What write_handler writes where the socket takes each packet whole.
use mini_im.Base.{
  ap₂, ℕ, zero, suc, ◌+◌, ◌-◌, ◌<◌, ◌≡◌, refl, sym, ap, ◌∙◌, List, [], ◌∷◌, ◌++◌, some, false,
  arith, length, take,
}
use mini_im.Packet.{Packet, get_length}
use mini_im.Connection.{Connection}
use mini_im.Conn.Hash.{HashOps}
use mini_im.Conn.State.{
  get_conn_by_fd, Server, ConnPtr, user, contact, status, message, client, get_conn, set_conn,
}
use mini_im.Conn.Send.{free_packet}
use mini_im.Conn.Sockets.{Wrote, wrote, Flushed, write_loop, write_handler}
use mini_im.Conn.Writing.{ends, image, images, Stops, at_end, at_call, write_loop-Run}

-- Every call writes the whole of its packet.
abbrev pub Whole : (ℕ → Wrote) → ℕ → List Packet → Type 0
Whole calls k [] = Unit {0}
Whole calls k (p ∷ q) =
    (0 < get_length p) × (calls k ≡ wrote (get_length p)) × Whole calls (suc k) q

take-take : (n : ℕ) (xs : List ℕ) → take n (take n xs) ≡ take n xs
take-take zero xs = refl
take-take (suc n) [] = refl
take-take (suc n) (x ∷ xs) = ap (◌∷◌ x) (take-take n xs)

-- The last part of what a run returns, and its queue.
abbrev Written : {M : Type 0} → Flushed M → List ℕ → Type 0
Written f bs = (f.err_handle ≡ false) × (f.written ≡ bs)

round :
    {M : Type 0} (calls : ℕ → Wrote) (k : ℕ) (s : Server M) (p : ConnPtr) (c : Connection)
    (packet : Packet) (q : List Packet) (n : ℕ)
    → calls k ≡ wrote (suc n)
    → (let later =
          write_loop calls
            (suc k)
            (free_packet (set_conn s p (record c { send_packet_list = q })))
            p
            c
            q in
        let f = write_loop calls k s p c (packet ∷ q) in
        (f.err_handle ≡ later.err_handle)
        × (f.written ≡ take (suc n) (image packet) ++ later.written))
unfolding write_loop
round calls k s p c packet q n e = ground arith

write_loop-Written :
    {M : Type 0} (calls : ℕ → Wrote) (k : ℕ) (s : Server M) (p : ConnPtr) (c : Connection)
    (q : List Packet)
    → Whole calls k q
    → Written (write_loop calls k s p c q) (images q)
unfolding write_loop
write_loop-Written calls k s p c [] w = (refl, refl)
write_loop-Written calls k s p c (packet ∷ q) (pos, e, w) =
    let s' = free_packet (set_conn s p (record c { send_packet_list = q })) in
    let (fine, bytes) = write_loop-Written calls (suc k) s' p c q w in
    let m = get_length packet - 1 in
    let size : get_length packet ≡ suc m = omega arith in
    let (same_err, same) = round calls k s p c packet q m (e ∙ ap wrote size) in
    (
      same_err ∙ fine,
      same
          ∙ ap₂ ◌++◌
              (ap (λ n. take n (image packet)) (sym size) ∙ take-take (get_length packet) packet)
              bytes,
    )

Whole-goes_on :
    (calls : ℕ → Wrote) (k : ℕ) (q : List Packet)
    → Whole calls k q
    → (j : ℕ) → j < length q
    → ends (calls (k + j)) ≡ false
Whole-goes_on calls k [] w j h = absurd (omega arith)
Whole-goes_on calls k (p ∷ q) (pos, e, w) zero h =
    let m = get_length p - 1 in
    let size : get_length p ≡ suc m = omega arith in
    let shift : k + 0 ≡ k = omega arith in
    ap (λ i. ends (calls i)) shift ∙ ap ends (e ∙ ap wrote size)
Whole-goes_on calls k (p ∷ q) (pos, e, w) (suc j) h =
    let shift : k + suc j ≡ suc k + j = omega arith in
    ap (λ i. ends (calls i)) shift ∙ Whole-goes_on calls (suc k) q w j (omega arith)

ends_at :
    {calls : ℕ → Wrote} {q rest : List Packet} {n : ℕ}
    → Whole calls 0 q
    → Stops calls 0 q n rest
    → (n ≡ length q) × (rest ≡ [])
ends_at w (at_end e) = (e, refl)
ends_at {calls} {q} {rest} {n} w (at_call below e) =
    let on : ends (calls (0 + n)) ≡ false = Whole-goes_on calls 0 q w n below in
    absurd (ground arith)

waits-get :
    {M : Type 0} (s : Server M) (p : ConnPtr) (fds : List ℕ)
    → get_conn (record s { read_waits = fds }) p ≡ get_conn s p
waits-get s user fds = refl
waits-get s contact fds = refl
waits-get s status fds = refl
waits-get s message fds = refl
waits-get s (client a) fds = refl

-- write_handler, for a socket that leads to a live connection, whose queued packets have lengths
-- above 0, when every call of write takes its packet whole: the bytes written are those of the
-- packets in the order of the queue, each as long as its length field says, the connection is as it
-- was but for its empty queue, and the memory of all the packets is given back.
pub write_handler-Whole :
    {M : Type 0} {Unique : M → Type 0} (h : HashOps M Unique) (s : Server M) (fd : ℕ)
    (calls : ℕ → Wrote) (p : ConnPtr) (c : Connection)
    → get_conn_by_fd h s fd ≡ some p
    → get_conn s p ≡ some c
    → Whole calls 0 c.send_packet_list
    → (s' : Server M) × (write_handler h s fd calls ≡ some (s', images c.send_packet_list))
      × (get_conn s' p ≡ some (record c { send_packet_list = [] }))
      × (s'.free_packets ≡ s.free_packets + length c.send_packet_list)
write_handler-Whole h s fd calls p c known live w =
    let q = c.send_packet_list in
    let f = write_loop calls 0 s p c q in
    let r = write_loop-Run calls 0 s p c q live in
    let (count, rest) = ends_at w r.stops in
    let (fine, bytes) = write_loop-Written calls 0 s p c q w in
    let fds = f.server.read_waits ++ fd ∷ [] in
    (
      record f.server { read_waits = fds },
      unfold write_handler in ground (arith, known, live, fine, bytes),
      waits-get f.server p fds
          ∙ r.left.queue
          ∙ ap (λ l. some (record c { send_packet_list = l })) rest,
      r.left.freed ∙ ap (◌+◌ s.free_packets) count,
    )
