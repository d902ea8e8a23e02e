-- ===== src/Conn/Writing.antt =====
-- Which packets the loop of write_handler takes off the queue of a connection.
use mini_im.Base.{
  ℕ, zero, suc, ◌+◌, ◌<◌, ◌≡◌, refl, sym, ap, ◌∙◌, ◌⊎◌, inl, inr, List, [], ◌∷◌, ◌++◌, some, Bool,
  true, false, arith, length, take, drop,
}
use mini_im.Packet.{Packet, get_length}
use mini_im.Connection.{Connection}
use mini_im.Conn.State.{Server, ConnPtr, user, contact, status, message, client, get_conn, set_conn}
use mini_im.Conn.Send.{free_packet}
use mini_im.Conn.Sockets.{Wrote, wrote, write_blocked, write_failed, Flushed, write_loop}

-- A call that ends the loop.
abbrev pub ends : Wrote → Bool
ends (wrote zero) = true
ends (wrote (suc n)) = false
ends write_blocked = true
ends write_failed = true

-- The bytes of a packet, by its length field.
abbrev pub image : Packet → List ℕ
image p = take (get_length p) p

abbrev pub images : List Packet → List ℕ
images [] = []
images (p ∷ ps) = image p ++ images ps

-- The queue that a run leaves, and the packets whose memory it gives back.
pub record Left {M : Type 0} (f : Flushed M) (s : Server M) (p : ConnPtr) (c : Connection)
    (q : List Packet) (n : ℕ) : Type 0 where
  pub queue : get_conn f.server p ≡ some (record c { send_packet_list = q })
  pub freed : f.server.free_packets ≡ s.free_packets + n

get-set_conn :
    {M : Type 0} (s : Server M) (p : ConnPtr) (c : Connection)
    → get_conn (set_conn s p c) p ≡ some c
get-set_conn s user c = refl
get-set_conn s contact c = refl
get-set_conn s status c = refl
get-set_conn s message c = refl
get-set_conn s (client a) c = ground arith

get-freed :
    {M : Type 0} (s : Server M) (p : ConnPtr) (c : Connection)
    → get_conn (free_packet (set_conn s p c)) p ≡ some c
get-freed s user c = refl
get-freed s contact c = refl
get-freed s status c = refl
get-freed s message c = refl
get-freed s (client a) c = ground arith

free-set_conn :
    {M : Type 0} (s : Server M) (p : ConnPtr) (c : Connection)
    → (set_conn s p c).free_packets ≡ s.free_packets
free-set_conn s user c = refl
free-set_conn s contact c = refl
free-set_conn s status c = refl
free-set_conn s message c = refl
free-set_conn s (client a) c = refl

-- Where the loop stands after `n` packets of `q` from the call `k` on, and what is left.
pub data Stops (calls : ℕ → Wrote) (k : ℕ) (q : List Packet) (n : ℕ) : List Packet → Type 0 where
  at_end : n ≡ length q → Stops calls k q n []
  at_call : n < length q → ends (calls (k + n)) ≡ true → Stops calls k q n (drop (suc n) q)

pub record Run {M : Type 0} (calls : ℕ → Wrote) (k : ℕ) (s : Server M) (p : ConnPtr)
    (c : Connection) (q : List Packet) : Type 0 where
  pub count : ℕ
  pub went_on : (j : ℕ) → j < count → ends (calls (k + j)) ≡ false
  pub rest : List Packet
  pub stops : Stops calls k q count rest
  pub left : Left (write_loop calls k s p c q) s p c rest count

call-cases : (w : Wrote) → (ends w ≡ true) ⊎ ((n : ℕ) × (w ≡ wrote (suc n)))
call-cases (wrote zero) = inl refl
call-cases (wrote (suc n)) = inr (n, refl)
call-cases write_blocked = inl refl
call-cases write_failed = inl refl

module _ (calls : ℕ → Wrote) where
  later-Stops :
      (k : ℕ) (packet : Packet) (q rest : List Packet) (n : ℕ)
      → Stops calls (suc k) q n rest
      → Stops calls k (packet ∷ q) (suc n) rest
  later-Stops k packet q rest n (at_end e) = at_end (omega arith)
  later-Stops k packet q rest n (at_call below e) =
      let shift : suc k + n ≡ k + suc n = omega arith in
      at_call (omega arith) (ap (λ j. ends (calls j)) (sym shift) ∙ e)

  later_went :
      (k n : ℕ)
      → ends (calls k) ≡ false
      → ((j : ℕ) → j < n → ends (calls (suc k + j)) ≡ false)
      → (j : ℕ) → j < suc n
      → ends (calls (k + j)) ≡ false
  later_went k n e f zero h =
      let shift : k + 0 ≡ k = omega arith in ap (λ j. ends (calls j)) shift ∙ e
  later_went k n e f (suc j) h =
      let shift : k + suc j ≡ suc k + j = omega arith in
      ap (λ j. ends (calls j)) shift ∙ f j (omega arith)

module _ {M : Type 0} (calls : ℕ → Wrote) where
  stopped :
      (k : ℕ) (s : Server M) (p : ConnPtr) (c : Connection) (packet : Packet) (q : List Packet)
      → ends (calls k) ≡ true
      → (write_loop calls k s p c (packet ∷ q)).server
        ≡ set_conn s p (record c { send_packet_list = q })
  unfolding write_loop
  stopped k s p c packet q e = ground arith

  went :
      (k : ℕ) (s : Server M) (p : ConnPtr) (c : Connection) (packet : Packet) (q : List Packet)
      (n : ℕ)
      → calls k ≡ wrote (suc n)
      → (write_loop calls k s p c (packet ∷ q)).server
        ≡ (write_loop calls
            (suc k)
            (free_packet (set_conn s p (record c { send_packet_list = q })))
            p
            c
            q).server
  unfolding write_loop
  went k s p c packet q n e = ground arith

-- The loop of write_handler takes the packets off the queue from its head, as long as the calls of
-- write return counts above 0, and gives the memory of these packets back. Where a call returns no
-- such count, be it for EAGAIN, the packet that it was for is off the queue too, and its memory is
-- not given back.
pub write_loop-Run :
    {M : Type 0} (calls : ℕ → Wrote) (k : ℕ) (s : Server M) (p : ConnPtr) (c : Connection)
    (q : List Packet)
    → get_conn s p ≡ some (record c { send_packet_list = q })
    → Run calls k s p c q
write_loop-Run calls k s p c [] live = record {
  count = 0;
  went_on = λ j h. absurd (omega arith);
  rest = [];
  stops = at_end refl;
  left = record { queue = unfold write_loop in live; freed = unfold write_loop in omega arith };
}
write_loop-Run calls k s p c (packet ∷ q) live = elim (call-cases (calls k)) [
  | inl e ↦
      let same = stopped calls k s p c packet q e in
      let shift : k + 0 ≡ k = omega arith in
      record {
        count = 0;
        went_on = λ j h. absurd (omega arith);
        rest = q;
        stops = at_call (omega arith) (ap (λ j. ends (calls j)) shift ∙ e);
        left = record {
          queue =
              ap (λ t. get_conn t p) same ∙ get-set_conn s p (record c { send_packet_list = q });
          freed =
              ap (λ t. t.free_packets) same
              ∙ free-set_conn s p (record c { send_packet_list = q })
              ∙ omega arith;
        };
      }
  | inr (n, e) ↦
      let s' = free_packet (set_conn s p (record c { send_packet_list = q })) in
      let live' : get_conn s' p ≡ some (record c { send_packet_list = q }) =
        get-freed s p (record c { send_packet_list = q }) in
      let r = write_loop-Run calls (suc k) s' p c q live' in
      let same = went calls k s p c packet q n e in
      record {
        count = suc r.count;
        went_on = later_went calls k r.count (ap ends e) r.went_on;
        rest = r.rest;
        stops = later-Stops calls k packet q r.rest r.count r.stops;
        left = record {
          queue = ap (λ t. get_conn t p) same ∙ r.left.queue;
          freed =
              ap (λ t. t.free_packets) same
              ∙ r.left.freed
              ∙ omega (arith, free-set_conn s p (record c { send_packet_list = q }));
        };
      }
]
