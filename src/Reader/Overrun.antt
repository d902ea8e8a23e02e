-- ===== src/Reader/Overrun.antt =====
-- When read_packet writes behind the memory of a packet: only where it resumes a packet of an earlier
-- read, whose bytes it puts at twelve times their offset.
use mini_im.Base.{
  ℕ, zero, suc, ◌+◌, ◌-◌, ◌*◌, ◌≤◌, ◌<◌, ◌≡◌, refl, sym, subst, ap, ◌∙◌, inl, inr, List, [], ◌∷◌,
  ◌++◌, map, some, true, false, arith, ltb, Bool-cases, if◌then◌else◌, ltb→lt, ltb→ge, ltb_of_ge,
  length, take, drop,
}
use mini_im.Protocol.{max_packet_len}
use mini_im.Packet.{Packet, packet_init, get_length}
use mini_im.Connection.{Connection}
use mini_im.Reader.{
  Read, took, failed, overrun, unsnoc, bad_length, packet_offset, fill_last, last_packet_incomplete,
  last_packet_incomplete_1byte, last_packet_complete,
}
use mini_im.Reader.Framing.{Framing, idle, half, body, frames, broken, view}
use mini_im.Reader.Starts.{
  view-begun, get_length-put_head, length_of_good, length-put_init, bad-eq, part-eq, all-eq,
  next_connection,
}
use mini_im.Bytes.{put_at}
use mini_im.Reader.Steps.{IsPartial, view-partial, unsnoc-append}

abbrev pub shorter : ℕ → ℕ → ℕ
shorter a b = if ltb a b then a else b

-- The rest of a packet of `n` bytes, of which `left` are missing, ends behind its memory.
abbrev pub TooFar : (n left : ℕ) → List ℕ → Type 0
TooFar n left buf =
    (0 < length buf) × (max_packet_len < 12 * (n - left) + shorter (length buf) left)

-- The bytes of a read resume a packet, and are put behind its memory.
abbrev pub Overruns : Framing → List ℕ → Type 0
Overruns (frames ns (body n left)) buf = TooFar n left buf
Overruns (frames ns (half a)) (b ∷ buf) =
    (bad_length (a + 256 * b) ≡ false) × TooFar (a + 256 * b) (a + 256 * b - 2) buf
Overruns (frames ns (half a)) [] = ⊥
Overruns (frames ns idle) buf = ⊥
Overruns broken buf = ⊥

pub none_left : (s : Framing) → ¬ Overruns s []
none_left (frames ns (body n left)) h = omega arith
none_left (frames ns (half a)) h = h
none_left (frames ns idle) h = h
none_left broken h = h

drop_all : (n : ℕ) (xs : List ℕ) → length xs ≤ n → drop n xs ≡ []
drop_all zero [] h = refl
drop_all (suc n) [] h = refl
drop_all zero (x ∷ xs) h = absurd (omega arith)
drop_all (suc n) (x ∷ xs) h = drop_all n xs (omega arith)

-- A round overruns if the bytes say so, and leaves the question open for the rest otherwise.
abbrev pub Follows : Connection → List ℕ → Read → Type 0
Follows c buf (took n c') =
    (Overruns (view c) buf → Overruns (view c') (drop n buf))
    × (Overruns (view c') (drop n buf) → Overruns (view c) buf)
Follows c buf (failed c') = ¬ Overruns (view c) buf
Follows c buf overrun = Overruns (view c) buf

-- A round after which nothing can overrun.
took-Follows :
    (c : Connection) (buf : List ℕ) (n : ℕ) (c' : Connection)
    → ¬ Overruns (view c) buf
    → ¬ Overruns (view c') (drop n buf)
    → Follows c buf (took n c')
took-Follows c buf n c' before after = ((λ o. absurd (before o)), λ o. absurd (after o))

used_up :
    (c : Connection) (n : ℕ) (buf : List ℕ) → length buf ≤ n → ¬ Overruns (view c) (drop n buf)
used_up c n buf h o = none_left (view c) (subst (Overruns (view c)) (drop_all n buf h) o)

-- A connection that has begun no packet.
between-safe :
    (c : Connection) (buf : List ℕ)
    → c.expect_bytes ≡ 0
    → c.length_incomplete ≡ false
    → ¬ Overruns (view c) buf
between-safe c buf e whole o =
    let is : view c ≡ frames (map get_length c.recv_packet_list) idle = rw e (rw whole refl) in
    subst (λ s. Overruns s buf) is o

module _ (c : Connection) (front : List Packet) (packet : Packet) (p : IsPartial c front packet)
    (buf : List ℕ) (some_bytes : 0 < length buf) where
  partial_if :
      Overruns (view c) buf
      → max_packet_len
        < 12 * (get_length packet - c.expect_bytes) + shorter (length buf) c.expect_bytes
  partial_if o = (subst (λ s. Overruns s buf) (view-partial c front packet p) o).1

  partial_of :
      max_packet_len
        < 12 * (get_length packet - c.expect_bytes) + shorter (length buf) c.expect_bytes
      → Overruns (view c) buf
  partial_of h = subst (λ s. Overruns s buf) (sym (view-partial c front packet p)) (some_bytes, h)

  -- The test for the room, for the number of bytes that are stored.
  room-Follows :
      (n : ℕ) (c' : Connection)
      → n ≡ shorter (length buf) c.expect_bytes
      → ¬ Overruns (view c') (drop n buf)
      → Follows c buf (
          if ltb max_packet_len (packet_offset (get_length packet - c.expect_bytes) + n)
          then overrun
          else took n c')
  room-Follows n c' is after =
      elim (Bool-cases
        (ltb max_packet_len (packet_offset (get_length packet - c.expect_bytes) + n))) [
          | inl out ↦ rw out (partial_of (omega (arith, ltb→lt _ _ out)))
          | inr fits ↦
              rw fits
                (took-Follows c buf n c' (λ o. omega (arith, partial_if o, ltb→ge _ _ fits)) after)
        ]

  abbrev filled_by : ℕ → ℕ → Connection
  filled_by n left = record c {
    recv_packet_list =
        front
        ++ put_at packet (packet_offset (get_length packet - c.expect_bytes)) (take n buf) ∷ [];
    expect_bytes = left;
  }

  fill_last-Follows : Follows c buf (fill_last c front packet buf)
  unfolding fill_last
  fill_last-Follows =
      rw (p.good, ltb_of_ge (get_length packet) c.expect_bytes (omega (arith, p.length_read)))
        (elim (Bool-cases (ltb (length buf) c.expect_bytes)) [
          | inl short ↦ rw short (
              room-Follows (length buf) (filled_by (length buf) (c.expect_bytes - length buf))
                (rw short refl)
                (used_up (filled_by (length buf) (c.expect_bytes - length buf)) (length buf) buf
                  (omega arith)))
          | inr long ↦ rw long (
              room-Follows c.expect_bytes (filled_by c.expect_bytes 0) (rw long refl) (
                between-safe (filled_by c.expect_bytes 0) (drop c.expect_bytes buf) refl p.no_half))
        ])

pub last_packet_incomplete-Follows :
    (c : Connection) (front : List Packet) (packet : Packet)
    → IsPartial c front packet
    → (buf : List ℕ) → 0 < length buf
    → Follows c buf (last_packet_incomplete c buf)
unfolding last_packet_incomplete
last_packet_incomplete-Follows c front packet p buf h =
    let e : unsnoc c.recv_packet_list ≡ some (front, packet) =
      ap unsnoc p.queue ∙ unsnoc-append front packet in
    rw (e, last_packet_incomplete) (fill_last-Follows c front packet p buf h)

module _ (c : Connection) (b : ℕ) (buf : List ℕ) (e : c.expect_bytes ≡ 0) where
  -- After the second byte of a length.
  pub last_packet_incomplete_1byte-Follows :
      c.length_incomplete ≡ true → Follows c (b ∷ buf) (last_packet_incomplete_1byte c (b ∷ buf))
  unfolding last_packet_incomplete_1byte
  last_packet_incomplete_1byte-Follows half_read =
      let n = c.length_low + 256 * b in
      let here : view c ≡ frames (map get_length c.recv_packet_list) (half c.length_low) =
        rw e (rw half_read refl) in
      let from = λ (o : Overruns (view c) (b ∷ buf)). subst (λ s. Overruns s (b ∷ buf)) here o in
      elim (Bool-cases (bad_length n)) [
        | inl bad ↦ rw bad (λ o. absurd (let g : bad_length n ≡ false = (from o).0 in cc))
        | inr good ↦ rw good (begun good here)
      ]
    where
      begun :
          bad_length (c.length_low + 256 * b) ≡ false
          → view c ≡ frames (map get_length c.recv_packet_list) (half c.length_low)
          → Follows c (b ∷ buf) (
              took 1 (record c {
                length_high = b;
                length_incomplete = false;
                expect_bytes = c.length_low + 256 * b - 2;
                recv_packet_list =
                    c.recv_packet_list ++ put_at packet_init 0 (c.length_low ∷ b ∷ []) ∷ [];
              }))
      begun good here =
          let n = c.length_low + 256 * b in
          let packet = put_at packet_init 0 (c.length_low ∷ b ∷ []) in
          let next = record c {
            length_high = b;
            length_incomplete = false;
            expect_bytes = n - 2;
            recv_packet_list = c.recv_packet_list ++ packet ∷ [];
          } in
          let there : view next ≡ frames (map get_length c.recv_packet_list) (body n (n - 2)) =
            view-begun next c.recv_packet_list packet n refl (get_length-put_head c.length_low b [])
              good (omega (arith, length_of_good n good)) (omega (arith, length_of_good n good))
              (length-put_init (c.length_low ∷ b ∷ [])) refl in
          (
            λ o.
                subst (λ s. Overruns s buf) (sym there)
                  (subst (λ s. Overruns s (b ∷ buf)) here o).1,
            λ o.
                subst (λ s. Overruns s (b ∷ buf)) (sym here)
                  (good, subst (λ s. Overruns s buf) there o),
          )

  -- After a packet that is complete.
  pub last_packet_complete-Follows :
      c.length_incomplete ≡ false → Follows c (b ∷ buf) (last_packet_complete c (b ∷ buf))
  last_packet_complete-Follows whole = start buf
    where
      part_read :
          (a : ℕ) (more : List ℕ)
          → Follows c (b ∷ a ∷ more) (
              took (suc (suc (length more))) (
                next_connection c b a more e whole
                  (suc (suc (length more)))
                  (b + 256 * a - suc (suc (length more)))))
      part_read a more =
          let n = suc (suc (length more)) in
          let next = next_connection c b a more e whole n (b + 256 * a - n) in
          took-Follows c (b ∷ a ∷ more) n next (between-safe c (b ∷ a ∷ more) e whole)
            (used_up next n (b ∷ a ∷ more) (omega arith))

      all_read :
          (a : ℕ) (more : List ℕ)
          → Follows c
              (b ∷ a ∷ more)
              (took (b + 256 * a) (next_connection c b a more e whole (b + 256 * a) c.expect_bytes))
      all_read a more =
          let next = next_connection c b a more e whole (b + 256 * a) c.expect_bytes in
          took-Follows c (b ∷ a ∷ more) (b + 256 * a) next (between-safe c (b ∷ a ∷ more) e whole)
            (between-safe next (drop (b + 256 * a) (b ∷ a ∷ more)) e whole)

      start : (buf : List ℕ) → Follows c (b ∷ buf) (last_packet_complete c (b ∷ buf))
      start [] =
          unfold last_packet_complete in
          took-Follows c (b ∷ []) 1 (record c { length_incomplete = true; length_low = b })
            (between-safe c (b ∷ []) e whole)
            (used_up (record c { length_incomplete = true; length_low = b }) 1 (b ∷ [])
              (omega arith))
      start (a ∷ more) =
          let safe = between-safe c (b ∷ a ∷ more) e whole in
          let n = b + 256 * a in
          elim (Bool-cases (bad_length n)) [
            | inl bad ↦ subst (Follows c (b ∷ a ∷ more)) (sym (bad-eq c b a more e whole bad)) safe
            | inr good ↦ elim (Bool-cases (ltb (suc (suc (length more))) n)) [
              | inl short ↦
                  subst (Follows c (b ∷ a ∷ more)) (sym (part-eq c b a more e whole good short))
                    (part_read a more)
              | inr long ↦
                  subst (Follows c (b ∷ a ∷ more)) (sym (all-eq c b a more e whole good long))
                    (all_read a more)
            ]
          ]
