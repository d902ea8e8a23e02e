-- ===== src/Reader/Steps.antt =====
-- Each of the three functions that read_packet calls reads on as the stream says, up to an overrun.
use mini_im.Base.{
  ℕ, ◌+◌, ◌-◌, ◌≤◌, ◌<◌, ◌≡◌, refl, sym, ap, ap₂, ◌∙◌, ◌⊎◌, inl, inr, List, [], ◌∷◌, ◌++◌, map,
  some, false, arith, ltb, if◌then◌else◌, Bool-cases, ltb→lt, test_of_ne, ltb→ge, ltb_of_ge, length,
  take, length-take,
}
use mathlib.Core.List.{map-append}
use mini_im.Protocol.{max_packet_len}
use mini_im.Bytes.{put_at}
use mini_im.Bytes.Laws.{length-put_at, get16-put_at_apart}
use mini_im.Packet.{Packet, get_length}
use mini_im.Connection.{Connection}
use mini_im.Reader.{
  Read, took, failed, overrun, unsnoc, bad_length, packet_offset, fill_last, last_packet_incomplete,
}
use mini_im.Reader.Framing.{idle, body, frames, broken, run, run_body, run_end, view}

pub unsnoc-append {ℓ} : {A : Type ℓ} (xs : List A) (x : A) → unsnoc (xs ++ x ∷ []) ≡ some (xs, x)
unfolding unsnoc
unsnoc-append [] x = refl
unsnoc-append (y ∷ xs) x = rw (unsnoc-append xs x)

-- The connection is in the middle of `packet`, which stands behind `front`.
pub record IsPartial (c : Connection) (front : List Packet) (packet : Packet) : Type 0 where
  pub queue : c.recv_packet_list ≡ front ++ packet ∷ []
  pub good : bad_length (get_length packet) ≡ false
  pub some_left : 0 < c.expect_bytes
  pub length_read : c.expect_bytes + 2 ≤ get_length packet
  pub memory : length packet ≡ max_packet_len
  pub no_half : c.length_incomplete ≡ false

-- What read_packet keeps of a connection between two reads.
abbrev pub IsReading : Connection → Type 0
IsReading c =
    (c.expect_bytes ≡ 0) ⊎ ((front : List Packet) × (packet : Packet) × IsPartial c front packet)

pub view-partial :
    (c : Connection) (front : List Packet) (packet : Packet)
    → IsPartial c front packet
    → view c ≡ frames (map get_length front) (body (get_length packet) c.expect_bytes)
view-partial c front packet p =
    rw (test_of_ne c.expect_bytes 0 (omega (arith, p.some_left)), p.queue)
      (rw (unsnoc-append front packet))

-- A round agrees with the stream on the bytes that it takes; where it fails, so does the stream.
abbrev pub Agrees : Connection → List ℕ → Read → Type 0
Agrees c buf (took n c') =
    (0 < n) × (n ≤ length buf) × IsReading c' × (view c' ≡ run (view c) (take n buf))
Agrees c buf (failed c') = run (view c) buf ≡ broken
Agrees c buf overrun = Unit {0}

pub take_all {ℓ} : {A : Type ℓ} (xs : List A) → take (length xs) xs ≡ xs
take_all [] = refl
take_all (x ∷ xs) = ap (◌∷◌ x) (take_all xs)

-- A write behind the length field leaves the length.
get_length-put_at :
    (packet : Packet) (off : ℕ) (src : List ℕ)
    → 2 ≤ off
    → get_length (put_at packet off src) ≡ get_length packet
unfolding get_length
get_length-put_at packet off src h = get16-put_at_apart packet off src 0 (inl (omega arith))

module _ (c : Connection) (front : List Packet) (packet : Packet) (p : IsPartial c front packet)
    (buf : List ℕ) (some_bytes : 0 < length buf) where
  filled : ℕ → Packet
  filled n = put_at packet (packet_offset (get_length packet - c.expect_bytes)) (take n buf)

  length_kept : (n : ℕ) → get_length (filled n) ≡ get_length packet
  unfolding filled
  length_kept n = get_length-put_at packet _ (take n buf) (omega (arith, p.length_read))

  after : ℕ → ℕ → Connection
  after n left = record c { recv_packet_list = front ++ filled n ∷ []; expect_bytes = left }

  -- The read ends inside the packet.
  inside-Agrees :
      length buf < c.expect_bytes
      → Agrees c buf (took (length buf) (after (length buf) (c.expect_bytes - length buf)))
  unfolding after filled
  inside-Agrees short =
      let n = length buf in
      let p' : IsPartial (after n (c.expect_bytes - n)) front (filled n) = record {
        queue = refl;
        good = ap bad_length (length_kept n) ∙ p.good;
        some_left = omega arith;
        length_read = omega (arith, p.length_read, length_kept n);
        memory = length-put_at packet _ (take n buf) ∙ p.memory;
        no_half = p.no_half;
      } in
      (
        some_bytes,
        omega arith,
        inr (front, filled n, p'),
        view-partial (after n (c.expect_bytes - n)) front (filled n) p'
            ∙ ap (λ k. frames (map get_length front) (body k (c.expect_bytes - n))) (length_kept n)
            ∙ sym (
                ap₂ run (view-partial c front packet p) (take_all buf)
                ∙ run_body (map get_length front) (get_length packet) c.expect_bytes buf short),
      )

  -- The read completes the packet.
  end-Agrees :
      c.expect_bytes ≤ length buf → Agrees c buf (took c.expect_bytes (after c.expect_bytes 0))
  unfolding after filled
  end-Agrees enough =
      let n = c.expect_bytes in
      let size : length (take n buf) ≡ n = omega (arith, length-take n buf) in
      (
        p.some_left,
        enough,
        inl refl,
        rw p.no_half (
              ap (λ ks. frames ks idle) (map-append get_length front (filled n ∷ []))
              ∙ ap (λ k. frames (map get_length front ++ k ∷ []) idle) (length_kept n))
            ∙ sym (
                ap (λ s. run s (take n buf)) (view-partial c front packet p)
                ∙ run_end (map get_length front) (get_length packet) n (take n buf) p.some_left
                    size),
      )

  fill_last-Agrees : Agrees c buf (fill_last c front packet buf)
  unfolding fill_last after filled
  fill_last-Agrees =
      rw (p.good, ltb_of_ge (get_length packet) c.expect_bytes (omega (arith, p.length_read)))
        (elim (Bool-cases (ltb (length buf) c.expect_bytes)) [
          | inl short ↦ rw short (room (length buf) _ (inside-Agrees (ltb→lt _ _ short)))
          | inr long ↦ rw long (room c.expect_bytes _ (end-Agrees (ltb→ge _ _ long)))
        ])
    where
      room :
          (n : ℕ) (r : Read)
          → Agrees c buf r
          → Agrees c buf (
              if ltb max_packet_len (packet_offset (get_length packet - c.expect_bytes) + n)
              then overrun
              else r)
      room n r h =
          elim (Bool-cases
            (ltb max_packet_len (packet_offset (get_length packet - c.expect_bytes) + n))) [
              | inl out ↦ rw out tt
              | inr fits ↦ rw fits h
            ]

pub last_packet_incomplete-Agrees :
    (c : Connection) (front : List Packet) (packet : Packet)
    → IsPartial c front packet
    → (buf : List ℕ) → 0 < length buf
    → Agrees c buf (last_packet_incomplete c buf)
unfolding last_packet_incomplete
last_packet_incomplete-Agrees c front packet p buf h =
    let e : unsnoc c.recv_packet_list ≡ some (front, packet) =
      ap unsnoc p.queue ∙ unsnoc-append front packet in
    rw (e, last_packet_incomplete) (fill_last-Agrees c front packet p buf h)
