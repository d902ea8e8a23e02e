-- ===== src/Reader/Cut.antt =====
-- A packet that arrives in two reads.
use mini_im.Base.{
  ℕ, zero, suc, ◌+◌, ◌-◌, ◌*◌, ◌≤◌, ◌<◌, ◌≡◌, refl, sym, subst, ap, ap₂, ◌∙◌, List, [], ◌∷◌, ◌++◌,
  false, arith, ltb, Bool-cases, if◌then◌else◌, inl, inr, ltb_of_lt, ltb_of_ge, length, get_or,
  drop, length-append, replicate,
}
use mini_im.Protocol.{max_packet_len}
use mini_im.Bytes.{put_at}
use mini_im.Bytes.Laws.{put_at_before, put_at_after}
use mini_im.Packet.{Packet, packet_init, get_length}
use mini_im.Connection.{Connection}
use mini_im.Reader.{
  took, overrun, bad_length, fill_last, packet_offset, last_packet_incomplete, read_round, done,
  corrupted, read_loop, read_packet,
}
use mini_im.Reader.Steps.{take_all, unsnoc-append}
use mini_im.Reader.Starts.{part-eq, get_length-put_head}
use mini_im.Reader.Contents.{IsWhole, IsBetween, stored, queued, round_complete}

-- The connection after the first part, with `left` bytes to come.
abbrev pub begun : Connection → List ℕ → ℕ → Connection
begun c xs left = record c {
  expect_bytes = left;
  recv_packet_list = c.recv_packet_list ++ stored xs ∷ [];
}

-- Where the second part is stored.
abbrev pub joined : List ℕ → List ℕ → Packet
joined xs ys = put_at (stored xs) (packet_offset (length xs)) ys

-- A read that one round takes whole.
one_round :
    (c c' : Connection) (b : ℕ) (buf : List ℕ)
    → read_round c (b ∷ buf) ≡ took (length (b ∷ buf)) c'
    → read_packet c (b ∷ buf) ≡ done c'
unfolding read_packet read_loop
one_round c c' b buf e =
    rw (e, read_loop) (ap (read_loop (length buf) c') (drop_all buf) ∙ empty (length buf))
  where
    drop_all : (xs : List ℕ) → drop (length xs) xs ≡ []
    drop_all [] = refl
    drop_all (x ∷ xs) = drop_all xs

    empty : (n : ℕ) → read_loop n c' [] ≡ done c'
    empty zero = refl
    empty (suc n) = refl

read_first :
    (c : Connection) (x y : ℕ) (xs : List ℕ) (left : ℕ)
    → IsBetween c
    → bad_length (x + 256 * y) ≡ false
    → 0 < left
    → length (x ∷ y ∷ xs) + left ≡ x + 256 * y
    → read_packet c (x ∷ y ∷ xs) ≡ done (begun c (x ∷ y ∷ xs) left)
read_first c x y xs left i good pos size = one_round c (begun c (x ∷ y ∷ xs) left) x (y ∷ xs) (
    round_complete c (x ∷ y ∷ xs) i
    ∙ part-eq c x y xs i.0 i.1 good (ltb_of_lt (suc (suc (length xs))) (x + 256 * y) (omega arith))
    ∙ ap₂
        (λ p n. took (suc (suc (length xs))) (record c {
          expect_bytes = n;
          recv_packet_list = c.recv_packet_list ++ put_at packet_init 0 p ∷ [];
        }))
        (take_all (x ∷ y ∷ xs)) (omega arith))

module _ (c : Connection) (x y : ℕ) (xs ys : List ℕ) (good : bad_length (x + 256 * y) ≡ false)
    (pos : 0 < length ys) (size : length (x ∷ y ∷ xs) + length ys ≡ x + 256 * y) where
  abbrev first : List ℕ
  first = x ∷ y ∷ xs

  abbrev middle : Connection
  middle = begun c first (length ys)

  fill : fill_last middle c.recv_packet_list (stored first) ys ≡ (
      if ltb max_packet_len (packet_offset (length first) + length ys)
      then overrun
      else took (length ys) (record middle {
        recv_packet_list = c.recv_packet_list ++ joined first ys ∷ [];
        expect_bytes = 0;
      }))
  unfolding fill_last
  fill =
      let is : get_length (stored first) ≡ x + 256 * y = get_length-put_head x y xs in
      let at : x + 256 * y - length ys ≡ length first = omega arith in
      rw (
        is,
        good,
        ltb_of_ge (x + 256 * y) (length ys) (omega arith),
        ltb_of_ge (length ys) (length ys) (omega arith),
        take_all ys,
        at,
      )

  round_second : read_round middle ys ≡ fill_last middle c.recv_packet_list (stored first) ys
  unfolding read_round last_packet_incomplete
  round_second =
      rw (ltb_of_lt 0 (length ys) pos)
        (rw (unsnoc-append c.recv_packet_list (stored first), last_packet_incomplete))

get_or-replicate : (n i : ℕ) → get_or {A = ℕ} (replicate n 0) i 0 ≡ 0
get_or-replicate zero i = refl
get_or-replicate (suc n) zero = refl
get_or-replicate (suc n) (suc i) = get_or-replicate n i

-- The first byte of the second part is not where it belongs: there is the zero of a new packet.
joined_gap : (xs ys : List ℕ) → 1 ≤ length xs → get_or (joined xs ys) (length xs) 0 ≡ 0
joined_gap xs ys h =
    put_at_before (stored xs) (packet_offset (length xs)) ys (length xs) (omega arith)
    ∙ put_at_after packet_init 0 xs (length xs) (omega arith)
    ∙ (unfold packet_init in get_or-replicate max_packet_len (length xs))

read_second :
    (c : Connection) (x y : ℕ) (xs ys : List ℕ)
    → IsBetween c
    → bad_length (x + 256 * y) ≡ false
    → 0 < length ys
    → length (x ∷ y ∷ xs) + length ys ≡ x + 256 * y
    → read_packet (begun c (x ∷ y ∷ xs) (length ys)) ys ≡ (
        if ltb max_packet_len (packet_offset (length (x ∷ y ∷ xs)) + length ys)
        then corrupted
        else done (queued c (joined (x ∷ y ∷ xs) ys ∷ [])))
read_second c x y xs [] i good pos size = absurd (omega arith)
read_second c x y xs (z ∷ ys) i good pos size =
    elim (Bool-cases
      (ltb max_packet_len (packet_offset (suc (suc (length xs))) + suc (length ys)))) [
        | inl out ↦ rw out (overrun_round (round ∙ rw out))
        | inr fits ↦ rw fits (
            one_round m _ z ys (round ∙ rw fits)
            ∙ ap
                (λ n. done (record c {
                  recv_packet_list = c.recv_packet_list ++ joined (x ∷ y ∷ xs) (z ∷ ys) ∷ [];
                  expect_bytes = n;
                }))
                (sym i.0))
      ]
  where
    m : Connection
    m = middle c x y xs (z ∷ ys) good pos size

    round : read_round m (z ∷ ys) ≡ (
        if ltb max_packet_len (packet_offset (suc (suc (length xs))) + suc (length ys))
        then overrun
        else took (suc (length ys)) (record m {
          recv_packet_list = c.recv_packet_list ++ joined (x ∷ y ∷ xs) (z ∷ ys) ∷ [];
          expect_bytes = 0;
        }))
    round = round_second c x y xs (z ∷ ys) good pos size ∙ fill c x y xs (z ∷ ys) good pos size

    overrun_round : read_round m (z ∷ ys) ≡ overrun → read_packet m (z ∷ ys) ≡ corrupted
    overrun_round e = unfold read_packet read_loop in rw (e, read_loop)

-- A whole packet whose bytes come in two reads, `xs` of at least two bytes and then `ys`, on a
-- connection that has begun none. The first read_packet returns 0 and leaves the packet begun. The
-- second stores `ys` not behind `xs` but at twelve times that offset: if that lies past the
-- packet's memory it is overrun, and otherwise the packet is queued, with a zero byte where the
-- first byte of `ys` belongs.
pub read_packet_cut :
    (c : Connection) (xs ys : List ℕ)
    → IsBetween c
    → IsWhole (xs ++ ys)
    → 2 ≤ length xs
    → 0 < length ys
    → (read_packet c xs ≡ done (begun c xs (length ys)))
      × (read_packet (begun c xs (length ys)) ys ≡ (
          if ltb max_packet_len (12 * length xs + length ys)
          then corrupted
          else done (queued c (put_at (stored xs) (12 * length xs) ys ∷ []))))
      × (get_or (put_at (stored xs) (12 * length xs) ys) (length xs) 0 ≡ 0)
read_packet_cut c [] ys i w two pos = absurd (omega arith)
read_packet_cut c (x ∷ []) ys i w two pos = absurd (omega arith)
read_packet_cut c (x ∷ y ∷ xs) ys i (good, size) two pos =
    let n = suc (suc (length xs)) in
    let e : packet_offset n ≡ 12 * n = omega arith in
    let total : n + length ys ≡ x + 256 * y = omega (arith, length-append xs ys) in
    (
      read_first c x y xs (length ys) i good pos total,
      subst
          (λ o. read_packet (begun c (x ∷ y ∷ xs) (length ys)) ys ≡ (
            if ltb max_packet_len (o + length ys)
            then corrupted
            else done (queued c (put_at (stored (x ∷ y ∷ xs)) o ys ∷ []))))
          e (read_second c x y xs ys i good pos total),
      subst (λ o. get_or (put_at (stored (x ∷ y ∷ xs)) o ys) n 0 ≡ 0) e
          (joined_gap (x ∷ y ∷ xs) ys (omega arith)),
    )
