-- ===== src/Reader/Contents.antt =====
-- What is stored of the bytes of a packet: all of them in their places where it arrives as a whole,
-- and not where it is cut.
use mini_im.Base.{
  ℕ, zero, suc, ◌+◌, ◌*◌, ◌≤◌, ◌<◌, ◌≡◌, refl, sym, ap, ap₂, ◌∙◌, List, [], ◌∷◌, ◌++◌, map, false,
  arith, ltb_of_ge, length, get_or, take, drop, All, length-append, append_assoc, append-nil,
}
use mini_im.Protocol.{max_packet_len}
use mini_im.Bytes.{put_at}
use mini_im.Bytes.Laws.{put_at_head}
use mini_im.Packet.{Packet, packet_init}
use mini_im.Packet.Laws.{length-packet_init}
use mini_im.Connection.{Connection}
use mini_im.Reader.{
  took, bad_length, last_packet_complete, read_round, done, read_loop, read_packet,
}
use mini_im.Reader.Starts.{all-eq}

-- The bytes of a packet as they are sent: a length field that passes the tests, and that many bytes.
abbrev pub IsWhole : List ℕ → Type 0
IsWhole [] = ⊥
IsWhole (a ∷ []) = ⊥
IsWhole (a ∷ b ∷ p) = (bad_length (a + 256 * b) ≡ false) × (length (a ∷ b ∷ p) ≡ a + 256 * b)

-- A new packet with these bytes at its start.
abbrev pub stored : List ℕ → Packet
stored p = put_at packet_init 0 p

-- No packet has been begun.
abbrev pub IsBetween : Connection → Type 0
IsBetween c = (c.expect_bytes ≡ 0) × (c.length_incomplete ≡ false)

abbrev pub queued : Connection → List Packet → Connection
queued c ps = record c { recv_packet_list = c.recv_packet_list ++ ps }

pub take_front : {A : Type 0} (xs ys : List A) (n : ℕ) → length xs ≡ n → take n (xs ++ ys) ≡ xs
take_front [] ys zero e = refl
take_front [] ys (suc n) e = absurd (omega arith)
take_front (x ∷ xs) ys zero e = absurd (omega arith)
take_front (x ∷ xs) ys (suc n) e = ap (◌∷◌ x) (take_front xs ys n (omega arith))

pub drop_front : {A : Type 0} (xs ys : List A) (n : ℕ) → length xs ≡ n → drop n (xs ++ ys) ≡ ys
drop_front [] ys zero e = refl
drop_front [] ys (suc n) e = absurd (omega arith)
drop_front (x ∷ xs) ys zero e = absurd (omega arith)
drop_front (x ∷ xs) ys (suc n) e = drop_front xs ys n (omega arith)

pub round_complete :
    (c : Connection) (buf : List ℕ) → IsBetween c → read_round c buf ≡ last_packet_complete c buf
unfolding read_round
round_complete c buf i = rw (ltb_of_ge 0 c.expect_bytes (omega (arith, i.0)), i.1)

-- One round takes a whole packet off the front of the bytes.
round_whole :
    (c : Connection) (p rest : List ℕ)
    → IsBetween c
    → IsWhole p
    → read_round c (p ++ rest) ≡ took (length p) (queued c (stored p ∷ []))
round_whole c [] rest i w = elim w [ ]
round_whole c (a ∷ []) rest i w = elim w [ ]
round_whole c (a ∷ b ∷ p) rest i (good, size) =
    round_complete c (a ∷ b ∷ p ++ rest) i
    ∙ all-eq c a b (p ++ rest) i.0 i.1 good (
        ltb_of_ge (suc (suc (length (p ++ rest)))) (a + 256 * b)
          (omega (arith, length-append p rest)))
    ∙ ap₂ took (sym size) (
        ap (λ q. queued c (put_at packet_init 0 q ∷ []))
          (take_front (a ∷ b ∷ p) rest (a + 256 * b) size))

abbrev pub concat : List (List ℕ) → List ℕ
concat [] = []
concat (p ∷ ps) = p ++ concat ps

read_loop_whole :
    (ps : List (List ℕ)) (rounds : ℕ) (c : Connection)
    → IsBetween c
    → All IsWhole ps
    → length (concat ps) ≤ rounds
    → read_loop rounds c (concat ps) ≡ done (queued c (map stored ps))
unfolding read_loop
read_loop_whole [] rounds c i w h =
    ap (λ q. done (record c { recv_packet_list = q })) (sym (append-nil c.recv_packet_list))
read_loop_whole ([] ∷ ps) rounds c i w h = elim w.0 [ ]
read_loop_whole ((a ∷ p) ∷ ps) zero c i w h = absurd (omega arith)
read_loop_whole ((a ∷ p) ∷ ps) (suc rounds) c i w h =
    rw (round_whole c (a ∷ p) (concat ps) i w.0, read_loop)
      (ap (read_loop rounds (queued c (stored (a ∷ p) ∷ [])))
          (drop_front (a ∷ p) (concat ps) (length (a ∷ p)) refl)
        ∙ read_loop_whole ps rounds (queued c (stored (a ∷ p) ∷ [])) i w.1
            (omega (arith, length-append p (concat ps)))
        ∙ ap (λ q. done (record c { recv_packet_list = q }))
            (append_assoc c.recv_packet_list (stored (a ∷ p) ∷ []) (map stored ps)))

-- Any number of whole packets that arrive together, when none has been begun, are queued in their
-- order, each with all its bytes from the start of a new packet's memory, and read_packet returns 0.
pub read_packet_whole :
    (c : Connection) (ps : List (List ℕ))
    → IsBetween c
    → All IsWhole ps
    → (read_packet c (concat ps) ≡ done (queued c (map stored ps)))
      × All (λ p. (i : ℕ) → i < length p → get_or (stored p) i 0 ≡ get_or p i 0) ps
unfolding read_packet
read_packet_whole c ps i w =
    (read_loop_whole ps (length (concat ps)) c i w (omega arith), same ps w)
  where
    same :
        (ps : List (List ℕ))
        → All IsWhole ps
        → All (λ p. (i : ℕ) → i < length p → get_or (stored p) i 0 ≡ get_or p i 0) ps
    same [] w = tt
    same (p ∷ ps) w = (
      λ i h. put_at_head packet_init p i (omega (arith, small p w.0, length-packet_init)) h,
      same ps w.1,
    )
      where
        small : (p : List ℕ) → IsWhole p → length p ≤ max_packet_len
        small [] w = elim w [ ]
        small (a ∷ []) w = elim w [ ]
        small (a ∷ b ∷ p) (good, size) = ground arith
