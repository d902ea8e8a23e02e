-- ===== src/Reader/Tests.antt =====
-- The theorems on read_packet at concrete bytes.
use mini_im.Base.{
  ℕ, ◌*◌, ◌+◌, ◌<◌, ◌≡◌, refl, inl, List, [], ◌∷◌, ◌++◌, map, arith, All, length, get_or, ltb,
  if◌then◌else◌,
}
use mini_im.Protocol.{max_packet_len}
use mini_im.Bytes.{put_at, get_field_uint16_t}
use mini_im.Packet.{packet_init, get_length}
use mini_im.Connection.{Connection, conn_init}
use mini_im.Reader.{
  Outcome, done, corrupted, read_packet, read_loop, read_round, last_packet_complete,
  last_packet_incomplete, fill_last, unsnoc,
}
use mini_im.Reader.Framing.{view}
use mini_im.Reader.Refine.{Reads, read_packet-Reads, read_packet-split}
use mini_im.Reader.Contents.{concat, stored, queued, read_packet_whole}
use mini_im.Reader.Cut.{begun, read_packet_cut}

-- A packet of the twelve bytes of its header.
abbrev login : List ℕ
login = 12 ∷ 0 ∷ 1 ∷ 0 ∷ 2 ∷ 0 ∷ 0 ∷ 0 ∷ 100 ∷ 0 ∷ 0 ∷ 0 ∷ []

abbrev first_half : List ℕ
first_half = 12 ∷ 0 ∷ 1 ∷ 0 ∷ 2 ∷ []

abbrev last_half : List ℕ
last_half = 0 ∷ 0 ∷ 0 ∷ 100 ∷ 0 ∷ 0 ∷ 0 ∷ []

-- What is left of a run that returns 0.
abbrev conn_of : Outcome → Connection
conn_of (done c) = c
conn_of _ = conn_init

abbrev after_first : Connection
after_first = conn_of (read_packet conn_init first_half)

abbrev after_last : Connection
after_last = conn_of (read_packet after_first last_half)

abbrev after_both : Connection
after_both = conn_of (read_packet conn_init (first_half ++ last_half))

read_packet-Reads_example : Reads (view conn_init) first_half (read_packet conn_init first_half)
read_packet-Reads_example = read_packet-Reads conn_init first_half (inl (unfold conn_init in refl))

first_done : read_packet conn_init first_half ≡ done after_first
unfolding conn_init read_packet read_loop read_round last_packet_complete
first_done = refl

last_done : read_packet after_first last_half ≡ done after_last
unfolding conn_init read_packet read_loop read_round last_packet_complete last_packet_incomplete
    fill_last unsnoc get_length get_field_uint16_t put_at packet_init
last_done = refl

both_done : read_packet conn_init (first_half ++ last_half) ≡ done after_both
unfolding conn_init read_packet read_loop read_round last_packet_complete
both_done = refl

read_packet-split_example : view after_last ≡ view after_both
read_packet-split_example =
    read_packet-split conn_init after_first after_last after_both first_half last_half
      (inl (unfold conn_init in refl)) first_done last_done both_done

read_packet_whole_example :
    (read_packet conn_init (concat (login ∷ login ∷ []))
      ≡ done (queued conn_init (map stored (login ∷ login ∷ []))))
    × All (λ p. (i : ℕ) → i < length p → get_or (stored p) i 0 ≡ get_or p i 0) (login ∷ login ∷ [])
read_packet_whole_example =
    read_packet_whole conn_init (login ∷ login ∷ []) (unfold conn_init in (refl, refl))
      ((refl, refl), ((refl, refl), tt))

read_packet_cut_example :
    (read_packet conn_init first_half ≡ done (begun conn_init first_half 7))
    × (read_packet (begun conn_init first_half 7) last_half ≡ (
        if ltb max_packet_len (12 * 5 + 7)
        then corrupted
        else done (queued conn_init (put_at (stored first_half) (12 * 5) last_half ∷ []))))
    × (get_or (put_at (stored first_half) (12 * 5) last_half) 5 0 ≡ 0)
read_packet_cut_example =
    read_packet_cut conn_init first_half last_half (unfold conn_init in (refl, refl)) (refl, refl)
      (omega arith) (omega arith)
