-- ===== src/Reader.antt =====
-- How conn/conn_network.c makes packets of the bytes that it reads: read_packet and the three
-- functions that it calls. `buf` is the bytes from the read position on, as many as are left, so
-- `count` is its length. Logging and dumping are left out.
pub mod Framing
pub mod Steps
pub mod Starts
pub mod Overrun
pub mod Refine
pub mod Contents
pub mod Cut
mod Tests
use mini_im.Base.{
  ℕ, zero, suc, ◌+◌, ◌-◌, ◌*◌, ◌<◌, List, [], ◌∷◌, ◌++◌, Option, none, some, Bool, true, false, ltb,
  ◌==◌, if◌then◌else◌, length, get_or, take, drop, min,
}
use mini_im.Protocol.{max_packet_len, packet_header_len}
use mini_im.Bytes.{put_at}
use mini_im.Packet.{Packet, packet_init, get_length}
use mini_im.Connection.{Connection}

-- What a function returns: the bytes that it took and the connection as it leaves it, -1 with the
-- connection, or nothing, where it writes past the end of the packet's memory.
pub data Read : Type 0 where
  took : ℕ → Connection → Read
  failed : Connection → Read
  overrun : Read

-- The list before its last entry, and that entry.
unfoldable pub unsnoc {ℓ} : {A : Type ℓ} → List A → Option (List A × A)
unsnoc [] = none
unsnoc (x ∷ xs) = elim (unsnoc xs) [ none ↦ some ([], x) | some (ys, y) ↦ some (x ∷ ys, y) ]

-- Both tests of a length field.
abbrev pub bad_length : ℕ → Bool
bad_length packet_length =
    if ltb packet_length packet_header_len then true else ltb max_packet_len packet_length

-- `&packet->packet + have_read` counts in units of struct packet, which is 12 bytes long.
abbrev pub packet_offset : ℕ → ℕ
packet_offset have_read = have_read * packet_header_len

-- The rest of last_packet_incomplete, for the packet at the end of the queue.
unfoldable pub fill_last : Connection → List Packet → Packet → List ℕ → Read
fill_last conn front packet buf =
    let packet_length = get_length packet in
    let have_read = packet_length - conn.expect_bytes in
    let count = length buf in
    let read_bytes = if ltb count conn.expect_bytes then count else conn.expect_bytes in
    let filled = put_at packet (packet_offset have_read) (take read_bytes buf) in
    if bad_length packet_length
    then failed (record conn { expect_bytes = 0 })
    else if ltb packet_length conn.expect_bytes
    then failed (record conn { expect_bytes = 0 })
    else if ltb max_packet_len (packet_offset have_read + read_bytes)
    then overrun
    else took read_bytes (record conn {
      recv_packet_list = front ++ filled ∷ [];
      expect_bytes = if ltb count conn.expect_bytes then conn.expect_bytes - count else 0;
    })

unfoldable pub last_packet_incomplete : Connection → List ℕ → Read
last_packet_incomplete conn buf = elim (unsnoc conn.recv_packet_list) [
  | none ↦ failed (record conn { expect_bytes = 0 })
  | some (front, packet) ↦ fill_last conn front packet buf
]

unfoldable pub last_packet_incomplete_1byte : Connection → List ℕ → Read
last_packet_incomplete_1byte conn buf =
    let high = get_or buf 0 0 in
    let packet_length = conn.length_low + 256 * high in
    let packet = put_at packet_init 0 (conn.length_low ∷ high ∷ []) in
    if bad_length packet_length
    then failed (record conn { length_high = high; length_incomplete = false })
    else took 1 (record conn {
      length_high = high;
      length_incomplete = false;
      expect_bytes = packet_length - 2;
      recv_packet_list = conn.recv_packet_list ++ packet ∷ [];
    })

unfoldable pub last_packet_complete : Connection → List ℕ → Read
last_packet_complete conn buf =
    let count = length buf in
    let packet_length = get_or buf 0 0 + 256 * get_or buf 1 0 in
    let read_bytes = if ltb count packet_length then count else packet_length in
    let packet = put_at packet_init 0 (take read_bytes buf) in
    if ltb count 2
    then took count
        (record conn { length_incomplete = true; length_low = get_or buf 0 conn.length_low })
    else if bad_length packet_length
    then failed conn
    else took read_bytes (record conn {
      expect_bytes =
          if ltb count packet_length then packet_length - read_bytes else conn.expect_bytes;
      recv_packet_list = conn.recv_packet_list ++ packet ∷ [];
    })

-- One round of the loop of read_packet.
unfoldable pub read_round : Connection → List ℕ → Read
read_round conn buf =
    if ltb 0 conn.expect_bytes
    then last_packet_incomplete conn buf
    else if conn.length_incomplete
    then last_packet_incomplete_1byte conn buf
    else last_packet_complete conn buf

-- What read_packet returns: 0 or -1 with the connection, an overrun, or out of rounds.
pub data Outcome : Type 0 where
  done : Connection → Outcome
  error : Connection → Outcome
  corrupted : Outcome
  out_of_rounds : Outcome

unfoldable pub read_loop : ℕ → Connection → List ℕ → Outcome
read_loop rounds conn [] = done conn
read_loop zero conn (b ∷ buf) = out_of_rounds
read_loop (suc rounds) conn (b ∷ buf) = elim (read_round conn (b ∷ buf)) [
  | took n conn' ↦ read_loop rounds conn' (drop n (b ∷ buf))
  | failed conn' ↦ error conn'
  | overrun ↦ corrupted
]

-- A round takes a byte at least, so there are no more rounds than bytes.
unfoldable pub read_packet : Connection → List ℕ → Outcome
read_packet conn buf = read_loop (length buf) conn buf
