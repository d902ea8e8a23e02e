-- ===== src/Modules.antt =====
-- What the backend servers share, server/modules.c: the blocking read of a packet. What the calls of
-- read return is an argument, and read returns no more bytes than it is asked for.
pub mod Pieces
mod Tests
use mini_im.Base.{
  ℕ, zero, suc, ◌+◌, ◌-◌, List, [], ◌∷◌, ◌++◌, Bool, true, false, ltb, if◌then◌else◌, length,
}
use mini_im.Protocol.{max_packet_len, packet_header_len, srv_error_code}
use mini_im.Bytes.{get_field_uint16_t, bytes16, bytes32}

-- What a call of read returns: a count above 0 with the bytes, 0, or -1.
pub data Got : Type 0 where
  got : List ℕ → Got
  got_end got_error : Got

-- What packet_read returns: 0, with the bytes in the buffer and the calls to come, -1 after the end of
-- the file, -2 after an error, or not at all, where read does not return.
pub data Packed : Type 0 where
  filled : List ℕ → List Got → Packed
  closed failed waiting : Packed

-- The loop of packet_read: `left` bytes are missing behind `buff`.
unfoldable pub read_left : ℕ → List ℕ → List Got → Packed
read_left zero buff calls = filled buff calls
read_left (suc left) buff [] = waiting
read_left (suc left) buff (got_error ∷ calls) = failed
read_left (suc left) buff (got_end ∷ calls) = closed
read_left (suc left) buff (got bs ∷ calls) = read_left (suc left - length bs) (buff ++ bs) calls

unfoldable pub packet_read : ℕ → List Got → Packed
packet_read len [] = waiting
packet_read len (got_error ∷ calls) = failed
packet_read len (got_end ∷ calls) = closed
packet_read len (got bs ∷ calls) =
    if ltb (length bs) len then read_left (len - length bs) bs calls else filled bs calls

-- A packet that a server's main loop has read, or why it has none; `overrun` is a length field that
-- is longer than the buffer.
pub data Received : Type 0 where
  packet : List ℕ → List Got → Received
  dropped waits overrun : Received

-- The bytes behind the header, as the main loop reads them.
unfoldable pub receive_params : List ℕ → List Got → Received
receive_params header calls =
    let len = get_field_uint16_t header 0 in
    let rest : Received = elim (packet_read (len - packet_header_len) calls) [
      | filled params later ↦ packet (header ++ params) later
      | closed ↦ dropped
      | failed ↦ dropped
      | waiting ↦ waits
    ] in
    if ltb packet_header_len len
    then if ltb max_packet_len len then overrun else rest
    else packet header calls

-- The reads for one packet in the main loop.
unfoldable pub receive : List Got → Received
receive calls = elim (packet_read packet_header_len calls) [
  | filled header later ↦ receive_params header later
  | closed ↦ dropped
  | failed ↦ dropped
  | waiting ↦ waits
]

-- send_error_packet: the bytes that it sends. `pad` is what stands in the two bytes that it does not
-- set.
unfoldable pub send_error_packet : (uin cmd error pad : ℕ) → List ℕ
send_error_packet uin cmd error pad =
    bytes16 16
    ++ bytes16 1
    ++ bytes16 srv_error_code
    ++ bytes16 pad
    ++ bytes32 uin
    ++ bytes16 cmd
    ++ bytes16 error
