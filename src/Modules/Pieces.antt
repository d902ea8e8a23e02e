-- ===== src/Modules/Pieces.antt =====
-- A packet that arrives in pieces is read whole, however it is cut.
use mini_im.Base.{
  ℕ, zero, suc, ◌+◌, ◌-◌, ◌≤◌, ◌<◌, ◌≡◌, sym, ap, ◌∙◌, List, [], ◌∷◌, ◌++◌, map, arith, ltb_of_lt,
  length, All, length-append, append_assoc, append-nil,
}
use mini_im.Protocol.{max_packet_len, packet_header_len}
use mini_im.Bytes.{get_field_uint16_t}
use mini_im.Reader.Contents.{concat}
use mini_im.Modules.{Got, got, filled, read_left, packet_read, packet, receive_params, receive}

abbrev pub IsPiece : List ℕ → Type 0
IsPiece p = 0 < length p

read_left-pieces :
    (left : ℕ) (buff : List ℕ) (pieces : List (List ℕ)) (more : List Got)
    → All IsPiece pieces
    → length (concat pieces) ≡ left
    → read_left left buff (map got pieces ++ more) ≡ filled (buff ++ concat pieces) more
unfolding read_left
read_left-pieces zero buff [] more w e = ap (λ b. filled b more) (sym (append-nil buff))
read_left-pieces (suc left) buff [] more w e = absurd (omega arith)
read_left-pieces zero buff (p ∷ pieces) more w e =
    absurd (omega (arith, w.0, length-append p (concat pieces)))
read_left-pieces (suc left) buff (p ∷ pieces) more w e =
    read_left-pieces (suc left - length p) (buff ++ p) pieces more w.1
      (omega (arith, length-append p (concat pieces)))
    ∙ ap (λ b. filled b more) (append_assoc buff p (concat pieces))

-- packet_read, asked for more than 0 bytes, when read returns pieces with as many bytes together:
-- however the bytes are cut, it returns 0 with these bytes, in their order, in the buffer, and reads
-- no further.
pub packet_read-pieces :
    (pieces : List (List ℕ)) (more : List Got)
    → All IsPiece pieces
    → 0 < length (concat pieces)
    → packet_read (length (concat pieces)) (map got pieces ++ more) ≡ filled (concat pieces) more
unfolding packet_read
packet_read-pieces [] more w pos = absurd (omega arith)
packet_read-pieces (p ∷ []) more w pos = ground (arith, append-nil p)
packet_read-pieces (p ∷ q ∷ pieces) more w pos =
    let rest = length-append p (concat (q ∷ pieces)) in
    let next = length-append q (concat pieces) in
    rw (ltb_of_lt (length p) (length (concat (p ∷ q ∷ pieces))) (omega (arith, w.1.0, rest, next)))
      (read_left-pieces (length (concat (p ∷ q ∷ pieces)) - length p) p (q ∷ pieces) more w.1
        (omega (arith, rest)))

receive_params-pieces :
    (header : List ℕ) (bs : List (List ℕ)) (more : List Got)
    → All IsPiece bs
    → get_field_uint16_t header 0 ≡ packet_header_len + length (concat bs)
    → packet_header_len + length (concat bs) ≤ max_packet_len
    → receive_params header (map got bs ++ more) ≡ packet (header ++ concat bs) more
unfolding receive_params
receive_params-pieces header [] more w e fits = ground (arith, e, append-nil header)
receive_params-pieces header (b ∷ bs) more w e fits =
    let rest =
      packet_read-pieces (b ∷ bs) more w (omega (arith, w.0, length-append b (concat bs))) in
    let size : get_field_uint16_t header 0 - packet_header_len ≡ length (concat (b ∷ bs)) =
      omega arith in
    ground (arith, e, fits, rest, size, w.0, length-append b (concat bs))

-- A server's main loop gets the packet that is sent to it, header and parameters, however the
-- bytes of each of the two are cut into pieces, if the length field says how many bytes there are
-- and these fit the buffer; the calls of read that it makes are those that return these pieces.
pub receive-pieces :
    (hs bs : List (List ℕ)) (more : List Got)
    → All IsPiece hs
    → All IsPiece bs
    → length (concat hs) ≡ packet_header_len
    → get_field_uint16_t (concat hs) 0 ≡ packet_header_len + length (concat bs)
    → packet_header_len + length (concat bs) ≤ max_packet_len
    → receive (map got hs ++ (map got bs ++ more)) ≡ packet (concat hs ++ concat bs) more
unfolding receive
receive-pieces hs bs more wh wb size len fits =
    let header : packet_read packet_header_len (map got hs ++ (map got bs ++ more))
        ≡ filled (concat hs) (map got bs ++ more) =
      ap (λ n. packet_read n (map got hs ++ (map got bs ++ more))) (sym size)
      ∙ packet_read-pieces hs (map got bs ++ more) wh (omega arith) in
    ground (arith, header, receive_params-pieces (concat hs) bs more wb len fits)
