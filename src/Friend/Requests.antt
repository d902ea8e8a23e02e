-- ===== src/Friend/Requests.antt =====
-- What the friend server sends to the message server, and what that makes of it.
use mini_im.Base.{
  ℕ, ◌+◌, ◌≤◌, ◌<◌, ◌^◌, ◌≡◌, refl, ◌∙◌, inl, List, [], ◌∷◌, ◌++◌, some, arith, ltb_of_ge,
  leb_of_gt, length, length-drop, get_or, take, drop, test_of_eq,
}
use mini_im.Protocol.{max_packet_len, cmd_msg_friend_code}
use mini_im.Bytes.{
  get_field_uint16_t, get_field_uint32_t, set_field_uint16_t, set_field_uint32_t, put_at,
}
use mini_im.Bytes.Laws.{get16-set16, get32-set32, length-put_at}
use mini_im.Packet.{
  Packet, get_length, get_command, get_uin, get_parameters, fill_packet_header, set_param_uint16_t,
  set_param_uint32_t,
}
use mini_im.Packet.Laws.{
  fill_packet_header-Header, length-fill_packet_header, length-set16, length-set32,
  get16-set16_apart, get16-set32_apart, get32-set16_apart, get32-set32_apart, get16-drop,
  get32-drop, get_or-drop, received, get16-received, get32-received,
}
use mini_im.Text.{cstring}
use mini_im.Message
use mini_im.Message.{
  Msg, last_user, message_packet, on_message, enqueue, new_msg, made, request_status, update,
}
use mini_im.Message.Db.{OfflineDb}
use mini_im.Friend.{Server, send_friend_msg}

-- The packet CMD_MSG_FRIEND.
module _ (o : Packet) (from to type : ℕ) (size : length o ≡ max_packet_len)
    (from_small : from < 2 ^ 32) (to_small : to < 2 ^ 32) (type_small : type < 2 ^ 16) where
  abbrev a : Packet
  a = fill_packet_header o 24 cmd_msg_friend_code from

  abbrev b : Packet
  b = set_field_uint32_t a 12 to

  abbrev c : Packet
  c = set_field_uint16_t b 20 type

  abbrev d : Packet
  d = set_field_uint16_t c 22 0

  length-a : length a ≡ max_packet_len
  length-a = length-fill_packet_header o 24 cmd_msg_friend_code from ∙ size

  length-b : length b ≡ max_packet_len
  length-b = length-set32 a 12 to ∙ length-a

  length-c : length c ≡ max_packet_len
  length-c = length-set16 b 20 type ∙ length-b

  length-d : length d ≡ max_packet_len
  length-d = length-set16 c 22 0 ∙ length-c

  -- The fields of the header are those that were filled in.
  header16 : (i : ℕ) → i + 2 ≤ 12 → get_field_uint16_t d i ≡ get_field_uint16_t a i
  header16 i h =
      get16-set16_apart c 22 0 i (inl (omega arith))
      ∙ get16-set16_apart b 20 type i (inl (omega arith))
      ∙ get16-set32_apart a 12 to i (inl (omega arith))

  len_is : get_length d ≡ 24
  unfolding get_length
  len_is =
      header16 0 (omega arith)
      ∙ (fill_packet_header-Header o 24 cmd_msg_friend_code from (omega arith) (omega arith)
          (omega arith) from_small).len_is

  cmd_is : get_command d ≡ cmd_msg_friend_code
  unfolding get_command
  cmd_is =
      header16 4 (omega arith)
      ∙ (fill_packet_header-Header o 24 cmd_msg_friend_code from (omega arith) (omega arith)
          (omega arith) from_small).cmd_is

  from_is : get_field_uint32_t d 8 ≡ from
  from_is =
      get32-set16_apart c 22 0 8 (inl (omega arith))
      ∙ get32-set16_apart b 20 type 8 (inl (omega arith))
      ∙ get32-set32_apart a 12 to 8 (inl (omega arith))
      ∙ unfold get_uin in
        (fill_packet_header-Header o 24 cmd_msg_friend_code from (omega arith) (omega arith)
          (omega arith) from_small).uin_is

  to_is : get_field_uint32_t d 12 ≡ to
  to_is =
      get32-set16_apart c 22 0 12 (inl (omega arith))
      ∙ get32-set16_apart b 20 type 12 (inl (omega arith))
      ∙ get32-set32 a 12 to (omega (arith, length-a)) to_small

  type_is : get_field_uint16_t d 20 ≡ type
  type_is =
      get16-set16_apart c 22 0 20 (inl (omega arith))
      ∙ get16-set16 b 20 type (omega (arith, length-b)) type_small

  zero_is : get_field_uint16_t d 22 ≡ 0
  zero_is = get16-set16 c 22 0 (omega (arith, length-c)) (omega arith)

-- Memory that starts with a 0 is the empty string.
cstring_zero : (xs : List ℕ) → 0 < length xs → get_or xs 0 0 ≡ 0 → cstring xs ≡ some []
unfolding cstring
cstring_zero [] h e = absurd (omega arith)
cstring_zero (x ∷ xs) h e = rw (test_of_eq x 0 e) refl

low_byte : (xs : List ℕ) (i : ℕ) → get_field_uint16_t xs i ≡ 0 → get_or xs i 0 ≡ 0
unfolding get_field_uint16_t
low_byte xs i e = omega arith

stored_empty : (memory : List ℕ) → 0 < length memory → cstring (put_at memory 0 (0 ∷ [])) ≡ some []
unfolding cstring put_at
stored_empty [] h = absurd (omega arith)
stored_empty (b ∷ memory) h = refl

-- What the message server makes of CMD_MSG_FRIEND with an empty text.
message_packet-friend :
    {E : Type 0} (mdb : OfflineDb E) (ms : Message.Server E) (r : Packet) (to fd : ℕ)
    (memory : List ℕ)
    → get_command r ≡ cmd_msg_friend_code
    → get_field_uint32_t (get_parameters r) 0 ≡ to
    → cstring (drop 10 (get_parameters r)) ≡ some []
    → 0 < length memory
    → to < last_user
    → message_packet mdb (some memory) ms r fd
      ≡ some (
          request_status
            (record ms {
              queues = update ms.queues to (
                  record {
                    from_uin = get_uin r;
                    timestamp = get_field_uint32_t (get_parameters r) 4;
                    type = get_field_uint16_t (get_parameters r) 8;
                    len = get_field_uint16_t (get_parameters r) 8;
                    msg_str = put_at memory 0 (0 ∷ []);
                  }
                  ∷ ms.queues to);
            })
            to)
unfolding message_packet on_message new_msg enqueue
message_packet-friend mdb ms r to fd memory cmd for text room small = rw cmd (
    rw for (
      rw text (
        rw (ltb_of_ge (length memory) 1 (omega arith)) (
          rw (leb_of_gt (2 ^ 31) to (omega arith), enqueue)
            (rw (leb_of_gt last_user to small) refl)))))

-- A request, an acceptance or a refusal of the friend server reaches the message server: the packet that
-- send_friend_msg writes, read into any buffer, puts a message for the receiver at the head of that
-- user's queue, with the sender, the type and an empty text. Its length is the type, not 0. The
-- receiver is below MAX_USER, and there is memory for the message.
pub friend_msg_waits :
    {D E : Type 0} (mdb : OfflineDb E) (ms : Message.Server E) (s : Server D) (buf : Packet)
    (from to type fd : ℕ) (memory : List ℕ)
    → length s.outpack ≡ max_packet_len
    → length buf ≡ max_packet_len
    → from < 2 ^ 32
    → to < last_user
    → type < 2 ^ 16
    → 0 < length memory
    → (t : Server D) × (ms' : Message.Server E) × (m : Msg) × (send_friend_msg s from to type
        ≡ some t)
      × (t.writes ≡ s.writes ++ (s.message_fd, take (get_length t.outpack) t.outpack) ∷ [])
      × (message_packet mdb (some memory) ms (received buf t.outpack) fd ≡ some ms')
      × (ms'.queues to ≡ m ∷ ms.queues to)
      × (m.from_uin ≡ from)
      × (m.type ≡ type)
      × (m.len ≡ type)
      × (cstring m.msg_str ≡ some [])
unfolding set_param_uint32_t set_param_uint16_t
friend_msg_waits mdb ms s buf from to type fd memory size size_buf from_small to_small type_small
      room =
    let small : to < 2 ^ 32 = omega arith in
    let o = d s.outpack from to type size from_small small type_small in
    let len = len_is s.outpack from to type size from_small small type_small in
    let full = length-d s.outpack from to type size from_small small type_small in
    let le : get_length o ≤ length buf = omega (arith, len) in
    let whole : get_length o ≤ length o = omega (arith, len, full) in
    let r = received buf o in
    let full_r : length r ≡ max_packet_len =
      length-put_at buf 0 (take (get_length o) o) ∙ size_buf in
    let cmd : get_command r ≡ cmd_msg_friend_code =
      unfold get_command in
      get16-received buf o le whole 4 (omega (arith, len))
      ∙ cmd_is s.outpack from to type size from_small small type_small in
    let sender : get_uin r ≡ from =
      unfold get_uin in
      get32-received buf o le whole 8 (omega (arith, len))
      ∙ from_is s.outpack from to type size from_small small type_small in
    let for : get_field_uint32_t (get_parameters r) 0 ≡ to =
      get32-drop 12 r 0
      ∙ get32-received buf o le whole 12 (omega (arith, len))
      ∙ to_is s.outpack from to type size from_small small type_small in
    let kind : get_field_uint16_t (get_parameters r) 8 ≡ type =
      get16-drop 12 r 8
      ∙ get16-received buf o le whole 20 (omega (arith, len))
      ∙ type_is s.outpack from to type size from_small small type_small in
    let nothing : get_field_uint16_t r 22 ≡ 0 =
      get16-received buf o le whole 22 (omega (arith, len))
      ∙ zero_is s.outpack from to type size from_small small type_small in
    let text : cstring (drop 10 (get_parameters r)) ≡ some [] =
      cstring_zero (drop 10 (drop 12 r))
        (omega (arith, length-drop 10 (drop 12 r), length-drop 12 r, full_r))
        (get_or-drop 10 (drop 12 r) 0 ∙ get_or-drop 12 r 10 ∙ low_byte r 22 nothing) in
    let m : Msg = record {
      from_uin = get_uin r;
      timestamp = get_field_uint32_t (get_parameters r) 4;
      type = get_field_uint16_t (get_parameters r) 8;
      len = get_field_uint16_t (get_parameters r) 8;
      msg_str = put_at memory 0 (0 ∷ []);
    } in
    (
      record s { outpack = o; writes = s.writes ++ (s.message_fd, take (get_length o) o) ∷ [] },
      request_status (record ms { queues = update ms.queues to (m ∷ ms.queues to) }) to,
      m,
      unfold send_friend_msg in
          rw (ltb_of_ge max_packet_len (get_length o) (omega (arith, len))) refl,
      refl,
      message_packet-friend mdb ms r to fd memory cmd for text room to_small,
      unfold request_status in rw (test_of_eq to to refl) refl,
      sender,
      kind,
      kind,
      stored_empty memory room,
    )
