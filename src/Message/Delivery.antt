-- ===== src/Message/Delivery.antt =====
-- A chat message on its way: the message server asks the status server, and sends on or stores by its
-- answer. Each server reads the other's packet into a buffer of its own.
use mini_im.Base.{
  ℕ, ◌+◌, ◌≤◌, ◌<◌, ◌^◌, ◌≡◌, refl, ◌∙◌, List, [], ◌∷◌, ◌++◌, Option, none, some, arith, leb_of_gt,
  ltb_of_ge, ◌==◌, if◌then◌else◌, length, take, drop, test_of_eq,
}
use mini_im.Protocol.{
  max_packet_len, cmd_get_status_code, cmd_message_code, rep_status_code, msg_type_chat,
}
use mini_im.Bytes.{get_field_uint16_t, get_field_uint32_t, put_at}
use mini_im.Packet.{
  Packet, get_length, get_command, get_uin, get_parameters, set_param_uint16_t, set_param_uint32_t,
}
use mini_im.Packet.Laws.{get16-drop, get32-drop, received, get16-received, get32-received}
use mini_im.Status
use mini_im.Status.{presence, status_packet, on_get_status, get_status, replied}
use mini_im.Text.{cstring, terminated}
use mini_im.Message.Db.{OfflineDb}
use mini_im.Message.{
  Msg, Server, update, last_user, new_msg, enqueue, on_message, on_status, request_status,
  message_packet, send_msg, store_offline_msg,
}
use mini_im.Message.Asking.{
  Shaped, request, request-Shaped, request_sender, request_uin, Answer, answer, answer-Answer,
}

-- What the status server makes of the request.
status_packet-request :
    (st : Status.Server) (buf out o : Packet) (uin stat ip port : ℕ)
    → length buf ≡ max_packet_len
    → Shaped o 16 cmd_get_status_code
    → get_uin o ≡ uin
    → get_field_uint32_t o 12 ≡ uin
    → get_status st uin ≡ some (presence stat ip port)
    → status_packet st (received buf o) out
      ≡ replied st
          (answer out uin uin stat ip port)
          (take (get_length (answer out uin uin stat ip port)) (answer out uin uin stat ip port))
unfolding status_packet on_get_status set_param_uint32_t set_param_uint16_t
status_packet-request st buf out o uin stat ip port room shape sender asked known =
    let le : get_length o ≤ length buf = omega (arith, shape.len_is) in
    let whole : get_length o ≤ length o = omega (arith, shape.len_is, shape.size) in
    let cmd : get_command (received buf o) ≡ cmd_get_status_code =
      unfold get_command in
      get16-received buf o le whole 4 (omega (arith, shape.len_is)) ∙ shape.cmd_is in
    let from : get_uin (received buf o) ≡ uin =
      unfold get_uin in get32-received buf o le whole 8 (omega (arith, shape.len_is)) ∙ sender in
    let of : get_field_uint32_t (get_parameters (received buf o)) 0 ≡ uin =
      get32-drop 12 (received buf o) 0
      ∙ get32-received buf o le whole 12 (omega (arith, shape.len_is))
      ∙ asked in
    rw cmd (rw (of, on_get_status) (rw known (rw from (rw of refl))))

module _ {D : Type 0} (db : OfflineDb D) where
  -- What the message server makes of the answer.
  message_packet-Answer :
      (memory : Option (List ℕ)) (s : Server D) (buf o : Packet) (fd uin stat ip port : ℕ)
      → length buf ≡ max_packet_len
      → Answer o uin stat ip port
      → uin ≤ last_user
      → message_packet db memory s (received buf o) fd
        ≡ (if stat == 0 then store_offline_msg db s uin else send_msg s uin ip port)
  unfolding message_packet on_status
  message_packet-Answer memory s buf o fd uin stat ip port room ans small =
      let le : get_length o ≤ length buf = omega (arith, ans.shaped.len_is) in
      let whole : get_length o ≤ length o = omega (arith, ans.shaped.len_is, ans.shaped.size) in
      let cmd : get_command (received buf o) ≡ rep_status_code =
        unfold get_command in
        get16-received buf o le whole 4 (omega (arith, ans.shaped.len_is)) ∙ ans.shaped.cmd_is in
      let of : get_field_uint32_t (get_parameters (received buf o)) 0 ≡ uin =
        get32-drop 12 (received buf o) 0
        ∙ get32-received buf o le whole 12 (omega (arith, ans.shaped.len_is))
        ∙ ans.uin_is in
      let at : get_field_uint32_t (get_parameters (received buf o)) 4 ≡ ip =
        get32-drop 12 (received buf o) 4
        ∙ get32-received buf o le whole 16 (omega (arith, ans.shaped.len_is))
        ∙ ans.ip_is in
      let through : get_field_uint16_t (get_parameters (received buf o)) 8 ≡ port =
        get16-drop 12 (received buf o) 8
        ∙ get16-received buf o le whole 20 (omega (arith, ans.shaped.len_is))
        ∙ ans.port_is in
      let on : get_field_uint16_t (get_parameters (received buf o)) 10 ≡ stat =
        get16-drop 12 (received buf o) 10
        ∙ get16-received buf o le whole 22 (omega (arith, ans.shaped.len_is))
        ∙ ans.stat_is in
      rw cmd (rw of (rw at (rw through (rw on (rw (ltb_of_ge last_user uin small) refl)))))

-- The message that a packet CMD_MESSAGE makes, with the memory that malloc gives.
abbrev pub chat : Packet → List ℕ → List ℕ → Msg
chat inpack memory text = record {
  from_uin = get_uin inpack;
  timestamp = get_field_uint32_t (get_parameters inpack) 4;
  type = msg_type_chat;
  len = get_field_uint16_t (get_parameters inpack) 8;
  msg_str = put_at memory 0 (terminated text);
}

module _ {D : Type 0} (db : OfflineDb D) where
  -- The message waits, and the status of its receiver is asked for.
  pub asking : Server D → ℕ → Msg → Server D
  asking s uin m = request_status (record s { queues = update s.queues uin (m ∷ s.queues uin) }) uin

  message_packet-asking :
      (s : Server D) (inpack : Packet) (fd uin : ℕ) (memory text : List ℕ)
      → get_command inpack ≡ cmd_message_code
      → get_field_uint32_t (get_parameters inpack) 0 ≡ uin
      → cstring (drop 10 (get_parameters inpack)) ≡ some text
      → length text < length memory
      → uin < last_user
      → message_packet db (some memory) s inpack fd ≡ some (asking s uin (chat inpack memory text))
  unfolding message_packet on_message new_msg enqueue asking
  message_packet-asking s inpack fd uin memory text cmd to reads room small = rw cmd (
      rw to (
        rw reads (
          rw (ltb_of_ge (length memory) (length text + 1) (omega arith)) (
            rw (leb_of_gt (2 ^ 31) uin (omega arith), enqueue)
              (rw (leb_of_gt last_user uin small) refl)))))

  -- The whole exchange: the packet of the chat message, the status server, and its answer.
  pub record Exchange (s s₁ : Server D) (st : Status.Server) (inpack buf out buf' : Packet)
      (fd uin stat ip port : ℕ) (memory text : List ℕ) : Type 0 where
    pub asks : message_packet db (some memory) s inpack fd ≡ some s₁
    pub writes : s₁.writes ≡ s.writes ++ (s.status_fd, take (get_length s₁.outpack) s₁.outpack) ∷ []
    pub size : length s₁.outpack ≡ max_packet_len
    pub conns : s₁.conns ≡ s.conns
    pub database : s₁.db ≡ s.db
    pub queue : s₁.queues uin ≡ chat inpack memory text ∷ s.queues uin
    pub answers :
        status_packet st (received buf s₁.outpack) out
        ≡ replied st
            (answer out uin uin stat ip port)
            (take (get_length (answer out uin uin stat ip port)) (answer out uin uin stat ip port))
    pub goes_on :
        message_packet db none s₁ (received buf' (answer out uin uin stat ip port)) s.status_fd
        ≡ (if stat == 0 then store_offline_msg db s₁ uin else send_msg s₁ uin ip port)

  pub exchange :
      (s : Server D) (st : Status.Server) (inpack buf out buf' : Packet) (fd uin stat ip port : ℕ)
      (memory text : List ℕ)
      → length s.outpack ≡ max_packet_len
      → length buf ≡ max_packet_len
      → length out ≡ max_packet_len
      → length buf' ≡ max_packet_len
      → get_command inpack ≡ cmd_message_code
      → get_field_uint32_t (get_parameters inpack) 0 ≡ uin
      → cstring (drop 10 (get_parameters inpack)) ≡ some text
      → length text < length memory
      → uin < last_user
      → get_status st uin ≡ some (presence stat ip port)
      → stat < 2 ^ 16
      → ip < 2 ^ 32
      → port < 2 ^ 16
      → Exchange s
          (asking s uin (chat inpack memory text))
          st
          inpack
          buf
          out
          buf'
          fd
          uin
          stat
          ip
          port
          memory
          text
  exchange s st inpack buf out buf' fd uin stat ip port memory text size size_buf size_out size_buf'
        cmd to reads room small known stat_small ip_small port_small =
      let shape = request-Shaped s.outpack uin size (omega arith) in
      let ans =
        answer-Answer out uin uin stat ip port size_out (omega arith) (omega arith) stat_small
          ip_small port_small in
      record {
        asks = message_packet-asking s inpack fd uin memory text cmd to reads room small;
        writes = unfold asking request_status in refl;
        size = unfold asking request_status in shape.size;
        conns = unfold asking request_status in refl;
        database = unfold asking request_status in refl;
        queue = unfold asking request_status in rw (test_of_eq uin uin refl) refl;
        answers =
            unfold asking request_status in
            status_packet-request st buf out (request s.outpack uin) uin stat ip port size_buf shape
              (request_sender s.outpack uin size (omega arith))
              (request_uin s.outpack uin size (omega arith)) known;
        goes_on =
            message_packet-Answer db none (asking s uin (chat inpack memory text)) buf'
              (answer out uin uin stat ip port) s.status_fd uin stat ip port size_buf' ans
              (omega arith);
      }
