-- ===== src/Message.antt =====
-- The message server, server/message.c: messages wait for the status of the user that they are for.
-- The database is a parameter, with the state `D`. `none` is an access out of bounds or to NULL.
pub mod Db
pub mod Sending
pub mod Paging
pub mod Pages
pub mod Asking
pub mod Delivery
pub mod Arrival
pub mod Keeping
mod Tests
pub mod Overflow
use mini_im.Base.{
  ℕ, zero, suc, ◌+◌, ◌-◌, List, [], ◌∷◌, ◌++◌, Option, none, some, Bool, true, false, ◌&&◌, ltb,
  leb, ◌==◌, if◌then◌else◌, length, take, drop, ◌^◌, ◌>>=◌,
}
use mini_im.Protocol.{
  max_packet_len, packet_header_len, cmd_get_status_code, cmd_message_code, cmd_msg_friend_code,
  cmd_conn_info_code, cmd_offline_msg_code, rep_status_code, srv_message_code, srv_offline_msg_code,
  srv_offline_msg_done_code, msg_type_chat,
}
use mini_im.Bytes.{
  put_at, bytes16, bytes32, get_field_uint16_t, get_field_uint32_t, set_field_uint32_t,
}
use mini_im.Packet.{
  Packet, get_length, set_length, set_version, get_command, set_command, get_uin, set_uin,
  get_parameters, set_param_uint32_t, fill_packet_header,
}
use mini_im.Text.{cstring, terminated}
use mini_im.Message.Db.{
  OfflineDb, Row, Result, message_store, message_update, message_get, message_delete, Got, got,
  failed, no_row,
}

-- MAX_USER of message.c; the table of queues has one entry more.
abbrev pub last_user : ℕ
last_user = 100_000

-- MSG_PARAMS_LEN
abbrev pub msg_params_len : ℕ
msg_params_len = max_packet_len - packet_header_len

abbrev pub msg_header_len : ℕ
msg_header_len = 12

-- struct con_info, less its link
pub record Con : Type 0 where
  pub ip : ℕ
  pub port : ℕ
  pub sockfd : ℕ

-- struct message; `msg_str` is the memory behind the header.
pub record Msg : Type 0 where
  pub from_uin : ℕ
  pub timestamp : ℕ
  pub type : ℕ
  pub len : ℕ
  pub msg_str : List ℕ

-- The static variables of message.c and message_db.c, the response buffer, and what was written,
-- each time with the socket.
pub record Server (D : Type 0) : Type 0 where
  pub status_fd : ℕ
  pub conns : List Con
  pub queues : ℕ → List Msg
  pub db : D
  pub result : Result
  pub outpack : Packet
  pub writes : List (ℕ × List ℕ)

abbrev pub update {ℓ} : {A : Type ℓ} → (ℕ → A) → ℕ → A → ℕ → A
update f k v j = if k == j then v else f j

unfoldable pub add_con : List Con → (ip port sockfd : ℕ) → List Con
add_con [] ip port sockfd = record { ip = ip; port = port; sockfd = sockfd } ∷ []
add_con (c ∷ cs) ip port sockfd =
    let rest = add_con cs ip port sockfd in
    if (c.ip == ip) && (c.port == port) then record c { sockfd = sockfd } ∷ cs else c ∷ rest

unfoldable pub del_con : List Con → ℕ → List Con
del_con [] sockfd = []
del_con (c ∷ cs) sockfd =
    let rest = del_con cs sockfd in if c.sockfd == sockfd then cs else c ∷ rest

-- `none` is -1.
unfoldable pub con_to_fd : List Con → (ip port : ℕ) → Option ℕ
con_to_fd [] ip port = none
con_to_fd (c ∷ cs) ip port =
    let rest = con_to_fd cs ip port in
    if (c.ip == ip) && (c.port == port) then some c.sockfd else rest

-- What new_msg returns: a message, NULL, or a text that is longer than the memory for it.
pub data New : Type 0 where
  made : Msg → New
  no_memory : New
  too_long : New

-- `memory` is what malloc gives behind the header, if anything.
unfoldable pub new_msg : Option (List ℕ) → (uin timestamp type len : ℕ) → List ℕ → New
new_msg none uin timestamp type len message = no_memory
new_msg (some memory) uin timestamp type len message =
    if ltb (length memory) (length message + 1)
    then too_long
    else made (record {
      from_uin = uin;
      timestamp = timestamp;
      type = type;
      len = len;
      msg_str = put_at memory 0 (terminated message);
    })

-- struct message as it lies in memory, with `len` bytes of its text.
unfoldable pub message_bytes : Msg → List ℕ
message_bytes m =
    bytes32 m.from_uin
    ++ (bytes32 m.timestamp ++ (bytes16 m.type ++ (bytes16 m.len ++ take m.len m.msg_str)))

module _ {D : Type 0} where
  -- write(fd, outpack, outpack->len)
  abbrev pub write_out : Server D → ℕ → Server D
  write_out s fd = record s {
    writes = s.writes ++ (fd, take (get_length s.outpack) s.outpack) ∷ [];
  }

  unfoldable pub request_status : Server D → ℕ → Server D
  request_status s uin =
      let a = fill_packet_header s.outpack (packet_header_len + 4) cmd_get_status_code uin in
      write_out (record s { outpack = set_param_uint32_t a 0 uin }) s.status_fd

  -- The loop of send_msg.
  unfoldable pub send_all : Server D → ℕ → List Msg → Option (Server D)
  send_all s sockfd [] = some s
  send_all s sockfd (m ∷ ms) =
      let size = packet_header_len + msg_header_len + m.len in
      let out = put_at (set_length s.outpack size) packet_header_len (message_bytes m) in
      let rest = send_all (write_out (record s { outpack = out }) sockfd) sockfd ms in
      if ltb max_packet_len size then none else rest

  unfoldable pub send_msg : Server D → (uin ip port : ℕ) → Option (Server D)
  send_msg s uin ip port =
      let emptied = λ (t : Server D). some (record t { queues = update t.queues uin [] }) in
      elim (s.queues uin) [
        | [] ↦ emptied s
        | m ∷ ms ↦ elim (con_to_fd s.conns ip port) [
          | none ↦ some s
          | some sockfd ↦
              let out = set_uin (set_command (set_version s.outpack 1) srv_message_code) uin in
              send_all (record s { outpack = out }) sockfd (m ∷ ms) >>= emptied
        ]
      ]

  -- A message is put at the head of its receiver's queue, and the receiver's status is asked for.
  -- As an int a uin of 2^31 or more is negative, passes the test and is an index out of bounds.
  unfoldable pub enqueue : Server D → ℕ → New → Option (Server D)
  enqueue s uin no_memory = some s
  enqueue s uin too_long = none
  enqueue s uin (made m) =
      if leb (2 ^ 31) uin
      then none
      else if leb last_user uin
      then some s
      else some (request_status (record s { queues = update s.queues uin (m ∷ s.queues uin) }) uin)

  -- CMD_MESSAGE and CMD_MSG_FRIEND, which differ in the type; `memory` is what malloc gives.
  unfoldable pub on_message : Option (List ℕ) → Server D → Packet → ℕ → Option (Server D)
  on_message memory s inpack type =
      let params = get_parameters inpack in
      let uin = get_field_uint32_t params 0 in
      let new =
        new_msg memory (get_uin inpack) (get_field_uint32_t params 4) type
          (get_field_uint16_t params 8) in
      elim memory [
        | none ↦ enqueue s uin no_memory
        | some _ ↦ cstring (drop 10 params) >>= λ text. enqueue s uin (new text)
      ]

-- How the packets of CMD_OFFLINE_MSG end: all are written, the query fails, the length of a row is
-- read that is not there, the loop goes on without end, or the rounds do not suffice.
pub data Paged (D : Type 0) : Type 0 where
  sent : Server D → Paged D
  refused : Paged D
  missing_row : Paged D
  endless : Paged D
  out_of_rounds : Paged D

module _ {D : Type 0} (db : OfflineDb D) where
  -- The loop of store_offline_msg.
  unfoldable pub store_all : D → ℕ → List Msg → Option D
  store_all d uin [] = some d
  store_all d uin (m ∷ ms) = do
    text ← cstring m.msg_str
    (d', stored) ← message_store db d m.from_uin uin m.type text
    (d'', updated) ← if stored then some (d', true) else message_update db d' m.from_uin uin text
    store_all d'' uin ms

  unfoldable pub store_offline_msg : Server D → ℕ → Option (Server D)
  store_offline_msg s uin = do
    d ← store_all s.db uin (s.queues uin)
    some (record s { db = d; queues = update s.queues uin [] })

  -- REP_STATUS
  unfoldable pub on_status : Server D → Packet → Option (Server D)
  on_status s inpack =
      let params = get_parameters inpack in
      let uin = get_field_uint32_t params 0 in
      let sent = send_msg s uin (get_field_uint32_t params 4) (get_field_uint16_t params 8) in
      let stored = store_offline_msg s uin in
      if ltb last_user uin then none else if get_field_uint16_t params 10 == 0 then stored else sent

  -- A packet with all rows that message_get packed, in the response buffer.
  abbrev pub send_rows : Server D → (fd uin command left : ℕ) → Server D
  send_rows s fd uin command left =
      let size = packet_header_len + msg_params_len - left in
      write_out (record s { outpack = fill_packet_header s.outpack size command uin }) fd

  -- The packets of CMD_OFFLINE_MSG, from what message_get has left on. After -1 the loop goes on, so
  -- that it writes the buffer without end.
  unfoldable pub send_pages : ℕ → Server D → (fd uin : ℕ) → Got → Paged D
  send_pages pages s fd uin failed = endless
  send_pages pages s fd uin no_row = missing_row
  send_pages zero s fd uin (got memory left r) =
      if r.rows == 0
      then sent (
          send_rows (record s { outpack = memory; result = r }) fd uin srv_offline_msg_done_code
            left)
      else out_of_rounds
  send_pages (suc pages) s fd uin (got memory left r) =
      let t = record s { outpack = memory; result = r } in
      let more = send_rows t fd uin srv_offline_msg_code left in
      let rest =
        send_pages pages more fd uin
          (message_get db s.db 0 r more.outpack packet_header_len msg_params_len) in
      if r.rows == 0 then sent (send_rows t fd uin srv_offline_msg_done_code left) else rest

  -- What is left to CMD_OFFLINE_MSG after its packets.
  abbrev pub delete_sent : ℕ → Server D → Server D
  delete_sent uin s =
      if ltb 14 (get_length s.outpack) then record s { db = message_delete db s.db uin } else s

  -- CMD_OFFLINE_MSG up to its last packet. Each page takes a row off the result at least.
  unfoldable pub offline_pages : Server D → Packet → ℕ → Paged D
  offline_pages s inpack fd =
      let uin = get_uin inpack in
      elim (message_get db s.db uin s.result s.outpack packet_header_len msg_params_len) [
        | failed ↦ refused
        | no_row ↦ missing_row
        | got memory left r ↦ send_pages (length r.rest + 1) s fd uin (got memory left r)
      ]

  -- CMD_OFFLINE_MSG; `none` where the loop does not come back.
  unfoldable pub on_offline_msg : Server D → Packet → ℕ → Option (Server D)
  on_offline_msg s inpack fd = elim (offline_pages s inpack fd) [
    | sent t ↦ some (delete_sent (get_uin inpack) t)
    | refused ↦ some s
    | missing_row ↦ none
    | endless ↦ none
    | out_of_rounds ↦ none
  ]

  -- message_packet; `memory` is what the call of malloc gives, if there is one.
  unfoldable pub message_packet : Option (List ℕ) → Server D → Packet → ℕ → Option (Server D)
  message_packet memory s inpack fd =
      let cmd = get_command inpack in
      let params = get_parameters inpack in
      let added = add_con s.conns (get_field_uint32_t params 0) (get_field_uint16_t params 4) fd in
      if cmd == cmd_offline_msg_code
      then on_offline_msg s inpack fd
      else if cmd == cmd_message_code
      then on_message memory s inpack msg_type_chat
      else if cmd == cmd_msg_friend_code
      then on_message memory s inpack (get_field_uint16_t params 8)
      else if cmd == rep_status_code
      then on_status s inpack
      else if cmd == cmd_conn_info_code
      then some (record s { conns = added })
      else some s
