-- ===== src/Friend.antt =====
-- The friend server, server/friend.c: requests between users, the list of contacts, and what is known
-- of each contact. The database is a parameter, with the state `D`; malloc gives memory. `none` is an
-- access out of bounds.
pub mod Db
pub mod Requests
pub mod Moving
pub mod Adding
pub mod Contacts
pub mod Filling
pub mod Info
mod Tests
use mini_im.Base.{
  ℕ, zero, suc, ◌+◌, ◌-◌, ◌*◌, ◌<◌, List, [], ◌∷◌, ◌++◌, Option, none, some, Bool, true, false, ltb,
  leb, ◌==◌, if◌then◌else◌, length, take, drop, ◌>>=◌,
}
use mini_im.Protocol.{
  max_packet_len, packet_header_len, cmd_add_contact_code, cmd_add_contact_reply_code,
  cmd_contact_list_code, cmd_contact_info_multi_code, cmd_multi_status_code, cmd_msg_friend_code,
  cmd_friend_add_code, rep_multi_status_code, srv_add_contact_wait_code, srv_contact_list_code,
  srv_contact_info_multi_code, msg_type_request, msg_type_accept, msg_type_refuse,
  err_already_friend, err_not_exist,
}
use mini_im.Bytes.{
  put_at, bytes16, bytes32, get_field_uint16_t, get_field_uint32_t, set_field_uint16_t,
  set_field_uint32_t,
}
use mini_im.Packet.{
  Packet, get_length, set_length, set_version, get_command, set_command, get_uin, set_uin,
  get_parameters, set_param_uint16_t, set_param_uint32_t, fill_packet_header,
}
use mini_im.Modules.{send_error_packet}
use mini_im.Text.{terminated}
use mini_im.Friend.Db.{
  Fetch, no_query, no_result, no_row, row, ContactDb, get_friend_num, get_friend_list, Listed,
  listed, unlisted, no_column, friend_check_uin, Change, done, refused, overrun, friend_add_contact,
}

-- MAX_USER of friend.c
abbrev pub fdmap_size : ℕ
fdmap_size = 100_000

-- The static variables of friend.c, the response buffer, the database, and what was written, each
-- time with the socket.
pub record Server (D : Type 0) : Type 0 where
  pub status_fd : ℕ
  pub message_fd : ℕ
  pub user_fd : ℕ
  pub fdmap : ℕ → ℕ
  pub db : D
  pub outpack : Packet
  pub writes : List (ℕ × List ℕ)

-- What stands in memory that is not set: padding, the variable `table` and an array of uins.
pub record Junk : Type 0 where
  pub pad : ℕ
  pub table : ℕ
  pub uins : List ℕ

-- What check_friend returns, and an access to a column that is not there.
pub data Checked : Type 0 where
  can_add already not_exist error : Checked
  check_overrun : Checked

-- The loop of check_friend: whether the user is among them.
unfoldable pub has_friend : ℕ → List ℕ → Bool
has_friend friend [] = false
has_friend friend (f ∷ fs) = let rest = has_friend friend fs in if friend == f then true else rest

-- The memory of an array of uins
unfoldable pub uins_bytes : List ℕ → List ℕ
uins_bytes [] = []
uins_bytes (u ∷ us) = bytes32 u ++ uins_bytes us

-- What get_friend_nick leaves in the memory: the length at `plen` and the nick at `nick`.
unfoldable pub put_nick : List ℕ → (plen nick : ℕ) → Fetch (List ℕ) → List ℕ
put_nick memory plen nick no_query = memory
put_nick memory plen nick no_result = set_field_uint16_t memory plen 0
put_nick memory plen nick no_row = set_field_uint16_t memory plen 0
put_nick memory plen nick (row text) =
    set_field_uint16_t (put_at memory nick (terminated text)) plen (length text + 1)

-- The room that get_friend_nick writes to.
abbrev pub nick_room : Fetch (List ℕ) → ℕ
nick_room no_query = 0
nick_room no_result = 0
nick_room no_row = 0
nick_room (row text) = length text + 1

-- struct contact_info at `off`, from the entry `stats` of struct status_info
unfoldable pub put_contact : List ℕ → ℕ → List ℕ → Fetch (List ℕ) → List ℕ
put_contact memory off stats nick =
    let a = set_field_uint32_t memory off (get_field_uint32_t stats 0) in
    let b = set_field_uint16_t a (off + 4) (get_field_uint16_t stats 4) in
    put_nick b (off + 6) (off + 8) nick

module _ {D : Type 0} (db : ContactDb D) where
  open db use {nick}

  unfoldable pub check_friend : D → (uin friend : ℕ) → List ℕ → Checked
  check_friend d uin friend junk =
      let among = λ (friends : List ℕ). if has_friend friend friends then already else can_add in
      elim (friend_check_uin db d friend) [
        | none ↦ not_exist
        | some false ↦ not_exist
        | some true ↦ elim (get_friend_num db d uin) [
          | none ↦ error
          | some num ↦ if num == 0 then can_add else elim (get_friend_list db d uin num) [
            | listed friends ↦ among friends
            | unlisted ↦ among junk
            | no_column ↦ check_overrun
          ]
        ]
      ]

  -- The loop of get_contacts_info: `num` rounds, from the memory `stats` to the packet at `off`.
  unfoldable pub put_contacts : D → (num : ℕ) → List ℕ → Packet → ℕ → Option Packet
  put_contacts d zero stats outpack off = some outpack
  put_contacts d (suc num) stats outpack off =
      let found = nick d (get_field_uint32_t stats 0) in
      let a = put_contact outpack off stats found in
      let len = get_field_uint16_t a (off + 6) in
      let rest =
        put_contacts d num (drop 6 stats) (set_length a (get_length a + (8 + len)))
          (off + (8 + len)) in
      if ltb (length stats) 6
      then none
      else if ltb max_packet_len (off + 8 + nick_room found)
      then none
      else rest

  unfoldable pub get_contacts_info : D → (num : ℕ) → List ℕ → Packet → Option Packet
  get_contacts_info d num stats outpack =
      let a = set_param_uint16_t outpack 0 num in
      put_contacts d num stats (set_length a (packet_header_len + 2)) (packet_header_len + 2)

module _ {D : Type 0} where
  abbrev pub write_bytes : Server D → ℕ → List ℕ → Server D
  write_bytes s fd bytes = record s { writes = s.writes ++ (fd, bytes) ∷ [] }

  -- write(fd, outpack, outpack->len), where no more than the packet's memory can be read.
  abbrev pub write_out : Server D → ℕ → Option (Server D)
  write_out s fd =
      if ltb max_packet_len (get_length s.outpack)
      then none
      else some (write_bytes s fd (take (get_length s.outpack) s.outpack))

  unfoldable pub send_friend_msg : Server D → (from to type : ℕ) → Option (Server D)
  send_friend_msg s from to type =
      let a = fill_packet_header s.outpack (packet_header_len + 12) cmd_msg_friend_code from in
      let b = set_param_uint32_t a 0 to in
      let c = set_param_uint16_t b 8 type in
      write_out (record s { outpack = set_param_uint16_t c 10 0 }) s.message_fd

  -- For a `num` of -1; `pad` is not set.
  unfoldable pub change_friend_num : Server D → (uin pad : ℕ) → Server D
  change_friend_num s uin pad = write_bytes s s.user_fd (
      bytes16 packet_header_len
      ++ (bytes16 1 ++ (bytes16 cmd_friend_add_code ++ (bytes16 pad ++ bytes32 uin))))

  -- The database after a function whose result is not looked at.
  abbrev pub changed : Server D → Change D → Option (Server D)
  changed s (done d) = some (record s { db = d })
  changed s (refused d) = some (record s { db = d })
  changed s overrun = none

  -- CMD_CONTACT_INFO_MULTI
  unfoldable pub on_contact_info : Server D → Packet → ℕ → Option (Server D)
  on_contact_info s inpack sockfd =
      let out = put_at s.outpack 0 (take (get_length inpack) inpack) in
      if leb fdmap_size (get_uin inpack)
      then none
      else if ltb max_packet_len (get_length inpack)
      then none
      else write_out
          (record s {
            fdmap = λ j. if get_uin inpack == j then sockfd else s.fdmap j;
            outpack = set_command out cmd_multi_status_code;
          })
          s.status_fd

module _ {D : Type 0} (db : ContactDb D) where
  open db use {nick}

  -- The answer to a request that goes on to the contact.
  unfoldable pub send_wait : Server D → (from uin sockfd : ℕ) → Option (Server D)
  send_wait s from uin sockfd =
      let a =
        fill_packet_header s.outpack (packet_header_len + 12) srv_add_contact_wait_code from in
      let b =
        put_nick (set_param_uint32_t a 0 uin) (packet_header_len + 4) (packet_header_len + 6)
          (nick s.db uin) in
      let out =
        set_length b (packet_header_len + 6 + get_field_uint16_t b (packet_header_len + 4)) in
      if ltb max_packet_len (packet_header_len + 6 + nick_room (nick s.db uin))
      then none
      else write_out (record s { outpack = out }) sockfd

  -- CMD_ADD_CONTACT
  unfoldable pub on_add_contact : Junk → Server D → Packet → ℕ → Option (Server D)
  on_add_contact junk s inpack sockfd =
      let uin = get_field_uint32_t (get_parameters inpack) 0 in
      let send_error = λ (e : ℕ).
        some (write_bytes s sockfd (send_error_packet uin cmd_add_contact_code e junk.pad)) in
      elim (check_friend db s.db (get_uin inpack) uin junk.uins) [
        | can_add ↦ send_friend_msg s (get_uin inpack) uin msg_type_request >>= λ t.
            send_wait t (get_uin inpack) uin sockfd
        | already ↦ send_error err_already_friend
        | not_exist ↦ send_error err_not_exist
        | error ↦ some s
        | check_overrun ↦ none
      ]

  -- CMD_ADD_CONTACT_REPLY; `junk` is met first.
  unfoldable pub on_add_contact_reply : (junk junk' : Junk) → Server D → Packet → Option (Server D)
  on_add_contact_reply junk junk' s inpack =
      let uin = get_field_uint32_t (get_parameters inpack) 0 in
      let from = get_uin inpack in
      let accepted = do
        a ← send_friend_msg s from uin msg_type_accept
        b ← changed a (friend_add_contact db a.db uin from junk.table junk.uins)
        c ← changed b (friend_add_contact db b.db from uin junk'.table junk'.uins)
        some (change_friend_num (change_friend_num c uin junk.pad) from junk'.pad)
      in if get_field_uint16_t (get_parameters inpack) 4 == 1
        then accepted
        else send_friend_msg s from uin msg_type_refuse

  -- CMD_CONTACT_LIST. If get_friend_list fails, the packet is written as it is.
  unfoldable pub on_contact_list : Server D → Packet → ℕ → Option (Server D)
  on_contact_list s inpack sockfd =
      let uin = get_uin inpack in
      elim (get_friend_num db s.db uin) [
        | none ↦ some s
        | some num ↦
            let a =
              fill_packet_header s.outpack (packet_header_len + 2 + num * 4) srv_contact_list_code
                uin in
            let b = set_param_uint16_t a 0 num in
            if num == 0
            then write_out (record s { outpack = b }) sockfd
            else elim (get_friend_list db s.db uin num) [
              | listed friends ↦
                  write_out
                    (record s { outpack = put_at b (packet_header_len + 2) (uins_bytes friends) })
                    sockfd
              | unlisted ↦ write_out (record s { outpack = b }) sockfd
              | no_column ↦ none
            ]
      ]

  -- REP_MULTI_STATUS
  unfoldable pub on_multi_status : Server D → Packet → Option (Server D)
  on_multi_status s inpack =
      let params = get_parameters inpack in
      let uin = get_uin inpack in
      let out = set_uin (set_command (set_version s.outpack 1) srv_contact_info_multi_code) uin in
      get_contacts_info db s.db (get_field_uint16_t params 0) (drop 2 params) out >>= λ o.
      if leb fdmap_size uin then none else write_out (record s { outpack = o }) (s.fdmap uin)

  -- friend_packet
  unfoldable pub friend_packet : (junk junk' : Junk) → Server D → Packet → ℕ → Option (Server D)
  friend_packet junk junk' s inpack sockfd =
      let cmd = get_command inpack in
      if cmd == cmd_add_contact_code
      then on_add_contact junk s inpack sockfd
      else if cmd == cmd_add_contact_reply_code
      then on_add_contact_reply junk junk' s inpack
      else if cmd == cmd_contact_list_code
      then on_contact_list s inpack sockfd
      else if cmd == cmd_contact_info_multi_code
      then on_contact_info s inpack sockfd
      else if cmd == rep_multi_status_code
      then on_multi_status s inpack
      else some s
