-- ===== src/User.antt =====
-- The user server, server/user.c: logins, nicks, registrations and the number of contacts. The database
-- is a parameter, with the state `D`, and so is MD5. `none` is an access out of bounds.
pub mod Db
pub mod Passwords
pub mod Registering
pub mod Announcing
pub mod Login
mod Tests
use mini_im.Base.{
  ℕ, ◌+◌, ◌-◌, ◌%◌, ◌^◌, List, [], ◌∷◌, ◌++◌, Option, none, some, Bool, true, false, ◌&&◌, ltb,
  ◌==◌, if◌then◌else◌, length, take, drop, ◌>>=◌,
}
use mini_im.Protocol.{
  max_packet_len, packet_header_len, cmd_login_code, cmd_register_code, cmd_set_nick_code,
  cmd_friend_add_code, cmd_status_change_code, srv_login_ok_code, srv_register_ok_code,
  srv_set_nick_ok_code,
}
use mini_im.Bytes.{put_at, get_field_uint16_t}
use mini_im.Packet.{
  Packet, get_length, get_command, get_uin, get_parameters, set_param_uint16_t, set_param_uint32_t,
  fill_packet_header,
}
use mini_im.Modules.{send_error_packet}
use mini_im.Text.{cstring, terminated}
use mini_im.User.Db.{
  Fetch, no_query, no_result, no_row, row, UserDb, Added, added, not_added, add_fault, GotPasswd,
  got_passwd, no_passwd, passwd_overrun, user_add, user_get_passwd, user_get_nick, user_set_nick,
  user_friend_add,
}

-- The static variables of user.c, the response buffer, the database, and what was written, each time
-- with the socket.
pub record Server (D : Type 0) : Type 0 where
  pub status_fd : ℕ
  pub db : D
  pub outpack : Packet
  pub status_pack : Packet
  pub writes : List (ℕ × List ℕ)

-- What getpeername says of the socket.
pub record Peer : Type 0 where
  pub ip : ℕ
  pub port : ℕ

-- What stands in memory that is not set: two bytes of padding, and the array for the password.
pub record Junk : Type 0 where
  pub pad : ℕ
  pub user_pass : List ℕ

-- What passwd_verify returns, 0 or -1, and a write behind its array.
pub data Verified : Type 0 where
  accepted rejected verify_overrun : Verified

-- memcmp gives 0.
unfoldable pub same_bytes : List ℕ → List ℕ → Bool
same_bytes [] [] = true
same_bytes [] (y ∷ ys) = false
same_bytes (x ∷ xs) [] = false
same_bytes (x ∷ xs) (y ∷ ys) = let rest = same_bytes xs ys in if x == y then rest else false

module _ {D : Type 0} where
  abbrev pub write_bytes : Server D → ℕ → List ℕ → Server D
  write_bytes s fd bytes = record s { writes = s.writes ++ (fd, bytes) ∷ [] }

  -- write(sockfd, outpack, outpack->len)
  abbrev pub write_out : Server D → ℕ → Server D
  write_out s fd = write_bytes s fd (take (get_length s.outpack) s.outpack)

  unfoldable pub request_status_change : Server D → (uin : ℕ) → Peer → (stat : ℕ) → Server D
  request_status_change s uin peer stat =
      let a =
        fill_packet_header s.status_pack (packet_header_len + 12) cmd_status_change_code uin in
      let b = set_param_uint32_t a 0 uin in
      let c = set_param_uint32_t b 4 peer.ip in
      let d = set_param_uint16_t c 8 peer.port in
      let out = set_param_uint16_t d 10 stat in
      write_bytes (record s { status_pack = out }) s.status_fd (take (get_length out) out)

  -- The answer to a registration. A result of -1 is 2^32 - 1 as the uin of a packet, and only 0 is not
  -- above 0.
  unfoldable pub registered : Server D → (uin sockfd : ℕ) → Option (Server D)
  registered s uin sockfd =
      if uin % 2 ^ 32 == 0
      then some s
      else some (
          write_out
            (record s {
              outpack =
                  fill_packet_header s.outpack packet_header_len srv_register_ok_code
                    (uin % 2 ^ 32);
            })
            sockfd)

module _ (md5 : List ℕ → List ℕ) {D : Type 0} (db : UserDb D) where
  -- `passwd` is the memory that the password starts in.
  unfoldable pub passwd_verify : D → (uin : ℕ) → List ℕ → (passlen : ℕ) → List ℕ → Verified
  passwd_verify d uin passwd passlen junk = elim (user_get_passwd db d uin junk) [
    | passwd_overrun ↦ verify_overrun
    | no_passwd ↦ rejected
    | got_passwd user_pass ↦
        if same_bytes (take 16 (md5 (take passlen passwd))) (take 16 user_pass)
        then accepted
        else rejected
  ]

  -- The answer to a login that is accepted: the nick is copied into the response buffer if it is found.
  unfoldable pub send_login_ok : Server D → (uin sockfd : ℕ) → Option (Server D)
  send_login_ok s uin sockfd =
      let at = packet_header_len + 2 in
      user_get_nick db s.db uin s.outpack at >>= λ a. cstring (drop at a) >>= λ text.
      let b = set_param_uint16_t a 0 (length text + 1) in
      let out =
        fill_packet_header b (packet_header_len + 2 + get_field_uint16_t (get_parameters b) 0)
          srv_login_ok_code uin in
      some (write_out (record s { outpack = out }) sockfd)

  -- CMD_LOGIN
  unfoldable pub on_login : Junk → Peer → Server D → Packet → ℕ → Option (Server D)
  on_login junk peer s inpack sockfd =
      let uin = get_uin inpack in
      let passlen = get_field_uint16_t (get_parameters inpack) 0 in
      let closed = put_at inpack (packet_header_len + 2 + passlen) (0 ∷ []) in
      let verified =
        passwd_verify s.db uin (drop 2 (get_parameters closed)) passlen junk.user_pass in
      let answered : Option (Server D) = elim verified [
        | verify_overrun ↦ none
        | rejected ↦ some (write_bytes s sockfd (send_error_packet uin cmd_login_code 1 junk.pad))
        | accepted ↦ send_login_ok (request_status_change s uin peer 1) uin sockfd
      ] in
      if ltb max_packet_len (packet_header_len + 2 + passlen + 1) then none else answered

  -- CMD_SET_NICK
  unfoldable pub on_set_nick : Server D → Packet → ℕ → Option (Server D)
  on_set_nick s inpack sockfd = cstring (drop 2 (get_parameters inpack)) >>= λ pnick.
      user_set_nick db s.db (get_uin inpack) pnick >>= λ stored.
      let a = set_param_uint16_t s.outpack 0 (get_field_uint16_t (get_parameters inpack) 0) in
      let b = put_at a (packet_header_len + 2) (terminated pnick) in
      let out =
        fill_packet_header b (packet_header_len + 3 + length pnick) srv_set_nick_ok_code
          (get_uin inpack) in
      if ltb max_packet_len (packet_header_len + 3 + length pnick)
      then none
      else some (write_out (record s { db = stored.0; outpack = out }) sockfd)

  -- CMD_REGISTER
  unfoldable pub on_register : Server D → Packet → ℕ → Option (Server D)
  on_register s inpack sockfd =
      let nicklen = get_field_uint16_t (get_parameters inpack) 0 in
      let len = get_field_uint16_t (get_parameters inpack) (2 + nicklen) in
      let closed = put_at inpack (packet_header_len + 4 + nicklen + len) (0 ∷ []) in
      let pass_hash = md5 (take len (drop (4 + nicklen) (get_parameters closed))) in
      let answered = cstring (drop 2 (get_parameters closed)) >>= λ pnick.
      elim (user_add db s.db pnick pass_hash) [
        | add_fault ↦ none
        | not_added ↦ registered s (2 ^ 32 - 1) sockfd
        | added d uin ↦ registered (record s { db = d }) uin sockfd
      ] in
      if ltb max_packet_len (packet_header_len + 4 + nicklen + len + 1) then none else answered

  -- user_packet
  unfoldable pub user_packet : Junk → Peer → Server D → Packet → ℕ → Option (Server D)
  user_packet junk peer s inpack sockfd =
      let cmd = get_command inpack in
      if cmd == cmd_login_code
      then on_login junk peer s inpack sockfd
      else if cmd == cmd_set_nick_code
      then on_set_nick s inpack sockfd
      else if cmd == cmd_register_code
      then on_register s inpack sockfd
      else if cmd == cmd_friend_add_code
      then some (record s { db = user_friend_add db s.db (get_uin inpack) })
      else some s
