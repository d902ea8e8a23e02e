-- ===== src/User/Login.antt =====
-- A login that the user server accepts, through the status server and the client.
use mini_im.Base.{
  ℕ, zero, suc, ◌+◌, ◌≤◌, ◌<◌, ◌^◌, ◌≡◌, refl, ap, ◌∙◌, List, [], ◌∷◌, ◌++◌, some, arith, ltb_of_ge,
  length, length-take, length-drop, length-append, get_or, take, drop, All, ◌>>=◌, test_of_eq,
}
use mini_im.Protocol.{max_packet_len, packet_header_len, srv_login_ok_code}
use mini_im.Bytes.{put_at, get_field_uint16_t, set_field_uint16_t, bytes16}
use mini_im.Bytes.Laws.{
  get16-set16, get16-take, get32-take, put_at_inside, put_at_after, get_or-take, length-put_at,
}
use mini_im.Packet.{
  Packet, get_length, get_command, get_uin, get_parameters, set_param_uint16_t, set_param_uint32_t,
  fill_packet_header,
}
use mini_im.Packet.Laws.{
  fill_packet_header-Header, length-fill_packet_header, fill_packet_header_after,
  get16-fill_packet_header, length-set16, get16-drop, get_or-drop, received,
}
use mini_im.Packet.Fields.{slo_get_nick_length, slo_get_nick}
use mini_im.Text.{cstring, terminated}
use mini_im.Text.Laws.{NonZero, cstring-terminated}
use mini_im.Status
use mini_im.Status.{
  max_user, success, set_status, status_packet, on_status_change, replied, presence, get_status,
}
use mini_im.Status.Invariant.{IsValid}
use mini_im.Status.Answers.{get_status-set_status}
use mini_im.User.Db.{UserDb, row, user_get_nick}
use mini_im.User.{
  Server, Peer, Junk, accepted, passwd_verify, on_login, send_login_ok, request_status_change,
}
use mini_im.User.Announcing.{change, change-Change, status_packet-Change}

set16_after :
    (o : Packet) (off v j : ℕ)
    → off + 2 ≤ j
    → get_or (set_field_uint16_t o off v) j 0 ≡ get_or o j 0
unfolding set_field_uint16_t
set16_after o off v j h = put_at_after o off (bytes16 v) j h

-- What a client reads of the answer: the login is accepted, and its nick.
pub record Welcomes (uin : ℕ) (text : List ℕ) (pk : Packet) : Type 0 where
  pub whole : get_length pk ≡ length pk
  pub command : get_command pk ≡ srv_login_ok_code
  pub receiver : get_uin pk ≡ uin
  pub nick_length : slo_get_nick_length pk ≡ length text + 1
  pub nick :
      (i : ℕ) → i < length text + 1 → get_or (slo_get_nick pk) i 0 ≡ get_or (terminated text) i 0

abbrev welcome : Packet → ℕ → List ℕ → Packet
welcome o uin text =
    fill_packet_header (set_field_uint16_t (put_at o 14 (terminated text)) 12 (length text + 1))
      (14 + (length text + 1)) srv_login_ok_code uin

welcome-Welcomes :
    (o : Packet) (uin : ℕ) (text : List ℕ)
    → length o ≡ max_packet_len
    → uin < 2 ^ 32
    → 15 + length text ≤ max_packet_len
    → Welcomes uin text (take (get_length (welcome o uin text)) (welcome o uin text))
unfolding get_length get_command get_uin slo_get_nick_length slo_get_nick
welcome-Welcomes o uin text size small room =
    let a = put_at o 14 (terminated text) in
    let b = set_field_uint16_t a 12 (length text + 1) in
    let w = welcome o uin text in
    let len = get_length w in
    let la : length a ≡ max_packet_len = length-put_at o 14 (terminated text) ∙ size in
    let lb : length b ≡ max_packet_len = length-set16 a 12 (length text + 1) ∙ la in
    let lt : length (terminated text) ≡ length text + 1 = length-append text (0 ∷ []) in
    let h =
      fill_packet_header-Header b (14 + (length text + 1)) srv_login_ok_code uin (omega arith)
        (omega arith) (omega arith) small in
    let pk = take len w in
    record {
      whole =
          get16-take len w 0 (omega (arith, h.len_is))
          ∙ h.len_is
          ∙ omega (
            arith,
            h.len_is,
            length-take len w,
            length-fill_packet_header b (14 + (length text + 1)) srv_login_ok_code uin,
          );
      command = get16-take len w 4 (omega (arith, h.len_is)) ∙ h.cmd_is;
      receiver = get32-take len w 8 (omega (arith, h.len_is)) ∙ h.uin_is;
      nick_length =
          get16-drop 12 pk 0
          ∙ get16-take len w 12 (omega (arith, h.len_is))
          ∙ get16-fill_packet_header b (14 + (length text + 1)) srv_login_ok_code uin 12
              (omega arith)
          ∙ get16-set16 a 12 (length text + 1) (omega arith) (omega arith);
      nick = λ i q.
          get_or-drop 2 (drop 12 pk) i
          ∙ get_or-drop 12 pk (2 + i)
          ∙ get_or-take len w (12 + (2 + i)) (omega (arith, h.len_is))
          ∙ fill_packet_header_after b (14 + (length text + 1)) srv_login_ok_code uin (12 + (2 + i))
              (omega arith)
          ∙ set16_after a 12 (length text + 1) (12 + (2 + i)) (omega arith)
          ∙ put_at_inside o 14 (terminated text) i (12 + (2 + i)) (omega arith) (omega arith)
              (omega arith);
    }

drop-put_at : (n : ℕ) (buf src : List ℕ) → drop n (put_at buf n src) ≡ put_at (drop n buf) 0 src
unfolding put_at
drop-put_at zero buf src = refl
drop-put_at (suc n) [] src = refl
drop-put_at (suc n) (b ∷ buf) src = drop-put_at n buf src

module _ (md5 : List ℕ → List ℕ) {D : Type 0} (db : UserDb D) where
  send_login_ok-welcome :
      (s : Server D) (uin sockfd : ℕ) (text : List ℕ)
      → length s.outpack ≡ max_packet_len
      → db.nick s.db uin ≡ row text
      → All NonZero text
      → 15 + length text ≤ max_packet_len
      → send_login_ok md5 db s uin sockfd
        ≡ some (record s {
          outpack = welcome s.outpack uin text;
          writes =
              s.writes
              ++ (
                sockfd,
                take (get_length (welcome s.outpack uin text)) (welcome s.outpack uin text),
              )
                ∷ [];
        })
  unfolding send_login_ok user_get_nick set_param_uint16_t
  send_login_ok-welcome s uin sockfd text size named nz room =
      let a = put_at s.outpack 14 (terminated text) in
      let read : cstring (drop 14 a) ≡ some text =
        ap cstring (drop-put_at 14 s.outpack (terminated text))
        ∙ cstring-terminated (drop 14 s.outpack) text nz
            (omega (arith, length-drop 14 s.outpack)) in
      let la : length a ≡ max_packet_len = length-put_at s.outpack 14 (terminated text) ∙ size in
      let again : get_field_uint16_t (get_parameters (set_field_uint16_t a 12 (length text + 1))) 0
          ≡ length text + 1 =
        get16-drop 12 (set_field_uint16_t a 12 (length text + 1)) 0
        ∙ get16-set16 a 12 (length text + 1) (omega arith) (omega arith) in
      rw (named, send_login_ok, user_get_nick)
        (rw (ltb_of_ge (length s.outpack) (packet_header_len + 2 + length text + 1) (omega arith))
          (rw (read, ◌>>=◌) (rw again refl)))

-- A login whose password is accepted: the status server is told with one packet, on which it makes the
-- user online at the address of the connection server, and then the connection server gets an answer in
-- which a client reads SRV_LOGIN_OK, its uin, and its nick with its length. The status server reads into
-- its own buffer. The password and the nick lie in the packets' memory, the address fits its fields, and
-- the status server, in a valid state, does not refuse the user.
pub on_login-get_status :
    (md5 : List ℕ → List ℕ) {D : Type 0} (db : UserDb D) (junk : Junk) (peer : Peer) (s : Server D)
    (st st' : Status.Server) (inpack buf out : Packet) (sockfd uin passlen : ℕ) (text : List ℕ)
    → length s.outpack ≡ max_packet_len
    → length s.status_pack ≡ max_packet_len
    → length buf ≡ max_packet_len
    → get_uin inpack ≡ uin
    → get_field_uint16_t (get_parameters inpack) 0 ≡ passlen
    → 15 + passlen ≤ max_packet_len
    → passwd_verify md5 db s.db uin
        (drop 2 (get_parameters (put_at inpack (packet_header_len + 2 + passlen) (0 ∷ []))))
        passlen
        junk.user_pass
      ≡ accepted
    → db.nick s.db uin ≡ row text
    → All NonZero text
    → 15 + length text ≤ max_packet_len
    → uin < max_user
    → peer.ip < 2 ^ 32
    → peer.port < 2 ^ 16
    → IsValid st
    → set_status st uin peer.ip peer.port 1 ≡ success st'
    → (s' : Server D) × (o pk : Packet) × (on_login md5 db junk peer s inpack sockfd ≡ some s')
      × (s'.writes
          ≡ (s.writes ++ (s.status_fd, take (get_length s'.status_pack) s'.status_pack) ∷ [])
            ++ (sockfd, pk) ∷ [])
      × (status_packet st (received buf s'.status_pack) out ≡ replied st' o (take (get_length o) o))
      × (get_status st' uin ≡ some (presence 1 peer.ip peer.port))
      × Welcomes uin text pk
unfolding on_login request_status_change set_param_uint32_t set_param_uint16_t
on_login-get_status md5 db junk peer s st st' inpack buf out sockfd uin passlen text size
      size_status size_buf from len room verified named nz fits small ip_small port_small valid
      done =
    let ch = change s.status_pack uin peer.ip peer.port 1 in
    let c =
      change-Change s.status_pack uin peer.ip peer.port 1 size_status (omega arith) ip_small
        port_small (omega arith) in
    let (o, told) =
      status_packet-Change st st' buf out ch uin peer.ip peer.port 1 size_buf c done in
    let w = welcome s.outpack uin text in
    let t = request_status_change s uin peer 1 in
    (
      record s {
        status_pack = ch;
        outpack = w;
        writes =
            (s.writes ++ (s.status_fd, take (get_length ch) ch) ∷ [])
            ++ (sockfd, take (get_length w) w) ∷ [];
      },
      o,
      take (get_length w) w,
      rw (from, on_login)
          (rw len (
            rw (ltb_of_ge max_packet_len (packet_header_len + 2 + passlen + 1) (omega arith)) (
              rw verified
                (rw from (send_login_ok-welcome md5 db t uin sockfd text size named nz fits))))),
      refl,
      told,
      get_status-set_status st st' uin peer.ip peer.port 1 valid done uin
          ∙ rw (test_of_eq uin uin refl) refl,
      welcome-Welcomes s.outpack uin text size (omega arith) fits,
    )
