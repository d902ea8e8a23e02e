-- ===== src/User/Tests.antt =====
-- The theorems on the user server at concrete states.
use mini_im.Base.{
  ℕ, ◌≡◌, ◌≢◌, ◌↔◌, refl, List, [], ◌∷◌, ◌++◌, some, none, arith, length, take, drop, replicate,
  All,
}
use mini_im.Protocol.{srv_register_ok_code}
use mini_im.Bytes.{put_at, get_field_uint16_t, get_field_uint32_t}
use mini_im.Packet.{Packet, packet_init, get_length, get_command, get_uin, get_parameters}
use mini_im.Packet.Laws.{length-packet_init, received}
use mini_im.Text.{cstring, printed, digits}
use mini_im.Text.Laws.{NonZero}
use mini_im.User.Db.{
  UserDb, Added, not_added, add_fault, row, no_row, user_add, insert_user, user_get_passwd,
}
use mini_im.User.{
  Server, Junk, Peer, accepted, verify_overrun, same_bytes, passwd_verify, on_login, on_register,
}
use mini_im.Status
use mini_im.Status.{
  set_status, set_online, status_list_init, status_list_get, count_down, success, status_packet,
  replied, get_status, presence,
}
use mini_im.Status.Invariant.{given, status_list_init-IsValid}
use mini_im.User.Login.{Welcomes, on_login-get_status}
use mini_im.User.Passwords.{passwd_verify-overrun}
use mini_im.User.Registering.{answered_uin, on_register-answered_uin}

-- A database with one password, that takes no user.
abbrev fixed : UserDb ℕ
fixed = record {
  max_uin = λ d. row (some 99);
  insert = λ d uin nick passwd. none;
  password = λ d uin. row (replicate 16 1);
  set_password = λ d uin passwd. none;
  nick = λ d uin. no_row;
  set_nick = λ d uin nick. none;
  add_contact = λ d uin. none;
}

abbrev no_hash : List ℕ → List ℕ
no_hash p = p

passwd_verify-overrun_example :
    (passwd_verify no_hash fixed 0 7 [] 0 (replicate 16 0) ≡ verify_overrun)
    ↔ All NonZero (replicate 16 1)
passwd_verify-overrun_example =
    passwd_verify-overrun no_hash fixed 0 7 0 [] (replicate 16 0) (replicate 16 1) refl refl refl

abbrev server : Server ℕ
server = record {
  status_fd = 3;
  db = 0;
  outpack = packet_init;
  status_pack = packet_init;
  writes = [];
}

-- CMD_REGISTER with the nick ab and the password x
abbrev registers : Packet
registers =
    20 ∷ 0 ∷ 1 ∷ 0 ∷ 3 ∷ 1 ∷ 0 ∷ 0 ∷ 0 ∷ 0 ∷ 0 ∷ 0 ∷ 3 ∷ 0 ∷ 97 ∷ 98 ∷ 0 ∷ 1 ∷ 0 ∷ 120 ∷ 9 ∷ []

nick_length : get_field_uint16_t (get_parameters registers) 0 ≡ 3
unfolding get_field_uint16_t
nick_length = refl

passwd_length : get_field_uint16_t (get_parameters registers) 5 ≡ 1
unfolding get_field_uint16_t
passwd_length = refl

abbrev ab : List ℕ
ab = 97 ∷ 98 ∷ []

nick_text : cstring (drop 2 (get_parameters (put_at registers 20 (0 ∷ [])))) ≡ some ab
unfolding cstring put_at
nick_text = refl

abbrev refuses : Added ℕ
refuses = not_added

not_inserted :
    user_add fixed 0 ab (take 1 (drop 7 (get_parameters (put_at registers 20 (0 ∷ []))))) ≡ refuses
unfolding user_add insert_user put_at printed digits
not_inserted = refl

no_fault : refuses ≢ add_fault
no_fault e = cc

on_register-answered_uin_example :
    (s' : Server ℕ) × (pk : Packet) × (on_register no_hash fixed server registers 9 ≡ some s')
    × (s'.writes ≡ [] ++ (9, pk) ∷ [])
    × (get_length pk ≡ length pk)
    × (get_command pk ≡ srv_register_ok_code)
    × (get_uin pk ≡ answered_uin refuses)
on_register-answered_uin_example =
    on_register-answered_uin no_hash fixed server registers 9 3 1 ab refuses nick_length
      passwd_length (omega arith) nick_text not_inserted no_fault (omega arith) (omega arith)
      length-packet_init

-- A database whose passwords are all zero, and whose users have the nick ab.
abbrev zeros : UserDb ℕ
zeros = record fixed {
  password = λ d uin. row (replicate 16 0);
  nick = λ d uin. row (97 ∷ 98 ∷ []);
}

abbrev zero_hash : List ℕ → List ℕ
zero_hash p = replicate 16 0

abbrev junk : Junk
junk = record { pad = 0; user_pass = replicate 16 0 }

abbrev peer : Peer
peer = record { ip = 5; port = 7000 }

-- CMD_LOGIN of user 100 with the password x
abbrev logs_in : Packet
logs_in = 15 ∷ 0 ∷ 1 ∷ 0 ∷ 1 ∷ 1 ∷ 0 ∷ 0 ∷ 100 ∷ 0 ∷ 0 ∷ 0 ∷ 1 ∷ 0 ∷ 120 ∷ 9 ∷ []

logs_uin : get_uin logs_in ≡ 100
unfolding get_uin get_field_uint32_t
logs_uin = refl

logs_passlen : get_field_uint16_t (get_parameters logs_in) 0 ≡ 1
unfolding get_field_uint16_t
logs_passlen = refl

logs_verified :
    passwd_verify zero_hash zeros 0 100
      (drop 2 (get_parameters (put_at logs_in 15 (0 ∷ []))))
      1
      (replicate 16 0)
    ≡ accepted
unfolding passwd_verify user_get_passwd cstring put_at same_bytes
logs_verified = refl

abbrev none_yet : Status.Server
none_yet = status_list_init

abbrev one_online : Status.Server
one_online = given none_yet 100 5 7000 999 (count_down 999)

comes_online : set_status none_yet 100 5 7000 1 ≡ success one_online
unfolding set_status set_online status_list_init status_list_get count_down
comes_online = refl

on_login-get_status_example :
    (s' : Server ℕ) × (o pk : Packet) × (on_login zero_hash zeros junk peer server logs_in 9
      ≡ some s')
    × (s'.writes
        ≡ ([] ++ (3, take (get_length s'.status_pack) s'.status_pack) ∷ []) ++ (9, pk) ∷ [])
    × (status_packet none_yet (received packet_init s'.status_pack) packet_init
        ≡ replied one_online o (take (get_length o) o))
    × (get_status one_online 100 ≡ some (presence 1 5 7000))
    × Welcomes 100 ab pk
on_login-get_status_example =
    on_login-get_status zero_hash zeros junk peer server none_yet one_online logs_in packet_init
      packet_init 9 100 1 ab length-packet_init length-packet_init length-packet_init logs_uin
      logs_passlen (omega arith) logs_verified refl (omega arith, (omega arith, tt)) (omega arith)
      (omega arith) (omega arith) (omega arith) status_list_init-IsValid.0 comes_online
