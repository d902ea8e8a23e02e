-- ===== src/Friend/Tests.antt =====
-- The theorems on the friend server at concrete states: user 7 and the contacts 100 and 101.
use mini_im.Base.{
  ℕ, zero, suc, ◌-◌, ◌<◌, ◌^◌, ◌≡◌, ◌↔◌, inr, refl, sym, ◌∙◌, List, [], ◌∷◌, ◌++◌, none, some,
  arith, ◌==◌, if◌then◌else◌, take, drop, replicate, ap, All,
}
use mini_im.Protocol.{msg_type_request, cmd_multi_status_code}
use mini_im.Bytes.{get_field_uint32_t, get_field_uint16_t, set_field_uint16_t, put_at}
use mini_im.Packet.{Packet, packet_init, get_length, get_uin, get_parameters, set_command}
use mini_im.Packet.Laws.{length-packet_init, received}
use mini_im.Text.{cstring}
use mini_im.Message
use mini_im.Message.{Msg, message_packet}
use mini_im.Message.Db.{OfflineDb}
use mini_im.Friend.Db.{
  ContactDb, no_row, row, listed, done, overrun, get_friend_num, get_friend_list, list_table,
  friend_add_contact, friend_table_move,
}
use mini_im.Friend.{Server, send_friend_msg, on_contact_info, on_multi_status}
use mini_im.Friend.Requests.{friend_msg_waits}
use mini_im.Friend.Moving.{friend_table_move-overrun}
use mini_im.Friend.Adding.{UpdateLaw, get_friend_list-friend_add_contact}
use mini_im.Friend.Filling.{Room}
use mini_im.Friend.Info.{Tells, on_multi_status-Tells}

-- A database that keeps one row of contacts, of a user with `count` of them; the nick of 100 is ab.
abbrev kept : ℕ → ContactDb (List ℕ)
kept count = record {
  contact_count = λ d uin. row count;
  nick = λ d uin. if uin == 100 then row (97 ∷ 98 ∷ []) else no_row;
  user = λ d uin. row uin;
  contacts = λ d table uin. row d;
  insert = λ d table uin friends. some friends;
  update = λ d table column friend uin. some (put_at d (column - 1) (friend ∷ []));
  delete = λ d table uin. some d;
}

some_list : {a b : List ℕ} → some a ≡ some b → a ≡ b
some_list e = cc

row_list : {a b : List ℕ} → row a ≡ row b → a ≡ b
row_list e = cc

kept_law : (count : ℕ) → UpdateLaw (kept count)
kept_law count = record {
  updated = λ d d' table column friend uin columns updates found.
      ap row
        (sym (some_list updates) ∙ ap (λ l. put_at l (column - 1) (friend ∷ [])) (row_list found));
}

abbrev server : Server (List ℕ)
server = record {
  status_fd = 3;
  message_fd = 4;
  user_fd = 5;
  fdmap = λ u. 9;
  db = [];
  outpack = packet_init;
  writes = [];
}

abbrev messages : Message.Server ℕ
messages = record {
  status_fd = 3;
  conns = [];
  queues = λ u. [];
  db = 0;
  result = record { rows = 0; rest = [] };
  outpack = packet_init;
  writes = [];
}

-- A database that fails.
abbrev failing : OfflineDb ℕ
failing = record {
  insert = λ d from to type text. none;
  concat = λ d from to text. none;
  delete = λ d to. none;
  select = λ d to. none;
}

friend_msg_waits_example :
    (t : Server (List ℕ)) × (ms' : Message.Server ℕ) × (m : Msg) × (send_friend_msg server 7 100
        msg_type_request
      ≡ some t)
    × (t.writes ≡ [] ++ (4, take (get_length t.outpack) t.outpack) ∷ [])
    × (message_packet failing (some (0 ∷ [])) messages (received packet_init t.outpack) 6
        ≡ some ms')
    × (ms'.queues 100 ≡ m ∷ [])
    × (m.from_uin ≡ 7)
    × (m.type ≡ msg_type_request)
    × (m.len ≡ msg_type_request)
    × (cstring m.msg_str ≡ some [])
friend_msg_waits_example =
    friend_msg_waits failing messages server packet_init 7 100 msg_type_request 6 (0 ∷ [])
      length-packet_init length-packet_init (omega arith) (omega arith) (omega arith) (omega arith)

replicate_below : (n : ℕ) → All (λ f. f < 2 ^ 32) (replicate n 5)
replicate_below zero = tt
replicate_below (suc n) = (omega arith, replicate_below n)

listed_500 : get_friend_list (kept 500) (replicate 500 5) 7 500 ≡ listed (replicate 500 5)
unfolding get_friend_list list_table
listed_500 = refl

abbrev five_hundred : ℕ
five_hundred = 500

friend_table_move-overrun_example :
    (friend_table_move (kept 500) (replicate 500 5) 7 500 [] ≡ overrun) ↔ (five_hundred ≡ 500)
friend_table_move-overrun_example =
    friend_table_move-overrun (kept 500) (replicate 500 5) 7 500 [] (replicate 500 5)
      (inr (inr (inr refl))) listed_500 (omega arith) (replicate_below 500)

-- Two contacts, in a table with four columns.
abbrev two_contacts : List ℕ
two_contacts = 100 ∷ 101 ∷ 0 ∷ 0 ∷ []

two_counted : get_friend_num (kept 2) two_contacts 7 ≡ some 2
unfolding get_friend_num
two_counted = refl

two_in_first : list_table 2 ≡ some 1
unfolding list_table
two_in_first = refl

three_contacts : (kept 2).update two_contacts 1 3 102 7 ≡ some (100 ∷ 101 ∷ 102 ∷ 0 ∷ [])
unfolding put_at
three_contacts = refl

get_friend_list-friend_add_contact_example :
    (friend_add_contact (kept 2) two_contacts 7 102 0 [] ≡ done (100 ∷ 101 ∷ 102 ∷ 0 ∷ []))
    × (get_friend_list (kept 2) two_contacts 7 2 ≡ listed (100 ∷ 101 ∷ []))
    × (get_friend_list (kept 2) (100 ∷ 101 ∷ 102 ∷ 0 ∷ []) 7 3 ≡ listed (100 ∷ 101 ∷ 102 ∷ []))
get_friend_list-friend_add_contact_example =
    get_friend_list-friend_add_contact (kept 2) (kept_law 2) two_contacts (100 ∷ 101 ∷ 102 ∷ 0 ∷ [])
      7 102 2 1 0 [] two_contacts two_counted (omega arith) (omega arith)
      (omega arith, omega arith, omega arith, omega arith) two_in_first refl (omega arith)
      three_contacts

-- REP_MULTI_STATUS for user 7: 100 is online and 101 is not.
abbrev statuses : Packet
statuses =
    26 ∷ 0 ∷ 1 ∷ 0 ∷ 2 ∷ 34 ∷ 0 ∷ 0 ∷ 7 ∷ 0 ∷ 0 ∷ 0 ∷ 2 ∷ 0 ∷ 100 ∷ 0 ∷ 0 ∷ 0 ∷ 1 ∷ 0 ∷ 101 ∷ 0 ∷ 0
    ∷ 0 ∷ 0 ∷ 0 ∷ []

two_statuses : get_field_uint16_t (get_parameters statuses) 0 ≡ 2
unfolding get_field_uint16_t
two_statuses = refl

statuses-Room : Room (kept 2) [] 2 (drop 2 (get_parameters statuses)) 14
unfolding get_field_uint32_t get_field_uint16_t
statuses-Room = (
  tt,
  omega arith,
  omega arith,
  omega arith,
  omega arith,
  (tt, omega arith, omega arith, omega arith, omega arith, tt),
)

-- CMD_CONTACT_INFO_MULTI of user 7 for 100 and 101.
abbrev asks_for_both : Packet
asks_for_both =
    22 ∷ 0 ∷ 1 ∷ 0 ∷ 3 ∷ 4 ∷ 0 ∷ 0 ∷ 7 ∷ 0 ∷ 0 ∷ 0 ∷ 2 ∷ 0 ∷ 100 ∷ 0 ∷ 0 ∷ 0 ∷ 101 ∷ 0 ∷ 0 ∷ 0 ∷ []

abbrev passed_packet : Packet
passed_packet = set_command (put_at packet_init 0 asks_for_both) cmd_multi_status_code

abbrev asked : Server (List ℕ)
asked = record server {
  fdmap = λ j. if 7 == j then 8 else 9;
  outpack = passed_packet;
  writes = (3, take 22 passed_packet) ∷ [];
}

is_passed : on_contact_info server asks_for_both 8 ≡ some asked
unfolding on_contact_info get_uin get_length get_field_uint16_t get_field_uint32_t set_command
    set_field_uint16_t put_at packet_init
is_passed = refl

same_user : (get_uin statuses ≡ get_uin asks_for_both) × (get_uin asks_for_both < 100_000)
unfolding get_uin get_field_uint32_t
same_user = (refl, omega arith)

on_multi_status-Tells_example :
    (s₂ : Server (List ℕ)) × (request pk : Packet) × (on_multi_status (kept 2) asked statuses
      ≡ some s₂)
    × (s₂.writes ≡ ([] ++ (3, request) ∷ []) ++ (8, pk) ∷ [])
    × Tells (kept 2) [] (get_uin asks_for_both) 2 (drop 2 (get_parameters statuses)) pk
on_multi_status-Tells_example =
    on_multi_status-Tells (kept 2) server asked asks_for_both statuses 8 2 is_passed same_user.0
      same_user.1 two_statuses length-packet_init statuses-Room
