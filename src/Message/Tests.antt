-- ===== src/Message/Tests.antt =====
-- The theorems on the message server at concrete states: user 7 says hi to user 100.
use mini_im.Base.{
  ℕ, ◌+◌, ◌<◌, ◌≡◌, ◌⊎◌, refl, List, [], ◌∷◌, ◌++◌, none, some, arith, ◌==◌, if◌then◌else◌, length,
  take, drop, map, replicate, length-replicate, test_of_eq, ap, subst, ◌>>=◌, ◌^◌,
}
use mini_im.Protocol.{msg_type_chat}
use mini_im.Bytes.{get_field_uint32_t, get_field_uint16_t, put_at}
use mini_im.Packet.{Packet, packet_init, get_length, get_command, get_uin, get_parameters}
use mini_im.Packet.Laws.{length-packet_init, received}
use mini_im.Status
use mini_im.Status.{info, presence, get_status, status_packet, replied}
use mini_im.Text.{cstring, printed, digits, until_nul}
use mini_im.Message.Db.{Row, OfflineDb, message_delete, got}
use mini_im.Message.{
  Server, Msg, con_to_fd, message_packet, send_pages, sent, missing_row, offline_pages,
  on_offline_msg,
}
use mini_im.Message.Sending.{IsSendable, AllCarry, to_fd}
use mini_im.Message.Pages.{Brings, on_offline_msg-Brings}
use mini_im.Message.Overflow.{send_pages_ends, on_offline_msg_overfull}
use mini_im.Message.Delivery.{chat}
use mini_im.Message.Arrival.{chat_delivered}
use mini_im.Message.Keeping.{InsertLaw, chat_kept}

-- A table in memory: the receiver with each row.
abbrev Table : Type 0
Table = List (ℕ × Row)

rows_of : Table → ℕ → List Row
rows_of [] to = []
rows_of ((u, r) ∷ t) to = let rest = rows_of t to in if u == to then r ∷ rest else rest

others : Table → ℕ → Table
others [] to = []
others ((u, r) ∷ t) to = let rest = others t to in if u == to then rest else (u, r) ∷ rest

abbrev table : OfflineDb Table
table = record {
  insert = λ t from to type text.
      some ((to, record { from_uin = from; type = type; message = text }) ∷ t);
  concat = λ t from to text. none;
  delete = λ t to. some (others t to);
  select = λ t to. some (rows_of t to);
}

abbrev hi : Msg
hi = record { from_uin = 7; timestamp = 9; type = 4; len = 3; msg_str = 104 ∷ 105 ∷ 0 ∷ [] }

hi-IsSendable : IsSendable hi
hi-IsSendable = record {
  from_small = omega arith;
  time_small = omega arith;
  type_small = omega arith;
  text_there = omega arith;
  fits = omega arith;
}

abbrev server : Table → List Msg → Server Table
server t ms = record {
  status_fd = 3;
  conns = record { ip = 1; port = 2; sockfd = 9 } ∷ [];
  queues = λ u. if u == 100 then ms else [];
  db = t;
  result = record { rows = 0; rest = [] };
  outpack = packet_init;
  writes = [];
}

abbrev waiting : Server Table
waiting = server [] (hi ∷ [])

found_con : con_to_fd waiting.conns 1 2 ≡ some 9
unfolding con_to_fd
found_con = refl

abbrev hi_row : Row
hi_row = record { from_uin = 7; type = 4; message = 104 ∷ 105 ∷ [] }

abbrev request_row : Row
request_row = record { from_uin = 8; type = 1; message = 120 ∷ [] }

abbrev two_rows : List Row
two_rows = hi_row ∷ request_row ∷ []

abbrev storing : Server Table
storing = server ((100, hi_row) ∷ (5, hi_row) ∷ (100, request_row) ∷ []) []

-- CMD_OFFLINE_MSG of user 100
abbrev asks : Packet
asks = 12 ∷ 0 ∷ 1 ∷ 0 ∷ 1 ∷ 6 ∷ 0 ∷ 0 ∷ 100 ∷ 0 ∷ 0 ∷ 0 ∷ []

asks_uin : get_uin asks ≡ 100
unfolding get_uin get_field_uint32_t
asks_uin = refl

stored_rows : table.select storing.db (get_uin asks) ≡ some two_rows
unfolding get_uin get_field_uint32_t rows_of
stored_rows = refl

on_offline_msg-Brings_example :
    (s' : Server Table) × (pk : Packet) × (on_offline_msg table storing asks 9 ≡ some s')
    × (s'.writes ≡ [] ++ (9, pk) ∷ [])
    × Brings (get_uin asks) two_rows pk
    × (s'.db ≡ (
        if length two_rows == 0
        then storing.db
        else message_delete table storing.db (get_uin asks)))
    × (s'.queues ≡ storing.queues)
    × (s'.conns ≡ storing.conns)
on_offline_msg-Brings_example =
    on_offline_msg-Brings table storing asks 9 two_rows stored_rows (omega (arith, asks_uin))
      (omega (arith, asks_uin)) length-packet_init
      ((omega arith, omega arith), ((omega arith, omega arith), tt))
      (omega arith, (omega arith, tt))

send_pages_ends_example :
    (((t : Server Table) × (send_pages table 7 storing 9 100
            (got packet_init 100 (record { rows = 2; rest = two_rows }))
          ≡ sent t))
      ⊎ (send_pages table 7 storing 9 100
            (got packet_init 100 (record { rows = 2; rest = two_rows }))
          ≡ missing_row))
    × (send_pages table 7 storing 9 100 (got packet_init 100 (record { rows = 2; rest = two_rows }))
        ≡ send_pages table 3 storing 9 100
            (got packet_init 100 (record { rows = 2; rest = two_rows })))
send_pages_ends_example =
    send_pages_ends table storing 9 100 7 packet_init 100 (record { rows = 2; rest = two_rows })
      (omega arith)

-- A text that no packet has room for.
abbrev long_row : Row
long_row = record { from_uin = 7; type = 4; message = replicate 5000 97 }

abbrev overfull : Server Table
overfull = server ((100, long_row) ∷ []) []

overfull_rows : table.select overfull.db (get_uin asks) ≡ some (long_row ∷ [])
unfolding get_uin get_field_uint32_t rows_of
overfull_rows = refl

on_offline_msg_overfull_example :
    (offline_pages table overfull asks 9 ≡ missing_row)
    × (on_offline_msg table overfull asks 9 ≡ none)
on_offline_msg_overfull_example =
    on_offline_msg_overfull table overfull asks 9 (long_row ∷ []) overfull_rows
      (omega (arith, asks_uin)) (λ f. omega (arith, f.0, length-replicate {A = ℕ} 5000 97))

-- CMD_MESSAGE of user 7 to user 100
abbrev says_hi : Packet
says_hi =
    25 ∷ 0 ∷ 1 ∷ 0 ∷ 1 ∷ 5 ∷ 0 ∷ 0 ∷ 7 ∷ 0 ∷ 0 ∷ 0 ∷ 100 ∷ 0 ∷ 0 ∷ 0 ∷ 9 ∷ 0 ∷ 0 ∷ 0 ∷ 3 ∷ 0 ∷ 104
    ∷ 105 ∷ 0 ∷ []

abbrev three_bytes : List ℕ
three_bytes = 0 ∷ 0 ∷ 0 ∷ []

abbrev text : List ℕ
text = 104 ∷ 105 ∷ []

says_cmd : get_command says_hi ≡ 0x0501
unfolding get_command get_field_uint16_t
says_cmd = refl

says_from : get_uin says_hi < 2 ^ 31
unfolding get_uin get_field_uint32_t
says_from = omega arith

says_to : get_field_uint32_t (get_parameters says_hi) 0 ≡ 100
unfolding get_field_uint32_t
says_to = refl

says_text : cstring (drop 10 (get_parameters says_hi)) ≡ some text
unfolding cstring
says_text = refl

-- Every user is online, or none.
abbrev all_online : Status.Server
all_online = record { cache = λ _. info 1 2; user_map = λ _. some 0; free_list = [] }

abbrev none_online : Status.Server
none_online = record { cache = λ _. info 0 0; user_map = λ _. none; free_list = 0 ∷ [] }

is_online : get_status all_online 100 ≡ some (presence 1 1 2)
unfolding get_status
is_online = refl

is_offline : get_status none_online 100 ≡ some (presence 0 0 0)
unfolding get_status
is_offline = refl

chat_ok : IsSendable (chat says_hi three_bytes text)
unfolding get_uin get_field_uint32_t get_field_uint16_t put_at
chat_ok = record {
  from_small = omega arith;
  time_small = omega arith;
  type_small = omega arith;
  text_there = omega arith;
  fits = omega arith;
}

abbrev quiet : Server Table
quiet = server [] []

chat_delivered_example :
    (s₁ s₂ : Server Table) × (o : Packet) × (pks : List Packet) × (message_packet table
        (some three_bytes)
        quiet
        says_hi
        4
      ≡ some s₁)
    × (s₁.writes ≡ [] ++ (3, take (get_length s₁.outpack) s₁.outpack) ∷ [])
    × (status_packet all_online (received packet_init s₁.outpack) packet_init
        ≡ replied all_online o (take (get_length o) o))
    × (message_packet table none s₁ (received packet_init o) 3 ≡ some s₂)
    × (s₂.writes ≡ s₁.writes ++ map (to_fd 9) pks)
    × AllCarry 100 (chat says_hi three_bytes text ∷ []) pks
    × (s₂.queues 100 ≡ [])
chat_delivered_example =
    chat_delivered table quiet all_online says_hi packet_init packet_init packet_init 4 100 1 2 9
      three_bytes text length-packet_init length-packet_init length-packet_init length-packet_init
      says_cmd says_to says_text (omega arith) (omega arith) is_online (omega arith) (omega arith)
      found_con (chat_ok, tt)

some_table : {a b : Table} → some a ≡ some b → a ≡ b
some_table e = cc

insert_law : InsertLaw table
unfolding rows_of
insert_law = record {
  found = λ t t' from to type text f o k p l inserted before.
      subst
        (λ u.
          some (rows_of u to) ≡ some (record { from_uin = from; type = type; message = text } ∷ []))
        (some_table inserted)
        (rw (test_of_eq to to refl) (
          ap (λ o. o >>= λ rs. some (record { from_uin = from; type = type; message = text } ∷ rs))
            before));
}

hi_fits : 65 + printed (get_uin says_hi) + printed 100 + printed msg_type_chat + length text < 1000
unfolding printed digits get_uin get_field_uint32_t
hi_fits = omega arith

chat_kept_example :
    (s₁ s₂ s₃ : Server Table) × (o pk : Packet) × (message_packet table
        (some three_bytes)
        quiet
        says_hi
        4
      ≡ some s₁)
    × (status_packet none_online (received packet_init s₁.outpack) packet_init
        ≡ replied none_online o (take (get_length o) o))
    × (message_packet table none s₁ (received packet_init o) 3 ≡ some s₂)
    × (s₂.queues 100 ≡ [])
    × (on_offline_msg table s₂ asks 9 ≡ some s₃)
    × (s₃.writes ≡ s₂.writes ++ (9, pk) ∷ [])
    × Brings 100
        (record { from_uin = get_uin says_hi; type = msg_type_chat; message = text } ∷ [])
        pk
    × (until_nul text ≡ text)
    × (s₃.db
        ≡ message_delete table
            ((100, record { from_uin = get_uin says_hi; type = msg_type_chat; message = text })
              ∷ [])
            100)
chat_kept_example =
    chat_kept table insert_law quiet
      ((100, record { from_uin = get_uin says_hi; type = msg_type_chat; message = text }) ∷ [])
      none_online says_hi packet_init packet_init packet_init asks 4 9 100 three_bytes text
      length-packet_init length-packet_init length-packet_init length-packet_init says_cmd says_to
      says_text (omega arith) (omega arith) (omega arith) says_from
      (
        (omega arith, omega arith, omega arith, omega arith),
        ((omega arith, omega arith, omega arith, omega arith), tt),
      )
      is_offline refl (unfold rows_of in refl) refl hi_fits asks_uin
