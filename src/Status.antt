-- ===== src/Status.antt =====
-- The status server, server/status.c: who is online, and through which connection server. A cell of
-- the cache is its index; `map` is the array of pointers into the cache, with `none` for NULL.
pub mod Invariant
pub mod Lookup
pub mod Answers
pub mod Replies
mod Tests
use mini_im.Base.{
  ℕ, zero, suc, ◌+◌, ◌-◌, ◌*◌, List, [], ◌∷◌, ◌++◌, Option, none, some, Bool, true, false, ltb, leb,
  ◌==◌, if◌then◌else◌, take, drop,
}
use mini_im.Protocol.{
  packet_header_len, max_packet_len, cmd_status_change_code, cmd_get_status_code,
  cmd_multi_status_code, rep_status_changed_code, rep_status_code, rep_multi_status_code,
}
use mini_im.Bytes.{get_field_uint16_t, get_field_uint32_t}
use mini_im.Packet.{
  Packet, get_length, get_command, get_uin, get_parameters, set_param_uint16_t, set_param_uint32_t,
  fill_packet_header,
}

abbrev pub max_user : ℕ
max_user = 100_000

abbrev pub max_online_user : ℕ
max_online_user = 1000

-- struct status_info, less its link
pub record StatusInfo : Type 0 where
  pub con_ip : ℕ
  pub con_port : ℕ

abbrev pub info : ℕ → ℕ → StatusInfo
info ip port = record { con_ip = ip; con_port = port }

pub record Server : Type 0 where
  pub cache : ℕ → StatusInfo
  pub user_map : ℕ → Option ℕ
  pub free_list : List ℕ

abbrev pub update {ℓ} : {A : Type ℓ} → (ℕ → A) → ℕ → A → ℕ → A
update f k v j = if k == j then v else f j

-- Each cell is put at the head in turn, so the last one stands first.
unfoldable pub count_down : ℕ → List ℕ
count_down zero = []
count_down (suc n) = n ∷ count_down n

-- status_list_init where there is no status file yet. A file that is there holds pointers of the
-- process that wrote it; what they lead to depends on the address that mmap gives, which is not
-- modelled.
unfoldable pub status_list_init : Server
status_list_init = record {
  cache = λ _. info 0 0;
  user_map = λ _. none;
  free_list = count_down max_online_user;
}

unfoldable pub status_list_put : Server → ℕ → Server
status_list_put s i = record s { free_list = s.free_list ++ i ∷ [] }

unfoldable pub status_list_get : Server → Option (ℕ × Server)
status_list_get s = elim s.free_list [
  | [] ↦ none
  | i ∷ rest ↦ some (i, record s { free_list = rest })
]

-- What a function leaves: 0 and the new state, -1 with nothing changed, or an access through NULL
-- or out of bounds.
pub data Outcome : Type 0 where
  success : Server → Outcome
  failure : Outcome
  fault : Outcome

-- The branch of set_status for a user who comes online.
unfoldable pub set_online : Server → ℕ → ℕ → ℕ → Outcome
set_online s uin ip port = elim (s.user_map uin) [
  | some _ ↦ failure
  | none ↦ elim (status_list_get s) [
    | none ↦ fault
    | some (i, s') ↦ success (record s' {
      user_map = update s'.user_map uin (some i);
      cache = update s'.cache i (info ip port);
    })
  ]
]

-- The branch for a user who goes offline.
unfoldable pub set_offline : Server → ℕ → Outcome
set_offline s uin = elim (s.user_map uin) [
  | none ↦ failure
  | some i ↦ success (
      status_list_put
        (record s { user_map = update s.user_map uin none; cache = update s.cache i (info 0 0) }) i)
]

unfoldable pub set_status : Server → ℕ → ℕ → ℕ → ℕ → Outcome
set_status s uin ip port stat =
    if leb max_user uin
    then failure
    else if stat == 0
    then set_offline s uin
    else set_online s uin ip port

-- What get_status stores through its pointers; `none` is -1.
pub record Presence : Type 0 where
  pub stat : ℕ
  pub ip : ℕ
  pub port : ℕ

abbrev pub presence : ℕ → ℕ → ℕ → Presence
presence stat ip port = record { stat = stat; ip = ip; port = port }

unfoldable pub get_status : Server → ℕ → Option Presence
get_status s uin = if leb max_user uin then none else elim (s.user_map uin) [
  | some i ↦ some (presence 1 (s.cache i).con_ip (s.cache i).con_port)
  | none ↦ some (presence 0 0 0)
]

-- The loop of get_multi_status over `num` entries, the last one first. `uins` is the memory that
-- the array is read from, and the entries of six bytes go behind the count in `outpack`. `none` is
-- an access out of the bounds of `map` or of a packet's memory.
unfoldable pub get_multi_status : Server → List ℕ → ℕ → Packet → Option Packet
get_multi_status s uins zero outpack = some outpack
get_multi_status s uins (suc k) outpack =
    let uin = get_field_uint32_t uins (k * 4) in
    let stat : ℕ = elim (s.user_map uin) [ none ↦ 0 | some _ ↦ 1 ] in
    let a = set_param_uint32_t outpack (2 + k * 6) uin in
    let b = set_param_uint16_t a (6 + k * 6) stat in
    let rest = get_multi_status s uins k b in
    if ltb max_packet_len (packet_header_len + 2 + (k + 1) * 6)
    then none
    else if ltb max_user uin
    then none
    else rest

-- What status_packet leaves: the state, the response buffer, and what is written to the socket.
pub data Handled : Type 0 where
  replied : Server → Packet → List ℕ → Handled
  ignored : Server → Packet → Handled
  crashed : Handled

-- A packet with its header is written to the socket.
abbrev pub reply : Server → Packet → Handled
reply s out = replied s out (take (get_length out) out)

-- The answer to CMD_STATUS_CHANGE, after set_status.
abbrev pub answer_change : Server → Packet → ℕ → Outcome → Handled
answer_change s outpack uin (success s') =
    reply s' (fill_packet_header outpack packet_header_len rep_status_changed_code uin)
answer_change s outpack uin failure = ignored s outpack
answer_change s outpack uin fault = crashed

unfoldable pub on_status_change : Server → Packet → Packet → Handled
on_status_change s inpack outpack =
    let params = get_parameters inpack in
    let uin = get_field_uint32_t params 0 in
    answer_change s outpack uin (
      set_status s uin (get_field_uint32_t params 4) (get_field_uint16_t params 8)
        (get_field_uint16_t params 10))

unfoldable pub on_get_status : Server → Packet → Packet → Handled
on_get_status s inpack outpack =
    let uin = get_field_uint32_t (get_parameters inpack) 0 in
    let named = set_param_uint32_t outpack 0 uin in
    elim (get_status s uin) [
      | none ↦ ignored s named
      | some p ↦
          let a = set_param_uint16_t named 10 p.stat in
          let b = set_param_uint32_t a 4 p.ip in
          let c = set_param_uint16_t b 8 p.port in
          reply s (fill_packet_header c (packet_header_len + 12) rep_status_code (get_uin inpack))
    ]

unfoldable pub on_multi_status : Server → Packet → Packet → Handled
on_multi_status s inpack outpack =
    let num = get_field_uint16_t (get_parameters inpack) 0 in
    let a = set_param_uint16_t outpack 0 num in
    let b =
      fill_packet_header a (packet_header_len + 2 + num * 6) rep_multi_status_code
        (get_uin inpack) in
    elim (get_multi_status s (drop 2 (get_parameters inpack)) num b) [
      | none ↦ crashed
      | some out ↦ reply s out
    ]

-- status_packet
unfoldable pub status_packet : Server → Packet → Packet → Handled
status_packet s inpack outpack =
    let cmd = get_command inpack in
    if cmd == cmd_status_change_code
    then on_status_change s inpack outpack
    else if cmd == cmd_get_status_code
    then on_get_status s inpack outpack
    else if cmd == cmd_multi_status_code
    then on_multi_status s inpack outpack
    else ignored s outpack
