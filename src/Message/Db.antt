-- ===== src/Message/Db.antt =====
-- server/message_db.c: the offline messages in MySQL.
use mini_im.Base.{
  ℕ, zero, suc, ◌+◌, ◌-◌, List, [], ◌∷◌, Option, none, some, Bool, true, false, ltb, ◌==◌,
  if◌then◌else◌, length,
}
use mini_im.Protocol.{msg_type_chat}
use mini_im.Bytes.{put_at, get_field_uint16_t, set_field_uint16_t, set_field_uint32_t}
use mini_im.Text.{terminated, until_nul, printed}

-- What is selected of an entry of the table.
pub record Row : Type 0 where
  pub from_uin : ℕ
  pub type : ℕ
  pub message : List ℕ

-- What the server asks of MySQL, in a database of state `D`. A statement is named by the values that
-- are printed into it; a text stands between the quotes as it is, nothing in it is escaped, and what
-- MySQL makes of it is MySQL's. `none` is a failure.
pub record OfflineDb (D : Type 0) : Type 0 where
  -- insert into offline_msg set from_uin, to_uin, type, message
  pub insert : D → (from to type : ℕ) → List ℕ → Option D
  -- update offline_msg set message=concat(message,'\n',text) where from_uin and to_uin
  pub concat : D → (from to : ℕ) → List ℕ → Option D
  -- delete from offline_msg where to_uin
  pub delete : D → (to : ℕ) → Option D
  -- select from_uin,type,message from offline_msg where to_uin
  pub select : D → (to : ℕ) → Option (List Row)

-- A query is printed into a thousand bytes.
abbrev pub query_size : ℕ
query_size = 1000

-- The number of rows that `rows` says are left, and those that can be fetched.
pub record Result : Type 0 where
  pub rows : ℕ
  pub rest : List Row

module _ {D : Type 0} (db : OfflineDb D) where
  open db use {insert, concat, delete, select}

  -- With whether it returns 0. `none` is a query that is longer than its buffer.
  unfoldable pub message_store : D → (from to type : ℕ) → List ℕ → Option (D × Bool)
  message_store d from to type msg =
      if ltb (65 + printed from + printed to + printed type + length msg) query_size
      then elim (insert d from to type msg) [ none ↦ some (d, false) | some d' ↦ some (d', true) ]
      else none

  unfoldable pub message_update : D → (from to : ℕ) → List ℕ → Option (D × Bool)
  message_update d from to msg =
      if ltb (81 + length msg + printed from + printed to) query_size
      then elim (concat d from to msg) [ none ↦ some (d, false) | some d' ↦ some (d', true) ]
      else none

  unfoldable pub message_delete : D → ℕ → D
  message_delete d uin = elim (delete d uin) [ none ↦ d | some d' ↦ d' ]

  -- The query of message_get; `uin` 0 goes on with the last result. `none` is a failure.
  unfoldable pub query_rows : D → ℕ → Result → Option Result
  query_rows d uin last = if uin == 0 then some last else elim (select d uin) [
    | none ↦ none
    | some rs ↦ some (record { rows = length rs; rest = rs })
  ]

-- The length field of a row, and the room that a row needs.
abbrev pub row_length : Row → ℕ
row_length r = if r.type == msg_type_chat then length r.message + 1 else 0

abbrev pub row_room : Row → ℕ
row_room r = length r.message + 1 + 12

-- A row written at `off`: its sender, type, length, and the text of a chat message. MySQL keeps a 0
-- behind the text; strcpy stops at the first 0, which may be in the text.
unfoldable pub put_row : List ℕ → ℕ → Row → List ℕ
put_row memory off r =
    let a = set_field_uint32_t memory off r.from_uin in
    let b = set_field_uint16_t a (off + 8) r.type in
    let c = set_field_uint16_t b (off + 10) (row_length r) in
    if r.type == msg_type_chat then put_at c (off + 12) (terminated (until_nul r.message)) else c

-- (*pcount)++
abbrev pub count_row : List ℕ → ℕ → List ℕ
count_row memory off = set_field_uint16_t memory off (get_field_uint16_t memory off + 1)

-- What message_get leaves: its buffer, the room left and the result, -1, or an access to the lengths
-- of a row that is not there.
pub data Got : Type 0 where
  got : List ℕ → ℕ → Result → Got
  failed : Got
  no_row : Got

-- The loop of message_get: `rows` rounds, `at` is where the count is and `off` the next row. The row
-- that does not fit has been fetched.
unfoldable pub pack_rows : (rows : ℕ) → List Row → List ℕ → (at off left : ℕ) → Got
pack_rows zero rest memory at off left = got memory left (record { rows = 0; rest = rest })
pack_rows (suc rows) [] memory at off left = no_row
pack_rows (suc rows) (r ∷ rest) memory at off left =
    let size = row_length r + 12 in
    let later =
      pack_rows rows rest (count_row (put_row memory off r) at) at (off + size) (left - size) in
    if ltb left (row_room r)
    then got memory left (record { rows = suc rows; rest = rest })
    else later

module _ {D : Type 0} (db : OfflineDb D) where
  -- message_get, for a buffer at `buff` in a packet's memory with `left` bytes of room.
  unfoldable pub message_get : D → ℕ → Result → List ℕ → (buff left : ℕ) → Got
  message_get d uin last memory buff left = elim (query_rows db d uin last) [
    | none ↦ failed
    | some r ↦ pack_rows r.rows r.rest (set_field_uint16_t memory buff 0) buff (buff + 2) (left - 2)
  ]
