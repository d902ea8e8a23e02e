-- ===== src/Friend/Db.antt =====
-- server/friend_db.c: users and their contacts in MySQL. Contacts lie in one row of one of five
-- tables, by how many there are.
use mini_im.Base.{
  ℕ, ◌+◌, ◌-◌, List, [], ◌∷◌, Option, none, some, Bool, true, false, ◌&&◌, ◌||◌, ltb, leb, ◌==◌,
  if◌then◌else◌, length, take,
}
pub use mini_im.Query.{Fetch, no_query, no_result, no_row, row}
use mini_im.Text.{printed, digits}

-- What the server asks of MySQL, in a database of state `D`; `none` is a failure.
pub record ContactDb (D : Type 0) : Type 0 where
  -- select contact_count from user where uin
  pub contact_count : D → (uin : ℕ) → Fetch ℕ
  -- select nick from user where uin, as a string
  pub nick : D → (uin : ℕ) → Fetch (List ℕ)
  -- select uin from user where uin
  pub user : D → (uin : ℕ) → Fetch ℕ
  -- select * from contact_<table> where uin: the columns behind the uin
  pub contacts : D → (table uin : ℕ) → Fetch (List ℕ)
  -- insert into contact_<table> set uin, contact_1, contact_2, ...
  pub insert : D → (table uin : ℕ) → List ℕ → Option D
  -- update contact_<table> set contact_<column>=friend where uin
  pub update : D → (table column friend uin : ℕ) → Option D
  -- delete from contact_<table> where uin
  pub delete : D → (table uin : ℕ) → Option D

abbrev pub move_query_size : ℕ
move_query_size = 5000

-- The table that get_friend_list reads.
unfoldable pub list_table : ℕ → Option ℕ
list_table num =
    if leb num 50 && ltb 0 num
    then some 1
    else if leb num 100
    then some 2
    else if leb num 200
    then some 3
    else if leb num 500
    then some 4
    else if leb num 999
    then some 5
    else none

-- What get_friend_list does: 0 with what it writes, -1, or a column that is not there.
pub data Listed : Type 0 where
  listed : List ℕ → Listed
  unlisted : Listed
  no_column : Listed

-- The table that friend_table_move fills.
unfoldable pub move_table : ℕ → Option ℕ
move_table num =
    if num == 50
    then some 2
    else if num == 100
    then some 3
    else if num == 200
    then some 4
    else if num == 500
    then some 5
    else none

-- The length of the columns that friend_table_move appends to its query, from column `i` + 1 on.
unfoldable pub columns_length : ℕ → List ℕ → ℕ
columns_length i [] = 0
columns_length i (f ∷ fs) = 9 + digits 10 (i + 1) + 1 + printed f + columns_length (i + 1) fs

-- What a function that changes the database does: it returns 0 or -1, or it overruns an array.
pub data Change (D : Type 0) : Type 0 where
  done refused : D → Change D
  overrun : Change D

-- The table of friend_add_contact where it neither inserts nor moves; `none` returns -1.
unfoldable pub add_table : ℕ → Option ℕ
add_table num =
    if ltb num 50 && ltb 0 num
    then some 1
    else if ltb num 100
    then some 2
    else if ltb num 200
    then some 3
    else if ltb num 500
    then some 4
    else if ltb num 999
    then some 5
    else none

abbrev pub is_full : ℕ → Bool
is_full num = (num == 50) || ((num == 100) || ((num == 200) || (num == 500)))

module _ {D : Type 0} (db : ContactDb D) where
  open db use {contact_count, nick, user, contacts, insert, update, delete}

  -- `none` is -1.
  unfoldable pub get_friend_num : D → ℕ → Option ℕ
  get_friend_num d uin = elim (contact_count d uin) [
    | no_query ↦ none
    | no_result ↦ none
    | no_row ↦ some 0
    | row num ↦ some num
  ]

  unfoldable pub get_friend_list : D → (uin num : ℕ) → Listed
  get_friend_list d uin num = elim (list_table num) [
    | none ↦ unlisted
    | some table ↦ elim (contacts d table uin) [
      | no_query ↦ unlisted
      | no_result ↦ unlisted
      | no_row ↦ unlisted
      | row columns ↦ if ltb (length columns) num then no_column else listed (take num columns)
    ]
  ]

  -- `none` is -2, `some false` is -1 and `some true` is 0.
  unfoldable pub friend_check_uin : D → ℕ → Option Bool
  friend_check_uin d uin = elim (user d uin) [
    | no_query ↦ none
    | no_result ↦ none
    | no_row ↦ some false
    | row _ ↦ some true
  ]

  unfoldable pub friend_delete : D → (uin table : ℕ) → D
  friend_delete d uin table = elim (delete d table uin) [ none ↦ d | some d' ↦ d' ]

  -- The query of friend_table_move, and what follows it.
  unfoldable pub move_to : D → (uin table : ℕ) → List ℕ → Change D
  move_to d uin table friends =
      if ltb (30 + printed uin + columns_length 0 friends) move_query_size
      then elim (insert d table uin friends) [
        | none ↦ refused d
        | some d' ↦ done (friend_delete d' uin (table - 1))
      ]
      else overrun

  -- `junk` is what stands in the array `friends` before.
  unfoldable pub friend_table_move : D → (uin num : ℕ) → List ℕ → Change D
  friend_table_move d uin num junk = elim (move_table num) [
    | none ↦ refused d
    | some table ↦ elim (get_friend_list d uin num) [
      | listed friends ↦ move_to d uin table friends
      | unlisted ↦ move_to d uin table junk
      | no_column ↦ overrun
    ]
  ]

  -- The query at the end of friend_add_contact.
  unfoldable pub set_contact : D → (table column friend uin : ℕ) → Change D
  set_contact d table column friend uin = elim (update d table column friend uin) [
    | none ↦ refused d
    | some d' ↦ done d'
  ]

  -- A count of -1 is below 100 and not above 0, and 0 is then the column. `unset` is what stands in `table`, which is not set after a move.
  unfoldable pub friend_add_contact : D → (uin friend unset : ℕ) → List ℕ → Change D
  friend_add_contact d uin friend unset junk = elim (get_friend_num d uin) [
    | none ↦ set_contact d 2 0 friend uin
    | some num ↦
        if num == 0
        then elim (insert d 1 uin (friend ∷ [])) [ none ↦ refused d | some d' ↦ done d' ]
        else if is_full num
        then elim (friend_table_move d uin num junk) [
          | done d' ↦ set_contact d' unset (num + 1) friend uin
          | refused d' ↦ refused d'
          | overrun ↦ overrun
        ]
        else elim (add_table num) [
          | none ↦ refused d
          | some table ↦ set_contact d table (num + 1) friend uin
        ]
  ]
