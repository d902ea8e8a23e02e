-- ===== src/User/Db.antt =====
-- server/user_db.c: the users in MySQL.
pub use mini_im.Query.{Fetch, no_query, no_result, no_row, row}
use mini_im.Base.{ℕ, ◌+◌, List, Option, none, some, Bool, true, false, ltb, if◌then◌else◌, length}
use mini_im.Bytes.{put_at}
use mini_im.Text.{cstring, terminated, printed}

-- What the server asks of MySQL, in a database of state `D`; `none` is a failure.
pub record UserDb (D : Type 0) : Type 0 where
  -- select max(uin) from user; `none` is NULL
  pub max_uin : D → Fetch (Option ℕ)
  -- insert into user set uin, nick, password, contact_count=0
  pub insert : D → (uin : ℕ) → List ℕ → List ℕ → Option D
  -- select password from user where uin: its bytes
  pub password : D → (uin : ℕ) → Fetch (List ℕ)
  -- update user set password where uin
  pub set_password : D → (uin : ℕ) → List ℕ → Option D
  -- select nick from user where uin, as a string
  pub nick : D → (uin : ℕ) → Fetch (List ℕ)
  -- update user set nick where uin
  pub set_nick : D → (uin : ℕ) → List ℕ → Option D
  -- update user set contact_count=contact_count+1 where uin
  pub add_contact : D → (uin : ℕ) → Option D

-- What user_add does: it returns the new uin or -1, or it goes out of an array's bounds or through NULL.
pub data Added (D : Type 0) : Type 0 where
  added : D → ℕ → Added D
  not_added : Added D
  add_fault : Added D

-- What user_get_passwd does: it returns 1 with what stands in the array of 16 bytes, 0 or -1, or it writes
-- behind the array.
pub data GotPasswd : Type 0 where
  got_passwd : List ℕ → GotPasswd
  no_passwd : GotPasswd
  passwd_overrun : GotPasswd

module _ {D : Type 0} (db : UserDb D) where
  open db use {max_uin, insert, password, set_password, nick, set_nick, add_contact}

  -- The insertion of user_add, whose query has 200 bytes.
  unfoldable pub insert_user : D → (uin : ℕ) → List ℕ → List ℕ → Added D
  insert_user d uin name passwd =
      if ltb (93 + printed uin + length name) 200
      then elim (insert d uin name passwd) [ none ↦ not_added | some d' ↦ added d' uin ]
      else add_fault

  unfoldable pub user_add : D → List ℕ → List ℕ → Added D
  user_add d name passwd = elim (max_uin d) [
    | no_query ↦ not_added
    | no_result ↦ not_added
    | no_row ↦ insert_user d 1 name passwd
    | row none ↦ add_fault
    | row (some uin) ↦ insert_user d (uin + 1) name passwd
  ]

  -- sprintf stops at the first 0 of the bytes, behind which MySQL has one more; `junk` is what stands in
  -- the array before.
  unfoldable pub user_get_passwd : D → ℕ → List ℕ → GotPasswd
  user_get_passwd d uin junk = elim (password d uin) [
    | no_query ↦ no_passwd
    | no_result ↦ no_passwd
    | no_row ↦ no_passwd
    | row bytes ↦ elim (cstring (terminated bytes)) [
      | none ↦ passwd_overrun
      | some text ↦
          if ltb (length junk) (length text + 1)
          then passwd_overrun
          else got_passwd (put_at junk 0 (terminated text))
    ]
  ]

  -- With whether it returns 0; the query has 100 bytes, and `none` is one that is longer.
  unfoldable pub user_set_passwd : D → ℕ → List ℕ → Option (D × Bool)
  user_set_passwd d uin passwd =
      if ltb (42 + length passwd + printed uin) 100
      then elim (set_password d uin passwd) [ none ↦ some (d, false) | some d' ↦ some (d', true) ]
      else none

  -- The nick is copied to `at` if it is found. `none` is a write behind the memory.
  unfoldable pub user_get_nick : D → ℕ → List ℕ → (at : ℕ) → Option (List ℕ)
  user_get_nick d uin memory at = elim (nick d uin) [
    | no_query ↦ some memory
    | no_result ↦ some memory
    | no_row ↦ some memory
    | row text ↦
        if ltb (length memory) (at + length text + 1)
        then none
        else some (put_at memory at (terminated text))
  ]

  unfoldable pub user_set_nick : D → ℕ → List ℕ → Option (D × Bool)
  user_set_nick d uin name =
      if ltb (38 + length name + printed uin) 100
      then elim (set_nick d uin name) [ none ↦ some (d, false) | some d' ↦ some (d', true) ]
      else none

  unfoldable pub user_friend_add : D → ℕ → D
  user_friend_add d uin = elim (add_contact d uin) [ none ↦ d | some d' ↦ d' ]
