-- ===== src/Friend/Adding.antt =====
-- A contact that is added is read again at the end of the list.
use mini_im.Base.{
  ℕ, zero, suc, ◌+◌, ◌-◌, ◌<◌, ◌≡◌, ◌≢◌, refl, sym, ap, ◌∙◌, List, [], ◌∷◌, ◌++◌, some, false,
  arith, ltb_of_ge, length, take, test_of_ne,
}
use mini_im.Bytes.{put_at}
use mini_im.Bytes.Laws.{length-put_at}
use mini_im.Friend.Db.{
  ContactDb, row, listed, get_friend_list, get_friend_num, list_table, add_table, is_full, done,
  set_contact, friend_add_contact,
}

-- What MySQL promises of the row of a user's contacts.
pub record UpdateLaw {D : Type 0} (db : ContactDb D) : Type 0 where
  -- An update sets its column, the first one is number 1.
  pub updated :
      (d d' : D) (table column friend uin : ℕ) (columns : List ℕ)
      → db.update d table column friend uin ≡ some d'
      → db.contacts d table uin ≡ row columns
      → db.contacts d' table uin ≡ row (put_at columns (column - 1) (friend ∷ []))

take-put_at :
    (n : ℕ) (columns : List ℕ) (friend : ℕ)
    → n < length columns
    → take (suc n) (put_at columns n (friend ∷ [])) ≡ take n columns ++ friend ∷ []
unfolding put_at
take-put_at zero [] friend h = absurd (omega arith)
take-put_at zero (c ∷ columns) friend h = refl
take-put_at (suc n) [] friend h = absurd (omega arith)
take-put_at (suc n) (c ∷ columns) friend h =
    ap (λ l. c ∷ l) (take-put_at n columns friend (omega arith))

-- A table that is not full serves for one contact more.
abbrev pub NotFull : ℕ → Type 0
NotFull num = (num ≢ 50) × (num ≢ 100) × (num ≢ 200) × (num ≢ 500)

list_table-add_table :
    (num : ℕ) → 0 < num → num < 999 → NotFull num → list_table num ≡ add_table num
unfolding list_table add_table
list_table-add_table num h below apart = ground arith

list_table-suc :
    (num : ℕ) → 0 < num → num < 999 → NotFull num → list_table (num + 1) ≡ add_table num
unfolding list_table add_table
list_table-suc num h below apart = ground arith

is_full-NotFull : (num : ℕ) → NotFull num → is_full num ≡ false
is_full-NotFull num apart = ground arith

-- friend_add_contact for a user with between 1 and 998 contacts whose table is not full (not 50, 100, 200
-- or 500 of them): if the update succeeds, it returns 0, and get_friend_list, asked for one contact more,
-- then gives the contacts that it gave before and behind them the new one.
pub get_friend_list-friend_add_contact :
    {D : Type 0} (db : ContactDb D) (law : UpdateLaw db) (d d' : D) (uin friend num table unset : ℕ)
    (junk columns : List ℕ)
    → get_friend_num db d uin ≡ some num
    → 0 < num
    → num < 999
    → NotFull num
    → list_table num ≡ some table
    → db.contacts d table uin ≡ row columns
    → num < length columns
    → db.update d table (num + 1) friend uin ≡ some d'
    → (friend_add_contact db d uin friend unset junk ≡ done d')
      × (get_friend_list db d uin num ≡ listed (take num columns))
      × (get_friend_list db d' uin (num + 1) ≡ listed (take num columns ++ friend ∷ []))
unfolding friend_add_contact get_friend_list set_contact
get_friend_list-friend_add_contact db law d d' uin friend num table unset junk columns count h below
      apart t found room updated =
    let added : add_table num ≡ some table = sym (list_table-add_table num h below apart) ∙ t in
    let next : list_table (num + 1) ≡ some table = list_table-suc num h below apart ∙ added in
    let e : num + 1 - 1 ≡ num = omega arith in
    let last : num + 1 ≡ suc num = omega arith in
    let found' : db.contacts d' table uin ≡ row (put_at columns num (friend ∷ [])) =
      law.updated d d' table (num + 1) friend uin columns updated found
      ∙ ap (λ n. row (put_at columns n (friend ∷ []))) e in
    (
      rw (count, friend_add_contact)
          (rw (test_of_ne num 0 (omega arith))
            (rw (is_full-NotFull num apart) (rw added (rw (updated, set_contact) refl)))),
      rw (t, get_friend_list) (rw found (rw (ltb_of_ge (length columns) num (omega arith)) refl)),
      rw (next, get_friend_list)
          (rw found' (
            rw
              (ltb_of_ge (length (put_at columns num (friend ∷ []))) (num + 1)
                (omega (arith, length-put_at columns num (friend ∷ []))))
              (ap listed (
                ap (λ n. take n (put_at columns num (friend ∷ []))) last
                ∙ take-put_at num columns friend room)))),
    )
