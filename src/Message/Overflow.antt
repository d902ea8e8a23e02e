-- ===== src/Message/Overflow.antt =====
-- CMD_OFFLINE_MSG when the stored messages do not fit one packet, and the number of its packets.
use mini_im.Base.{
  ℕ, zero, suc, ◌+◌, ◌-◌, ◌≤◌, ◌<◌, ◌≡◌, ◌≢◌, refl, sym, ◌∙◌, subst, ap, ◌⊎◌, inl, inr, List, [],
  ◌∷◌, some, none, arith, Bool-cases, ltb, ◌==◌, if◌then◌else◌, length, test_of_eq, test_of_ne,
  ltb→ge,
}
use mini_im.Protocol.{packet_header_len, srv_offline_msg_code, srv_offline_msg_done_code}
use mini_im.Bytes.{set_field_uint16_t}
use mini_im.Packet.{Packet, get_uin}
use mini_im.Message.Db.{
  OfflineDb, Row, Result, row_length, row_room, count_row, put_row, message_get, Got, got, failed,
  no_row, pack_rows, query_rows,
}
use mini_im.Message.Paging.{Fits}
use mini_im.Message.{
  Server, Paged, sent, missing_row, on_offline_msg, offline_pages, msg_params_len, send_rows,
  send_pages,
}

-- More rows are promised than can be fetched.
abbrev Lag : Got → Type 0
Lag failed = ⊥
Lag no_row = Unit {0}
Lag (got memory left r) = length r.rest < r.rows

pack_rows-Lag :
    (rows : ℕ) (rest : List Row) (memory : List ℕ) (at off left : ℕ)
    → length rest < rows
    → Lag (pack_rows rows rest memory at off left)
unfolding pack_rows
pack_rows-Lag zero rest memory at off left h = absurd (omega arith)
pack_rows-Lag (suc rows) [] memory at off left h = tt
pack_rows-Lag (suc rows) (r ∷ rest) memory at off left h =
    elim (Bool-cases (ltb left (row_room r))) [
      | inl e ↦ rw e (omega arith)
      | inr e ↦ rw e (
          pack_rows-Lag rows rest (count_row (put_row memory off r) at) at
            (off + (row_length r + 12)) (left - (row_length r + 12)) (omega arith))
    ]

-- The row that does not fit has been fetched, and is still counted.
pack_rows_overfull :
    (rs : List Row) (memory : List ℕ) (at off left : ℕ)
    → ¬ Fits left rs
    → Lag (pack_rows (length rs) rs memory at off left)
unfolding pack_rows
pack_rows_overfull [] memory at off left h = absurd (h tt)
pack_rows_overfull (r ∷ rs) memory at off left h = elim (Bool-cases (ltb left (row_room r))) [
  | inl e ↦ rw e (omega arith)
  | inr e ↦
      let later =
        pack_rows_overfull rs (count_row (put_row memory off r) at) at (off + (row_length r + 12))
          (left - (row_length r + 12)) (λ f. h (ltb→ge left (row_room r) e, f)) in
      rw e later
]

-- A page has taken a row, unless no row is left.
abbrev Shorter : ℕ → Got → Type 0
Shorter n failed = Unit {0}
Shorter n no_row = Unit {0}
Shorter n (got memory left r) = (r.rows ≡ 0) ⊎ (length r.rest < n)

pack_rows-Shorter :
    (rows : ℕ) (rest : List Row) (memory : List ℕ) (at off left : ℕ)
    → Shorter (length rest) (pack_rows rows rest memory at off left)
unfolding pack_rows
pack_rows-Shorter zero rest memory at off left = inl refl
pack_rows-Shorter (suc rows) [] memory at off left = tt
pack_rows-Shorter (suc rows) (r ∷ rest) memory at off left =
    elim (Bool-cases (ltb left (row_room r))) [
      | inl e ↦ rw e (inr (omega arith))
      | inr e ↦
          let later =
            pack_rows rows rest (count_row (put_row memory off r) at) at (off + (row_length r + 12))
              (left - (row_length r + 12)) in
          rw e (Shorter-suc later (pack_rows-Shorter rows rest _ _ _ _))
    ]
  where
    Shorter-suc : (g : Got) → Shorter (length rest) g → Shorter (length (r ∷ rest)) g
    Shorter-suc failed h = tt
    Shorter-suc no_row h = tt
    Shorter-suc (got memory' left' r') (inl h) = inl h
    Shorter-suc (got memory' left' r') (inr h) = inr (omega arith)

Shorter-mono : (m n : ℕ) (g : Got) → m ≤ n → Shorter m g → Shorter n g
Shorter-mono m n failed le h = tt
Shorter-mono m n no_row le h = tt
Shorter-mono m n (got memory left r) le (inl h) = inl h
Shorter-mono m n (got memory left r) le (inr h) = inr (omega arith)

pack_rows-ne-failed :
    (rows : ℕ) (rest : List Row) (memory : List ℕ) (at off left : ℕ)
    → pack_rows rows rest memory at off left ≢ failed
unfolding pack_rows
pack_rows-ne-failed zero rest memory at off left e = cc
pack_rows-ne-failed (suc rows) [] memory at off left e = cc
pack_rows-ne-failed (suc rows) (r ∷ rest) memory at off left e = ground (
  arith,
  pack_rows-ne-failed rows rest (count_row (put_row memory off r) at) at (off + (row_length r + 12))
      (left - (row_length r + 12)),
)

module _ {D : Type 0} (db : OfflineDb D) where
  open db use {select}

  message_get_next :
      (d : D) (last : Result) (memory : List ℕ) (buff left : ℕ)
      → message_get db d 0 last memory buff left
        ≡ pack_rows last.rows last.rest
            (set_field_uint16_t memory buff 0)
            buff
            (buff + 2)
            (left - 2)
  unfolding message_get query_rows
  message_get_next d last memory buff left = refl

  -- The next page is shorter, and lags if this one does.
  next_page-Shorter :
      (d : D) (r : Result) (memory : List ℕ) (buff left : ℕ)
      → Shorter (length r.rest) (message_get db d 0 r memory buff left)
  next_page-Shorter d r memory buff left =
      subst (Shorter (length r.rest)) (sym (message_get_next d r memory buff left))
        (pack_rows-Shorter r.rows r.rest _ _ _ _)

  next_page-Lag :
      (d : D) (r : Result) (memory : List ℕ) (buff left : ℕ)
      → length r.rest < r.rows
      → Lag (message_get db d 0 r memory buff left)
  next_page-Lag d r memory buff left h =
      subst Lag (sym (message_get_next d r memory buff left))
        (pack_rows-Lag r.rows r.rest _ _ _ _ h)

  next_page-ne-failed :
      (d : D) (r : Result) (memory : List ℕ) (buff left : ℕ)
      → message_get db d 0 r memory buff left ≢ failed
  next_page-ne-failed d r memory buff left e =
      pack_rows-ne-failed r.rows r.rest _ _ _ _ (sym (message_get_next d r memory buff left) ∙ e)

  send_pages-Lag :
      (pages : ℕ) (s : Server D) (fd uin : ℕ) (g : Got)
      → Lag g
      → Shorter pages g
      → send_pages db pages s fd uin g ≡ missing_row
  unfolding send_pages
  send_pages-Lag pages s fd uin failed h sh = absurd h
  send_pages-Lag pages s fd uin no_row h sh = refl
  send_pages-Lag zero s fd uin (got memory left r) h (inl e) = absurd (omega arith)
  send_pages-Lag zero s fd uin (got memory left r) h (inr e) = absurd (omega arith)
  send_pages-Lag (suc pages) s fd uin (got memory left r) h (inl e) = absurd (omega arith)
  send_pages-Lag (suc pages) s fd uin (got memory left r) h (inr e) =
      let more =
        send_rows db (record s { outpack = memory; result = r }) fd uin srv_offline_msg_code left in
      rw (test_of_ne r.rows 0 (omega arith)) (
        send_pages-Lag pages more fd uin
          (message_get db s.db 0 r more.outpack packet_header_len msg_params_len)
          (next_page-Lag s.db r more.outpack packet_header_len msg_params_len h)
          (Shorter-mono (length r.rest) pages _ (omega arith)
            (next_page-Shorter s.db r more.outpack packet_header_len msg_params_len)))

  -- From a page on, the loop writes all or reads a row that is not there.
  abbrev pub Ends : Paged D → Type 0
  Ends o = ((t : Server D) × (o ≡ sent t)) ⊎ (o ≡ missing_row)

  send_pages-Ends :
      (pages : ℕ) (s : Server D) (fd uin : ℕ) (g : Got)
      → g ≢ failed
      → Shorter pages g
      → Ends (send_pages db pages s fd uin g)
  unfolding send_pages
  send_pages-Ends pages s fd uin failed ne sh = absurd (ne refl)
  send_pages-Ends pages s fd uin no_row ne sh = inr refl
  send_pages-Ends zero s fd uin (got memory left r) ne (inl e) =
      rw (test_of_eq r.rows 0 e) (inl (_, refl))
  send_pages-Ends zero s fd uin (got memory left r) ne (inr e) = absurd (omega arith)
  send_pages-Ends (suc pages) s fd uin (got memory left r) ne (inl e) =
      rw (test_of_eq r.rows 0 e) (inl (_, refl))
  send_pages-Ends (suc pages) s fd uin (got memory left r) ne (inr e) =
      let more =
        send_rows db (record s { outpack = memory; result = r }) fd uin srv_offline_msg_code left in
      let next = message_get db s.db 0 r more.outpack packet_header_len msg_params_len in
      let rest =
        send_pages-Ends pages more fd uin next
          (next_page-ne-failed s.db r more.outpack packet_header_len msg_params_len)
          (Shorter-mono (length r.rest) pages next (omega arith)
            (next_page-Shorter s.db r more.outpack packet_header_len msg_params_len)) in
      elim (Bool-cases (r.rows == 0)) [ inl z ↦ rw z (inl (_, refl)) | inr z ↦ rw z rest ]

module _ {D : Type 0} (db : OfflineDb D) where
  -- More rounds than rows change nothing.
  send_pages_more :
      (pages fuel : ℕ) (s : Server D) (fd uin : ℕ) (g : Got)
      → pages ≤ fuel
      → Shorter pages g
      → send_pages db fuel s fd uin g ≡ send_pages db pages s fd uin g
  unfolding send_pages
  send_pages_more pages fuel s fd uin failed le h = refl
  send_pages_more pages fuel s fd uin no_row le h = refl
  send_pages_more zero zero s fd uin (got memory left r) le h = refl
  send_pages_more zero (suc fuel) s fd uin (got memory left r) le (inl h) =
      rw (test_of_eq r.rows 0 h) refl
  send_pages_more zero (suc fuel) s fd uin (got memory left r) le (inr h) = absurd (omega arith)
  send_pages_more (suc pages) zero s fd uin (got memory left r) le h = absurd (omega arith)
  send_pages_more (suc pages) (suc fuel) s fd uin (got memory left r) le (inl h) =
      rw (test_of_eq r.rows 0 h) refl
  send_pages_more (suc pages) (suc fuel) s fd uin (got memory left r) le (inr h) =
      let next =
        send_rows db (record s { outpack = memory; result = r }) fd uin srv_offline_msg_code left in
      let out = next.outpack in
      let g = message_get db s.db 0 r out packet_header_len msg_params_len in
      let short : Shorter pages g = Shorter-mono (length r.rest) pages g (omega arith) (
        subst (Shorter (length r.rest))
          (sym (message_get_next db s.db r out packet_header_len msg_params_len))
          (pack_rows-Shorter r.rows r.rest _ _ _ _)) in
      ap
        (λ o.
          if r.rows == 0
          then sent (
              send_rows db (record s { outpack = memory; result = r }) fd uin
                srv_offline_msg_done_code left)
          else o)
        (send_pages_more pages fuel next fd uin g (omega arith) short)

-- The loop of CMD_OFFLINE_MSG ends, whatever the rows, the counts and the state: from any page that
-- message_get has packed, at least as many rounds as there are rows left and one more suffice for the
-- loop either to write its last packet or to read the length of a row that is not there. It neither
-- goes on without end nor stops by the bound on the rounds, and a larger bound changes nothing.
pub send_pages_ends :
    {D : Type 0} (db : OfflineDb D) (s : Server D) (fd uin fuel : ℕ) (memory : List ℕ) (left : ℕ)
    (r : Result)
    → length r.rest + 1 ≤ fuel
    → (((t : Server D) × (send_pages db fuel s fd uin (got memory left r) ≡ sent t))
        ⊎ (send_pages db fuel s fd uin (got memory left r) ≡ missing_row))
      × (send_pages db fuel s fd uin (got memory left r)
          ≡ send_pages db (length r.rest + 1) s fd uin (got memory left r))
send_pages_ends db s fd uin fuel memory left r enough = (
  send_pages-Ends db fuel s fd uin (got memory left r) (λ e. cc) (inr (omega arith)),
  send_pages_more db (length r.rest + 1) fuel s fd uin (got memory left r) enough
      (inr (omega arith)),
)

message_get_overfull :
    {D : Type 0} (db : OfflineDb D) (s : Server D) (uin : ℕ) (rs : List Row)
    → db.select s.db uin ≡ some rs
    → 0 < uin
    → ¬ Fits 5004 rs
    → Lag (message_get db s.db uin s.result s.outpack packet_header_len msg_params_len)
unfolding message_get query_rows
message_get_overfull db s uin rs found known over =
    rw (test_of_ne uin 0 (omega arith), message_get, query_rows)
      (rw found (pack_rows_overfull rs (set_field_uint16_t s.outpack 12 0) 12 14 5004 over))

-- CMD_OFFLINE_MSG of a user whose stored messages do not all fit one packet: the row that does not
-- fit has been fetched and is lost, but stays counted, so after some number of packets the handler
-- reads the length of a row that is not there, and ends in that access.
pub on_offline_msg_overfull :
    {D : Type 0} (db : OfflineDb D) (s : Server D) (inpack : Packet) (fd : ℕ) (rs : List Row)
    → db.select s.db (get_uin inpack) ≡ some rs
    → 0 < get_uin inpack
    → ¬ Fits 5004 rs
    → (offline_pages db s inpack fd ≡ missing_row) × (on_offline_msg db s inpack fd ≡ none)
on_offline_msg_overfull db s inpack fd rs found known over =
    let lost =
      lagging
        (message_get db s.db (get_uin inpack) s.result s.outpack packet_header_len msg_params_len)
        refl (message_get_overfull db s (get_uin inpack) rs found known over) in
    (lost, unfold on_offline_msg in rw (lost, on_offline_msg) refl)
  where
    lagging :
        (g : Got)
        → message_get db s.db (get_uin inpack) s.result s.outpack packet_header_len msg_params_len
          ≡ g
        → Lag g
        → offline_pages db s inpack fd ≡ missing_row
    lagging failed e h = absurd h
    lagging no_row e h = unfold offline_pages in rw (e, offline_pages) refl
    lagging (got memory left r) e h =
        unfold offline_pages in
        rw (e, offline_pages)
          (send_pages-Lag db (length r.rest + 1) s fd (get_uin inpack) (got memory left r) h
            (inr (omega arith)))
