-- ===== src/Message/Pages.antt =====
-- CMD_OFFLINE_MSG when one packet has room for all rows, read as a client does.
use mini_im.Base.{
  ℕ, ◌+◌, ◌-◌, ◌≤◌, ◌<◌, ◌^◌, ◌≡◌, refl, sym, ap, ap₂, ◌∙◌, inl, inr, List, [], ◌∷◌, ◌++◌, some,
  arith, Bool-cases, ltb, ltb_of_lt, ltb_of_ge, ◌==◌, if◌then◌else◌, length, get_or, take, drop,
  All, length-take, test_of_ne,
}
use mini_im.Protocol.{max_packet_len, packet_header_len, msg_type_chat, srv_offline_msg_done_code}
use mini_im.Bytes.{get_field_uint16_t, get_field_uint32_t, set_field_uint16_t}
use mini_im.Bytes.Laws.{get_or-take, get16_same, get32_same, get16-set16, get16-take, get32-take}
use mini_im.Packet.{Packet, get_length, get_command, get_uin, fill_packet_header}
use mini_im.Packet.Laws.{
  Header, fill_packet_header-Header, length-fill_packet_header, fill_packet_header_after,
  get16-fill_packet_header, length-set16, get16-drop, get32-drop, get_or-drop,
}
use mini_im.Packet.Fields.{
  som_get_msg_count, som_get_first_ptr, som_get_from_uin, som_get_type, som_get_msg_length,
  som_get_message, som_get_next_ptr,
}
use mini_im.Text.{terminated, until_nul}
use mini_im.Message.Db.{
  OfflineDb, Row, Result, row_length, message_get, message_delete, got, pack_rows, query_rows,
}
use mini_im.Message.Paging.{
  IsRow, Fits, used, RowsAt, RowsAt-same, pack_rows-Page, row_length_small,
}
use mini_im.Message.{
  Server, on_offline_msg, offline_pages, msg_params_len, send_rows, send_pages, delete_sent,
}

-- The rows as the accessors find them, from the one at `current` on.
abbrev pub Reads : List ℕ → List Row → Type 0
Reads current [] = Unit {0}
Reads current (r ∷ rs) =
    (som_get_from_uin current ≡ r.from_uin)
    × (som_get_type current ≡ r.type)
    × (som_get_msg_length current ≡ row_length r)
    × (r.type ≡ msg_type_chat
        → (i : ℕ) → i < length (until_nul r.message) + 1
        → get_or (som_get_message current) i 0 ≡ get_or (terminated (until_nul r.message)) i 0)
    × Reads (som_get_next_ptr current) rs

-- What a client reads of a packet: the rows for the user `uin`, and that there are no more.
pub record Brings (uin : ℕ) (rs : List Row) (pk : Packet) : Type 0 where
  pub whole : get_length pk ≡ length pk
  pub command : get_command pk ≡ srv_offline_msg_done_code
  pub receiver : get_uin pk ≡ uin
  pub count : som_get_msg_count pk ≡ length rs
  pub rows : Reads (som_get_first_ptr pk) rs

Reads-RowsAt :
    (memory : List ℕ) (off : ℕ) (current : List ℕ) (rs : List Row)
    → ((j : ℕ) → get_or current j 0 ≡ get_or memory (off + j) 0)
    → RowsAt memory off rs
    → Reads current rs
unfolding som_get_from_uin som_get_type som_get_msg_length som_get_message som_get_next_ptr
Reads-RowsAt memory off current [] same w = tt
Reads-RowsAt memory off current (r ∷ rs) same (from, type, size, text, w) =
    let view = λ (j : ℕ). same j ∙ sym (get_or-drop off memory j) in
    let len : get_field_uint16_t current 10 ≡ row_length r =
      get16_same current (drop off memory) 10 (λ j h. view j) ∙ get16-drop off memory 10 ∙ size in
    (
      get32_same current (drop off memory) 0 (λ j h. view j)
          ∙ get32-drop off memory 0
          ∙ ap (get_field_uint32_t memory) (omega arith)
          ∙ from,
      get16_same current (drop off memory) 8 (λ j h. view j) ∙ get16-drop off memory 8 ∙ type,
      len,
      λ chat i h.
          get_or-drop 12 current i
          ∙ same (12 + i)
          ∙ ap (λ k. get_or memory k 0) (omega arith)
          ∙ text chat i h,
      Reads-RowsAt memory (off + (row_length r + 12))
          (drop (12 + get_field_uint16_t current 10) current) rs
          (λ j.
            get_or-drop (12 + get_field_uint16_t current 10) current j
            ∙ same (12 + get_field_uint16_t current 10 + j)
            ∙ ap (λ k. get_or memory k 0) (omega (arith, len)))
          w,
    )

-- The packet that is written of a page.
module _ (memory : Packet) (uin : ℕ) (rs : List Row) (size : length memory ≡ max_packet_len)
    (small : uin < 2 ^ 32) (fits : used rs ≤ 5004)
    (count : get_field_uint16_t memory 12 ≡ length rs) (rows : RowsAt memory 14 rs) where
  abbrev filled : Packet
  filled = fill_packet_header memory (14 + used rs) srv_offline_msg_done_code uin

  header : Header filled (14 + used rs) 1 srv_offline_msg_done_code uin
  header =
      fill_packet_header-Header memory (14 + used rs) srv_offline_msg_done_code uin (omega arith)
        (omega arith) (omega arith) small

  abbrev sent : Packet
  sent = take (14 + used rs) filled

  same_sent : (j : ℕ) → 12 ≤ j → j < 14 + used rs → get_or sent j 0 ≡ get_or memory j 0
  same_sent j low high =
      get_or-take (14 + used rs) filled j high
      ∙ fill_packet_header_after memory (14 + used rs) srv_offline_msg_done_code uin j low

  filled-Brings : Brings uin rs (take (14 + used rs) filled)
  unfolding get_length get_command get_uin som_get_msg_count som_get_first_ptr
  filled-Brings = record {
    whole =
        get16-take (14 + used rs) filled 0 (omega arith)
        ∙ header.len_is
        ∙ omega (
          arith,
          length-take (14 + used rs) filled,
          length-fill_packet_header memory (14 + used rs) srv_offline_msg_done_code uin,
        );
    command = get16-take (14 + used rs) filled 4 (omega arith) ∙ header.cmd_is;
    receiver = get32-take (14 + used rs) filled 8 (omega arith) ∙ header.uin_is;
    count =
        get16-drop 12 (take (14 + used rs) filled) 0
        ∙ get16-take (14 + used rs) filled 12 (omega arith)
        ∙ get16-fill_packet_header memory (14 + used rs) srv_offline_msg_done_code uin 12
            (omega arith)
        ∙ count;
    rows =
        Reads-RowsAt sent 14 (drop 2 (drop 12 sent)) rs
          (λ j.
            get_or-drop 2 (drop 12 sent) j
            ∙ get_or-drop 12 sent (2 + j)
            ∙ ap (λ k. get_or sent k 0) (omega arith))
          (RowsAt-same memory sent 14 rs (λ j p q. same_sent j (omega arith) q) rows);
  }

module _ {D : Type 0} (db : OfflineDb D) where
  open db use {select}

  message_get_first :
      (d : D) (last : Result) (memory : Packet) (uin : ℕ) (rs : List Row)
      → select d uin ≡ some rs
      → 0 < uin
      → message_get db d uin last memory packet_header_len msg_params_len
        ≡ pack_rows (length rs) rs (set_field_uint16_t memory 12 0) 12 14 5004
  unfolding message_get query_rows
  message_get_first d last memory uin rs found known =
      rw (test_of_ne uin 0 (omega arith), message_get, query_rows) (rw found refl)

  -- message_get for a user whose rows all fit.
  message_get-Page :
      (d : D) (last : Result) (memory : Packet) (uin : ℕ) (rs : List Row)
      → select d uin ≡ some rs
      → 0 < uin
      → length memory ≡ max_packet_len
      → All IsRow rs
      → Fits 5004 rs
      → (memory' : Packet) × (message_get db d uin last memory packet_header_len msg_params_len
          ≡ got memory' (5004 - used rs) (record { rows = 0; rest = [] }))
        × (length memory' ≡ max_packet_len)
        × (get_field_uint16_t memory' 12 ≡ length rs)
        × RowsAt memory' 14 rs
  message_get-Page d last memory uin rs found known size ok fits =
      let m = set_field_uint16_t memory 12 0 in
      let zeroed = get16-set16 memory 12 0 (omega arith) (omega arith) in
      let (memory', run, page) =
        pack_rows-Page rs m 12 14 5004 ok fits (omega arith)
          (omega (arith, length-set16 memory 12 0)) (omega (arith, length-set16 memory 12 0))
          (omega arith) in
      (
        memory',
        message_get_first d last memory uin rs found known ∙ run,
        page.size ∙ length-set16 memory 12 0 ∙ size,
        page.count ∙ ap (λ n. n + length rs) zeroed ∙ omega arith,
        page.rows,
      )

delete_sent-fields :
    {D : Type 0} (db : OfflineDb D) (uin : ℕ) (t : Server D)
    → ((delete_sent db uin t).writes ≡ t.writes)
      × ((delete_sent db uin t).queues ≡ t.queues)
      × ((delete_sent db uin t).conns ≡ t.conns)
      × ((delete_sent db uin t).db
          ≡ (if ltb 14 (get_length t.outpack) then message_delete db t.db uin else t.db))
delete_sent-fields db uin t = elim (Bool-cases (ltb 14 (get_length t.outpack))) [
  | inl e ↦ rw e (refl, refl, refl, refl)
  | inr e ↦ rw e (refl, refl, refl, refl)
]

deleted_if :
    {D : Type 0} (db : OfflineDb D) (d : D) (uin len : ℕ) (rs : List Row)
    → len ≡ 14 + used rs
    → (if ltb 14 len then message_delete db d uin else d)
      ≡ (if length rs == 0 then d else message_delete db d uin)
deleted_if db d uin len [] e = rw (ltb_of_ge 14 len (omega (arith, e))) refl
deleted_if db d uin len (r ∷ rs) e =
    rw (ltb_of_lt 14 len (omega (arith, e)))
      (rw (test_of_ne (length (r ∷ rs)) 0 (omega arith)) refl)

used-Fits : (left : ℕ) (rs : List Row) → Fits left rs → used rs ≤ left
used-Fits left [] fits = omega arith
used-Fits left (r ∷ rs) (fit, fits) =
    omega (arith, used-Fits (left - (row_length r + 12)) rs fits, row_length_small r)

-- CMD_OFFLINE_MSG of a user whose stored messages all fit one packet: exactly one packet is written,
-- to the socket that asked, and a client that walks through it with the accessors of list_packet.h
-- finds the command SRV_OFFLINE_MSG_DONE, the user, the number of the messages and each of them in
-- the order of the table, with its sender, its type, the length, and the text of a chat message with
-- its final 0. The messages are deleted if there are any. The queues and the table of connections
-- stay as they are.
pub on_offline_msg-Brings :
    {D : Type 0} (db : OfflineDb D) (s : Server D) (inpack : Packet) (fd : ℕ) (rs : List Row)
    → db.select s.db (get_uin inpack) ≡ some rs
    → 0 < get_uin inpack
    → get_uin inpack < 2 ^ 32
    → length s.outpack ≡ max_packet_len
    → All IsRow rs
    → Fits 5004 rs
    → (s' : Server D) × (pk : Packet) × (on_offline_msg db s inpack fd ≡ some s')
      × (s'.writes ≡ s.writes ++ (fd, pk) ∷ [])
      × Brings (get_uin inpack) rs pk
      × (s'.db ≡ (if length rs == 0 then s.db else message_delete db s.db (get_uin inpack)))
      × (s'.queues ≡ s.queues)
      × (s'.conns ≡ s.conns)
on_offline_msg-Brings db s inpack fd rs found known small size ok fits =
    let uin = get_uin inpack in
    let (memory, run, room, count, rows) =
      message_get-Page db s.db s.result s.outpack uin rs found known size ok fits in
    let u = used-Fits 5004 rs fits in
    let len = (header memory uin rs room small u count rows).len_is in
    let last =
      send_rows db (record s { outpack = memory; result = record { rows = 0; rest = [] } }) fd uin
        srv_offline_msg_done_code (5004 - used rs) in
    let shape : filled memory uin rs room small u count rows ≡ last.outpack =
      ap (λ n. fill_packet_header memory n srv_offline_msg_done_code uin) (omega arith) in
    let len' : get_length last.outpack ≡ 14 + used rs = ap get_length (sym shape) ∙ len in
    let (writes, queues, conns, deleted) = delete_sent-fields db uin last in
    (
      delete_sent db uin last,
      take (14 + used rs) (filled memory uin rs room small u count rows),
      unfold on_offline_msg offline_pages send_pages in rw (run, on_offline_msg) refl,
      writes ∙ ap₂ (λ n o. s.writes ++ (fd, take n o) ∷ []) len' (sym shape),
      filled-Brings memory uin rs room small u count rows,
      deleted ∙ deleted_if db s.db uin (get_length last.outpack) rs len',
      queues,
      conns,
    )
