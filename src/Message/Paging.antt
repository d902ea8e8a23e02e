-- ===== src/Message/Paging.antt =====
-- The rows that message_get packs into a buffer that has room for all of them.
use mini_im.Base.{
  ℕ, suc, ◌+◌, ◌-◌, ◌*◌, ◌≤◌, ◌<◌, ◌^◌, ◌≡◌, ◌≢◌, refl, ap, ap₂, ◌∙◌, ◌⊎◌, inl, inr, List, [], ◌∷◌,
  arith, ltb_of_ge, ◌==◌, length, get_or, All, length-append, test_of_eq, Bool-cases,
}
use mini_im.Protocol.{msg_type_chat}
use mini_im.Bytes.{
  put_at, bytes16, bytes32, get_field_uint16_t, get_field_uint32_t, set_field_uint16_t,
  set_field_uint32_t,
}
use mini_im.Bytes.Laws.{
  length-put_at, put_at_before, put_at_after, put_at_inside, get16-set16, get32-set32, get16_same,
  get32_same,
}
use mini_im.Packet.Laws.{length-set16, length-set32, get16-set16_apart, get32-set16_apart}
use mini_im.Text.{terminated, until_nul}
use mini_im.Text.Laws.{length-until_nul}
use mini_im.Message.Db.{Row, row_length, row_room, put_row, count_row, got, pack_rows}

-- The values of a row fit their fields.
abbrev pub IsRow : Row → Type 0
IsRow r = (r.from_uin < 2 ^ 32) × (r.type < 2 ^ 16)

-- There is room for every row where it comes up.
abbrev pub Fits : ℕ → List Row → Type 0
Fits left [] = Unit {0}
Fits left (r ∷ rs) = (row_room r ≤ left) × Fits (left - (row_length r + 12)) rs

abbrev pub used : List Row → ℕ
used [] = 0
used (r ∷ rs) = row_length r + 12 + used rs

-- The text of a chat message lies at `off`.
abbrev pub TextAt : List ℕ → ℕ → Row → Type 0
TextAt memory off r =
    r.type ≡ msg_type_chat
    → (i : ℕ) → i < length (until_nul r.message) + 1
    → get_or memory (off + i) 0 ≡ get_or (terminated (until_nul r.message)) i 0

-- The rows lie one behind the other from `off` on.
abbrev pub RowsAt : List ℕ → ℕ → List Row → Type 0
RowsAt memory off [] = Unit {0}
RowsAt memory off (r ∷ rs) =
    (get_field_uint32_t memory off ≡ r.from_uin)
    × (get_field_uint16_t memory (off + 8) ≡ r.type)
    × (get_field_uint16_t memory (off + 10) ≡ row_length r)
    × TextAt memory (off + 12) r
    × RowsAt memory (off + (row_length r + 12)) rs

row_length_chat : (r : Row) → r.type ≡ msg_type_chat → row_length r ≡ length r.message + 1
row_length_chat r e = ground (arith, test_of_eq r.type msg_type_chat)

pub row_length_small : (r : Row) → row_length r ≤ length r.message + 1
row_length_small r = ground arith

-- Memory that agrees on the bytes of the rows holds them too.
pub RowsAt-same :
    (a b : List ℕ) (off : ℕ) (rs : List Row)
    → ((j : ℕ) → off ≤ j → j < off + used rs → get_or b j 0 ≡ get_or a j 0)
    → RowsAt a off rs
    → RowsAt b off rs
RowsAt-same a b off [] same w = tt
RowsAt-same a b off (r ∷ rs) same (from, type, size, text, w) = (
  field32 ∙ from,
  field16 8 (omega arith) ∙ type,
  field16 10 (omega arith) ∙ size,
  λ chat i h.
      same (off + 12 + i) (omega arith)
        (omega (arith, row_length_chat r chat, length-until_nul r.message))
      ∙ text chat i h,
  RowsAt-same a b (off + (row_length r + 12)) rs (λ j p q. same j (omega arith) (omega arith)) w,
)
  where
    field16 : (k : ℕ) → k + 2 ≤ 12 → get_field_uint16_t b (off + k) ≡ get_field_uint16_t a (off + k)
    field16 k h =
        unfold get_field_uint16_t in
        ap₂ (λ x y. x + 256 * y) (same (off + k) (omega arith) (omega arith))
          (same (suc (off + k)) (omega arith) (omega arith))

    field32 : get_field_uint32_t b off ≡ get_field_uint32_t a off
    field32 =
        unfold get_field_uint32_t in
        omega (
          arith,
          same off (omega arith) (omega arith),
          same (suc off) (omega arith) (omega arith),
          same (suc (suc off)) (omega arith) (omega arith),
          same (suc (suc (suc off))) (omega arith) (omega arith),
        )

-- What a run of the loop makes of the memory when every row fits: the rows from `off` on, the count
-- at `at`, and the other bytes in front of the rows as before.
pub record Page (memory memory' : List ℕ) (at off : ℕ) (rs : List Row) : Type 0 where
  pub rows : RowsAt memory' off rs
  pub kept : (j : ℕ) → j < off → (j < at) ⊎ (at + 2 ≤ j) → get_or memory' j 0 ≡ get_or memory j 0
  pub count : get_field_uint16_t memory' at ≡ get_field_uint16_t memory at + length rs
  pub size : length memory' ≡ length memory

-- One row that was written.
module _ (memory : List ℕ) (at off : ℕ) (r : Row) (ok : IsRow r) (apart : at + 2 ≤ off)
    (room : off + row_room r ≤ length memory) (below : length memory < 2 ^ 16) where
  abbrev a : List ℕ
  a = set_field_uint32_t memory off r.from_uin

  abbrev b : List ℕ
  b = set_field_uint16_t a (off + 8) r.type

  abbrev c : List ℕ
  c = set_field_uint16_t b (off + 10) (row_length r)

  abbrev d : List ℕ
  d = put_row memory off r

  length-a : length a ≡ length memory
  length-a = length-set32 memory off r.from_uin

  length-b : length b ≡ length memory
  length-b = length-set16 a (off + 8) r.type ∙ length-a

  length-c : length c ≡ length memory
  length-c = length-set16 b (off + 10) (row_length r) ∙ length-b

  -- Beyond the three fields there is the text or nothing.
  text_or_none :
      (d ≡ put_at c (off + 12) (terminated (until_nul r.message)))
      ⊎ ((d ≡ c) × (r.type ≢ msg_type_chat))
  unfolding put_row
  text_or_none = elim (Bool-cases (r.type == msg_type_chat)) [
    | inl is ↦ inl (rw is refl)
    | inr other ↦ inr (rw other refl, λ e. ground (arith, test_of_eq r.type msg_type_chat))
  ]

  length-d : length d ≡ length memory
  length-d = elim text_or_none [
    | inl e ↦ ap length e ∙ length-put_at c (off + 12) (terminated (until_nul r.message)) ∙ length-c
    | inr (e, _) ↦ ap length e ∙ length-c
  ]

  field_d : (j : ℕ) → j < off + 12 → get_or d j 0 ≡ get_or c j 0
  field_d j h = elim text_or_none [
    | inl e ↦
        ap (λ m. get_or m j 0) e ∙ put_at_before c (off + 12) (terminated (until_nul r.message)) j h
    | inr (e, _) ↦ ap (λ m. get_or m j 0) e
  ]

  -- The bytes in front of the row.
  before_d : (j : ℕ) → j < off → get_or d j 0 ≡ get_or memory j 0
  unfolding set_field_uint16_t set_field_uint32_t
  before_d j h =
      field_d j (omega arith)
      ∙ put_at_before b (off + 10) (bytes16 (row_length r)) j (omega arith)
      ∙ put_at_before a (off + 8) (bytes16 r.type) j (omega arith)
      ∙ put_at_before memory off (bytes32 r.from_uin) j h

  from_d : get_field_uint32_t d off ≡ r.from_uin
  from_d =
      get32_same d c off (λ j h. field_d j (omega arith))
      ∙ get32-set16_apart b (off + 10) (row_length r) off (inl (omega arith))
      ∙ get32-set16_apart a (off + 8) r.type off (inl (omega arith))
      ∙ get32-set32 memory off r.from_uin (omega arith) ok.0

  type_d : get_field_uint16_t d (off + 8) ≡ r.type
  type_d =
      get16_same d c (off + 8) (λ j h. field_d j (omega arith))
      ∙ get16-set16_apart b (off + 10) (row_length r) (off + 8) (inl (omega arith))
      ∙ get16-set16 a (off + 8) r.type (omega (arith, length-a)) ok.1

  len_d : get_field_uint16_t d (off + 10) ≡ row_length r
  len_d =
      get16_same d c (off + 10) (λ j h. field_d j (omega arith))
      ∙ get16-set16 b (off + 10) (row_length r) (omega (arith, length-b))
          (omega (arith, row_length_small r))

  text_d : TextAt d (off + 12) r
  text_d chat i h = elim text_or_none [
    | inl e ↦
        ap (λ m. get_or m (off + 12 + i) 0) e
        ∙ put_at_inside c (off + 12) (terminated (until_nul r.message)) i (off + 12 + i) refl
            (omega (arith, length-append (until_nul r.message) (0 ∷ [])))
            (omega (
              arith,
              length-append (until_nul r.message) (0 ∷ []),
              length-until_nul r.message,
              length-c,
            ))
    | inr (_, other) ↦ absurd (other chat)
  ]

  -- The row is counted.
  beside_count : (j : ℕ) → (j < at) ⊎ (at + 2 ≤ j) → get_or (count_row d at) j 0 ≡ get_or d j 0
  unfolding set_field_uint16_t
  beside_count j (inl h) = put_at_before d at (bytes16 (get_field_uint16_t d at + 1)) j h
  beside_count j (inr h) = put_at_after d at (bytes16 (get_field_uint16_t d at + 1)) j h

  length-count : length (count_row d at) ≡ length memory
  length-count = length-set16 d at (get_field_uint16_t d at + 1) ∙ length-d

  counted :
      get_field_uint16_t memory at + 1 < 2 ^ 16
      → get_field_uint16_t (count_row d at) at ≡ get_field_uint16_t memory at + 1
  counted small =
      let same : get_field_uint16_t d at ≡ get_field_uint16_t memory at =
        get16_same d memory at (λ j h. before_d j (omega arith)) in
      get16-set16 d at (get_field_uint16_t d at + 1) (omega (arith, length-d)) (omega (arith, same))
      ∙ ap (λ n. n + 1) same

  -- A row in front of those that the rest of the loop writes.
  Page-cons :
      (memory' : List ℕ) (rs : List Row)
      → get_field_uint16_t memory at + 1 < 2 ^ 16
      → Page (count_row d at) memory' at (off + (row_length r + 12)) rs
      → Page memory memory' at off (r ∷ rs)
  Page-cons memory' rs small page =
      let own : RowsAt memory' off (r ∷ []) =
        RowsAt-same d memory' off (r ∷ [])
          (λ j p q.
            page.kept j (omega arith) (inr (omega arith)) ∙ beside_count j (inr (omega arith)))
          (from_d, type_d, len_d, text_d, tt) in
      record {
        rows = (own.0, own.1, own.2, own.3, page.rows);
        kept = λ j h side. page.kept j (omega arith) side ∙ beside_count j side ∙ before_d j h;
        count = page.count ∙ omega (arith, counted small);
        size = page.size ∙ length-count;
      }

pack_rows-cons :
    (r : Row) (rs : List Row) (memory : List ℕ) (at off left : ℕ)
    → row_room r ≤ left
    → pack_rows (length (r ∷ rs)) (r ∷ rs) memory at off left
      ≡ pack_rows
          (length rs)
          rs
          (count_row (put_row memory off r) at)
          at
          (off + (row_length r + 12))
          (left - (row_length r + 12))
unfolding pack_rows
pack_rows-cons r rs memory at off left fit = rw (ltb_of_ge left (row_room r) fit) refl

-- The rows fill the page one behind the other, and the count grows by their number.
pub pack_rows-Page :
    (rs : List Row) (memory : List ℕ) (at off left : ℕ)
    → All IsRow rs
    → Fits left rs
    → at + 2 ≤ off
    → off + left ≤ length memory
    → length memory < 2 ^ 16
    → get_field_uint16_t memory at + left < 2 ^ 16
    → (memory' : List ℕ) × (pack_rows (length rs) rs memory at off left
        ≡ got memory' (left - used rs) (record { rows = 0; rest = [] }))
      × Page memory memory' at off rs
pack_rows-Page [] memory at off left ok fits apart room below small = (
  memory,
  unfold pack_rows in ap (λ n. got memory n (record { rows = 0; rest = [] })) (omega arith),
  record { rows = tt; kept = λ j h side. refl; count = omega arith; size = refl },
)
pack_rows-Page (r ∷ rs) memory at off left (ok, oks) (fit, fits) apart room below small =
    let size = row_length r + 12 in
    let e = count_row (put_row memory off r) at in
    let length_e = length-count memory at off r ok apart (omega arith) below in
    let (memory', run, page) =
      pack_rows-Page rs e at (off + size) (left - size) oks fits (omega arith)
        (omega (arith, length_e, row_length_small r)) (omega (arith, length_e))
        (omega (
          arith,
          counted memory at off r ok apart (omega arith) below (omega arith),
          row_length_small r,
        )) in
    (
      memory',
      pack_rows-cons r rs memory at off left fit
          ∙ run
          ∙ ap (λ n. got memory' n (record { rows = 0; rest = [] })) (omega arith),
      Page-cons memory at off r ok apart (omega arith) below memory' rs (omega arith) page,
    )
