-- ===== src/Message/Keeping.antt =====
-- A chat message to an offline user, from its packet through the database to the user's request for
-- the offline messages.
use mini_im.Base.{
  ℕ, ◌+◌, ◌≤◌, ◌<◌, ◌^◌, ◌≡◌, ◌≢◌, All, refl, subst, ap, ◌∙◌, List, [], ◌∷◌, ◌++◌, none, some,
  arith, ltb_of_lt, length, take, drop, test_of_eq,
}
use mini_im.Protocol.{max_packet_len, cmd_message_code, msg_type_chat}
use mini_im.Bytes.{get_field_uint32_t}
use mini_im.Packet.{Packet, get_length, get_command, get_uin, get_parameters}
use mini_im.Packet.Laws.{received}
use mini_im.Status
use mini_im.Status.{presence, status_packet, get_status, replied}
use mini_im.Text.Laws.{cstring-NonZero, cstring-terminated, until_nul-NonZero}
use mini_im.Text.{cstring, printed, until_nul}
use mini_im.Message.Db.{OfflineDb, Row, query_size, message_store, message_delete}
use mini_im.Message.{
  Msg, Server, update, last_user, message_packet, store_all, store_offline_msg, on_offline_msg,
}
use mini_im.Message.Pages.{Brings, on_offline_msg-Brings}
use mini_im.Message.Asking.{answer}
use mini_im.Message.Delivery.{exchange, chat, asking}

-- A byte that stands for itself between the quotes of a statement: neither a quote nor a backslash,
-- and of ASCII, so that no character set matters.
abbrev pub IsPlain : ℕ → Type 0
IsPlain b = (0 < b) × (b < 128) × (b ≢ 39) × (b ≢ 92)

-- What MySQL promises of a row that is inserted for a user without rows, for numbers that `%d` prints
-- and the columns hold, and for a text of plain bytes that the column has room for.
pub record InsertLaw {D : Type 0} (db : OfflineDb D) : Type 0 where
  pub found :
      (d d' : D) (from to type : ℕ) (text : List ℕ)
      → from < 2 ^ 31
      → to < 2 ^ 31
      → type < 2 ^ 8
      → All IsPlain text
      → length text ≤ 4096
      → db.insert d from to type text ≡ some d'
      → db.select d to ≡ some []
      → db.select d' to ≡ some (record { from_uin = from; type = type; message = text } ∷ [])

module _ {D : Type 0} (db : OfflineDb D) where
  open db use {insert, select}

  store_offline_msg_one :
      (s : Server D) (d : D) (uin : ℕ) (m : Msg) (text : List ℕ)
      → s.queues uin ≡ m ∷ []
      → cstring m.msg_str ≡ some text
      → insert s.db m.from_uin uin m.type text ≡ some d
      → 65 + printed m.from_uin + printed uin + printed m.type + length text < query_size
      → store_offline_msg db s uin ≡ some (record s { db = d; queues = update s.queues uin [] })
  unfolding store_offline_msg store_all message_store
  store_offline_msg_one s d uin m text waiting reads inserted fits =
      rw waiting (rw reads (rw (ltb_of_lt _ _ fits) (rw inserted refl)))

-- A chat message to an offline user is kept until the user asks for it: the message server asks the
-- status server, stores the message on the answer, and on a later CMD_OFFLINE_MSG of the user writes
-- one packet, to the socket that asked, which a client reads as this one message with its sender and
-- text; then it is deleted from the table. The text has ASCII bytes only, no quote and no backslash,
-- since it is not escaped in the query, and the sender is below 2^31. No message waits for the user
-- before and none is stored; the insertion succeeds and its query fits its buffer. Each server reads the other's packet into its
-- own buffer, whatever that held.
pub chat_kept :
    {D : Type 0} (db : OfflineDb D) (law : InsertLaw db) (s : Server D) (d : D) (st : Status.Server)
    (inpack buf out buf' asks : Packet) (fd fd' uin : ℕ) (memory text : List ℕ)
    → length s.outpack ≡ max_packet_len
    → length buf ≡ max_packet_len
    → length out ≡ max_packet_len
    → length buf' ≡ max_packet_len
    → get_command inpack ≡ cmd_message_code
    → get_field_uint32_t (get_parameters inpack) 0 ≡ uin
    → cstring (drop 10 (get_parameters inpack)) ≡ some text
    → length text < length memory
    → 0 < uin
    → uin < last_user
    → get_uin inpack < 2 ^ 31
    → All IsPlain text
    → get_status st uin ≡ some (presence 0 0 0)
    → s.queues uin ≡ []
    → db.select s.db uin ≡ some []
    → db.insert s.db (get_uin inpack) uin msg_type_chat text ≡ some d
    → 65 + printed (get_uin inpack) + printed uin + printed msg_type_chat + length text < query_size
    → get_uin asks ≡ uin
    → (s₁ s₂ s₃ : Server D) × (o pk : Packet) × (message_packet db (some memory) s inpack fd
        ≡ some s₁)
      × (status_packet st (received buf s₁.outpack) out ≡ replied st o (take (get_length o) o))
      × (message_packet db none s₁ (received buf' o) s.status_fd ≡ some s₂)
      × (s₂.queues uin ≡ [])
      × (on_offline_msg db s₂ asks fd' ≡ some s₃)
      × (s₃.writes ≡ s₂.writes ++ (fd', pk) ∷ [])
      × Brings uin
          (record { from_uin = get_uin inpack; type = msg_type_chat; message = text } ∷ [])
          pk
      × (until_nul text ≡ text)
      × (s₃.db ≡ message_delete db d uin)
chat_kept db law s d st inpack buf out buf' asks fd fd' uin memory text size size_buf size_out
      size_buf' cmd to reads room known small sender plain offline empty unstored inserted fits
      asker =
    let e =
      exchange db s st inpack buf out buf' fd uin 0 0 0 memory text size size_buf size_out size_buf'
        cmd to reads room small offline (omega arith) (omega arith) (omega arith) in
    let s₁ = asking db s uin (chat inpack memory text) in
    let s₂ = record s₁ { db = d; queues = update s₁.queues uin [] } in
    let row : Row = record { from_uin = get_uin inpack; type = msg_type_chat; message = text } in
    let stored : store_offline_msg db s₁ uin ≡ some s₂ =
      store_offline_msg_one db s₁ d uin (chat inpack memory text) text
        (e.queue ∙ ap (λ q. chat inpack memory text ∷ q) empty)
        (cstring-terminated memory text
          (cstring-NonZero (drop 10 (get_parameters inpack)) text reads) room)
        (ap (λ b. db.insert b (get_uin inpack) uin msg_type_chat text) e.database ∙ inserted)
        fits in
    let (s₃, pk, run, writes, brings, deleted, _, _) =
      on_offline_msg-Brings db s₂ asks fd' (row ∷ [])
        (ap (db.select d) asker
          ∙ law.found s.db d (get_uin inpack) uin msg_type_chat text sender (omega arith)
              (omega arith) plain (omega arith) inserted unstored)
        (omega arith) (omega arith) e.size ((omega arith, omega arith), tt) (omega arith, tt) in
    (
      s₁,
      s₂,
      s₃,
      answer out uin uin 0 0 0,
      pk,
      e.asks,
      e.answers,
      e.goes_on ∙ stored,
      rw (test_of_eq uin uin refl) refl,
      run,
      writes,
      subst (λ u. Brings u (row ∷ []) pk) asker brings,
      until_nul-NonZero text (cstring-NonZero (drop 10 (get_parameters inpack)) text reads),
      deleted ∙ ap (message_delete db d) asker,
    )
