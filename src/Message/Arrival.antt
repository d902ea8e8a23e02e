-- ===== src/Message/Arrival.antt =====
-- A chat message from its packet to its receiver, through the message server and the status server.
use mini_im.Base.{
  ℕ, ◌<◌, ◌^◌, ◌≡◌, refl, ap, ◌∙◌, List, [], ◌∷◌, ◌++◌, none, some, arith, length, take, drop, map,
  All, test_of_eq,
}
use mini_im.Protocol.{max_packet_len, cmd_message_code}
use mini_im.Bytes.{get_field_uint32_t}
use mini_im.Packet.{Packet, get_length, get_command, get_parameters}
use mini_im.Packet.Laws.{received}
use mini_im.Status
use mini_im.Status.{presence, status_packet, get_status, replied}
use mini_im.Text.{cstring}
use mini_im.Message.Db.{OfflineDb}
use mini_im.Message.{Server, last_user, message_packet, con_to_fd}
use mini_im.Message.Sending.{IsSendable, AllCarry, to_fd, send_msg-Carries}
use mini_im.Message.Asking.{answer}
use mini_im.Message.Delivery.{exchange, chat, asking}

-- A chat message to an online user whose connection server is known arrives: the message server asks
-- the status server with one packet, the status server answers it with the user's address, and on that
-- answer the message server writes to that connection server the new message and behind it every
-- message that waited before, each in a packet that a client reads as that message. The user's queue
-- is empty then. Each server reads the other's packet into its own buffer, whatever that held. The
-- messages and the address fit their fields, and the receiver is below MAX_USER.
pub chat_delivered :
    {D : Type 0} (db : OfflineDb D) (s : Server D) (st : Status.Server)
    (inpack buf out buf' : Packet) (fd uin ip port con : ℕ) (memory text : List ℕ)
    → length s.outpack ≡ max_packet_len
    → length buf ≡ max_packet_len
    → length out ≡ max_packet_len
    → length buf' ≡ max_packet_len
    → get_command inpack ≡ cmd_message_code
    → get_field_uint32_t (get_parameters inpack) 0 ≡ uin
    → cstring (drop 10 (get_parameters inpack)) ≡ some text
    → length text < length memory
    → uin < last_user
    → get_status st uin ≡ some (presence 1 ip port)
    → ip < 2 ^ 32
    → port < 2 ^ 16
    → con_to_fd s.conns ip port ≡ some con
    → All IsSendable (chat inpack memory text ∷ s.queues uin)
    → (s₁ s₂ : Server D) × (o : Packet) × (pks : List Packet) × (message_packet db
          (some memory)
          s
          inpack
          fd
        ≡ some s₁)
      × (s₁.writes ≡ s.writes ++ (s.status_fd, take (get_length s₁.outpack) s₁.outpack) ∷ [])
      × (status_packet st (received buf s₁.outpack) out ≡ replied st o (take (get_length o) o))
      × (message_packet db none s₁ (received buf' o) s.status_fd ≡ some s₂)
      × (s₂.writes ≡ s₁.writes ++ map (to_fd con) pks)
      × AllCarry uin (chat inpack memory text ∷ s.queues uin) pks
      × (s₂.queues uin ≡ [])
chat_delivered db s st inpack buf out buf' fd uin ip port con memory text size size_buf size_out
      size_buf' cmd to reads room small known ip_small port_small through ok =
    let e =
      exchange db s st inpack buf out buf' fd uin 1 ip port memory text size size_buf size_out
        size_buf' cmd to reads room small known (omega arith) ip_small port_small in
    let s₁ = asking db s uin (chat inpack memory text) in
    let (s₂, pks, run, writes, carry, queues, _, _) =
      send_msg-Carries s₁ uin ip port con (chat inpack memory text) (s.queues uin) e.queue
        (ap (λ cs. con_to_fd cs ip port) e.conns ∙ through) e.size (omega arith) ok in
    (
      s₁,
      s₂,
      answer out uin uin 1 ip port,
      pks,
      e.asks,
      e.writes,
      e.answers,
      e.goes_on ∙ run,
      writes,
      carry,
      queues uin ∙ rw (test_of_eq uin uin refl) refl,
    )
