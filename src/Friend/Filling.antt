-- ===== src/Friend/Filling.antt =====
-- The loop of get_contacts_info.
use mini_im.Base.{
  ℕ, zero, suc, ◌+◌, ◌*◌, ◌≤◌, ◌<◌, ◌^◌, ◌≡◌, refl, ap, ◌∙◌, List, some, arith, ltb_of_ge, length,
  get_or, drop,
}
use mini_im.Protocol.{max_packet_len}
use mini_im.Bytes.{bytes16, get_field_uint16_t, get_field_uint32_t, set_field_uint16_t}
use mini_im.Bytes.Laws.{put_at_after, get16_between, get16-set16}
use mini_im.Packet.{Packet, get_length, set_length}
use mini_im.Packet.Laws.{length-set16}
use mini_im.Friend.Db.{ContactDb, Fetch}
use mini_im.Friend.{nick_room, put_contact, put_contacts}
use mini_im.Friend.Contacts.{Asked, ContactAt, ContactAt-same, put_contact-ContactAt}

module _ {D : Type 0} (db : ContactDb D) (d : D) where
  abbrev pub nick_of : List ℕ → Fetch (List ℕ)
  nick_of stats = db.nick d (get_field_uint32_t stats 0)

  -- There are `num` entries, their fields fit, every nick is asked for, and the packet has room from
  -- `off` on.
  abbrev pub Room : ℕ → List ℕ → ℕ → Type 0
  Room zero stats off = Unit {0}
  Room (suc num) stats off =
      Asked (nick_of stats)
      × (6 ≤ length stats)
      × (off + 8 + nick_room (nick_of stats) ≤ max_packet_len)
      × (get_field_uint32_t stats 0 < 2 ^ 32)
      × (get_field_uint16_t stats 4 < 2 ^ 16)
      × Room num (drop 6 stats) (off + (8 + nick_room (nick_of stats)))

  abbrev pub ContactsAt : List ℕ → ℕ → ℕ → List ℕ → Type 0
  ContactsAt memory off zero stats = Unit {0}
  ContactsAt memory off (suc num) stats =
      ContactAt memory off stats (nick_of stats)
      × ContactsAt memory (off + (8 + nick_room (nick_of stats))) num (drop 6 stats)

  abbrev pub total : ℕ → List ℕ → ℕ
  total zero stats = 0
  total (suc num) stats = 8 + nick_room (nick_of stats) + total num (drop 6 stats)

  -- What the loop leaves in the packet.
  pub record Filled (o o' : Packet) (off num : ℕ) (stats : List ℕ) : Type 0 where
    pub size : length o' ≡ max_packet_len
    pub len : get_length o' ≡ off + total num stats
    pub kept : (j : ℕ) → 2 ≤ j → j < off → get_or o' j 0 ≡ get_or o j 0
    pub contacts : ContactsAt o' off num stats

  pub total-Room :
      (num : ℕ) (stats : List ℕ) (off : ℕ)
      → off ≤ max_packet_len
      → Room num stats off
      → off + total num stats ≤ max_packet_len
  total-Room zero stats off h room = omega arith
  total-Room (suc num) stats off h (_, _, fits, _, _, room) = omega (
    arith,
    total-Room num (drop 6 stats) (off + (8 + nick_room (nick_of stats))) (omega arith) room,
  )

  pub total_ge : (num : ℕ) (stats : List ℕ) → 8 * num ≤ total num stats
  total_ge zero stats = omega arith
  total_ge (suc num) stats = omega (arith, total_ge num (drop 6 stats))

  put_contacts-suc :
      (num : ℕ) (stats : List ℕ) (o : Packet) (off : ℕ)
      → 6 ≤ length stats
      → off + 8 + nick_room (nick_of stats) ≤ max_packet_len
      → get_field_uint16_t (put_contact o off stats (nick_of stats)) (off + 6)
        ≡ nick_room (nick_of stats)
      → put_contacts db d (suc num) stats o off
        ≡ put_contacts db d num
            (drop 6 stats)
            (set_length (put_contact o off stats (nick_of stats)) (
              get_length (put_contact o off stats (nick_of stats))
              + (8 + nick_room (nick_of stats))))
            (off + (8 + nick_room (nick_of stats)))
  unfolding put_contacts
  put_contacts-suc num stats o off there fits len =
      rw (ltb_of_ge (length stats) 6 there)
        (rw (ltb_of_ge max_packet_len (off + 8 + nick_room (nick_of stats)) fits) (rw len refl))

  -- The header length, written anew.
  set_length_after : (a : Packet) (n j : ℕ) → 2 ≤ j → get_or (set_length a n) j 0 ≡ get_or a j 0
  unfolding set_length set_field_uint16_t
  set_length_after a n j h = put_at_after a 0 (bytes16 n) j h

  get_length-set_length :
      (a : Packet) (n : ℕ)
      → length a ≡ max_packet_len
      → n < 2 ^ 16
      → get_length (set_length a n) ≡ n
  unfolding get_length set_length
  get_length-set_length a n size small = get16-set16 a 0 n (omega arith) small

  pub put_contacts-Filled :
      (num : ℕ) (stats : List ℕ) (o : Packet) (off : ℕ)
      → length o ≡ max_packet_len
      → 14 ≤ off
      → get_length o ≡ off
      → Room num stats off
      → (o' : Packet) × (put_contacts db d num stats o off ≡ some o') × Filled o o' off num stats
  put_contacts-Filled zero stats o off size low len room = (
    o,
    unfold put_contacts in refl,
    record { size = size; len = len ∙ omega arith; kept = λ j p q. refl; contacts = tt },
  )
  put_contacts-Filled (suc num) stats o off size low len
        (asked, there, fits, uin_small, stat_small, room) =
      let nick = nick_of stats in
      let a = put_contact o off stats nick in
      let (full, before, contact) =
        put_contact-ContactAt o off stats nick asked (omega (arith, size)) (omega (arith, size))
          uin_small stat_small in
      let len_a : get_length a ≡ off =
        unfold get_length in get16_between a o 0 (λ j l h. before j (omega arith)) ∙ len in
      let o₁ = set_length a (get_length a + (8 + nick_room nick)) in
      let size₁ : length o₁ ≡ max_packet_len =
        unfold set_length in length-set16 a 0 (get_length a + (8 + nick_room nick)) ∙ full ∙ size in
      let len₁ : get_length o₁ ≡ off + (8 + nick_room nick) =
        get_length-set_length a (get_length a + (8 + nick_room nick)) (full ∙ size)
          (omega (arith, len_a))
        ∙ ap (λ n. n + (8 + nick_room nick)) len_a in
      let apart : (j : ℕ) → 2 ≤ j → get_or o₁ j 0 ≡ get_or a j 0 =
        set_length_after a (get_length a + (8 + nick_room nick)) in
      let (o', run, p) =
        put_contacts-Filled num (drop 6 stats) o₁ (off + (8 + nick_room nick)) size₁ (omega arith)
          len₁ room in
      (
        o',
        put_contacts-suc num stats o off there fits contact.len ∙ run,
        record {
          size = p.size;
          len = p.len ∙ omega arith;
          kept = λ j l h. p.kept j l (omega arith) ∙ apart j l ∙ before j h;
          contacts = (
            ContactAt-same a o' off stats nick
                (λ j l h. p.kept j (omega arith) (omega arith) ∙ apart j (omega arith)) contact,
            p.contacts,
          );
        },
      )
