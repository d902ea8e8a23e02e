-- ===== src/Friend/Info.antt =====
-- REP_MULTI_STATUS: the status of a user's contacts, with their nicks, goes to the user.
use mini_im.Base.{
  ℕ, zero, suc, ◌+◌, ◌≤◌, ◌<◌, ◌^◌, ◌≡◌, refl, sym, subst, ap, ap₂, ◌∙◌, test_of_eq, inl, inr, List,
  [], ◌∷◌, ◌++◌, some, arith, ltb_of_ge, leb_of_gt, length, get_or, take, drop, length-take, ◌>>=◌,
}
use mini_im.Protocol.{max_packet_len, cmd_multi_status_code, srv_contact_info_multi_code}
use mini_im.Bytes.{
  put_at, get_field_uint16_t, get_field_uint32_t, set_field_uint16_t, set_field_uint32_t,
}
use mini_im.Bytes.Laws.{
  length-put_at, get_or-take, get16_between, get32_between, get16-set16, get32-set32, get16-take,
  get32-take,
}
use mini_im.Packet.{
  Packet, get_length, get_command, get_uin, set_length, set_version, set_command, set_uin,
  get_parameters, set_param_uint16_t,
}
use mini_im.Packet.Laws.{
  length-set16, length-set32, get16-set16_apart, get16-set32_apart, get32-set16_apart, get16-drop,
  get32-drop, get_or-drop,
}
use mini_im.Packet.Fields.{
  scim_get_contact_count, scim_get_first_ptr, scim_get_uin, scim_get_status, scim_get_nick_length,
  scim_get_nick, scim_get_next_ptr,
}
use mini_im.Friend.Db.{ContactDb}
use mini_im.Friend.{
  Server, nick_room, get_contacts_info, on_contact_info, on_multi_status, fdmap_size,
}
use mini_im.Friend.Contacts.{NickAt, NickAt-same}
use mini_im.Friend.Filling.{
  nick_of, Room, ContactsAt, total, Filled, total-Room, total_ge, put_contacts-Filled,
}

module _ {D : Type 0} (db : ContactDb D) (d : D) where
  -- The contacts as the accessors find them, from the one at `current` on.
  abbrev pub Told : List ℕ → ℕ → List ℕ → Type 0
  Told current zero stats = Unit {0}
  Told current (suc num) stats =
      (scim_get_uin current ≡ get_field_uint32_t stats 0)
      × (scim_get_status current ≡ get_field_uint16_t stats 4)
      × (scim_get_nick_length current ≡ nick_room (db.nick d (get_field_uint32_t stats 0)))
      × NickAt (scim_get_nick current) 0 (db.nick d (get_field_uint32_t stats 0))
      × Told (scim_get_next_ptr current) num (drop 6 stats)

  -- What a client reads of a packet: the `num` contacts of `stats` for the user `uin`.
  pub record Tells (uin num : ℕ) (stats : List ℕ) (pk : Packet) : Type 0 where
    pub whole : get_length pk ≡ length pk
    pub command : get_command pk ≡ srv_contact_info_multi_code
    pub receiver : get_uin pk ≡ uin
    pub count : scim_get_contact_count pk ≡ num
    pub contacts : Told (scim_get_first_ptr pk) num stats

  Told-ContactsAt :
      (memory : List ℕ) (off last : ℕ) (current : List ℕ) (num : ℕ) (stats : List ℕ)
      → off + total db d num stats ≤ last
      → ((j : ℕ) → off + j < last → get_or current j 0 ≡ get_or memory (off + j) 0)
      → ContactsAt db d memory off num stats
      → Told current num stats
  unfolding scim_get_uin scim_get_status scim_get_nick_length scim_get_nick scim_get_next_ptr
  Told-ContactsAt memory off last current zero stats fits same w = tt
  Told-ContactsAt memory off last current (suc num) stats fits same (c, w) =
      let view = λ (j : ℕ) (h : off + j < last). same j h ∙ sym (get_or-drop off memory j) in
      let len : get_field_uint16_t current 6 ≡ nick_room (nick_of db d stats) =
        get16_between current (drop off memory) 6 (λ j l h. view j (omega arith))
        ∙ get16-drop off memory 6
        ∙ c.len in
      let next = 8 + get_field_uint16_t current 6 in
      (
        get32_between current (drop off memory) 0 (λ j l h. view j (omega arith))
            ∙ get32-drop off memory 0
            ∙ ap (get_field_uint32_t memory) (omega arith)
            ∙ c.uin,
        get16_between current (drop off memory) 4 (λ j l h. view j (omega arith))
            ∙ get16-drop off memory 4
            ∙ c.stat,
        len,
        NickAt-same memory (drop 8 current) (off + 8) 0 (nick_of db d stats)
            (λ i h.
              get_or-drop 8 current (0 + i)
              ∙ same (8 + (0 + i)) (omega arith)
              ∙ ap (λ k. get_or memory k 0) (omega arith))
            c.text,
        Told-ContactsAt memory (off + (8 + nick_room (nick_of db d stats))) last (drop next current)
            num (drop 6 stats) (omega arith)
            (λ j h.
              get_or-drop next current j
              ∙ same (next + j) (omega (arith, len))
              ∙ ap (λ k. get_or memory k 0) (omega (arith, len)))
            w,
      )

-- What the header of REP_MULTI_STATUS becomes.
abbrev headed : Packet → ℕ → ℕ → Packet
headed o uin num =
    set_length
      (set_param_uint16_t (set_uin (set_command (set_version o 1) srv_contact_info_multi_code) uin)
        0 num)
      14

record Headed (o : Packet) (uin num : ℕ) : Type 0 where
  size : length o ≡ max_packet_len
  len : get_length o ≡ 14
  cmd : get_field_uint16_t o 4 ≡ srv_contact_info_multi_code
  uin_is : get_field_uint32_t o 8 ≡ uin
  count : get_field_uint16_t o 12 ≡ num

headed-Headed :
    (o : Packet) (uin num : ℕ)
    → length o ≡ max_packet_len
    → uin < 2 ^ 32
    → num < 2 ^ 16
    → Headed (headed o uin num) uin num
unfolding set_length set_param_uint16_t set_uin set_command set_version get_length
headed-Headed o uin num size small few =
    let a = set_field_uint16_t o 2 1 in
    let b = set_field_uint16_t a 4 srv_contact_info_multi_code in
    let c = set_field_uint32_t b 8 uin in
    let d = set_field_uint16_t c 12 num in
    let la : length a ≡ max_packet_len = length-set16 o 2 1 ∙ size in
    let lb : length b ≡ max_packet_len = length-set16 a 4 srv_contact_info_multi_code ∙ la in
    let lc : length c ≡ max_packet_len = length-set32 b 8 uin ∙ lb in
    let ld : length d ≡ max_packet_len = length-set16 c 12 num ∙ lc in
    record {
      size = length-set16 d 0 14 ∙ ld;
      len = get16-set16 d 0 14 (omega arith) (omega arith);
      cmd =
          get16-set16_apart d 0 14 4 (inr (omega arith))
          ∙ get16-set16_apart c 12 num 4 (inl (omega arith))
          ∙ get16-set32_apart b 8 uin 4 (inl (omega arith))
          ∙ get16-set16 a 4 srv_contact_info_multi_code (omega arith) (omega arith);
      uin_is =
          get32-set16_apart d 0 14 8 (inr (omega arith))
          ∙ get32-set16_apart c 12 num 8 (inl (omega arith))
          ∙ get32-set32 b 8 uin (omega arith) small;
      count =
          get16-set16_apart d 0 14 12 (inr (omega arith)) ∙ get16-set16 c 12 num (omega arith) few;
    }

-- The packet as it is written.
sent-Tells :
    {D : Type 0} (db : ContactDb D) (d : D) (o o' : Packet) (uin num : ℕ) (stats : List ℕ)
    → Headed o uin num
    → Filled db d o o' 14 num stats
    → 14 + total db d num stats ≤ max_packet_len
    → Tells db d uin num stats (take (get_length o') o')
unfolding get_length get_command get_uin scim_get_contact_count scim_get_first_ptr
sent-Tells db d o o' uin num stats h p fits =
    let len = get_length o' in
    let pk = take len o' in
    let same16 = λ (i : ℕ) (l : 2 ≤ i) (r : i + 2 ≤ 14).
      get16-take len o' i (omega (arith, p.len))
      ∙ get16_between o' o i (λ j a b. p.kept j (omega arith) (omega arith)) in
    record {
      whole =
          get16-take len o' 0 (omega (arith, p.len))
          ∙ omega (arith, length-take len o', p.len, p.size);
      command = same16 4 (omega arith) (omega arith) ∙ h.cmd;
      receiver =
          get32-take len o' 8 (omega (arith, p.len))
          ∙ get32_between o' o 8 (λ j a b. p.kept j (omega arith) (omega arith))
          ∙ h.uin_is;
      count = get16-drop 12 pk 0 ∙ same16 12 (omega arith) (omega arith) ∙ h.count;
      contacts =
          Told-ContactsAt db d o' 14 len (drop 2 (drop 12 pk)) num stats (omega (arith, p.len))
            (λ j b.
              get_or-drop 2 (drop 12 pk) j
              ∙ get_or-drop 12 pk (2 + j)
              ∙ get_or-take len o' (12 + (2 + j)) (omega arith)
              ∙ ap (λ k. get_or o' k 0) (omega arith))
            p.contacts;
    }

-- The answer of the status server, in the state that it comes in.
on_multi_status-told :
    {D : Type 0} (db : ContactDb D) (s : Server D) (inpack : Packet) (num : ℕ)
    → get_field_uint16_t (get_parameters inpack) 0 ≡ num
    → length s.outpack ≡ max_packet_len
    → get_uin inpack < fdmap_size
    → Room db s.db num (drop 2 (get_parameters inpack)) 14
    → (s' : Server D) × (pk : Packet) × (on_multi_status db s inpack ≡ some s')
      × (s'.writes ≡ s.writes ++ (s.fdmap (get_uin inpack), pk) ∷ [])
      × Tells db s.db (get_uin inpack) num (drop 2 (get_parameters inpack)) pk
unfolding on_multi_status get_contacts_info get_field_uint16_t
on_multi_status-told db s inpack num number size small room =
    let uin = get_uin inpack in
    let stats = drop 2 (get_parameters inpack) in
    let fits = total-Room db s.db num stats 14 (omega arith) room in
    let h =
      headed-Headed s.outpack uin num size (omega arith)
        (omega (arith, fits, total_ge db s.db num stats)) in
    let (o, run, p) =
      put_contacts-Filled db s.db num stats (headed s.outpack uin num) 14 h.size (omega arith) h.len
        room in
    (
      record s { outpack = o; writes = s.writes ++ (s.fdmap uin, take (get_length o) o) ∷ [] },
      take (get_length o) o,
      rw (number, on_multi_status)
          (rw (run, ◌>>=◌)
            (rw (leb_of_gt fdmap_size uin small)
              (rw (ltb_of_ge max_packet_len (get_length o) (omega (arith, p.len))) refl))),
      refl,
      sent-Tells db s.db (headed s.outpack uin num) o uin num stats h p fits,
    )

-- What CMD_CONTACT_INFO_MULTI leaves, when it is passed on.
record Asked {D : Type 0} (s s₁ : Server D) (uin sockfd : ℕ) : Type 0 where
  recorded : s₁.fdmap uin ≡ sockfd
  size : length s₁.outpack ≡ length s.outpack
  database : s₁.db ≡ s.db
  written : s₁.writes ≡ s.writes ++ (s.status_fd, take (get_length s₁.outpack) s₁.outpack) ∷ []

on_contact_info-Asked :
    {D : Type 0} (s s₁ : Server D) (asks : Packet) (sockfd : ℕ)
    → on_contact_info s asks sockfd ≡ some s₁
    → Asked s s₁ (get_uin asks) sockfd
unfolding on_contact_info set_command
on_contact_info-Asked s s₁ asks sockfd e =
    let out = put_at s.outpack 0 (take (get_length asks) asks) in
    let full : length (set_field_uint16_t out 4 cmd_multi_status_code) ≡ length s.outpack =
      length-set16 out 4 cmd_multi_status_code ∙ length-put_at s.outpack 0 _ in
    record {
      recorded = ground (arith, test_of_eq (get_uin asks) (get_uin asks));
      size = ground (arith, full);
      database = ground arith;
      written = ground arith;
    }

-- CMD_CONTACT_INFO_MULTI and the answer to it: when the request of a user comes from a connection
-- server and is passed on, one packet goes to the status server; on the REP_MULTI_STATUS for this user
-- that comes next one packet is written to the socket that the request came from, and a client that
-- walks through it with the accessors of list_packet.h finds the command SRV_CONTACT_INFO_MULTI, the
-- user, the number of contacts and each of them in the order of the answer, with its uin and its status
-- from the answer, and the length and the text of its nick from the database (length 0 for a uin
-- without a row). There is room for the nicks in one packet, no query for a nick fails, and the user is
-- below MAX_USER.
pub on_multi_status-Tells :
    {D : Type 0} (db : ContactDb D) (s s₁ : Server D) (asks inpack : Packet) (sockfd num : ℕ)
    → on_contact_info s asks sockfd ≡ some s₁
    → get_uin inpack ≡ get_uin asks
    → get_uin asks < fdmap_size
    → get_field_uint16_t (get_parameters inpack) 0 ≡ num
    → length s.outpack ≡ max_packet_len
    → Room db s.db num (drop 2 (get_parameters inpack)) 14
    → (s₂ : Server D) × (request pk : Packet) × (on_multi_status db s₁ inpack ≡ some s₂)
      × (s₂.writes ≡ (s.writes ++ (s.status_fd, request) ∷ []) ++ (sockfd, pk) ∷ [])
      × Tells db s.db (get_uin asks) num (drop 2 (get_parameters inpack)) pk
on_multi_status-Tells db s s₁ asks inpack sockfd num passed user small number size room =
    let q = on_contact_info-Asked s s₁ asks sockfd passed in
    let stats = drop 2 (get_parameters inpack) in
    let (s₂, pk, run, writes, tells) =
      on_multi_status-told db s₁ inpack num number (q.size ∙ size) (omega (arith, user))
        (subst (λ d. Room db d num stats 14) (sym q.database) room) in
    (
      s₂,
      take (get_length s₁.outpack) s₁.outpack,
      pk,
      run,
      writes ∙ ap₂ (λ w f. w ++ (f, pk) ∷ []) q.written (ap s₁.fdmap user ∙ q.recorded),
      subst (λ u. Tells db s.db u num stats pk) user
          (subst (λ d. Tells db d (get_uin inpack) num stats pk) q.database tells),
    )
