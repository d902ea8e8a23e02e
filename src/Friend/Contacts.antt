-- ===== src/Friend/Contacts.antt =====
-- The contacts that get_contacts_info packs, read as a client does.
use mini_im.Base.{
  ℕ, ◌+◌, ◌≤◌, ◌<◌, ◌^◌, ◌≡◌, refl, ◌∙◌, inl, List, [], ◌∷◌, arith, length, get_or, length-append,
}
use mini_im.Bytes.{
  put_at, bytes16, bytes32, get_field_uint16_t, get_field_uint32_t, set_field_uint16_t,
  set_field_uint32_t,
}
use mini_im.Bytes.Laws.{
  length-put_at, put_at_before, put_at_after, put_at_inside, get16_between, get32_between,
  get16-set16, get32-set32,
}
use mini_im.Packet.Laws.{length-set16, length-set32, get32-set16_apart}
use mini_im.Text.{terminated}
use mini_im.Friend.Db.{Fetch, no_query, no_result, no_row, row}
use mini_im.Friend.{put_nick, nick_room, put_contact}

-- A nick whose query does not fail; one that fails would leave the length field as it is.
abbrev pub Asked : Fetch (List ℕ) → Type 0
Asked no_query = ⊥
Asked _ = Unit {0}

-- The text of a nick, with its final 0, lies at `off`.
abbrev pub NickAt : List ℕ → ℕ → Fetch (List ℕ) → Type 0
NickAt memory off (row text) =
    (i : ℕ) → i < length text + 1 → get_or memory (off + i) 0 ≡ get_or (terminated text) i 0
NickAt memory off _ = Unit {0}

-- What get_friend_nick makes of the memory, for a length at `plen` and a nick behind it.
record NickPut (memory memory' : List ℕ) (plen off : ℕ) (nick : Fetch (List ℕ)) : Type 0 where
  size : length memory' ≡ length memory
  before : (j : ℕ) → j < plen → get_or memory' j 0 ≡ get_or memory j 0
  len : get_field_uint16_t memory' plen ≡ nick_room nick
  text : NickAt memory' off nick

put_nick-NickPut :
    (memory : List ℕ) (plen off : ℕ) (nick : Fetch (List ℕ))
    → Asked nick
    → plen + 2 ≤ off
    → off + nick_room nick ≤ length memory
    → length memory < 2 ^ 16
    → NickPut memory (put_nick memory plen off nick) plen off nick
unfolding put_nick set_field_uint16_t
put_nick-NickPut memory plen off no_query asked apart room below = absurd asked
put_nick-NickPut memory plen off no_result asked apart room below = record {
  size = length-set16 memory plen 0;
  before = λ j h. put_at_before memory plen (bytes16 0) j h;
  len = get16-set16 memory plen 0 (omega arith) (omega arith);
  text = tt;
}
put_nick-NickPut memory plen off no_row asked apart room below = record {
  size = length-set16 memory plen 0;
  before = λ j h. put_at_before memory plen (bytes16 0) j h;
  len = get16-set16 memory plen 0 (omega arith) (omega arith);
  text = tt;
}
put_nick-NickPut memory plen off (row text) asked apart room below =
    let m = put_at memory off (terminated text) in
    let full = length-put_at memory off (terminated text) in
    record {
      size = length-set16 m plen (length text + 1) ∙ full;
      before = λ j h.
          put_at_before m plen (bytes16 (length text + 1)) j h
          ∙ put_at_before memory off (terminated text) j (omega arith);
      len = get16-set16 m plen (length text + 1) (omega (arith, full)) (omega arith);
      text = λ i h.
          put_at_after m plen (bytes16 (length text + 1)) (off + i) (omega arith)
          ∙ put_at_inside memory off (terminated text) i (off + i) refl
              (omega (arith, length-append text (0 ∷ [])))
              (omega (arith, length-append text (0 ∷ [])));
    }

-- A contact lies at `off`: the entry of `stats` and the nick.
pub record ContactAt (memory : List ℕ) (off : ℕ) (stats : List ℕ) (nick : Fetch (List ℕ))
    : Type 0 where
  pub uin : get_field_uint32_t memory off ≡ get_field_uint32_t stats 0
  pub stat : get_field_uint16_t memory (off + 4) ≡ get_field_uint16_t stats 4
  pub len : get_field_uint16_t memory (off + 6) ≡ nick_room nick
  pub text : NickAt memory (off + 8) nick

pub NickAt-same :
    (m m' : List ℕ) (off off' : ℕ) (nick : Fetch (List ℕ))
    → ((i : ℕ) → i < nick_room nick → get_or m' (off' + i) 0 ≡ get_or m (off + i) 0)
    → NickAt m off nick
    → NickAt m' off' nick
NickAt-same m m' off off' no_query same t = tt
NickAt-same m m' off off' no_result same t = tt
NickAt-same m m' off off' no_row same t = tt
NickAt-same m m' off off' (row w) same t = λ i h. same i h ∙ t i h

-- Memory that agrees on the bytes of a contact holds it too.
pub ContactAt-same :
    (m m' : List ℕ) (off : ℕ) (stats : List ℕ) (nick : Fetch (List ℕ))
    → ((j : ℕ) → off ≤ j → j < off + 8 + nick_room nick → get_or m' j 0 ≡ get_or m j 0)
    → ContactAt m off stats nick
    → ContactAt m' off stats nick
ContactAt-same m m' off stats nick same c = record {
  uin = get32_between m' m off (λ j p q. same j p (omega arith)) ∙ c.uin;
  stat = get16_between m' m (off + 4) (λ j p q. same j (omega arith) (omega arith)) ∙ c.stat;
  len = get16_between m' m (off + 6) (λ j p q. same j (omega arith) (omega arith)) ∙ c.len;
  text =
      NickAt-same m m' (off + 8) (off + 8) nick
        (λ i h. same (off + 8 + i) (omega arith) (omega arith)) c.text;
}

pub put_contact-ContactAt :
    (memory : List ℕ) (off : ℕ) (stats : List ℕ) (nick : Fetch (List ℕ))
    → Asked nick
    → off + 8 + nick_room nick ≤ length memory
    → length memory < 2 ^ 16
    → get_field_uint32_t stats 0 < 2 ^ 32
    → get_field_uint16_t stats 4 < 2 ^ 16
    → (length (put_contact memory off stats nick) ≡ length memory)
      × ((j : ℕ) → j < off → get_or (put_contact memory off stats nick) j 0 ≡ get_or memory j 0)
      × ContactAt (put_contact memory off stats nick) off stats nick
unfolding put_contact set_field_uint16_t set_field_uint32_t
put_contact-ContactAt memory off stats nick asked room below uin_small stat_small =
    let u = get_field_uint32_t stats 0 in
    let v = get_field_uint16_t stats 4 in
    let a = set_field_uint32_t memory off u in
    let b = set_field_uint16_t a (off + 4) v in
    let la = length-set32 memory off u in
    let lb = length-set16 a (off + 4) v in
    let p =
      put_nick-NickPut b (off + 6) (off + 8) nick asked (omega arith) (omega (arith, la, lb))
        (omega (arith, la, lb)) in
    (
      p.size ∙ lb ∙ la,
      λ j h.
          p.before j (omega arith)
          ∙ put_at_before a (off + 4) (bytes16 v) j (omega arith)
          ∙ put_at_before memory off (bytes32 u) j h,
      record {
        uin =
            get32_between _ b off (λ j l h. p.before j (omega arith))
            ∙ get32-set16_apart a (off + 4) v off (inl (omega arith))
            ∙ get32-set32 memory off u (omega arith) uin_small;
        stat =
            get16_between _ b (off + 4) (λ j l h. p.before j (omega arith))
            ∙ get16-set16 a (off + 4) v (omega (arith, la)) stat_small;
        len = p.len;
        text = p.text;
      },
    )
