-- ===== src/Packet/Laws.antt =====
-- What the accessors read of a packet after its fields were written.
use mini_im.Base.{
  ℕ, ◌+◌, ◌*◌, ◌≤◌, ◌<◌, ◌^◌, ◌≡◌, refl, inl, ◌∙◌, zero, suc, List, [], ◌∷◌, arith, length, get_or,
  drop, length-replicate, replicate, take, length-take, ap, ap₂, sym, ◌⊎◌,
}
use mini_im.Protocol.{max_packet_len, packet_header_len}
use mini_im.Bytes.{
  put_at, bytes16, bytes32, get_field_uint16_t, get_field_uint32_t, set_field_uint16_t,
  set_field_uint32_t,
}
use mini_im.Bytes.Laws.{
  length-put_at, get_or-take, put_at_after, put_at_head, get16_same, get32_same, get16-set16,
  get32-set32, get16-put_at_apart, get32-put_at_apart,
}
use mini_im.Packet.{
  Packet, packet_init, get_length, get_version, get_command, get_uin, fill_packet_header,
}

pub length-packet_init : length packet_init ≡ max_packet_len
unfolding packet_init
length-packet_init = length-replicate {A = ℕ} max_packet_len 0

-- What a reader of the header finds.
pub record Header (lp : Packet) (len ver cmd uin : ℕ) : Type 0 where
  pub len_is : get_length lp ≡ len
  pub ver_is : get_version lp ≡ ver
  pub cmd_is : get_command lp ≡ cmd
  pub uin_is : get_uin lp ≡ uin

pub length-set16 : (lp : Packet) (off v : ℕ) → length (set_field_uint16_t lp off v) ≡ length lp
unfolding set_field_uint16_t
length-set16 lp off v = length-put_at lp off (bytes16 v)

pub length-set32 : (lp : Packet) (off v : ℕ) → length (set_field_uint32_t lp off v) ≡ length lp
unfolding set_field_uint32_t
length-set32 lp off v = length-put_at lp off (bytes32 v)

pub length-fill_packet_header :
    (lp : Packet) (len cmd uin : ℕ) → length (fill_packet_header lp len cmd uin) ≡ length lp
unfolding fill_packet_header
length-fill_packet_header lp len cmd uin =
    let a = set_field_uint16_t lp 0 len in
    let b = set_field_uint16_t a 2 1 in
    let c = set_field_uint16_t b 4 cmd in
    length-set32 c 8 uin ∙ length-set16 b 4 cmd ∙ length-set16 a 2 1 ∙ length-set16 lp 0 len

-- A write of 16 bits leaves the other fields of 16 bits.
pub get16-set16_apart :
    (lp : Packet) (off v i : ℕ)
    → (i + 2 ≤ off) ⊎ (off + 2 ≤ i)
    → get_field_uint16_t (set_field_uint16_t lp off v) i ≡ get_field_uint16_t lp i
unfolding set_field_uint16_t
get16-set16_apart lp off v i h = get16-put_at_apart lp off (bytes16 v) i h

pub get16-set32_apart :
    (lp : Packet) (off v i : ℕ)
    → (i + 2 ≤ off) ⊎ (off + 4 ≤ i)
    → get_field_uint16_t (set_field_uint32_t lp off v) i ≡ get_field_uint16_t lp i
unfolding set_field_uint32_t
get16-set32_apart lp off v i h = get16-put_at_apart lp off (bytes32 v) i h

pub get32-set16_apart :
    (lp : Packet) (off v i : ℕ)
    → (i + 4 ≤ off) ⊎ (off + 2 ≤ i)
    → get_field_uint32_t (set_field_uint16_t lp off v) i ≡ get_field_uint32_t lp i
unfolding set_field_uint16_t
get32-set16_apart lp off v i h = get32-put_at_apart lp off (bytes16 v) i h

-- fill_packet_header of the servers writes what the accessors of list_packet.h read: in a packet
-- with room for the header, and for fields that fit their widths, get_length, get_version,
-- get_command and get_uin return the length, version 1, the command and the uin.
pub fill_packet_header-Header :
    (lp : Packet) (len cmd uin : ℕ)
    → packet_header_len ≤ length lp
    → len < 2 ^ 16
    → cmd < 2 ^ 16
    → uin < 2 ^ 32
    → Header (fill_packet_header lp len cmd uin) len 1 cmd uin
unfolding fill_packet_header get_length get_version get_command get_uin
fill_packet_header-Header lp len cmd uin room hl hc hu =
    let a = set_field_uint16_t lp 0 len in
    let b = set_field_uint16_t a 2 1 in
    let c = set_field_uint16_t b 4 cmd in
    let la = length-set16 lp 0 len in
    let lb = length-set16 a 2 1 in
    let lc = length-set16 b 4 cmd in
    record {
      len_is =
          get16-set32_apart c 8 uin 0 (inl (omega arith))
          ∙ get16-set16_apart b 4 cmd 0 (inl (omega arith))
          ∙ get16-set16_apart a 2 1 0 (inl (omega arith))
          ∙ get16-set16 lp 0 len (omega arith) hl;
      ver_is =
          get16-set32_apart c 8 uin 2 (inl (omega arith))
          ∙ get16-set16_apart b 4 cmd 2 (inl (omega arith))
          ∙ get16-set16 a 2 1 (omega arith) (omega arith);
      cmd_is =
          get16-set32_apart c 8 uin 4 (inl (omega arith)) ∙ get16-set16 b 4 cmd (omega arith) hc;
      uin_is = get32-set32 c 8 uin (omega arith) hu;
    }

-- A parameter of 16 or 32 bits lies behind the header.
pub get_or-drop : (n : ℕ) (xs : List ℕ) (i : ℕ) → get_or (drop n xs) i 0 ≡ get_or xs (n + i) 0
get_or-drop zero xs i = let e : i ≡ 0 + i = omega arith in ap (λ k. get_or xs k 0) e
get_or-drop (suc n) [] i = refl
get_or-drop (suc n) (x ∷ xs) i =
    let e : suc n + i ≡ suc (n + i) = omega arith in
    get_or-drop n xs i ∙ ap (λ k. get_or (x ∷ xs) k 0) (sym e)

pub get16-drop :
    (n : ℕ) (xs : List ℕ) (i : ℕ) → get_field_uint16_t (drop n xs) i ≡ get_field_uint16_t xs (n + i)
unfolding get_field_uint16_t
get16-drop n xs i =
    let e : n + suc i ≡ suc (n + i) = omega arith in
    ap₂ (λ a b. a + 256 * b) (get_or-drop n xs i)
      (get_or-drop n xs (suc i) ∙ ap (λ k. get_or xs k 0) e)

pub get32-set32_apart :
    (lp : Packet) (off v i : ℕ)
    → (i + 4 ≤ off) ⊎ (off + 4 ≤ i)
    → get_field_uint32_t (set_field_uint32_t lp off v) i ≡ get_field_uint32_t lp i
unfolding set_field_uint32_t
get32-set32_apart lp off v i h = get32-put_at_apart lp off (bytes32 v) i h

pub get32-drop :
    (n : ℕ) (xs : List ℕ) (i : ℕ) → get_field_uint32_t (drop n xs) i ≡ get_field_uint32_t xs (n + i)
unfolding get_field_uint32_t
get32-drop n xs i =
    let e₁ : n + suc i ≡ suc (n + i) = omega arith in
    let e₂ : n + suc (suc i) ≡ suc (suc (n + i)) = omega arith in
    let e₃ : n + suc (suc (suc i)) ≡ suc (suc (suc (n + i))) = omega arith in
    omega (
      arith,
      get_or-drop n xs i,
      get_or-drop n xs (suc i) ∙ ap (λ k. get_or xs k 0) e₁,
      get_or-drop n xs (suc (suc i)) ∙ ap (λ k. get_or xs k 0) e₂,
      get_or-drop n xs (suc (suc (suc i))) ∙ ap (λ k. get_or xs k 0) e₃,
    )

-- fill_packet_header writes nothing behind the header.
pub fill_packet_header_after :
    (lp : Packet) (len cmd uin j : ℕ)
    → 12 ≤ j
    → get_or (fill_packet_header lp len cmd uin) j 0 ≡ get_or lp j 0
unfolding fill_packet_header set_field_uint16_t set_field_uint32_t
fill_packet_header_after lp len cmd uin j h =
    let a = set_field_uint16_t lp 0 len in
    let b = set_field_uint16_t a 2 1 in
    let c = set_field_uint16_t b 4 cmd in
    put_at_after c 8 (bytes32 uin) j (omega arith)
    ∙ put_at_after b 4 (bytes16 cmd) j (omega arith)
    ∙ put_at_after a 2 (bytes16 1) j (omega arith)
    ∙ put_at_after lp 0 (bytes16 len) j (omega arith)

pub get16-fill_packet_header :
    (lp : Packet) (len cmd uin i : ℕ)
    → 12 ≤ i
    → get_field_uint16_t (fill_packet_header lp len cmd uin) i ≡ get_field_uint16_t lp i
unfolding get_field_uint16_t
get16-fill_packet_header lp len cmd uin i h =
    ap₂ (λ x y. x + 256 * y) (fill_packet_header_after lp len cmd uin i h)
      (fill_packet_header_after lp len cmd uin (suc i) (omega arith))

pub get32-fill_packet_header :
    (lp : Packet) (len cmd uin i : ℕ)
    → 12 ≤ i
    → get_field_uint32_t (fill_packet_header lp len cmd uin) i ≡ get_field_uint32_t lp i
unfolding get_field_uint32_t
get32-fill_packet_header lp len cmd uin i h =
    let same = fill_packet_header_after lp len cmd uin in
    omega (
      arith,
      same i h,
      same (suc i) (omega arith),
      same (suc (suc i)) (omega arith),
      same (suc (suc (suc i))) (omega arith),
    )

pub get_or-replicate : (n i : ℕ) → get_or {A = ℕ} (replicate n 0) i 0 ≡ 0
get_or-replicate zero i = refl
get_or-replicate (suc n) zero = refl
get_or-replicate (suc n) (suc i) = get_or-replicate n i

-- A new packet is all zero.
pub get_or-packet_init : (i : ℕ) → get_or packet_init i 0 ≡ 0
unfolding packet_init
get_or-packet_init i = get_or-replicate max_packet_len i

-- What a reader has of a packet that was written to its socket: as many bytes as the length says,
-- at the start of its own buffer.
abbrev pub received : List ℕ → Packet → List ℕ
received buf pack = put_at buf 0 (take (get_length pack) pack)

module _ (buf : List ℕ) (pack : Packet) (room : get_length pack ≤ length buf)
    (whole : get_length pack ≤ length pack) where
  received-byte : (j : ℕ) → j < get_length pack → get_or (received buf pack) j 0 ≡ get_or pack j 0
  received-byte j h =
      put_at_head buf (take (get_length pack) pack) j (omega arith)
        (omega (arith, length-take (get_length pack) pack))
      ∙ get_or-take (get_length pack) pack j h

  pub get16-received :
      (i : ℕ)
      → i + 2 ≤ get_length pack
      → get_field_uint16_t (received buf pack) i ≡ get_field_uint16_t pack i
  get16-received i h = get16_same _ pack i (λ j p. received-byte j (omega arith))

  pub get32-received :
      (i : ℕ)
      → i + 4 ≤ get_length pack
      → get_field_uint32_t (received buf pack) i ≡ get_field_uint32_t pack i
  get32-received i h = get32_same _ pack i (λ j p. received-byte j (omega arith))
