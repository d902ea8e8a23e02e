-- ===== src/Bytes.antt =====
-- The field macros of include/list_packet.h over a byte buffer: get_field, set_field, memcpy.
-- A pointer that is read through is the rest of the buffer from there; a write names its offset.
-- Fields lie in the order of a little-endian host, and no byte order conversion is made.
pub mod Laws
use mini_im.Base.{ℕ, zero, suc, ◌+◌, ◌*◌, ◌/◌, ◌%◌, List, [], ◌∷◌, ◌++◌, get_or, drop, take}

-- memcpy(buf + off, src, length of src). A byte past the end of the buffer is not kept: callers
-- test the room where the source may overrun it.
unfoldable pub put_at : List ℕ → ℕ → List ℕ → List ℕ
put_at [] off src = []
put_at (b ∷ buf) zero [] = b ∷ buf
put_at (b ∷ buf) zero (d ∷ src) = d ∷ put_at buf zero src
put_at (b ∷ buf) (suc off) src = b ∷ put_at buf off src

-- *(uint16_t *)(ptr + off)
unfoldable pub get_field_uint16_t : List ℕ → ℕ → ℕ
get_field_uint16_t ptr off = get_or ptr off 0 + 256 * get_or ptr (suc off) 0

-- *(uint32_t *)(ptr + off)
unfoldable pub get_field_uint32_t : List ℕ → ℕ → ℕ
get_field_uint32_t ptr off =
    get_or ptr off 0
    + 256 * get_or ptr (suc off) 0
    + 65536 * get_or ptr (suc (suc off)) 0
    + 16777216 * get_or ptr (suc (suc (suc off))) 0

-- ptr + off
abbrev pub get_field_ptr : List ℕ → ℕ → List ℕ
get_field_ptr ptr off = drop off ptr

-- The bytes of a number of 16 and of 32 bits.
abbrev pub bytes16 : ℕ → List ℕ
bytes16 v = (v % 256) ∷ (v / 256 % 256) ∷ []

abbrev pub bytes32 : ℕ → List ℕ
bytes32 v = (v % 256) ∷ (v / 256 % 256) ∷ (v / 65536 % 256) ∷ (v / 16777216 % 256) ∷ []

unfoldable pub set_field_uint16_t : List ℕ → ℕ → ℕ → List ℕ
set_field_uint16_t ptr off value = put_at ptr off (bytes16 value)

unfoldable pub set_field_uint32_t : List ℕ → ℕ → ℕ → List ℕ
set_field_uint32_t ptr off value = put_at ptr off (bytes32 value)

-- memcpy(ptr + off, val, size), where `val` may be longer than what is copied.
abbrev pub set_field_ptr : List ℕ → ℕ → List ℕ → ℕ → List ℕ
set_field_ptr ptr off val size = put_at ptr off (take size val)
