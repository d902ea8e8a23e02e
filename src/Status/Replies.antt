-- ===== src/Status/Replies.antt =====
-- The entries of the answer to CMD_MULTI_STATUS.
use mini_im.Base.{
  ℕ, zero, suc, ◌+◌, ◌*◌, ◌≤◌, ◌<◌, ◌≡◌, refl, subst, ◌⊎◌, inl, inr, List, none, some, arith, All,
  ltb_of_ge, ◌↔◌,
}
use native.Mathlib.Decide.{ℕ_discrete}
use mini_im.Protocol.{max_packet_len, packet_header_len}
use mini_im.Bytes.{get_field_uint32_t}
use mini_im.Packet.{Packet, set_param_uint16_t, set_param_uint32_t}
use mini_im.Status.{Server, max_user, get_multi_status}

-- The byte values of a memory.
abbrev pub IsBytes : List ℕ → Type 0
IsBytes = All (λ b. b < 256)

-- 1 for a user who is online.
abbrev pub stat_of : Server → ℕ → ℕ
stat_of s uin = elim (s.user_map uin) [ none ↦ 0 | some _ ↦ 1 ]

-- One round writes the entry `k`.
abbrev entry : Server → List ℕ → ℕ → Packet → Packet
entry s uins k out =
    let uin = get_field_uint32_t uins (k * 4) in
    set_param_uint16_t (set_param_uint32_t out (2 + k * 6) uin) (6 + k * 6) (stat_of s uin)

-- What a round leaves to the next ones, where it makes no access out of bounds.
round :
    (s : Server) (uins : List ℕ) (k : ℕ) (out : Packet) {final : Packet}
    → get_multi_status s uins (suc k) out ≡ some final
    → (packet_header_len + 2 + (k + 1) * 6 ≤ max_packet_len)
      × (get_multi_status s uins k (entry s uins k out) ≡ some final)
unfolding get_multi_status
round s uins k out h = ground arith

round_in :
    (s : Server) (uins : List ℕ) (k : ℕ) (out : Packet) {final : Packet}
    → get_multi_status s uins (suc k) out ≡ some final
    → get_field_uint32_t uins (k * 4) ≤ max_user
unfolding get_multi_status
round_in s uins k out h = ground arith

module _ (s : Server) (uins : List ℕ) where
  -- Every number that is asked about has a place in the map.
  abbrev pub InMap : ℕ → Type 0
  InMap n = (k : ℕ) → k < n → get_field_uint32_t uins (k * 4) ≤ max_user

  safe_some :
      (n : ℕ) (out : Packet)
      → (n ≡ 0) ⊎ (14 + n * 6 ≤ max_packet_len)
      → InMap n
      → (final : Packet) × (get_multi_status s uins n out ≡ some final)
  unfolding get_multi_status
  safe_some zero out h m = (out, refl)
  safe_some (suc n) out h m =
      let (final, e) = safe_some n (entry s uins n out) (ground arith) (λ k p. m k (omega arith)) in
      (
        final,
        rw
            (
              ltb_of_ge max_packet_len (packet_header_len + 2 + (n + 1) * 6) (ground arith),
              ltb_of_ge max_user (get_field_uint32_t uins (n * 4)) (m n (omega arith)),
            )
            e,
      )

  some_safe :
      (n : ℕ) (out : Packet) {final : Packet}
      → get_multi_status s uins n out ≡ some final
      → ((n ≡ 0) ⊎ (14 + n * 6 ≤ max_packet_len)) × InMap n
  some_safe zero out h = (inl refl, λ k p. absurd (omega arith))
  some_safe (suc n) out h =
      let (room, rest) = round s uins n out h in
      let (_, m) = some_safe n (entry s uins n out) rest in
      (
        inr (omega arith),
        λ k p. elim (ℕ_discrete n k) [
          | yes e ↦
              subst (λ k. get_field_uint32_t uins (k * 4) ≤ max_user) e (round_in s uins n out h)
          | no ne ↦ m k (omega arith)
        ],
      )

-- The loop makes no access out of bounds exactly if there is nothing to do, or the entries fit the
-- memory of a packet, and every uin that is asked about is at most MAX_USER.
pub get_multi_status-safe :
    (s : Server) (uins : List ℕ) (num : ℕ) (out : Packet)
    → ((final : Packet) × (get_multi_status s uins num out ≡ some final))
      ↔ (((num ≡ 0) ⊎ (14 + num * 6 ≤ max_packet_len)) × InMap s uins num)
get_multi_status-safe s uins num out =
    (λ (final, e). some_safe s uins num out e, λ (fits, m). safe_some s uins num out fits m)
