-- ===== src/Status/Tests.antt =====
-- The theorems on the status server at concrete states: from a start without a file user 100 comes
-- online.
use mini_im.Base.{
  ℕ, ◌≤◌, ◌<◌, ◌≡◌, ◌≢◌, ◌⊎◌, ◌↔◌, refl, List, [], ◌∷◌, ◌+◌, ◌*◌, none, some, ◌==◌, if◌then◌else◌,
}
use mini_im.Protocol.{max_packet_len}
use mini_im.Packet.{Packet, packet_init, set_param_uint16_t, set_param_uint32_t}
use mini_im.Status.{
  Server, count_down, max_user, max_online_user, status_list_init, status_list_get, success,
  failure, fault, set_online, set_status, presence, get_status, get_multi_status,
}
use mini_im.Status.Invariant.{IsValid, given, status_list_init-IsValid}
use mini_im.Status.Lookup.{set_status-IsValid}
use mini_im.Status.Answers.{get_status-set_status, set_status-fault, set_status-failure}
use mini_im.Status.Replies.{InMap, get_multi_status-safe}

abbrev one : ℕ
one = 1

abbrev two : ℕ
two = 2

abbrev started : Server
started = status_list_init

-- User 100 has come online through port 7000 of a connection server.
abbrev one_online : Server
one_online = given started 100 5 7000 999 (count_down 999)

comes_online : set_status started 100 5 7000 1 ≡ success one_online
unfolding set_status set_online status_list_init status_list_get count_down
comes_online = refl

set_status-IsValid_example : IsValid one_online
set_status-IsValid_example =
    set_status-IsValid started one_online 100 5 7000 1 status_list_init-IsValid.0 comes_online

get_status-set_status_example : get_status one_online 100 ≡ (
    if 100 == 100
    then some (if 1 == 0 then presence 0 0 0 else presence 1 5 7000)
    else get_status started 100)
get_status-set_status_example =
    get_status-set_status started one_online 100 5 7000 1 status_list_init-IsValid.0 comes_online
      100

set_status-fault_example : (set_status started 100 5 7000 one ≡ fault) ↔ (
    (100 < max_user)
    × (one ≢ 0)
    × (started.user_map 100 ≡ none)
    × ((i : ℕ) → i < max_online_user → (u : ℕ) × (started.user_map u ≡ some i)))
set_status-fault_example = set_status-fault started 100 5 7000 1 status_list_init-IsValid.0

set_status-failure_example : (set_status one_online 100 5 7000 1 ≡ failure) ↔ (
    (max_user ≤ 100)
    ⊎ ((one ≢ 0) × ((i : ℕ) × (one_online.user_map 100 ≡ some i)))
    ⊎ ((one ≡ 0) × (one_online.user_map 100 ≡ none)))
set_status-failure_example = set_status-failure one_online 100 5 7000 1

-- A request for the users 100 and 101.
abbrev two_uins : List ℕ
two_uins = 100 ∷ 0 ∷ 0 ∷ 0 ∷ 101 ∷ 0 ∷ 0 ∷ 0 ∷ []

abbrev answered : Packet
answered =
    let a = set_param_uint16_t (set_param_uint32_t packet_init 8 101) 12 0 in
    set_param_uint16_t (set_param_uint32_t a 2 100) 6 1

get_multi_status-safe_example :
    ((final : Packet) × (get_multi_status one_online two_uins 2 packet_init ≡ some final))
    ↔ (((two ≡ 0) ⊎ (14 + 2 * 6 ≤ max_packet_len)) × InMap one_online two_uins 2)
get_multi_status-safe_example = get_multi_status-safe one_online two_uins 2 packet_init
