-- ===== src/User/Registering.antt =====
-- The answer to a registration.
use mini_im.Base.{
  ℕ, ◌+◌, ◌-◌, ◌%◌, ◌^◌, ◌<◌, ◌≡◌, ◌≢◌, refl, ◌∙◌, false, List, [], ◌∷◌, ◌++◌, some, arith, ltb,
  ltb_of_ge, length, length-take, take, drop, test_of_ne, ◌>>=◌,
}
use mini_im.Protocol.{max_packet_len, packet_header_len, srv_register_ok_code}
use mini_im.Bytes.{put_at, get_field_uint16_t}
use mini_im.Bytes.Laws.{get16-take, get32-take}
use mini_im.Packet.{Packet, get_length, get_command, get_uin, get_parameters, fill_packet_header}
use mini_im.Packet.Laws.{fill_packet_header-Header, length-fill_packet_header}
use mini_im.Text.{cstring}
use mini_im.User.Db.{UserDb, Added, added, not_added, add_fault, user_add}
use mini_im.User.{Server, on_register, registered}

-- The uin in the answer.
abbrev pub answered_uin : {D : Type 0} → Added D → ℕ
answered_uin (added d uin) = uin
answered_uin not_added = 2 ^ 32 - 1
answered_uin add_fault = 0

-- The packet of the answer.
abbrev ok : Packet → ℕ → Packet
ok o uin = fill_packet_header o 12 srv_register_ok_code uin

record Answered (uin : ℕ) (pk : Packet) : Type 0 where
  whole : get_length pk ≡ length pk
  command : get_command pk ≡ srv_register_ok_code
  receiver : get_uin pk ≡ uin

ok-Answered :
    (o : Packet) (uin : ℕ)
    → length o ≡ max_packet_len
    → uin < 2 ^ 32
    → Answered uin (take (get_length (ok o uin)) (ok o uin))
unfolding get_length get_command get_uin
ok-Answered o uin size small =
    let h =
      fill_packet_header-Header o 12 srv_register_ok_code uin (omega arith) (omega arith)
        (omega arith) small in
    let len = get_length (ok o uin) in
    record {
      whole =
          get16-take len (ok o uin) 0 (omega (arith, h.len_is))
          ∙ omega (
            arith,
            h.len_is,
            length-take len (ok o uin),
            length-fill_packet_header o 12 srv_register_ok_code uin,
          );
      command = get16-take len (ok o uin) 4 (omega (arith, h.len_is)) ∙ h.cmd_is;
      receiver = get32-take len (ok o uin) 8 (omega (arith, h.len_is)) ∙ h.uin_is;
    }

registered-ok :
    {D : Type 0} (s : Server D) (uin sockfd : ℕ)
    → 0 < uin
    → uin < 2 ^ 32
    → registered s uin sockfd
      ≡ some (record s {
        outpack = ok s.outpack uin;
        writes = s.writes ++ (sockfd, take (get_length (ok s.outpack uin)) (ok s.outpack uin)) ∷ [];
      })
unfolding registered
registered-ok s uin sockfd positive small =
    let e : uin % 2 ^ 32 ≡ uin = omega arith in
    rw (e, registered) (rw (test_of_ne uin 0 (omega arith)) refl)

-- CMD_REGISTER in a packet whose nick ends and whose password lies in its memory: unless the query for
-- the new user is longer than its buffer, the answer is SRV_REGISTER_OK. Its uin is the new one if the
-- database took the user, and 2^32 - 1 if it failed; no failure is reported. The new uin fits 32 bits.
pub on_register-answered_uin :
    (md5 : List ℕ → List ℕ) {D : Type 0} (db : UserDb D) (s : Server D) (inpack : Packet)
    (sockfd nicklen len : ℕ) (pnick : List ℕ) (result : Added D)
    → get_field_uint16_t (get_parameters inpack) 0 ≡ nicklen
    → get_field_uint16_t (get_parameters inpack) (2 + nicklen) ≡ len
    → packet_header_len + 4 + nicklen + len < max_packet_len
    → cstring
        (drop 2 (get_parameters (put_at inpack (packet_header_len + 4 + nicklen + len) (0 ∷ []))))
      ≡ some pnick
    → user_add db s.db pnick (
        md5 (
          take len (
            drop
              (4 + nicklen)
              (get_parameters (put_at inpack (packet_header_len + 4 + nicklen + len) (0 ∷ []))))))
      ≡ result
    → result ≢ add_fault
    → 0 < answered_uin result
    → answered_uin result < 2 ^ 32
    → length s.outpack ≡ max_packet_len
    → (s' : Server D) × (pk : Packet) × (on_register md5 db s inpack sockfd ≡ some s')
      × (s'.writes ≡ s.writes ++ (sockfd, pk) ∷ [])
      × (get_length pk ≡ length pk)
      × (get_command pk ≡ srv_register_ok_code)
      × (get_uin pk ≡ answered_uin result)
unfolding on_register
on_register-answered_uin md5 {D = D} db s inpack sockfd nicklen len pnick result is_nicklen is_len
      room reads does safe positive small size =
    by_result result does safe positive small
  where
    fits : ltb max_packet_len (packet_header_len + 4 + nicklen + len + 1) ≡ false
    fits = ltb_of_ge _ _ (omega arith)

    by_result :
        (r : Added D)
        → user_add db s.db pnick (
            md5 (
              take len (
                drop (4 + nicklen) (
                  get_parameters
                    (put_at inpack (packet_header_len + 4 + nicklen + len) (0 ∷ []))))))
          ≡ r
        → r ≢ add_fault
        → 0 < answered_uin r
        → answered_uin r < 2 ^ 32
        → (s' : Server D) × (pk : Packet) × (on_register md5 db s inpack sockfd ≡ some s')
          × (s'.writes ≡ s.writes ++ (sockfd, pk) ∷ [])
          × (get_length pk ≡ length pk)
          × (get_command pk ≡ srv_register_ok_code)
          × (get_uin pk ≡ answered_uin r)
    by_result add_fault e safe p q = absurd (safe refl)
    by_result not_added e safe p q =
        let a = ok-Answered s.outpack (2 ^ 32 - 1) size q in
        (
          record s {
            outpack = ok s.outpack (2 ^ 32 - 1);
            writes =
                s.writes
                ++ (
                  sockfd,
                  take (get_length (ok s.outpack (2 ^ 32 - 1))) (ok s.outpack (2 ^ 32 - 1)),
                )
                  ∷ [];
          },
          take (get_length (ok s.outpack (2 ^ 32 - 1))) (ok s.outpack (2 ^ 32 - 1)),
          rw (is_nicklen, on_register)
              (rw is_len
                (rw (reads, ◌>>=◌) (rw e (rw fits (registered-ok s (2 ^ 32 - 1) sockfd p q))))),
          refl,
          a.whole,
          a.command,
          a.receiver,
        )
    by_result (added d uin) e safe p q =
        let a = ok-Answered s.outpack uin size q in
        (
          record s {
            db = d;
            outpack = ok s.outpack uin;
            writes =
                s.writes ++ (sockfd, take (get_length (ok s.outpack uin)) (ok s.outpack uin)) ∷ [];
          },
          take (get_length (ok s.outpack uin)) (ok s.outpack uin),
          rw (is_nicklen, on_register)
              (rw is_len (
                rw (reads, ◌>>=◌)
                  (rw e (rw fits (registered-ok (record s { db = d }) uin sockfd p q))))),
          refl,
          a.whole,
          a.command,
          a.receiver,
        )
