-- ===== src/User/Passwords.antt =====
-- The check of a password.
use mini_im.Base.{
  ℕ, ◌+◌, ◌≡◌, ◌≢◌, ◌↔◌, refl, sym, ap, ◌∙◌, List, true, false, Bool, inl, inr, arith, ltb,
  ltb_of_lt, ltb_of_ge, if◌then◌else◌, length, take, All,
}
use mini_im.Bytes.{put_at}
use mini_im.Text.{terminated}
use mini_im.Text.Laws.{NonZero, cstring_bytes}
use mini_im.User.Db.{UserDb, row, user_get_passwd}
use mini_im.User.{accepted, rejected, verify_overrun, same_bytes, passwd_verify}

no_overrun : (same : Bool) → (if same then accepted else rejected) ≢ verify_overrun
no_overrun true e = absurd cc
no_overrun false e = absurd cc

-- passwd_verify for a stored hash of 16 bytes: it writes behind its array of 16 bytes exactly if none of
-- the bytes is 0, whatever the password is. The 0 that sprintf puts at the end needs a byte more.
pub passwd_verify-overrun :
    (md5 : List ℕ → List ℕ) {D : Type 0} (db : UserDb D) (d : D) (uin passlen : ℕ)
    (passwd junk bytes : List ℕ)
    → db.password d uin ≡ row bytes
    → length bytes ≡ 16
    → length junk ≡ 16
    → (passwd_verify md5 db d uin passwd passlen junk ≡ verify_overrun) ↔ All NonZero bytes
unfolding passwd_verify user_get_passwd
passwd_verify-overrun md5 db d uin passlen passwd junk bytes stored size size_junk =
    let (text, read, how) = cstring_bytes bytes in
    elim how [
      | inl (nz, e) ↦
          let long : ltb (length junk) (length text + 1) ≡ true =
            ltb_of_lt _ _ (omega (arith, ap length e)) in
          (λ _. nz, λ _. rw (stored, passwd_verify, user_get_passwd) (rw read (rw long refl)))
      | inr (short, cut) ↦
          let fits : ltb (length junk) (length text + 1) ≡ false = ltb_of_ge _ _ (omega arith) in
          let same =
            same_bytes (take 16 (md5 (take passlen passwd)))
              (take 16 (put_at junk 0 (terminated text))) in
          let verified : passwd_verify md5 db d uin passwd passlen junk
              ≡ (if same then accepted else rejected) =
            rw (stored, passwd_verify, user_get_passwd) (rw read (rw fits refl)) in
          (λ o. absurd (no_overrun same (sym verified ∙ o)), λ nz. absurd (cut nz))
    ]
