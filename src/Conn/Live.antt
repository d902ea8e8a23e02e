-- ===== src/Conn/Live.antt =====
-- The maps of the connection server lead to live connections: the invariant, and what the steps on
-- one map make of it.
use mini_im.Base.{ℕ, ◌≡◌, ◌≢◌, sym, ap, ◌∙◌, Option, none, some, inl, inr, arith, Option-cases}
use native.Mathlib.Decide.{ℕ_discrete}
use mini_im.Connection.{Connection}
use mini_im.Conn.Hash.{HashOps}
use mini_im.Conn.State.{Server, update}
use mini_im.Conn.Send.{forget}

module _ {M : Type 0} {Unique : M → Type 0} (h : HashOps M Unique) where
  open h use {find, add, del}

  -- Each entry leads to a live connection, which has the entry's key.
  abbrev pub Leads : M → (ℕ → Option Connection) → (Connection → ℕ) → Type 0
  Leads m conns key =
      (k a : ℕ) → find m k ≡ some a → (c : Connection) × (conns a ≡ some c) × (key c ≡ k)

  forget_self : (m : M) (k : ℕ) → Unique m → find (forget h m k) k ≡ none
  forget_self m k u = elim (Option-cases (find m k)) [
    | inl e ↦ ground (arith, e)
    | inr (a, e) ↦ ground (arith, e, h.find-del_self m k u)
  ]

  pub forget_ne : (m : M) (k j : ℕ) → k ≢ j → find (forget h m k) j ≡ find m j
  forget_ne m k j ne = elim (Option-cases (find m k)) [
    | inl e ↦ ground (arith, e)
    | inr (a, e) ↦ ground (arith, e, h.find-del_ne m k j ne)
  ]

  pub Unique-forget : (m : M) (k : ℕ) → Unique m → Unique (forget h m k)
  Unique-forget m k u = elim (find m k) as (λ x. Unique (elim x [ none ↦ m | some _ ↦ del m k ])) [
    | none ↦ u
    | some a ↦ h.Unique-del m k u
  ]

  pub Leads-closed :
      (m : M) (conns : ℕ → Option Connection) (key : Connection → ℕ) (a : ℕ) (c : Connection)
      → Unique m
      → Leads m conns key
      → conns a ≡ some c
      → Leads (forget h m (key c)) (update conns a none) key
  Leads-closed m conns key a c u l live k b e = elim (ℕ_discrete (key c) k) [
    | yes same ↦
        absurd (ground (arith, ap (find (forget h m (key c))) same, forget_self m (key c) u))
    | no ne ↦
        let (d, there, keyed) = l k b (sym (forget_ne m (key c) k ne) ∙ e) in
        elim (ℕ_discrete a b) [
          | yes it ↦ absurd (ground (arith, ap conns it))
          | no other ↦ (d, ground arith, keyed)
        ]
  ]

  -- Connections that change, but not their keys.
  pub Leads-kept :
      (m : M) (conns conns' : ℕ → Option Connection) (key : Connection → ℕ)
      → Leads m conns key
      → ((b : ℕ) (c : Connection)
          → conns b ≡ some c
          → (c' : Connection) × (conns' b ≡ some c') × (key c' ≡ key c))
      → Leads m conns' key
  Leads-kept m conns conns' key l keeps k a e =
      let (c, live, keyed) = l k a e in
      let (c', live', same) = keeps a c live in (c', live', same ∙ keyed)

  pub Leads-added :
      (m : M) (conns : ℕ → Option Connection) (key : Connection → ℕ) (a : ℕ) (c : Connection)
      → Leads m conns key
      → find m (key c) ≡ none
      → ((k : ℕ) → find m k ≢ some a)
      → Leads (add m (key c) a) (update conns a (some c)) key
  Leads-added m conns key a c l free unled k b e = elim (ℕ_discrete (key c) k) [
    | yes same ↦
        let own = ap (find (add m (key c) a)) (sym same) ∙ h.find-add_self m (key c) a free in
        (c, ground arith, same)
    | no ne ↦
        let old = sym (h.find-add_ne m (key c) a k ne) ∙ e in
        let (d, there, keyed) = l k b old in
        elim (ℕ_discrete a b) [
          | yes it ↦ absurd (unled k (old ∙ ap some (sym it)))
          | no other ↦ (d, ground arith, keyed)
        ]
  ]

-- The state of both maps.
pub record Linked {M : Type 0} {Unique : M → Type 0} (h : HashOps M Unique) (s : Server M)
    : Type 0 where
  pub uins : Leads h s.uin_conn_map s.conns (λ c. c.uin)
  pub fds : Leads h s.fd_conn_map s.conns (λ c. c.sfd)
  pub unique_uins : Unique s.uin_conn_map
  pub unique_fds : Unique s.fd_conn_map
