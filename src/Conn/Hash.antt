-- ===== src/Conn/Hash.antt =====
-- What the connection server asks of uthash.h, for the maps from a uin and from a socket to a
-- connection. HASH_ADD_INT wants a key that is not there; `Unique` says that no key is there twice.
use mini_im.Base.{
  ℕ, ◌≡◌, ◌≢◌, refl, List, [], ◌∷◌, Option, none, some, ◌==◌, if◌then◌else◌, arith, test_of_eq,
  test_of_ne,
}

pub record HashOps (M : Type 0) (Unique : M → Type 0) : Type 0 where
  pub empty : M
  -- HASH_FIND_INT, with the connection of the entry that it finds
  pub find : M → ℕ → Option ℕ
  -- HASH_ADD_INT
  pub add : M → ℕ → ℕ → M
  -- HASH_DEL of the entry that HASH_FIND_INT gives for the key
  pub del : M → ℕ → M
  pub find-empty : (k : ℕ) → find empty k ≡ none
  pub find-add_self : (m : M) (k v : ℕ) → find m k ≡ none → find (add m k v) k ≡ some v
  pub find-add_ne : (m : M) (k v j : ℕ) → k ≢ j → find (add m k v) j ≡ find m j
  pub find-del_self : (m : M) (k : ℕ) → Unique m → find (del m k) k ≡ none
  pub find-del_ne : (m : M) (k j : ℕ) → k ≢ j → find (del m k) j ≡ find m j
  pub Unique-empty : Unique empty
  pub Unique-add : (m : M) (k v : ℕ) → Unique m → find m k ≡ none → Unique (add m k v)
  pub Unique-del : (m : M) (k : ℕ) → Unique m → Unique (del m k)

-- Association lists are such maps.
abbrev pub Assoc : Type 0
Assoc = List (ℕ × ℕ)

abbrev pub lookup : Assoc → ℕ → Option ℕ
lookup [] k = none
lookup ((j, v) ∷ m) k = if j == k then some v else lookup m k

abbrev pub remove : Assoc → ℕ → Assoc
remove [] k = []
remove ((j, v) ∷ m) k = let rest = remove m k in if j == k then rest else (j, v) ∷ rest

pub lookup-remove_self : (m : Assoc) (k : ℕ) → lookup (remove m k) k ≡ none
lookup-remove_self [] k = refl
lookup-remove_self ((j, v) ∷ m) k = ground (arith, lookup-remove_self m k)

pub lookup-remove_ne : (m : Assoc) (k j : ℕ) → k ≢ j → lookup (remove m k) j ≡ lookup m j
lookup-remove_ne [] k j h = refl
lookup-remove_ne ((i, v) ∷ m) k j h = ground (arith, lookup-remove_ne m k j)

abbrev pub AnyKeys : Assoc → Type 0
AnyKeys m = Unit {0}

pub find_added : (m : Assoc) (k v : ℕ) → lookup ((k, v) ∷ m) k ≡ some v
find_added m k v = ground (arith, test_of_eq k k)

pub find_not_added : (m : Assoc) (k v j : ℕ) → k ≢ j → lookup ((k, v) ∷ m) j ≡ lookup m j
find_not_added m k v j h = ground (arith, test_of_ne k j)

abbrev pub assoc_ops : HashOps Assoc AnyKeys
assoc_ops = record {
  empty = [];
  find = lookup;
  add = λ m k v. (k, v) ∷ m;
  del = remove;
  find-empty = λ k. refl;
  find-add_self = λ m k v h. find_added m k v;
  find-add_ne = find_not_added;
  find-del_self = λ m k h. lookup-remove_self m k;
  find-del_ne = lookup-remove_ne;
  Unique-empty = tt;
  Unique-add = λ m k v h e. tt;
  Unique-del = λ m k h. tt;
}
