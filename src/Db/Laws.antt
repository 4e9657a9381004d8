-- ===== src/Db/Laws.antt =====
-- Lookups after each statement on the table, under unique keys.
use routstr_core.Prelude.{
  ◌≡◌, refl, ◌≢◌, Bool, false, none, some, [], ◌∷◌, ◌++◌, String, str_eq, if◌then◌else◌, arith,
  eq_iff,
}
use routstr_core.Db.{ApiKey, Table, find_key, update_where, rowcount, delete_key}

-- The primary key: no two rows share one.
abbrev pub IsKeyed : Table → Type 0
IsKeyed [] = Unit
IsKeyed (k ∷ t) = (find_key k.hashed_key t ≡ none) × IsKeyed t

-- the row that an update writes
abbrev pub updated : (ApiKey → Bool) → (ApiKey → ApiKey) → ApiKey → ApiKey
updated c f k = if c k then f k else k

-- A statement keeps the keys.
abbrev pub KeepsKey : (ApiKey → ApiKey) → Type 0
KeepsKey f = (k : ApiKey) → (f k).hashed_key ≡ k.hashed_key

pub hashed_key-find_key :
    (h : String) (t : Table) (k : ApiKey) → find_key h t ≡ some k → k.hashed_key ≡ h
unfolding find_key
hashed_key-find_key h [] k e = cc
hashed_key-find_key h (r ∷ t) k e = ground (arith, eq_iff r.hashed_key h, hashed_key-find_key h t k)

pub find_key-update_where :
    (h : String) (c : ApiKey → Bool) (f : ApiKey → ApiKey) (t : Table) (k : ApiKey)
    → KeepsKey f
    → find_key h t ≡ some k
    → find_key h (update_where h c f t) ≡ some (updated c f k)
unfolding find_key update_where
find_key-update_where h c f [] k keep e = cc
find_key-update_where h c f (r ∷ t) k keep e = ground (
  arith,
  eq_iff r.hashed_key h,
  keep r,
  eq_iff (f r).hashed_key h,
  find_key-update_where h c f t k keep,
)

pub find_key-update_where_ne :
    (h j : String) (c : ApiKey → Bool) (f : ApiKey → ApiKey) (t : Table)
    → KeepsKey f
    → j ≢ h
    → find_key j (update_where h c f t) ≡ find_key j t
unfolding find_key update_where
find_key-update_where_ne h j c f [] keep ne = refl
find_key-update_where_ne h j c f (r ∷ t) keep ne = ground (
  arith,
  eq_iff r.hashed_key h,
  eq_iff r.hashed_key j,
  keep r,
  eq_iff (f r).hashed_key j,
  find_key-update_where_ne h j c f t keep ne,
)

pub update_where_missing :
    (h : String) (c : ApiKey → Bool) (f : ApiKey → ApiKey) (t : Table)
    → find_key h t ≡ none
    → update_where h c f t ≡ t
unfolding find_key update_where
update_where_missing h c f [] e = refl
update_where_missing h c f (r ∷ t) e = ground (arith, update_where_missing h c f t)

-- A row that fails the statement's test keeps the table as it is.
pub update_where_skip :
    (h : String) (c : ApiKey → Bool) (f : ApiKey → ApiKey) (t : Table) (k : ApiKey)
    → IsKeyed t
    → find_key h t ≡ some k
    → c k ≡ false
    → update_where h c f t ≡ t
unfolding find_key update_where
update_where_skip h c f [] k v e n = refl
update_where_skip h c f (r ∷ t) k v e n =
    ground
      (arith, eq_iff r.hashed_key h, update_where_missing h c f t, update_where_skip h c f t k v.1)

pub rowcount_missing :
    (h : String) (c : ApiKey → Bool) (t : Table) → find_key h t ≡ none → rowcount h c t ≡ 0
unfolding find_key rowcount
rowcount_missing h c [] e = refl
rowcount_missing h c (r ∷ t) e = ground (arith, rowcount_missing h c t)

pub rowcount-find_key :
    (h : String) (c : ApiKey → Bool) (t : Table) (k : ApiKey)
    → IsKeyed t
    → find_key h t ≡ some k
    → rowcount h c t ≡ (if c k then 1 else 0)
unfolding find_key rowcount
rowcount-find_key h c [] k v e = cc
rowcount-find_key h c (r ∷ t) k v e =
    ground (arith, eq_iff r.hashed_key h, rowcount_missing h c t, rowcount-find_key h c t k v.1)

pub find_key-delete_key : (h : String) (t : Table) → find_key h (delete_key h t) ≡ none
unfolding find_key delete_key
find_key-delete_key h [] = refl
find_key-delete_key h (r ∷ t) = ground (arith, find_key-delete_key h t)

pub find_key-delete_key_ne :
    (h j : String) (t : Table) → j ≢ h → find_key j (delete_key h t) ≡ find_key j t
unfolding find_key delete_key
find_key-delete_key_ne h j [] ne = refl
find_key-delete_key_ne h j (r ∷ t) ne =
    ground (arith, eq_iff r.hashed_key h, eq_iff r.hashed_key j, find_key-delete_key_ne h j t ne)

pub find_key-update_where-none :
    (h j : String) (c : ApiKey → Bool) (f : ApiKey → ApiKey) (t : Table)
    → KeepsKey f
    → find_key j t ≡ none
    → find_key j (update_where h c f t) ≡ none
unfolding find_key update_where
find_key-update_where-none h j c f [] keep e = refl
find_key-update_where-none h j c f (r ∷ t) keep e =
    ground (arith, keep r, find_key-update_where-none h j c f t keep)

pub update_where-IsKeyed :
    (h : String) (c : ApiKey → Bool) (f : ApiKey → ApiKey) (t : Table)
    → KeepsKey f
    → IsKeyed t
    → IsKeyed (update_where h c f t)
unfolding update_where
update_where-IsKeyed h c f [] keep v = tt
update_where-IsKeyed h c f (r ∷ t) keep v = ground (
  arith,
  keep r,
  find_key-update_where-none h r.hashed_key c f t keep v.0,
  update_where-IsKeyed h c f t keep v.1,
)

pub find_key-append_new :
    (k : ApiKey) (t : Table)
    → find_key k.hashed_key t ≡ none
    → find_key k.hashed_key (t ++ (k ∷ [])) ≡ some k
unfolding find_key
find_key-append_new k [] e = ground (arith, eq_iff k.hashed_key k.hashed_key)
find_key-append_new k (r ∷ t) e = ground (arith, find_key-append_new k t)

pub find_key-append_ne :
    (k : ApiKey) (j : String) (t : Table)
    → j ≢ k.hashed_key
    → find_key j (t ++ (k ∷ [])) ≡ find_key j t
unfolding find_key
find_key-append_ne k j [] ne = ground (arith, eq_iff k.hashed_key j)
find_key-append_ne k j (r ∷ t) ne = ground (arith, find_key-append_ne k j t ne)

find_key-append-none :
    (k : ApiKey) (j : String) (t : Table)
    → find_key j t ≡ none
    → str_eq k.hashed_key j ≡ false
    → find_key j (t ++ (k ∷ [])) ≡ none
unfolding find_key
find_key-append-none k j [] e ne = rw (ne) refl
find_key-append-none k j (r ∷ t) e ne = ground (arith, find_key-append-none k j t)

pub append_new-IsKeyed :
    (k : ApiKey) (t : Table) → find_key k.hashed_key t ≡ none → IsKeyed t → IsKeyed (t ++ (k ∷ []))
unfolding find_key
append_new-IsKeyed k [] e v = (refl, tt)
append_new-IsKeyed k (r ∷ t) e v = ground (
  arith,
  eq_iff r.hashed_key k.hashed_key,
  eq_iff k.hashed_key r.hashed_key,
  find_key-append-none k r.hashed_key t v.0,
  append_new-IsKeyed k t,
)

find_key-delete_key-none :
    (h j : String) (t : Table) → find_key j t ≡ none → find_key j (delete_key h t) ≡ none
unfolding find_key delete_key
find_key-delete_key-none h j [] e = refl
find_key-delete_key-none h j (r ∷ t) e = ground (arith, find_key-delete_key-none h j t)

pub delete_key-IsKeyed : (h : String) (t : Table) → IsKeyed t → IsKeyed (delete_key h t)
unfolding delete_key
delete_key-IsKeyed h [] v = tt
delete_key-IsKeyed h (r ∷ t) v =
    ground (arith, find_key-delete_key-none h r.hashed_key t v.0, delete_key-IsKeyed h t v.1)
