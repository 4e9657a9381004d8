-- ===== src/Accounts.antt =====
-- The table of keys under all that the node does to it: the payments of routstr/auth.py, the keys
-- that `validate_bearer_key` makes and finds, the credits of routstr/wallet.py, and the refunds of
-- routstr/balance.py, in any order and with key objects of any age.
use routstr_core.Prelude.{
  ◌≡◌, List, if◌then◌else◌, false, some, [], ◌∷◌, ◌++◌, refl, ◌∙◌, inl, inr, Option, none, String,
  str_eq, ℤ, pos, ◌+ℤ◌, eqb_ℤ, ok, arith, eq_iff, Bool-cases, Option-cases, subst, ◌>>◌, >>=-eq-ok,
}
use routstr_core.Db.{ApiKey, Table, Session, opened, commit, find_key, delete_key, update_where}
use routstr_core.Db.Laws.{
  find_key-append_new, find_key-append_ne, append_new-IsKeyed, find_key-delete_key,
  find_key-delete_key_ne, delete_key-IsKeyed,
}
use routstr_core.Auth.Payment.{always}
use routstr_core.Auth.Payment.Effects.{Writes, update_where-Writes}
use routstr_core.Auth.Payment.Interleaving.{
  Entry, System, Step, IsAccounted, Step-IsAccounted, account, outstanding,
}
use routstr_core.Auth.Bearer.{add_key, touch, set_refund}
use routstr_core.Wallet.Credit.{save_balance, write_balance}
use routstr_core.Balance.{delete_committed}

-- the entries of the other keys
abbrev pub without : String → List Entry → List Entry
without h [] = []
without h (e ∷ es) = if str_eq e.owner h then without h es else e ∷ without h es

-- A new key is added and credited in one transaction; nothing of it is reserved, and what calls did
-- to a row of the same key that was there before is no longer counted.
pub data Event : System → System → Type 0 where
  request : {a b : System} → Step a b → Event a b
  created :
      {sys : System} (key : ApiKey) (amount : ℤ) (s : Session)
      → key.reserved_balance ≡ pos 0
      → (add_key key >> save_balance key amount) (opened sys.table) ≡ (ok tt, s)
      → Event sys (record { table = s.committed; entries = without key.hashed_key sys.entries })
  touched :
      {sys : System} (address : Option String) (expiry : Option ℤ) (key given : ApiKey)
      (s : Session)
      → find_key key.hashed_key sys.table ≡ some key
      → touch address expiry key (opened sys.table) ≡ (ok given, s)
      → Event sys (record sys { table = (commit s).committed })
  credited :
      {sys : System} (key : ApiKey) (amount : ℤ) (s : Session)
      → save_balance key amount (opened sys.table) ≡ (ok tt, s)
      → Event sys (record sys { table = s.committed })
  refunded :
      {sys : System} (key : ApiKey) (s : Session)
      → delete_committed key (opened sys.table) ≡ (ok tt, s)
      → Event sys (record sys { table = s.committed })

pub data Events (start : System) : System → Type 0 where
  here : Events start start
  next : {a b : System} → Events start a → Event a b → Events start b

-- A statement that leaves reservations as they are.
rewritten :
    (h : String) (f : ApiKey → ApiKey) (sys : System) (t : Table)
    → IsAccounted sys
    → Writes h f sys.table t
    → ((row : ApiKey) → (f row).reserved_balance ≡ row.reserved_balance)
    → IsAccounted (record sys { table = t })
rewritten h f sys t v w same =
    account h f sys (record sys { table = t }) v w (λ row p. same row ∙ p) (λ j ne. refl)

save_balance-IsAccounted :
    (sys : System) (key : ApiKey) (amount : ℤ) (before s : Session)
    → IsAccounted (record sys { table = before.working })
    → save_balance key amount before ≡ (ok tt, s)
    → IsAccounted (record sys { table = s.committed })
unfolding save_balance commit
save_balance-IsAccounted sys key amount before s v e = elim (Bool-cases (eqb_ℤ amount (pos 0))) [
  | inl nothing ↦
      let same : before.working ≡ s.committed = ground arith in
      subst (λ t. IsAccounted (record sys { table = t })) same v
  | inr some_amount ↦
      let h = key.hashed_key in
      let written = write_balance (key.balance +ℤ amount) in
      let w =
        update_where-Writes h always written before.working v.keyed (λ k. refl) (λ r e. refl) in
      let same : update_where h always written before.working ≡ s.committed = ground arith in
      subst (λ t. IsAccounted (record sys { table = t })) same
        (rewritten h written (record sys { table = before.working }) _ v w (λ row. refl))
]

outstanding-without : (h : String) (es : List Entry) → outstanding h (without h es) ≡ pos 0
outstanding-without h [] = refl
outstanding-without h (e ∷ es) = ground (arith, outstanding-without h es)

outstanding-without_ne :
    (h j : String) (es : List Entry)
    → str_eq h j ≡ false
    → outstanding j (without h es) ≡ outstanding j es
outstanding-without_ne h j [] ne = refl
outstanding-without_ne h j (e ∷ es) ne =
    ground (arith, eq_iff e.owner h, eq_iff e.owner j, eq_iff h j, outstanding-without_ne h j es ne)

added :
    (sys : System) (key : ApiKey)
    → IsAccounted sys
    → find_key key.hashed_key sys.table ≡ none
    → key.reserved_balance ≡ pos 0
    → IsAccounted
        (record { table = sys.table ++ (key ∷ []); entries = without key.hashed_key sys.entries })
added sys key v fresh free = record {
  keyed = append_new-IsKeyed key sys.table fresh v.keyed;
  reserved = λ j row at. elim (Bool-cases (str_eq key.hashed_key j)) [
    | inl same ↦ ground (
      arith,
      eq_iff key.hashed_key j,
      find_key-append_new key sys.table fresh,
      outstanding-without key.hashed_key sys.entries,
    )
    | inr other ↦ ground (
      arith,
      eq_iff key.hashed_key j,
      find_key-append_ne key j sys.table,
      v.reserved j row,
      outstanding-without_ne key.hashed_key j sys.entries other,
    )
  ];
}

deleted :
    (sys : System) (h : String)
    → IsAccounted sys
    → IsAccounted (record sys { table = delete_key h sys.table })
deleted sys h v = record {
  keyed = delete_key-IsKeyed h sys.table v.keyed;
  reserved = λ j row at. elim (Bool-cases (str_eq h j)) [
    | inl same ↦ ground (arith, eq_iff h j, find_key-delete_key h sys.table)
    | inr other ↦ ground (arith, eq_iff h j, find_key-delete_key_ne h j sys.table, v.reserved j row)
  ];
}

Event-IsAccounted : {a b : System} → Event a b → IsAccounted a → IsAccounted b
unfolding add_key touch delete_committed commit
Event-IsAccounted (request st) v = Step-IsAccounted st v
Event-IsAccounted {a} (created key amount s free e) v =
    let (u, mid, inserted, saved) =
      >>=-eq-ok (add_key key) (λ (u : Unit {0}). save_balance key amount) (opened a.table) s tt e in
    let es = without key.hashed_key a.entries in
    elim (Option-cases (find_key key.hashed_key a.table)) [
      | inl fresh ↦
          let same : a.table ++ (key ∷ []) ≡ mid.working = ground arith in
          save_balance-IsAccounted (record { table = a.table; entries = es }) key amount mid s
            (subst (λ t. IsAccounted (record { table = t; entries = es })) same
              (added a key v fresh free))
            saved
      | inr (row, there) ↦ absurd (ground arith)
    ]
Event-IsAccounted {a} (touched address expiry key given s there e) v =
    let h = key.hashed_key in
    let f = set_refund address expiry in
    let same : update_where h always f a.table ≡ s.working = ground arith in
    subst (λ t. IsAccounted (record a { table = t })) same
      (rewritten h f a _ v
        (update_where-Writes h always f a.table v.keyed (λ k. refl) (λ r e. refl)) (λ row. refl))
Event-IsAccounted {a} (credited key amount s e) v =
    save_balance-IsAccounted a key amount (opened a.table) s v e
Event-IsAccounted {a} (refunded key s e) v =
    let same : delete_key key.hashed_key a.table ≡ s.committed = ground arith in
    subst (λ t. IsAccounted (record a { table = t })) same (deleted a key.hashed_key v)

-- From a system with unique keys, whose rows have reserved what the calls recorded so far add up
-- to, whatever calls that return follow in any order - payments, and reverts and settlements of
-- any request, with or without a payment and as often as they come, with key objects of any age,
-- credits, refunds, new keys with nothing reserved, and known tokens whose row was just read -
-- keys stay unique, and the reservation of each row is what payments have reserved since the row
-- was made, less what reverts and settlements have released.
pub Events-IsAccounted : {a b : System} → IsAccounted a → Events a b → IsAccounted b
Events-IsAccounted v here = v
Events-IsAccounted v (next r st) = Event-IsAccounted st (Events-IsAccounted v r)
