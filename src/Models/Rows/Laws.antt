-- ===== src/Models/Rows/Laws.antt =====
-- The table `models` keeps its primary key under each statement.
use routstr_core.Prelude.{
  ◌≡◌, refl, false, none, some, [], ◌∷◌, ◌++◌, String, str_eq, arith, eq_iff, eq_refl,
}
use routstr_core.Models.{ModelRow}
use routstr_core.Models.Rows.{Rows, find_model, delete_row, put_row}

-- The primary key: no two rows share one.
abbrev pub IsKeyed : Rows → Type 0
IsKeyed [] = Unit
IsKeyed (r ∷ t) = (find_model r.id t ≡ none) × IsKeyed t

pub id-find_model : (i : String) (t : Rows) (r : ModelRow) → find_model i t ≡ some r → r.id ≡ i
unfolding find_model
id-find_model i [] r e = cc
id-find_model i (s ∷ t) r e = ground (arith, eq_iff s.id i, id-find_model i t r)

pub find_model-append_some :
    (i : String) (t u : Rows) (r : ModelRow)
    → find_model i t ≡ some r
    → find_model i (t ++ u) ≡ some r
unfolding find_model
find_model-append_some i [] u r e = cc
find_model-append_some i (s ∷ t) u r e = ground (arith, find_model-append_some i t u r)

find_model-append_none :
    (i : String) (t : Rows) (r : ModelRow)
    → find_model i t ≡ none
    → str_eq r.id i ≡ false
    → find_model i (t ++ (r ∷ [])) ≡ none
unfolding find_model
find_model-append_none i [] r e h = ground arith
find_model-append_none i (s ∷ t) r e h = ground (arith, find_model-append_none i t r)

pub find_model-append_new :
    (t : Rows) (r : ModelRow) → find_model r.id t ≡ none → find_model r.id (t ++ (r ∷ [])) ≡ some r
unfolding find_model
find_model-append_new [] r e = ground (arith, eq_refl r.id)
find_model-append_new (s ∷ t) r e = ground (arith, find_model-append_new t r)

pub append-IsKeyed :
    (t : Rows) (r : ModelRow) → IsKeyed t → find_model r.id t ≡ none → IsKeyed (t ++ (r ∷ []))
unfolding find_model
append-IsKeyed [] r w e = (refl, tt)
append-IsKeyed (s ∷ t) r w e = ground (
  arith,
  eq_iff s.id r.id,
  eq_iff r.id s.id,
  find_model-append_none s.id t r w.0,
  append-IsKeyed t r w.1,
)

find_model-delete_row-none :
    (i j : String) (t : Rows) → find_model j t ≡ none → find_model j (delete_row i t) ≡ none
unfolding find_model delete_row
find_model-delete_row-none i j [] e = refl
find_model-delete_row-none i j (s ∷ t) e = ground (arith, find_model-delete_row-none i j t)

pub delete_row-IsKeyed : (i : String) (t : Rows) → IsKeyed t → IsKeyed (delete_row i t)
unfolding delete_row
delete_row-IsKeyed i [] w = tt
delete_row-IsKeyed i (s ∷ t) w =
    ground (arith, find_model-delete_row-none i s.id t w.0, delete_row-IsKeyed i t w.1)

find_model-put_row-none :
    (row : ModelRow) (j : String) (t : Rows)
    → find_model j t ≡ none
    → find_model j (put_row row t) ≡ none
unfolding find_model put_row
find_model-put_row-none row j [] e = refl
find_model-put_row-none row j (s ∷ t) e =
    ground (arith, eq_iff s.id row.id, find_model-put_row-none row j t)

pub put_row-IsKeyed : (row : ModelRow) (t : Rows) → IsKeyed t → IsKeyed (put_row row t)
unfolding put_row
put_row-IsKeyed row [] w = tt
put_row-IsKeyed row (s ∷ t) w = ground (
  arith,
  eq_iff s.id row.id,
  find_model-put_row-none row s.id t w.0,
  find_model-put_row-none row row.id t,
  put_row-IsKeyed row t w.1,
)
