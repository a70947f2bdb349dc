-- ===== src/History/Order.antt =====
-- The order, the members and the number of the rows that retention sorts and removes.
use Prim.{⊥}
use local_book.Base.{
  All, Bool, Bool-cases, List, [], arith, eqb, inl, inr, leb, length, not, refl, some, subst, suc,
  ℕ, ◌-◌, ◌∷◌, ◌≡◌, ◌≤◌, ◌⊎◌, nat_eq, string_eq, option_eq, list_eq,
}
use local_book.Scheduler.{Run, get_run, insert_by_start, keep_runs, sort_by_start}
use local_book.History.Retention.{remove_excess, remove_oldest, remove_run, remove_where}
use local_book.History.Kept.{All-insert_by_start, All-weaken}

-- Rows in the order of their starts.
abbrev pub Sorted : List Run → Type 0
Sorted [] = Unit {0}
Sorted (r ∷ rest) = All (λ x. r.started_at ≤ x.started_at) rest × Sorted rest

insert_by_start-Sorted : (x : Run) (runs : List Run) → Sorted runs → Sorted (insert_by_start x runs)
unfolding insert_by_start
insert_by_start-Sorted x [] h = (tt, tt)
insert_by_start-Sorted x (y ∷ rest) (low, h) = elim (Bool-cases (leb x.started_at y.started_at)) [
  | inl e ↦
      let below : x.started_at ≤ y.started_at = ground arith in
      rw (insert_by_start, e)
        (
          (
            below,
            All-weaken (λ r. y.started_at ≤ r.started_at) (λ r. x.started_at ≤ r.started_at) rest
                (λ r l. omega (arith, below, l)) low,
          ),
          (low, h),
        )
  | inr e ↦
      rw (insert_by_start, e)
        (
          All-insert_by_start (λ r. y.started_at ≤ r.started_at) x rest (ground arith) low,
          insert_by_start-Sorted x rest h,
        )
]

pub sort_by_start-Sorted : (runs : List Run) → Sorted (sort_by_start runs)
unfolding sort_by_start
sort_by_start-Sorted [] = tt
sort_by_start-Sorted (r ∷ rest) =
    insert_by_start-Sorted r (sort_by_start rest) (sort_by_start-Sorted rest)

-- A row is a member of a list.
abbrev pub Has : Run → List Run → Type 0
Has r [] = ⊥
Has r (x ∷ rest) = (x ≡ r) ⊎ Has r rest

pub All-Has : (P : Run → Type 0) (runs : List Run) (r : Run) → All P runs → Has r runs → P r
All-Has P [] r hs h = elim h [ ]
All-Has P (x ∷ rest) r (h, hs) (inl e) = subst P e h
All-Has P (x ∷ rest) r (h, hs) (inr there) = All-Has P rest r hs there

pub Has-get_run : (j : ℕ) (runs : List Run) (r : Run) → get_run j runs ≡ some r → Has r runs
unfolding get_run
Has-get_run j [] r h = cc h
Has-get_run j (x ∷ rest) r h = elim (Bool-cases (eqb x.run_id j)) [
  | inl e ↦ inl (cc (rw (get_run, e) at h))
  | inr e ↦ inr (Has-get_run j rest r (rw (get_run, e) at h))
]

Has-insert_by_start :
    (r x : Run) (runs : List Run) → Has r (x ∷ runs) → Has r (insert_by_start x runs)
unfolding insert_by_start
Has-insert_by_start r x [] h = h
Has-insert_by_start r x (y ∷ rest) h = elim (Bool-cases (leb x.started_at y.started_at)) [
  | inl e ↦ rw (insert_by_start, e) h
  | inr e ↦
      let moved : Has r (y ∷ insert_by_start x rest) = elim h [
        | inl same ↦ inr (Has-insert_by_start r x rest (inl same))
        | inr (inl same) ↦ inl same
        | inr (inr there) ↦ inr (Has-insert_by_start r x rest (inr there))
      ] in
      rw (insert_by_start, e) moved
]

pub Has-sort_by_start : (r : Run) (runs : List Run) → Has r runs → Has r (sort_by_start runs)
unfolding sort_by_start
Has-sort_by_start r [] h = elim h [ ]
Has-sort_by_start r (x ∷ rest) (inl e) = Has-insert_by_start r x (sort_by_start rest) (inl e)
Has-sort_by_start r (x ∷ rest) (inr there) =
    Has-insert_by_start r x (sort_by_start rest) (inr (Has-sort_by_start r rest there))

length-keep_runs :
    (test : Run → Bool) (runs : List Run) → length (keep_runs test runs) ≤ length runs
unfolding keep_runs
length-keep_runs test [] = omega arith
length-keep_runs test (r ∷ rest) = ground (arith, length-keep_runs test rest)

pub length-remove_where :
    (test : Run → Bool) (rows runs : List Run) → length (remove_where test rows runs) ≤ length runs
unfolding remove_where remove_run
length-remove_where test [] runs = omega arith
length-remove_where test (r ∷ rows) runs =
    let shorter = length-keep_runs (λ x. not (eqb x.run_id r.run_id)) runs in
    elim (Bool-cases (test r)) [
      | inl e ↦
          rw (remove_where, e)
            (omega (arith, shorter, length-remove_where test rows (remove_run r.run_id runs)))
      | inr e ↦ rw (remove_where, e) (length-remove_where test rows runs)
    ]

length-insert_by_start :
    (x : Run) (runs : List Run) → length (insert_by_start x runs) ≡ suc (length runs)
unfolding insert_by_start
length-insert_by_start x [] = refl
length-insert_by_start x (y ∷ rest) = ground (arith, length-insert_by_start x rest)

length-sort_by_start : (runs : List Run) → length (sort_by_start runs) ≡ length runs
unfolding sort_by_start
length-sort_by_start [] = refl
length-sort_by_start (r ∷ rest) =
    omega (arith, length-insert_by_start r (sort_by_start rest), length-sort_by_start rest)

pub remove_excess-few :
    (most : ℕ) (runs : List Run) → length runs ≤ most → remove_excess most runs ≡ runs
unfolding remove_excess remove_where
remove_excess-few most runs h =
    let none_over : length (sort_by_start runs) - most ≡ 0 =
      omega (arith, length-sort_by_start runs, h) in
    rw none_over refl

pub remove_oldest-few :
    (most : ℕ) (runs : List Run) → length runs ≤ most → remove_oldest most runs ≡ runs
unfolding remove_oldest remove_where
remove_oldest-few most runs h =
    let none_over : length runs - most ≡ 0 = omega (arith, h) in rw none_over refl
