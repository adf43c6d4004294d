-- ===== src/Workload/Pipeline/Percentile.antt =====
-- ros2/scx_slam_workload/src/slam_pipeline.cpp, `percentile_99`: the nearest-rank percentile.
use mathlib.Core.Option.{some-injective}
use scx_slam_fresh.Base.{
  ◌^◌, ◌≡◌, refl, ℕ, zero, suc, ◌*◌, ◌≤◌, ◌<◌, List, [], ◌∷◌, some, ltb, leb, if◌then◌else◌, inl,
  inr, Bool-cases, All-imp, length, arith,
}
use scx_slam_fresh.Workload.Ablation.Laws.{Ascending, NoLess}
use scx_slam_fresh.Workload.Pipeline.{insert, percentile_99, sort, value_at, rank_99}

-- How many values are at most `p`, and how many are below it.
unfoldable pub count_at_most : ℕ → List ℕ → ℕ
count_at_most p [] = 0
count_at_most p (x ∷ xs) = let rest = count_at_most p xs in if leb x p then suc rest else rest

unfoldable pub count_below : ℕ → List ℕ → ℕ
count_below p [] = 0
count_below p (x ∷ xs) = let rest = count_below p xs in if ltb x p then suc rest else rest

insert_counts :
    (p v : ℕ) (xs : List ℕ)
    → (count_at_most p (insert v xs) ≡ count_at_most p (v ∷ xs))
      × (count_below p (insert v xs) ≡ count_below p (v ∷ xs))
      × (length (insert v xs) ≡ suc (length xs))
unfolding insert count_at_most count_below
insert_counts p v [] = (refl, refl, refl)
insert_counts p v (x ∷ xs) =
    let i = insert_counts p v xs in
    elim (Bool-cases (leb v x)) [
      | inl k ↦ simp k (refl, refl, refl)
      | inr k ↦ (let a = i.0 in let b = i.1 in let c = i.2 in simp k (ground arith))
    ]

sort_counts :
    (p : ℕ) (xs : List ℕ)
    → (count_at_most p (sort xs) ≡ count_at_most p xs)
      × (count_below p (sort xs) ≡ count_below p xs)
      × (length (sort xs) ≡ length xs)
unfolding sort count_at_most count_below
sort_counts p [] = (refl, refl, refl)
sort_counts p (x ∷ xs) =
    let i = sort_counts p xs in
    let j = insert_counts p x (sort xs) in let a = i.0 in let b = i.1 in let c = i.2 in ground arith

NoLess-insert : (t v : ℕ) (xs : List ℕ) → t ≤ v → NoLess t xs → NoLess t (insert v xs)
unfolding insert
NoLess-insert t v [] h a = (h, tt)
NoLess-insert t v (x ∷ xs) h a =
    let i = NoLess-insert t v xs h a.1 in
    elim (Bool-cases (leb v x)) [ inl k ↦ simp k (h, a) | inr k ↦ simp k (a.0, i) ]

insert-Ascending : (v : ℕ) (xs : List ℕ) → Ascending xs → Ascending (insert v xs)
unfolding insert
insert-Ascending v [] a = (tt, tt)
insert-Ascending v (x ∷ xs) a =
    let i = insert-Ascending v xs a.1 in
    elim (Bool-cases (leb v x)) [
      | inl k ↦
          let le : v ≤ x = ground arith in simp k ((le, All-imp (λ c g. omega arith) xs a.0), a)
      | inr k ↦ let ge : x ≤ v = ground arith in simp k (NoLess-insert x v xs ge a.0, i)
    ]

sort-Ascending : (xs : List ℕ) → Ascending (sort xs)
unfolding sort
sort-Ascending [] = tt
sort-Ascending (x ∷ xs) = insert-Ascending x (sort xs) (sort-Ascending xs)

below_none : (p : ℕ) (xs : List ℕ) → NoLess p xs → count_below p xs ≡ 0
unfolding count_below
below_none p [] a = refl
below_none p (x ∷ xs) a = let i = below_none p xs a.1 in let g = a.0 in ground arith

above : (t i : ℕ) (xs : List ℕ) (v : ℕ) → NoLess t xs → value_at i xs ≡ some v → t ≤ v
unfolding value_at
above t i [] v a h = ground arith
above t zero (x ∷ xs) v a h = let e = some-injective _ _ h in let g = a.0 in ground arith
above t (suc i) (x ∷ xs) v a h = above t i xs v a.1 h

-- The element of a sorted list at an index: more than so many are at most it, and at most so many
-- are below it.
value_at-rank :
    (i : ℕ) (xs : List ℕ)
    → Ascending xs
    → i < length xs
    → (v : ℕ) × (value_at i xs ≡ some v) × (i < count_at_most v xs) × (count_below v xs ≤ i)
unfolding value_at count_at_most count_below
value_at-rank i [] a h = ground arith
value_at-rank zero (x ∷ xs) a h =
    let z = below_none x xs a.0 in (x, refl, ground arith, ground arith)
value_at-rank (suc i) (x ∷ xs) a h =
    let r = value_at-rank i xs a.1 (omega arith) in
    let v = r.0 in
    let p = r.2 in
    let q = r.3 in let le : x ≤ v = above x i xs v a.0 r.1 in (v, r.1, ground arith, ground arith)

-- Of any values, at least one and fewer than 2 ^ 57, `percentile_99` reads inside the sorted vector and gives the nearest
-- rank: at least 99 of 100 values are at most the result, and fewer than 99 of 100 are below it.
pub percentile_is_nearest_rank :
    (x : ℕ) (xs : List ℕ)
    → length (x ∷ xs) < 2 ^ 57
    → let values = x ∷ xs in
      (v : ℕ) × (percentile_99 values ≡ some v)
      × (99 * length values ≤ 100 * count_at_most v values)
      × (100 * count_below v values < 99 * length values)
unfolding percentile_99 rank_99
percentile_is_nearest_rank x xs small =
    let values = x ∷ xs in
    let l = (sort_counts 0 values).2 in
    let n = length values in
    let r = value_at-rank (rank_99 n) (sort values) (sort-Ascending values) (omega arith) in
    let v = r.0 in
    let p = r.2 in
    let q = r.3 in
    let c = sort_counts v values in
    let c0 = c.0 in let c1 = c.1 in (v, r.1, omega arith, omega arith)
