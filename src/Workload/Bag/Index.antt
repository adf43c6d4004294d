-- ===== src/Workload/Bag/Index.antt =====
-- ros2/scx_slam_workload, bag_adapter.hpp: a loaded index numbers the bag's stamps, and a stamp in
-- nanoseconds is exact.
use scx_slam_fresh.Base.{
  [], ◌∷◌, inl, inr, ◌==◌, ◌||◌, ◌>>=◌, ok, err, none, some, suc, ◌<◌, ◌+◌, ℕ, List, ◌++◌, ◌≡◌,
  length, refl, subst, arith, ok_injective, Bool-cases, ◌^◌, ◌↔◌, ◌≤◌, Option, empty, ◌*◌, Result,
  false, leb, not,
}
use scx_slam_fresh.Workload.Bag.{
  read_rows, IndexEntry, bad_row, Stamp, find_stamp, job_id, load_index, source_stamp_ns, IndexFile,
  check_read, BagError,
}

-- Entries numbered from `n + 1` on, with stamps that grow above `t`.
abbrev pub Numbered : ℕ → ℕ → List IndexEntry → Type 0
Numbered n t [] = Unit
Numbered n t (e ∷ es) = (e.ordinal ≡ suc n) × (t < e.stamp) × Numbered (suc n) e.stamp es

-- The last stamp, or `t` where there is none.
abbrev last_stamp : ℕ → List IndexEntry → ℕ
last_stamp t [] = t
last_stamp t (e ∷ es) = last_stamp e.stamp es

snoc-Numbered :
    (n t : ℕ) (es : List IndexEntry) (e : IndexEntry)
    → Numbered n t es
    → e.ordinal ≡ suc (n + length es)
    → last_stamp t es < e.stamp
    → Numbered n t (es ++ (e ∷ []))
snoc-Numbered n t [] e h o l = (omega arith, l, tt)
snoc-Numbered n t (x ∷ es) e h o l =
    (h.0, h.1, snoc-Numbered (suc n) x.stamp es e h.2 (omega arith) l)

last_stamp-snoc :
    (t : ℕ) (es : List IndexEntry) (e : IndexEntry) → last_stamp t (es ++ (e ∷ [])) ≡ e.stamp
last_stamp-snoc t [] e = refl
last_stamp-snoc t (x ∷ es) e = last_stamp-snoc x.stamp es e

read_rows-Numbered :
    (ns : List ℕ) (previous : ℕ) (entries out : List IndexEntry)
    → last_stamp 0 entries ≡ previous
    → Numbered 0 0 entries
    → read_rows ns previous entries ≡ ok out
    → Numbered 0 0 out
unfolding read_rows
read_rows-Numbered [] previous entries out l h q = subst (λ x. Numbered 0 0 x) (ok_injective q) h
read_rows-Numbered (stamp ∷ []) previous entries out l h q = ground arith
read_rows-Numbered (stamp ∷ ordinal ∷ rest) previous entries out l h q =
    let e : IndexEntry = record { stamp = stamp; ordinal = ordinal } in
    elim (Bool-cases (bad_row stamp ordinal previous (length entries))) [
      | inl b ↦ (let c = simp b at q in ground arith)
      | inr b ↦
          let fine : (previous < stamp) × (ordinal ≡ suc (length entries)) =
            (unfold bad_row in ground arith) in
          let f0 = fine.0 in
          let f1 = fine.1 in
          read_rows-Numbered rest stamp (entries ++ (e ∷ [])) out (last_stamp-snoc 0 entries e)
            (snoc-Numbered 0 0 entries e h (omega arith) (omega arith)) (simp b at q)
    ]

load-Numbered :
    (file : Option (Option IndexFile)) (entries : List IndexEntry)
    → load_index file ≡ ok entries
    → Numbered 0 0 entries
unfolding load_index check_read
load-Numbered none entries q = subst (λ x. Numbered 0 0 x) (ok_injective q) tt
load-Numbered (some none) entries q = ground arith
load-Numbered (some (some f)) entries q = through (read_rows f.numbers 0 []) refl q
  where
    through :
        (o : Result BagError (List IndexEntry))
        → read_rows f.numbers 0 [] ≡ o
        → (o >>= check_read f.at_eof) ≡ ok entries
        → Numbered 0 0 entries
    through (err e) h k = ground arith
    through (ok es) h k = elim (Bool-cases (not f.at_eof || empty es)) [
      | inl b ↦ (let c = simp b at k in ground arith)
      | inr b ↦
          subst (λ x. Numbered 0 0 x) (ok_injective (simp b at k))
            (read_rows-Numbered f.numbers 0 [] es refl tt h)
    ]

found_above :
    (n t s i : ℕ) (es : List IndexEntry)
    → Numbered n t es
    → find_stamp s es ≡ ok i
    → (t < s) × (n < i) × (i ≤ n + length es)
unfolding find_stamp
found_above n t s i [] h q = ground arith
found_above n t s i (e ∷ es) h q = elim (Bool-cases (e.stamp == s)) [
  | inl b ↦ let same = ok_injective (simp b at q) in let h0 = h.0 in let h1 = h.1 in ground arith
  | inr b ↦
      let r = found_above (suc n) e.stamp s i es h.2 (simp b at q) in
      let r0 = r.0 in
      let r1 = r.1 in let r2 = r.2 in let h1 = h.1 in (omega arith, omega arith, omega arith)
]

find_order :
    (n t s s' i i' : ℕ) (es : List IndexEntry)
    → Numbered n t es
    → find_stamp s es ≡ ok i
    → find_stamp s' es ≡ ok i'
    → ((s < s') ↔ (i < i')) × (s ≡ s' → i ≡ i') × (i ≡ i' → s ≡ s')
unfolding find_stamp
find_order n t s s' i i' [] h q q' = ground arith
find_order n t s s' i i' (e ∷ es) h q q' =
    let h0 = h.0 in
    elim (Bool-cases (e.stamp == s)) [
      | inl b ↦
          let is = ok_injective (simp b at q) in
          elim (Bool-cases (e.stamp == s')) [
            | inl b' ↦ (let is' = ok_injective (simp b' at q') in ground arith)
            | inr b' ↦
                (let r = found_above (suc n) e.stamp s' i' es h.2 (simp b' at q') in ground arith)
          ]
      | inr b ↦ elim (Bool-cases (e.stamp == s')) [
        | inl b' ↦
            let is' = ok_injective (simp b' at q') in
            let r = found_above (suc n) e.stamp s i es h.2 (simp b at q) in ground arith
        | inr b' ↦ find_order (suc n) e.stamp s s' i i' es h.2 (simp b at q) (simp b' at q')
      ]
    ]

load_full :
    (f : IndexFile) (entries : List IndexEntry)
    → load_index (some (some f)) ≡ ok entries
    → empty entries ≡ false
unfolding load_index check_read
load_full f entries q = through (read_rows f.numbers 0 []) q
  where
    through :
        (o : Result BagError (List IndexEntry))
        → (o >>= check_read f.at_eof) ≡ ok entries
        → empty entries ≡ false
    through (err e) k = ground arith
    through (ok es) k = elim (Bool-cases (not f.at_eof || empty es)) [
      | inl b ↦ (let c = simp b at k in ground arith)
      | inr b ↦ subst (λ x. empty x ≡ false) (ok_injective (simp b at k)) (ground arith)
    ]

-- In an index that was loaded from a file, the job ids of two stamps that it has are numbers from 1
-- to its size, the same only for the same stamp, and in the order of the stamps; the receive counter
-- plays no part.
pub index_orders_jobs :
    (f : IndexFile) (entries : List IndexEntry) (s s' c c' i i' : ℕ)
    → load_index (some (some f)) ≡ ok entries
    → job_id entries s c ≡ ok i
    → job_id entries s' c' ≡ ok i'
    → (1 ≤ i) × (i ≤ length entries) × ((s < s') ↔ (i < i')) × (i ≡ i' → s ≡ s')
unfolding job_id
index_orders_jobs f entries s s' c c' i i' l q q' =
    let n = load-Numbered (some (some f)) entries l in
    let full = load_full f entries l in
    let k = simp full at q in
    let k' = simp full at q' in
    let a = found_above 0 0 s i entries n k in
    let o = find_order 0 0 s s' i i' entries n k k' in
    let a1 = a.1 in let a2 = a.2 in (omega arith, omega arith, o.0, o.2)

exact :
    (s : Stamp) (a : ℕ)
    → s.sec < 2 ^ 31
    → source_stamp_ns s ≡ ok a
    → (a ≡ s.sec * 1000000000 + s.nanosec) × (s.negative ≡ false) × (s.nanosec < 1000000000)
unfolding source_stamp_ns
exact s a h q = elim (Bool-cases (s.negative || leb 1000000000 s.nanosec)) [
  | inl b ↦ (let c = simp b at q in ground arith)
  | inr b ↦ (let c = ok_injective (simp b at q) in ground arith)
]

-- A stamp that is accepted, its seconds an `int32_t`, is the exact number of nanoseconds, and no two
-- accepted stamps have the same.
pub source_stamp_exact :
    (s t : Stamp) (a b : ℕ)
    → s.sec < 2 ^ 31
    → t.sec < 2 ^ 31
    → source_stamp_ns s ≡ ok a
    → source_stamp_ns t ≡ ok b
    → (a ≡ s.sec * 1000000000 + s.nanosec)
      × (s.negative ≡ false)
      × (s.nanosec < 1000000000)
      × (a ≡ b → (s.sec ≡ t.sec) × (s.nanosec ≡ t.nanosec))
source_stamp_exact s t a b hs ht qs qt =
    let x = exact s a hs qs in
    let y = exact t b ht qt in
    (
      x.0,
      x.1,
      x.2,
      λ e.
          (let x0 = x.0 in
            let x2 = x.2 in let y0 = y.0 in let y2 = y.2 in (omega arith, omega arith)),
    )
