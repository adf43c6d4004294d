-- ===== src/Graph/Select.antt =====
-- demo/dependent_graph.h: what the loop of `select` takes, and what it leaves.
use scx_slam_fresh.Base.{
  ℕ, zero, suc, ◌+◌, min, ◌≡◌, refl, inl, inr, Bool-cases, List, [], ◌∷◌, ◌++◌, ltb, if◌then◌else◌,
  length, All, arith,
}
use scx_slam_fresh.Graph.{Stream, imu, camera, Measurement, same_stream, Fill, fill, count_stream}

-- The measurements of one stream, in order.
abbrev pub of_stream : Stream → List Measurement → List Measurement
of_stream s [] = []
of_stream s (m ∷ ms) =
    let rest = of_stream s ms in if same_stream m.stream s then m ∷ rest else rest

pub of_stream-append :
    (s : Stream) (xs ys : List Measurement)
    → of_stream s (xs ++ ys) ≡ of_stream s xs ++ of_stream s ys
of_stream-append s [] ys = refl
of_stream-append s (x ∷ xs) ys = ground (arith, of_stream-append s xs ys)

pub count_stream-length :
    (s : Stream) (ms : List Measurement) → count_stream s ms ≡ length (of_stream s ms)
unfolding count_stream
count_stream-length s [] = refl
count_stream-length s (m ∷ ms) = ground (arith, count_stream-length s ms)

abbrev pub Mine : Stream → List Measurement → Type 0
Mine s = All (λ m. m.stream ≡ s)

abbrev pub IsSplit : Stream → List Measurement → List Measurement → List Measurement → Type 0
IsSplit s xs taken rest = of_stream s taken ++ rest ≡ xs

pub record Splits (xs ys : List Measurement) (f : Fill) : Type 0 where
  pub split_imu : of_stream imu f.taken ++ f.rest_imu ≡ xs
  pub split_camera : of_stream camera f.taken ++ f.rest_camera ≡ ys

pub fill-Splits :
    (room : ℕ) (xs ys : List Measurement)
    → Mine imu xs
    → Mine camera ys
    → Splits xs ys (fill room xs ys)
unfolding fill
fill-Splits zero xs ys hx hy = record { split_imu = refl; split_camera = refl }
fill-Splits (suc room) [] [] hx hy = record { split_imu = refl; split_camera = refl }
fill-Splits (suc room) (x ∷ xs) [] hx hy = ground (arith, fill-Splits room xs [] hx.1 tt)
fill-Splits (suc room) [] (y ∷ ys) hx hy = ground (arith, fill-Splits room [] ys tt hy.1)
fill-Splits (suc room) (x ∷ xs) (y ∷ ys) hx hy =
    ground (arith, fill-Splits room (x ∷ xs) ys hx hy.1, fill-Splits room xs (y ∷ ys) hx.1 hy)

pub record FillAll {ℓ} (P : Measurement → Type ℓ) (f : Fill) : Type ℓ where
  pub all_taken : All P f.taken
  pub all_imu : All P f.rest_imu
  pub all_camera : All P f.rest_camera

module _ {ℓ} (P : Measurement → Type ℓ) where
  pub fill-All :
      (room : ℕ) (xs ys : List Measurement) → All P xs → All P ys → FillAll P (fill room xs ys)
  unfolding fill
  fill-All zero xs ys hx hy = record { all_taken = tt; all_imu = hx; all_camera = hy }
  fill-All (suc room) [] [] hx hy = record { all_taken = tt; all_imu = tt; all_camera = tt }
  fill-All (suc room) (x ∷ xs) [] hx hy =
      let r = fill-All room xs [] hx.1 tt in
      record { all_taken = (hx.0, r.all_taken); all_imu = r.all_imu; all_camera = r.all_camera }
  fill-All (suc room) [] (y ∷ ys) hx hy =
      let r = fill-All room [] ys tt hy.1 in
      record { all_taken = (hy.0, r.all_taken); all_imu = r.all_imu; all_camera = r.all_camera }
  fill-All (suc room) (x ∷ xs) (y ∷ ys) hx hy =
      elim (Bool-cases (ltb y.source_time x.source_time)) [
        | inl e ↦
            rw (e, fill)
              (let r = fill-All room (x ∷ xs) ys hx hy.1 in
                record {
                  all_taken = (hy.0, r.all_taken);
                  all_imu = r.all_imu;
                  all_camera = r.all_camera;
                })
        | inr e ↦
            rw (e, fill)
              (let r = fill-All room xs (y ∷ ys) hx.1 hy in
                record {
                  all_taken = (hx.0, r.all_taken);
                  all_imu = r.all_imu;
                  all_camera = r.all_camera;
                })
      ]

-- The loop takes as many as there are, up to the room in the batch.
pub length-fill :
    (room : ℕ) (xs ys : List Measurement)
    → length (fill room xs ys).taken ≡ min room (length xs + length ys)
unfolding fill
length-fill zero xs ys = omega arith
length-fill (suc room) [] [] = omega arith
length-fill (suc room) (x ∷ xs) [] = omega (arith, length-fill room xs [])
length-fill (suc room) [] (y ∷ ys) = omega (arith, length-fill room [] ys)
length-fill (suc room) (x ∷ xs) (y ∷ ys) =
    ground (arith, length-fill room (x ∷ xs) ys, length-fill room xs (y ∷ ys))
