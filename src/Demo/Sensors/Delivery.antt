-- ===== src/Demo/Sensors/Delivery.antt =====
-- demo/slam_pipeline_demo.cpp, the camera's generator: every frame is delivered, once and in order.
use scx_slam_fresh.Base.{
  if◌then◌else◌, suc, zero, ℕ, ◌+◌, ◌*◌, ◌≤◌, ◌<◌, ◌==◌, inl, inr, [], ◌∷◌, ◌++◌, some, List,
  length, ◌^◌, ◌≡◌, sym, ◌≢◌, append-nil, length-append, add64, arith, ◌∙◌, append_assoc, refl, ap,
  Bool-cases, List-cases, ltb, false, true, subst,
}
use scx_slam_fresh.Demo.Sensors.{
  Camera, camera_frame, push_all, burst_first_index, camera_item, in_burst, hold_frame, send_frame,
  next_frame, camera_period_ns, camera_loop, camera_start, burst_fits, camera_frame_count,
  burst_delivery_index, end_of,
}
use scx_slam_fresh.Demo.{WorkItem}

-- The frame of an index, with its release time and its place in the burst.
unfoldable pub frame : ℕ → ℕ → ℕ → ℕ → WorkItem
frame count delivery start k = record {
  seq = k + 1;
  ts_ns = start + k * 33000000;
  kind = 1;
  points = 0;
  burst_id = if in_burst count delivery k then 1 else 0;
}

-- The first `n` frames.
unfoldable pub frames : ℕ → ℕ → ℕ → ℕ → List WorkItem
frames count delivery start zero = []
frames count delivery start (suc n) =
    frames count delivery start n ++ (frame count delivery start n ∷ [])

-- After `k` frames: what was pushed and what is held are these frames in order, and nothing is held
-- outside the burst.
record At (count delivery start k : ℕ) (c : Camera) : Type 0 where
  seq_is : c.seq ≡ k + 1
  index_is : c.frame_index ≡ k
  release_is : c.release ≡ start + k * 33000000
  in_order : c.pushed ++ c.held_burst ≡ frames count delivery start k
  counted : c.generated ≡ length c.pushed
  held_in_burst :
      c.held_burst ≢ [] → (burst_first_index count delivery < k) × (k ≤ delivery) × (0 < count)

push_all_lem :
    (ws : List WorkItem) (c : Camera)
    → c.generated ≡ length c.pushed
    → length c.pushed + length ws < 2 ^ 64
    → let d = push_all ws c in
      (d.pushed ≡ c.pushed ++ ws)
      × (d.generated ≡ length d.pushed)
      × (d.seq ≡ c.seq)
      × (d.frame_index ≡ c.frame_index)
      × (d.release ≡ c.release)
unfolding push_all
push_all_lem [] c g small = (sym (append-nil c.pushed), g, refl, refl, refl)
push_all_lem (w ∷ ws) c g small =
    let l = length-append c.pushed (w ∷ []) in
    let r =
      push_all_lem ws (record c { pushed = c.pushed ++ (w ∷ []); generated = add64 c.generated 1 })
        (omega arith) (omega arith) in
    (r.0 ∙ append_assoc c.pushed (w ∷ []) ws, r.1, r.2, r.3, r.4)

length-frames : (count delivery start n : ℕ) → length (frames count delivery start n) ≡ n
unfolding frames
length-frames count delivery start zero = refl
length-frames count delivery start (suc n) =
    let l = length-append (frames count delivery start n) (frame count delivery start n ∷ []) in
    let i = length-frames count delivery start n in omega arith

frame-At :
    (count delivery start k : ℕ) (c : Camera)
    → start + (k + 1) * 33000000 < 2 ^ 64
    → k + 1 < 2 ^ 64
    → delivery + 1 < 2 ^ 64
    → At count delivery start k c
    → At count delivery start (suc k) (camera_frame count delivery c)
unfolding frames camera_frame hold_frame send_frame next_frame
frame-At count delivery start k c small tiny del i =
    let w = camera_item count delivery c in
    let same : w ≡ frame count delivery start k =
      (unfold frame camera_item in rw (i.seq_is, i.index_is, i.release_is) refl) in
    let l = length-append c.pushed c.held_burst in
    let lf = length-frames count delivery start k in
    let lo = ap length i.in_order in
    let lw = length-append c.held_burst (w ∷ []) in
    let lp = length-append c.pushed (w ∷ []) in
    let order : c.pushed ++ (c.held_burst ++ (w ∷ [])) ≡ frames count delivery start (suc k) =
      sym (append_assoc c.pushed c.held_burst (w ∷ []))
      ∙ ap (λ xs. xs ++ (w ∷ [])) i.in_order
      ∙ ap (λ x. frames count delivery start k ++ (x ∷ [])) same in
    let held = i.held_in_burst in
    elim (Bool-cases (in_burst count delivery c.frame_index)) [
      | inl b ↦ elim (Bool-cases (c.frame_index == delivery)) [
        | inl d ↦
            let c1 = record c { seq = add64 c.seq 1; held_burst = c.held_burst ++ (w ∷ []) } in
            let p = push_all_lem (c.held_burst ++ (w ∷ [])) c1 i.counted (omega arith) in
            simp (b, d)
              (record {
                seq_is = p.2 ∙ omega arith;
                index_is = ap (λ x. add64 x 1) p.3 ∙ omega arith;
                release_is = ap (λ x. add64 x camera_period_ns) p.4 ∙ omega arith;
                in_order = append-nil _ ∙ p.0 ∙ order;
                counted = p.1;
                held_in_burst = λ q. elim (q refl) [ ];
              })
        | inr d ↦
            simp (b, d)
              (record {
                seq_is = omega arith;
                index_is = omega arith;
                release_is = omega arith;
                in_order = order;
                counted = i.counted;
                held_in_burst = λ q. (unfold in_burst in ground arith);
              })
      ]
      | inr b ↦
          let none_held : c.held_burst ≡ [] = elim (List-cases c.held_burst) [
            | inl h ↦ h
            | inr h ↦ (let g = held (λ q. cc) in unfold in_burst in ground arith)
          ] in
          let keep : (c.pushed ++ (w ∷ [])) ++ c.held_burst ≡ frames count delivery start (suc k) =
            ap (λ xs. (c.pushed ++ (w ∷ [])) ++ xs) none_held
            ∙ append-nil (c.pushed ++ (w ∷ []))
            ∙ ap (λ xs. c.pushed ++ (xs ++ (w ∷ []))) (sym none_held)
            ∙ order in
          simp b (record {
            seq_is = omega arith;
            index_is = omega arith;
            release_is = omega arith;
            in_order = keep;
            counted = omega arith;
            held_in_burst = λ q. elim (q none_held) [ ];
          })
    ]

-- `n` is the number of the frames that are released before the end.
abbrev Released : ℕ → ℕ → ℕ → Type 0
Released start end_ns n =
    (start + n * 33000000 < end_ns + 33000000) × (end_ns ≤ start + n * 33000000)

camera_loop-At :
    (left fuel count delivery start end_ns n k : ℕ) (c : Camera)
    → end_ns + 33000000 < 2 ^ 64
    → delivery + 1 < 2 ^ 64
    → Released start end_ns n
    → k + left ≡ n
    → left ≤ fuel
    → At count delivery start k c
    → (d : Camera) × (camera_loop fuel count delivery end_ns c ≡ some d)
      × At count delivery start n d
unfolding camera_loop
camera_loop-At zero fuel count delivery start end_ns n k c small del r e f i =
    let over : ltb c.release end_ns ≡ false = (let q = i.release_is in ground arith) in
    (c, (stops fuel over), subst (λ x. At count delivery start x c) (omega arith) i)
  where
    stops : (m : ℕ) → ltb c.release end_ns ≡ false → camera_loop m count delivery end_ns c ≡ some c
    stops zero q = simp q
    stops (suc m) q = simp q
camera_loop-At (suc left) zero count delivery start end_ns n k c small del r e f i = ground arith
camera_loop-At (suc left) (suc fuel) count delivery start end_ns n k c small del r e f i =
    let on : ltb c.release end_ns ≡ true = (let q = i.release_is in ground arith) in
    let j = frame-At count delivery start k c (omega arith) (omega arith) del i in
    let rest =
      camera_loop-At left fuel count delivery start end_ns n (suc k) (camera_frame count delivery c)
        small del r (omega arith) (omega arith) j in
    (rest.0, simp on (rest.1), rest.2)

-- For a run and a burst that pass the checks of `main` and whose times are words (the duration and
-- the offset of the burst are `int`s there), the camera's loop ends within as many turns as
-- `camera_frame_count` says: it has then pushed every frame that is released before the end, each
-- once, in the order of their sequence numbers, and holds none back.
pub camera_delivers_all :
    (start duration_s count at_ms fuel : ℕ)
    → duration_s < 2 ^ 31
    → at_ms < 2 ^ 31
    → start + duration_s * 1000000000 + 33000000 < 2 ^ 64
    → burst_fits duration_s count at_ms ≡ true
    → camera_frame_count duration_s ≤ fuel
    → let delivery = burst_delivery_index at_ms in
      (c : Camera) × (camera_loop fuel count delivery (end_of start duration_s) (camera_start start)
        ≡ some c)
      × (c.pushed ≡ frames count delivery start (camera_frame_count duration_s))
      × (c.generated ≡ camera_frame_count duration_s)
      × (c.held_burst ≡ [])
unfolding camera_start
camera_delivers_all start duration_s count at_ms fuel d32 a32 small fits enough =
    let delivery = burst_delivery_index at_ms in
    let n = camera_frame_count duration_s in
    let new : At count delivery start 0 (camera_start start) = record {
      seq_is = refl;
      index_is = refl;
      release_is = omega arith;
      in_order = (unfold frames in refl);
      counted = refl;
      held_in_burst = λ q. elim (q refl) [ ];
    } in
    let r =
      camera_loop-At n fuel count delivery start (end_of start duration_s) n 0 (camera_start start)
        (unfold end_of in omega arith) (unfold burst_delivery_index in omega arith)
        (unfold end_of camera_frame_count in (omega arith, omega arith)) (omega arith) enough new in
    let i = r.2 in
    let held = i.held_in_burst in
    let none_held : r.0.held_burst ≡ [] = elim (List-cases r.0.held_burst) [
      | inl h ↦ h
      | inr h ↦
          (let g = held (λ q. cc) in
            let fit = fits in
            unfold burst_fits burst_first_index burst_delivery_index camera_frame_count in
            ground arith)
    ] in
    let order : r.0.pushed ≡ frames count delivery start n =
      sym (append-nil r.0.pushed) ∙ ap (λ xs. r.0.pushed ++ xs) (sym none_held) ∙ i.in_order in
    let l = length-frames count delivery start n in
    (r.0, r.1, order, i.counted ∙ ap length order ∙ l, none_held)
