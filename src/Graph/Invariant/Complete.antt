-- ===== src/Graph/Invariant/Complete.antt =====
-- demo/dependent_graph.h: `complete` keeps the invariant.
use scx_slam_fresh.Base.{
  ℕ, ◌≤◌, ◌≡◌, refl, ap, inl, inr, Bool-cases, false, List, [], ◌∷◌, Option, none, some, leb,
  value_or, arith,
}
use scx_slam_fresh.Graph.{
  Stream, imu, camera, Measurement, Batch, Snapshot, Lane, Graph, lane, set_lane, same_stream,
  no_snapshot, consume, newer, note_stream, count_consumed, finish_batch, complete, count_stream,
  inputs_of,
}
use scx_slam_fresh.Graph.Calls.{after, at_time, complete_cases}
use scx_slam_fresh.Graph.Invariant.{Past, LaneInv, PastMeasurement, PastSnapshot, Inv, later-Inv}

-- The invariant inside the loop of `complete`, with the inputs that are still to be counted.
record Consuming (ms : List Measurement) (g : Graph) : Type 0 where
  of_imu : LaneInv imu g.capacity g.clock_time ms g.lane_imu
  of_camera : LaneInv camera g.capacity g.clock_time ms g.lane_camera

count-LaneInv :
    (s : Stream) (c now : ℕ) (m : Measurement) (ms : List Measurement) (l : Lane)
    → m.stream ≡ s
    → LaneInv s c now (m ∷ ms) l
    → LaneInv s c now ms (count_consumed l)
unfolding count_stream
count-LaneInv imu c now m ms l e v = ground arith
count-LaneInv camera c now m ms l e v = ground arith

skip-LaneInv :
    (s : Stream) (c now : ℕ) (m : Measurement) (ms : List Measurement) (l : Lane)
    → same_stream m.stream s ≡ false
    → LaneInv s c now (m ∷ ms) l
    → LaneInv s c now ms l
unfolding count_stream
skip-LaneInv s c now m ms l e v = ground arith

step-Consuming :
    (st : Stream) (m : Measurement) (ms : List Measurement) (g : Graph)
    → m.stream ≡ st
    → Consuming (m ∷ ms) g
    → Consuming ms (set_lane st (count_consumed (lane st g)) g)
step-Consuming imu m ms g e v = record {
  of_imu = count-LaneInv imu _ _ m ms g.lane_imu e v.of_imu;
  of_camera = skip-LaneInv camera _ _ m ms g.lane_camera (rw e) v.of_camera;
}
step-Consuming camera m ms g e v = record {
  of_imu = skip-LaneInv imu _ _ m ms g.lane_imu (rw e) v.of_imu;
  of_camera = count-LaneInv camera _ _ m ms g.lane_camera e v.of_camera;
}

set_lane-clock_time :
    (s : Stream) (l : Lane) (g : Graph) → (set_lane s l g).clock_time ≡ g.clock_time
set_lane-clock_time imu l g = refl
set_lane-clock_time camera l g = refl

newer-Past :
    (t : ℕ) (m : Measurement) (o : Option Measurement)
    → m.source_time ≤ t
    → PastMeasurement t o
    → PastMeasurement t (newer m o)
unfolding newer
newer-Past t m none h p = h
newer-Past t m (some last) h p = elim (Bool-cases (leb last.source_time m.source_time)) [
  | inl e ↦ rw (e, newer) h
  | inr e ↦ rw (e, newer) p
]

note_stream-Past :
    (t : ℕ) (st : Stream) (m : Measurement) (s : Snapshot)
    → m.source_time ≤ t
    → PastSnapshot t (some s)
    → PastSnapshot t (some (note_stream st m s))
unfolding note_stream
note_stream-Past t imu m s h p = (newer-Past t m s.last_imu h p.0, p.1)
note_stream-Past t camera m s h p = (p.0, newer-Past t m s.last_camera h p.1)

consume-Consuming :
    (ms : List Measurement) (s : Snapshot) (g : Graph)
    → Consuming ms g
    → Past g.clock_time ms
    → PastSnapshot g.clock_time (some s)
    → let (s', g') = consume ms s g in Consuming [] g' × PastSnapshot g'.clock_time (some s')
unfolding consume
consume-Consuming [] s g v h p = (v, p)
consume-Consuming (m ∷ ms) s g v h p =
    let st = m.stream in
    let g1 = set_lane st (count_consumed (lane st g)) g in
    let e : g1.clock_time ≡ g.clock_time = set_lane-clock_time st _ g in
    consume-Consuming ms (note_stream st m s) g1 (step-Consuming st m ms g refl v) (rw e h.1)
      (rw e (note_stream-Past _ st m s h.0 p))

value_or-Past :
    (t : ℕ) (o : Option Snapshot)
    → PastSnapshot t o
    → PastSnapshot t (some (value_or o no_snapshot))
value_or-Past t none p = (tt, tt)
value_or-Past t (some s) p = p

finish_batch-Inv :
    (b : Batch) (t : ℕ) (g : Graph) → g.running ≡ some b → Inv g → Inv (finish_batch b t g).1
unfolding finish_batch
finish_batch-Inv b t g e v =
    let (w, p) =
      consume-Consuming b.inputs
        (record (value_or g.latest no_snapshot) { batch_id = b.id; completed = t }) g
        (rw (ap inputs_of e) at (
          let c : Consuming (inputs_of g.running) g = record {
            of_imu = v.inv_imu;
            of_camera = v.inv_camera;
          } in
          c))
        (rw (ap inputs_of e) at v.past_running) (value_or-Past _ g.latest v.past_latest) in
    record {
      inv_imu = w.of_imu;
      inv_camera = w.of_camera;
      sized = tt;
      past_running = tt;
      past_latest = p;
    }

pub complete-Inv : (id t : ℕ) (g : Graph) → Inv g → Inv (after g (complete id t g))
complete-Inv id t g v =
    complete_cases (λ r. Inv (after g r)) id t g (λ e. v)
      λ b e _ on. finish_batch-Inv b t (at_time t g) e (later-Inv g t on v)
