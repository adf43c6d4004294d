-- ===== src/Graph/Invariant/Select.antt =====
-- demo/dependent_graph.h: `select` keeps the invariant.
use scx_slam_fresh.Base.{
  ℕ, ◌+◌, ◌≤◌, ◌≡◌, refl, sym, ap, List, [], ◌∷◌, ◌++◌, Option, none, some, length, length-append,
  All-drop_prefix, subst, arith,
}
use scx_slam_fresh.Graph.{
  Stream, imu, camera, Measurement, Batch, Lane, Graph, fill, start_batch, select_idle, select,
  Fill, count_stream, inputs_of,
}
use scx_slam_fresh.Graph.Calls.{after, at_time, select_cases}
use scx_slam_fresh.Graph.Select.{
  Mine, of_stream, Splits, FillAll, fill-Splits, fill-All, length-fill, count_stream-length,
}
use scx_slam_fresh.Graph.Invariant.{Past, LaneInv, PastSnapshot, Inv, later-Inv}

start_batch-Inv :
    (ms : List Measurement) (g : Graph)
    → length ms ≤ g.limit
    → Past g.clock_time ms
    → LaneInv imu g.capacity g.clock_time ms g.lane_imu
    → LaneInv camera g.capacity g.clock_time ms g.lane_camera
    → g.running ≡ none
    → PastSnapshot g.clock_time g.latest
    → Inv (start_batch ms g).1
unfolding start_batch
start_batch-Inv [] g n p a b e h = record {
  inv_imu = rw e a;
  inv_camera = rw e b;
  sized = rw e tt;
  past_running = rw e tt;
  past_latest = h;
}
start_batch-Inv (m ∷ ms) g n p a b e h = record {
  inv_imu = a;
  inv_camera = b;
  sized = (omega arith, n);
  past_running = p;
  past_latest = h;
}

taken-LaneInv :
    (s : Stream) (c now : ℕ) (taken rest : List Measurement) (l : Lane)
    → of_stream s taken ++ rest ≡ l.inbox
    → Mine s rest
    → Past now rest
    → LaneInv s c now [] l
    → LaneInv s c now taken (record l { inbox = rest })
unfolding count_stream
taken-LaneInv s c now taken rest l e hm hp v =
    let n : length l.inbox ≡ count_stream s taken + length rest =
      omega
        (arith, ap length e, length-append (of_stream s taken) rest, count_stream-length s taken) in
    record {
      mine = hm;
      past = hp;
      bounded = omega (arith, v.bounded);
      conserved = omega (arith, v.conserved);
    }

select_idle-Inv : (o : Option Batch) (g : Graph) → g.running ≡ o → Inv g → Inv (select_idle o g).1
unfolding select_idle
select_idle-Inv (some b) g e v = v
select_idle-Inv none g e v =
    start_batch-Inv f.taken _ (omega (arith, length-fill limit lane_imu.inbox lane_camera.inbox))
      p.all_taken
      (taken-LaneInv imu _ _ _ _ lane_imu sp.split_imu
        (All-drop_prefix _ _ _ (subst (Mine imu) (sym sp.split_imu) v.inv_imu.mine)) p.all_imu a)
      (taken-LaneInv camera _ _ _ _ lane_camera sp.split_camera
        (All-drop_prefix _ _ _ (subst (Mine camera) (sym sp.split_camera) v.inv_camera.mine))
        p.all_camera b)
      e v.past_latest
  where
    open g use {limit, lane_imu, lane_camera}

    f : Fill
    f = fill limit lane_imu.inbox lane_camera.inbox

    p : FillAll (λ m. m.source_time ≤ g.clock_time) f
    p = fill-All _ limit lane_imu.inbox lane_camera.inbox v.inv_imu.past v.inv_camera.past

    sp : Splits lane_imu.inbox lane_camera.inbox f
    sp = fill-Splits limit lane_imu.inbox lane_camera.inbox v.inv_imu.mine v.inv_camera.mine

    a : LaneInv imu g.capacity g.clock_time [] lane_imu
    a = rw (ap inputs_of e) at v.inv_imu

    b : LaneInv camera g.capacity g.clock_time [] lane_camera
    b = rw (ap inputs_of e) at v.inv_camera

pub select-Inv : (t : ℕ) (g : Graph) → Inv g → Inv (after g (select t g))
select-Inv t g v =
    select_cases (λ r. Inv (after g r)) t g (λ e. v)
      λ on. select_idle-Inv g.running (at_time t g) refl (later-Inv g t on v)
