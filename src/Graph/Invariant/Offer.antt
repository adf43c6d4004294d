-- ===== src/Graph/Invariant/Offer.antt =====
-- demo/dependent_graph.h: `offer` and `control` keep the invariant.
use scx_slam_fresh.Base.{
  ℕ, ◌≤◌, refl, inl, inr, Bool-cases, List, [], ◌∷◌, ◌==◌, length, length-append, All-append, arith,
}
use scx_slam_fresh.Graph.{
  Measurement, Lane, Graph, lane, enqueue, offer, control, inputs_of, control_now,
}
use scx_slam_fresh.Graph.Calls.{after, at_time, offer_cases, control_cases}
use scx_slam_fresh.Graph.Invariant.{LaneInv, Inv, later-Inv, lane-Inv, set_lane-Inv}

enqueue-LaneInv :
    (c now : ℕ) (m : Measurement) (fl : List Measurement) (l : Lane)
    → m.source_time ≤ now
    → LaneInv m.stream c now fl l
    → LaneInv m.stream c now fl (enqueue c m l).1
unfolding enqueue
enqueue-LaneInv c now m fl l h v = elim (Bool-cases (length l.inbox == c)) [
  | inl e ↦
      rw (e, enqueue)
        (record {
          mine = v.mine;
          past = v.past;
          bounded = v.bounded;
          conserved = omega (arith, v.conserved);
        })
  | inr e ↦
      rw (e, enqueue)
        (record {
          mine = All-append _ l.inbox (m ∷ []) v.mine (refl, tt);
          past = All-append _ l.inbox (m ∷ []) v.past (h, tt);
          bounded = ground (arith, v.bounded, length-append l.inbox (m ∷ []));
          conserved = omega (arith, v.conserved, length-append l.inbox (m ∷ []));
        })
]

pub offer-Inv : (m : Measurement) (t : ℕ) (g : Graph) → Inv g → Inv (after g (offer m t g))
offer-Inv m t g v =
    offer_cases (λ r. Inv (after g r)) m t g (λ e. v)
      λ fresh _ on.
        let w = later-Inv g t on v in
        set_lane-Inv m.stream {g = at_time t g}
          (enqueue-LaneInv g.capacity t m (inputs_of g.running) (lane m.stream (at_time t g)) fresh
            (lane-Inv m.stream w))
          w

pub control-Inv :
    (t setpoint age : ℕ) (g : Graph) → Inv g → Inv (after g (control t setpoint age g))
unfolding control_now
control-Inv t setpoint age g v =
    control_cases (λ r. Inv (after g r)) t setpoint age g (λ e. v)
      λ on.
        let w = later-Inv g t on v in
        record {
          inv_imu = w.inv_imu;
          inv_camera = w.inv_camera;
          sized = w.sized;
          past_running = w.past_running;
          past_latest = w.past_latest;
        }
