-- ===== src/Workload.antt =====
-- ros2/scx_slam_workload: the bag adapter, and the hints that an experiment withholds.
pub mod Bag
pub mod Ablation
pub mod Pipeline
