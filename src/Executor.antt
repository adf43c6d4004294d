-- ===== src/Executor.antt =====
-- ros2/scx_slam_executor: the hints, the callback registry and the two threads of `spin`.
pub mod Hint
pub mod Registry
pub mod Spin
