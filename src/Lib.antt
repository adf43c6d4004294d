-- ===== src/Lib.antt =====
-- Verification of scx-slam-fresh: what its C++ programs do with jobs, queues, hints and counters.
--
-- scx-slam-fresh schedules the stages of a SLAM pipeline by the freshness of their data. A producer
-- tells the kernel's scheduler about the next job of a thread through a hint, one slot for each
-- thread; the ROS 2 executor does the same for callbacks. What can go wrong is that a slot names
-- another job than the one that runs, that an item is lost or counted twice, or that a report of a
-- measurement window does not add up. The parts modelled here, and where:
--
-- Graph is demo/dependent_graph.h, class `Graph`. Each method is a function from the graph to a
-- result: `offer`, `select`, `complete`, `control`, `counts`, `pending`, `in_flight`. The two-element
-- arrays are a lane for each stream. Graph/Calls gives the sequences of calls.
-- Executor/Hint, Executor/Registry, Executor/Spin are ros2/scx_slam_executor, `FreshnessExecutor`.
-- Hint has `make_hint`, `expired` and the saturating addition; Registry the map from callback groups
-- to profiles; Spin the two threads of `spin()`, each a program counter, as a step relation over all
-- interleavings. A move is one critical section, wait, `notify_all` or external call, and every
-- exception that the code catches is a move; a thread sleeps in `condition.wait` until it is notified. `Reach` has the states of one call of `spin`.
-- Demo is demo/slam_pipeline_demo.cpp and demo/window_metrics.h. Demo/Queue is `BlockingQueue` with
-- its producers and its consumer, Demo/Window `CpuWindowBounds` and `measured_work_us`, Demo/Stage
-- `stage_worker` and `print_window_stage`, Demo/Sensors `imu_thread`, the camera's generator and
-- the checks of the burst options, Demo/Options the command line. The consumer of a queue is the
-- worker of a stage; a stage's turns are what `Demo.Queue` calls taking an item, and its output is
-- pushed to the next queue.
-- Worker is demo/dependent_workload.cpp, class `Worker`, which runs the jobs that feed a `Graph`: its
-- calls, its thread, and all orders of their critical sections. Worker/Order has the order of its jobs.
-- Dispatcher is `main` of the same file: the variables of the loop, a round (collect, release, control,
-- estimate, dispatch, in the code's order) and the loop, over `Graph` and five `Worker`s. Its invariant
-- is in Dispatcher/Safety, with what each operation does to it in the child modules.
-- Workload is ros2/scx_slam_workload. Workload/Bag is bag_adapter.hpp and `publish_job` of
-- bag_adapter.cpp; Workload/Ablation is hint_ablation.hpp and hog_metrics.hpp, whose hints are those
-- of Executor/Hint, and Workload/Pipeline is src/slam_pipeline.cpp: profiles, the counters of a stage,
-- `percentile_99`, `print_stats` and `publish_periodic`; Workload/Pipeline/Options is its command line,
-- `parse_options`.
-- Base has Boolean tests and native lists, `uint64_t` arithmetic with its wrap-around written out
-- (`u64`, `add64`, `sub64`, `mul64`), results of calls that may throw, and texts with the number readers
-- of the C library that the programs call (`strtoull`, `strtol`).
--
-- A component's file has its definitions, its child modules the proofs, and `Tests` in each the
-- concrete runs. The code outside the repository enters as arguments: the clocks (readings, or a
-- function from wall time to CPU time), rclcpp (what it hands out and whether it throws), the
-- kernel's map (the calls that are made of it) and the numbers of scx_fresh_shared.h (`FreshAbi`).
--
-- Fuel: the camera's loop runs on fuel, and as many turns as `camera_frame_count` says are enough. The
-- three loops of the dispatcher that release work run on fuel too, one turn for each nanosecond that
-- they are behind, and each turn makes up for at least 5 ms. The loops that wait for a clock run
-- over a list of readings or ticks; a run that needs more of them is `none`, and separate theorems
-- say which lists are enough. All others are structural.
--
-- Not modelled: thread start and join, affinity, names and policies, printing, floating-point cost
-- models, the option parser of demo/dependent_workload.cpp, node set-up, demo/edf_workload.c, and the scripts.
pub mod Base
pub mod Graph
pub mod Executor
pub mod Demo
pub mod Worker
pub mod Dispatcher
pub mod Workload
