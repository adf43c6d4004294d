-- ===== src/Executor/Registry/Tests.antt =====
-- ros2/scx_slam_executor/src/freshness_executor.cpp: a group that is registered again.
use scx_slam_fresh.Base.{◌≡◌, refl, true, false, [], ◌∷◌, none, some, ok, if◌then◌else◌, ◌==◌}
use scx_slam_fresh.Executor.Hint.{FreshAbi, CallbackProfile}
use scx_slam_fresh.Executor.Registry.Laws.{Distinct, change, Change, meant, change_rebinds, Fresh}
use scx_slam_fresh.Executor.Registry.{
  Entry, Registry, add_callback_group_with_profile, binding_for, is_null, valid_class, with_group,
  add_group, assign,
}

abbrev abi : FreshAbi
abi = record { stage_unspecified = 255; class_background = 0; class_deadline = 1; class_urgent = 2 }

abbrev profile : CallbackProfile
profile = record {
  stage_id = 0;
  class_id = 2;
  relative_deadline_ns = 5000000;
  stale_ns = 10000000;
  budget_ns = 1000000;
  slice_ns = 0;
  weight = 0;
  reject_expired = true;
}

abbrev subscribed : Entry
subscribed = record {
  group = 7;
  binding = record { profile = profile; metadata_extractor = some 1; observer = some 2 };
}

abbrev before : Registry
before = record { spinning = false; profiles = subscribed ∷ [] }

abbrev after : Registry
after = record {
  spinning = false;
  profiles =
      record {
        group = 7;
        binding = record { profile = profile; metadata_extractor = none; observer = none };
      }
      ∷ [];
}

added_again : change abi (some 7) (Change.adds false profile false) before ≡ ok after
unfolding change add_callback_group_with_profile is_null valid_class with_group add_group assign
added_again = refl

change_rebinds_example :
    (before.spinning ≡ false)
    × Distinct after.profiles
    × (binding_for abi (some 7) after ≡ (
        if 7 == 7
        then meant abi (Change.adds false profile false)
        else binding_for abi (some 7) before))
change_rebinds_example =
    change_rebinds abi 7 7 (Change.adds false profile false) before after
      (unfold Distinct Fresh in (tt, tt)) added_again
