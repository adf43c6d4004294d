-- ===== src/Executor/Registry.antt =====
-- ros2/scx_slam_executor/src/freshness_executor.cpp: the executor's map from callback groups to
-- profiles, and the calls that change it.
--
-- A group, a metadata extractor and an observer are names; none is a null pointer, an empty
-- function. Whether rclcpp's own `add_callback_group` or `remove_callback_group` throws is an
-- argument of the call.
pub mod Laws
mod Tests
use scx_slam_fresh.Base.{
  ℕ, Bool, true, false, not, ◌&&◌, ◌||◌, List, [], ◌∷◌, Option, none, some, has_value, ◌==◌,
  if◌then◌else◌, Result, ok, err, ◌>>=◌, ◌>>◌, throw_if, value_or,
}
use scx_slam_fresh.Executor.Hint.{FreshAbi, CallbackProfile, default_profile}

-- `Impl::ProfileBinding`.
pub record ProfileBinding : Type 0 where
  pub profile : CallbackProfile
  pub metadata_extractor : Option ℕ
  pub observer : Option ℕ

-- `ProfileBinding{}`
unfoldable pub no_binding : FreshAbi → ProfileBinding
no_binding abi = record {
  profile = default_profile abi;
  metadata_extractor = none;
  observer = none;
}

pub record Entry : Type 0 where
  pub group : ℕ
  pub binding : ProfileBinding

-- What the calls look at: `is_spinning()` and `profiles`, an unordered map.
pub record Registry : Type 0 where
  pub spinning : Bool
  pub profiles : List Entry

pub data RegistryError : Type 0 where
  null_argument bad_class not_callable spins rclcpp_error : RegistryError

unfoldable pub find : ℕ → List Entry → Option ProfileBinding
find g [] = none
find g (e ∷ es) = let rest = find g es in if e.group == g then some e.binding else rest

-- `profiles[g] = b`
unfoldable pub assign : ℕ → ProfileBinding → List Entry → List Entry
assign g b [] = record { group = g; binding = b } ∷ []
assign g b (e ∷ es) =
    let rest = assign g b es in
    if e.group == g then record { group = g; binding = b } ∷ es else e ∷ rest

-- `profiles.erase(g)`
unfoldable pub erase : ℕ → List Entry → List Entry
erase g [] = []
erase g (e ∷ es) = let rest = erase g es in if e.group == g then es else e ∷ rest

unfoldable pub valid_class : FreshAbi → ℕ → Bool
valid_class abi c = c == abi.class_background || (c == abi.class_deadline || c == abi.class_urgent)

-- `profiles[g]` where the key is there; a new key would get `no_binding`.
unfoldable pub binding_at : FreshAbi → ℕ → List Entry → ProfileBinding
binding_at abi g es = value_or (find g es) (no_binding abi)

unfoldable pub is_null : Option ℕ → Bool
is_null g = not (has_value g)

unfoldable pub add_group : ℕ → CallbackProfile → Registry → Registry
add_group g p r = record r {
  profiles =
      assign g (record { profile = p; metadata_extractor = none; observer = none }) r.profiles;
}

unfoldable pub with_group : Option ℕ → (ℕ → Registry) → Result RegistryError Registry
with_group none f = err null_argument
with_group (some g) f = ok (f g)

unfoldable pub add_callback_group_with_profile :
    FreshAbi → Option ℕ → Bool → CallbackProfile → Bool → Registry → Result RegistryError Registry
add_callback_group_with_profile abi group node_null profile rclcpp_throws r =
    throw_if (is_null group || node_null) null_argument
    >> throw_if r.spinning spins
    >> throw_if (not (valid_class abi profile.class_id)) bad_class
    >> throw_if rclcpp_throws rclcpp_error
    >> with_group group (λ g. add_group g profile r)

unfoldable pub set_functions : FreshAbi → Option ℕ → Option ℕ → ℕ → Registry → Registry
set_functions abi extractor observer g r = record r {
  profiles =
      assign g
        (record (binding_at abi g r.profiles) {
          metadata_extractor = extractor;
          observer = observer;
        })
        r.profiles;
}

unfoldable pub add_subscription_callback_group_with_erased_metadata :
    FreshAbi
    → Option ℕ
    → Bool
    → CallbackProfile
    → Option ℕ
    → Bool
    → Option ℕ
    → Registry
    → Result RegistryError Registry
add_subscription_callback_group_with_erased_metadata abi group node_null profile extractor
      rclcpp_throws observer r =
    throw_if (is_null extractor) not_callable
    >> add_callback_group_with_profile abi group node_null profile rclcpp_throws r
    >>= λ r1. with_group group (λ g. set_functions abi extractor observer g r1)

unfoldable pub remove_callback_group : Option ℕ → Bool → Registry → Result RegistryError Registry
remove_callback_group group rclcpp_throws r =
    throw_if r.spinning spins
    >> throw_if rclcpp_throws rclcpp_error
    >> elim group [ none ↦ ok r | some g ↦ ok (record r { profiles = erase g r.profiles }) ]

-- `binding_for`, of the group of the executable.
unfoldable pub binding_for : FreshAbi → Option ℕ → Registry → ProfileBinding
binding_for abi none r = no_binding abi
binding_for abi (some g) r = binding_at abi g r.profiles
