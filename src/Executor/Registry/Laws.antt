-- ===== src/Executor/Registry/Laws.antt =====
-- ros2/scx_slam_executor/src/freshness_executor.cpp: what a registered group is bound to.
use scx_slam_fresh.Base.{
  if◌then◌else◌, [], ◌∷◌, inl, inr, ◌==◌, ◌||◌, ok, err, none, some, List, ℕ, ◌≡◌, ◌≢◌, arith, refl,
  Bool, Bool-cases, Option, subst, Result, false, true, ap, value_or,
}
use scx_slam_fresh.Executor.Registry.{
  find, Entry, assign, erase, ProfileBinding, add_callback_group_with_profile,
  add_subscription_callback_group_with_erased_metadata, is_null, no_binding, Registry, with_group,
  RegistryError, set_functions, valid_class, add_group, remove_callback_group, binding_at,
  binding_for, spins, not_callable, null_argument,
}
use scx_slam_fresh.Executor.Hint.{FreshAbi, CallbackProfile}

-- A map has each key once.
unfoldable pub Fresh : ℕ → List Entry → Type 0
Fresh g [] = Unit
Fresh g (e ∷ es) = (e.group ≢ g) × Fresh g es

unfoldable pub Distinct : List Entry → Type 0
Distinct [] = Unit
Distinct (e ∷ es) = Fresh e.group es × Distinct es

find-assign :
    (g k : ℕ) (b : ProfileBinding) (es : List Entry)
    → find k (assign g b es) ≡ (if g == k then some b else find k es)
unfolding find assign
find-assign g k b [] = ground arith
find-assign g k b (e ∷ es) = let i = find-assign g k b es in ground arith

find-Fresh : (g : ℕ) (es : List Entry) → Fresh g es → find g es ≡ none
unfolding find Fresh
find-Fresh g [] f = refl
find-Fresh g (e ∷ es) f = let i = find-Fresh g es f.1 in let n = f.0 in ground arith

find-erase :
    (g k : ℕ) (es : List Entry)
    → Distinct es
    → find k (erase g es) ≡ (if g == k then none else find k es)
unfolding find erase Distinct
find-erase g k [] d = ground arith
find-erase g k (e ∷ es) d =
    let i = find-erase g k es d.1 in
    let f = find-Fresh e.group es d.0 in
    elim (Bool-cases (e.group == g)) [ inl q ↦ ground arith | inr q ↦ ground arith ]

assign-Fresh :
    (g k : ℕ) (b : ProfileBinding) (es : List Entry) → g ≢ k → Fresh k es → Fresh k (assign g b es)
unfolding Fresh assign
assign-Fresh g k b [] n f = (n, tt)
assign-Fresh g k b (e ∷ es) n f =
    let i = assign-Fresh g k b es n f.1 in
    elim (Bool-cases (e.group == g)) [ inl q ↦ simp q (n, f.1) | inr q ↦ simp q (f.0, i) ]

assign-Distinct :
    (g : ℕ) (b : ProfileBinding) (es : List Entry) → Distinct es → Distinct (assign g b es)
unfolding Distinct assign
assign-Distinct g b [] d = (unfold Fresh in tt, tt)
assign-Distinct g b (e ∷ es) d =
    let i = assign-Distinct g b es d.1 in
    elim (Bool-cases (e.group == g)) [
      | inl q ↦
          simp q ((let same : e.group ≡ g = ground arith in subst (λ x. Fresh x es) same d.0), d.1)
      | inr q ↦ simp q (assign-Fresh g e.group b es (λ h. ground arith) d.0, i)
    ]

erase-Fresh : (g k : ℕ) (es : List Entry) → Fresh k es → Fresh k (erase g es)
unfolding Fresh erase
erase-Fresh g k [] f = tt
erase-Fresh g k (e ∷ es) f =
    let i = erase-Fresh g k es f.1 in
    elim (Bool-cases (e.group == g)) [ inl q ↦ simp q f.1 | inr q ↦ simp q (f.0, i) ]

erase-Distinct : (g : ℕ) (es : List Entry) → Distinct es → Distinct (erase g es)
unfolding Distinct erase
erase-Distinct g [] d = tt
erase-Distinct g (e ∷ es) d =
    let i = erase-Distinct g es d.1 in
    elim (Bool-cases (e.group == g)) [
      | inl q ↦ simp q d.1
      | inr q ↦ simp q (erase-Fresh g e.group es d.0, i)
    ]

-- A call that changes the registry, of a group, with rclcpp's outcome.
pub data Change : Type 0 where
  adds : Bool → CallbackProfile → Bool → Change
  subscribes : Bool → CallbackProfile → Option ℕ → Bool → Option ℕ → Change
  removes : Bool → Change

unfoldable pub change : FreshAbi → Option ℕ → Change → Registry → Result RegistryError Registry
change abi group (Change.adds node_null p throws) r =
    add_callback_group_with_profile abi group node_null p throws r
change abi group (Change.subscribes node_null p extractor throws observer) r =
    add_subscription_callback_group_with_erased_metadata abi group node_null p extractor throws
      observer r
change abi group (Change.removes throws) r = remove_callback_group group throws r

-- What the call is meant to bind its group to.
unfoldable pub meant : FreshAbi → Change → ProfileBinding
meant abi (Change.adds node_null p throws) = record {
  profile = p;
  metadata_extractor = none;
  observer = none;
}
meant abi (Change.subscribes node_null p extractor throws observer) = record {
  profile = p;
  metadata_extractor = extractor;
  observer = observer;
}
meant abi (Change.removes throws) = no_binding abi

-- What an accepted call of each kind leaves in the map.
add_accepted :
    (abi : FreshAbi) (g : ℕ) (node_null : Bool) (p : CallbackProfile) (throws : Bool)
    (r r' : Registry)
    → add_callback_group_with_profile abi (some g) node_null p throws r ≡ ok r'
    → (r.spinning ≡ false) × (valid_class abi p.class_id ≡ true) × (r' ≡ add_group g p r)
unfolding add_callback_group_with_profile is_null with_group
add_accepted abi g node_null p throws r r' h = ground arith

subscription_accepted :
    (abi : FreshAbi) (g : ℕ) (node_null : Bool) (p : CallbackProfile) (extractor : Option ℕ)
    (throws : Bool) (observer : Option ℕ) (r r' : Registry)
    → add_subscription_callback_group_with_erased_metadata abi
        (some g)
        node_null
        p
        extractor
        throws
        observer
        r
      ≡ ok r'
    → (r.spinning ≡ false) × (r' ≡ set_functions abi extractor observer g (add_group g p r))
unfolding add_subscription_callback_group_with_erased_metadata add_callback_group_with_profile
    is_null with_group
subscription_accepted abi g node_null p extractor throws observer r r' h = ground arith

remove_accepted :
    (abi : FreshAbi) (g : ℕ) (throws : Bool) (r r' : Registry)
    → remove_callback_group (some g) throws r ≡ ok r'
    → (r.spinning ≡ false) × (r' ≡ record r { profiles = erase g r.profiles })
unfolding remove_callback_group
remove_accepted abi g throws r r' h = ground arith

binding-assign :
    (abi : FreshAbi) (g k : ℕ) (b : ProfileBinding) (es : List Entry)
    → binding_at abi k (assign g b es) ≡ (if g == k then b else binding_at abi k es)
unfolding binding_at
binding-assign abi g k b es =
    let f = ap (λ o. value_or o (no_binding abi)) (find-assign g k b es) in
    elim (Bool-cases (g == k)) [ inl q ↦ rw q (simp q at f) | inr q ↦ rw q (simp q at f) ]

binding-erase :
    (abi : FreshAbi) (g k : ℕ) (es : List Entry)
    → Distinct es
    → binding_at abi k (erase g es) ≡ (if g == k then no_binding abi else binding_at abi k es)
unfolding binding_at
binding-erase abi g k es d =
    let f = ap (λ o. value_or o (no_binding abi)) (find-erase g k es d) in
    elim (Bool-cases (g == k)) [ inl q ↦ rw q (simp q at f) | inr q ↦ rw q (simp q at f) ]

-- In a registry that has each group once, let a call of any kind on a group `g` be accepted. Then
-- the executor was not spinning; the registry still has each group once; `binding_for` gives for
-- `g` what the call means it to be (its profile, without the extractor and the observer of an
-- earlier registration, or after a removal the default profile) and for any other group what it
-- gave before.
pub change_rebinds :
    (abi : FreshAbi) (g k : ℕ) (c : Change) (r r' : Registry)
    → Distinct r.profiles
    → change abi (some g) c r ≡ ok r'
    → (r.spinning ≡ false)
      × Distinct r'.profiles
      × (binding_for abi (some k) r' ≡ (if g == k then meant abi c else binding_for abi (some k) r))
unfolding change meant binding_for add_group set_functions
change_rebinds abi g k (Change.adds node_null p throws) r r' d h =
    let a = add_accepted abi g node_null p throws r r' h in
    rw (a.2) (
      a.0,
      assign-Distinct g _ r.profiles d,
      binding-assign abi g k (record { profile = p; metadata_extractor = none; observer = none })
          r.profiles,
    )
change_rebinds abi g k (Change.subscribes node_null p extractor throws observer) r r' d h =
    let a = subscription_accepted abi g node_null p extractor throws observer r r' h in
    let b : ProfileBinding = record { profile = p; metadata_extractor = none; observer = none } in
    let es = assign g b r.profiles in
    let own : binding_at abi g es ≡ b =
      (let x = binding-assign abi g g b r.profiles in ground arith) in
    let first = binding-assign abi g k b r.profiles in
    let second =
      binding-assign abi g k
        (record (binding_at abi g es) { metadata_extractor = extractor; observer = observer }) es in
    let same : record (binding_at abi g es) { metadata_extractor = extractor; observer = observer }
        ≡ record { profile = p; metadata_extractor = extractor; observer = observer } =
      ap {B = ProfileBinding}
        (λ (x : ProfileBinding). record x { metadata_extractor = extractor; observer = observer })
        own in
    rw (a.1) (a.0, assign-Distinct g _ es (assign-Distinct g b r.profiles d), ground arith)
change_rebinds abi g k (Change.removes throws) r r' d h =
    let a = remove_accepted abi g throws r r' h in
    rw (a.1) (a.0, erase-Distinct g r.profiles d, binding-erase abi g k r.profiles d)

adds_throws :
    (abi : FreshAbi) (group : Option ℕ) (node_null : Bool) (p : CallbackProfile) (throws : Bool)
    (r : Registry)
    → r.spinning ≡ true
    → (e : RegistryError) × (add_callback_group_with_profile abi group node_null p throws r ≡ err e)
unfolding add_callback_group_with_profile
adds_throws abi group node_null p throws r h = elim (Bool-cases (is_null group || node_null)) [
  | inl q ↦ (null_argument, simp q)
  | inr q ↦ (spins, simp (q, h))
]

subscription_first :
    (abi : FreshAbi) (group : Option ℕ) (node_null : Bool) (p : CallbackProfile)
    (extractor : Option ℕ) (throws : Bool) (observer : Option ℕ) (r : Registry)
    → is_null extractor ≡ true
    → add_subscription_callback_group_with_erased_metadata abi group node_null p extractor throws
        observer r
      ≡ err not_callable
unfolding add_subscription_callback_group_with_erased_metadata
subscription_first abi group node_null p extractor throws observer r q = simp q

subscription_second :
    (abi : FreshAbi) (group : Option ℕ) (node_null : Bool) (p : CallbackProfile)
    (extractor : Option ℕ) (throws : Bool) (observer : Option ℕ) (r : Registry) (e : RegistryError)
    → is_null extractor ≡ false
    → add_callback_group_with_profile abi group node_null p throws r ≡ err e
    → add_subscription_callback_group_with_erased_metadata abi group node_null p extractor throws
        observer r
      ≡ err e
unfolding add_subscription_callback_group_with_erased_metadata
subscription_second abi group node_null p extractor throws observer r e q a = simp (q, a)

-- While the executor spins, a call of any kind on any group throws.
pub spinning_freezes :
    (abi : FreshAbi) (group : Option ℕ) (c : Change) (r : Registry)
    → r.spinning ≡ true
    → (e : RegistryError) × (change abi group c r ≡ err e)
unfolding change
spinning_freezes abi group (Change.adds node_null p throws) r h =
    adds_throws abi group node_null p throws r h
spinning_freezes abi group (Change.subscribes node_null p extractor throws observer) r h =
    let a = adds_throws abi group node_null p throws r h in
    elim (Bool-cases (is_null extractor)) [
      | inl q ↦
          (not_callable, subscription_first abi group node_null p extractor throws observer r q)
      | inr q ↦
          (a.0, subscription_second abi group node_null p extractor throws observer r a.0 q a.1)
    ]
spinning_freezes abi group (Change.removes throws) r h =
    (spins, unfold remove_callback_group in ground arith)
