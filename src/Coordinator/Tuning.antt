-- ===== src/Coordinator/Tuning.antt =====
-- coordinator.go: `withAutoTune`, which builds the controller of a coordinator from a restart state
-- or from the controller before it, and the export of that state.
use mathlib.Core.Path.{subst}
use multichain_indexer.Prelude.{
  if◌then◌else◌, Bool-cases, ℤ, pos, ◌≤ℤ◌, ltb_ℤ, leb_ℤ, eqb_ℤ, le→leb_ℤ, Text, eq_text, eq_text→eq,
  trim_space, ◌≡◌, refl, ◌⊎◌, inl, inr, Bool, true, false, ◌&&◌, ◌||◌, not, Option, none, some, [],
  arith,
}
use multichain_indexer.Autotune.Types.{Config, OverrideTransition, PolicyTransition, Controller}
use multichain_indexer.Autotune.Clamp.{max_int, floor_zero}
use multichain_indexer.Autotune.Digest.{normalize_policy_version, normalize_policy_manifest_digest}
use multichain_indexer.Autotune.Construct.{
  override_batch_of, initial_controller, new_with_seed_mode, new_with_seed, new_with_restart_seed,
}
use multichain_indexer.Autotune.Resolve.{
  reset_adaptive_control_state, export_override_transition, reconcile_override_transition,
}
use multichain_indexer.Autotune.Policy.{reconcile_policy_transition, export_policy_transition}
use multichain_indexer.Autotune.Bounds.{IsValid, new_with_seed_mode-IsValid}
use multichain_indexer.Autotune.Restart.{
  reconcile_override_transition-IsValid, reconcile_policy_transition-IsValid,
}
use multichain_indexer.Coordinator.{Coordinator}

pub record RestartState : Type 0 where
  pub chain : Text
  pub network : Text
  pub batch_size : ℤ
  pub override_manual_active : Bool
  pub override_release_remaining : ℤ
  pub policy_version : Text
  pub policy_manifest_digest : Text
  pub policy_epoch : ℤ
  pub policy_activation_remaining : ℤ

unfoldable pub restart_state_of : Coordinator → Controller → RestartState
restart_state_of c a =
    let override = export_override_transition a in
    let policy = export_policy_transition a in
    record {
      chain = c.chain;
      network = c.network;
      batch_size = a.current_batch;
      override_manual_active = override.was_manual_override;
      override_release_remaining = override.release_hold_remaining;
      policy_version = policy.version;
      policy_manifest_digest = policy.manifest_digest;
      policy_epoch = policy.epoch;
      policy_activation_remaining = policy.activation_hold_remaining;
    }

unfoldable pub exported : Coordinator → Option Controller → Option RestartState
exported c none = none
exported c (some a) = some (restart_state_of c a)

unfoldable pub export_restart_state : Coordinator → Option RestartState
export_restart_state c = exported c c.auto_tune

abbrev pub no_override : OverrideTransition
no_override = record { was_manual_override = false; release_hold_remaining = pos 0 }

abbrev pub no_policy : PolicyTransition
no_policy = record {
  has_state = false;
  version = [];
  manifest_digest = [];
  epoch = pos 0;
  activation_hold_remaining = pos 0;
  from_warm_checkpoint = false;
}

-- What the new controller starts from. `warm` is the transition mode "warm_start".
pub record Seeding : Type 0 where
  pub seed_batch : Option ℤ
  pub warm : Bool
  pub override : OverrideTransition
  pub policy : PolicyTransition

abbrev pub cold_start : Seeding
cold_start = record { seed_batch = none; warm = false; override = no_override; policy = no_policy }

unfoldable pub has_policy : RestartState → Bool
has_policy s =
    not (eq_text (trim_space s.policy_version) [])
    || not (eq_text (trim_space s.policy_manifest_digest) [])
    || ltb_ℤ (pos 0) s.policy_epoch
    || ltb_ℤ (pos 0) s.policy_activation_remaining

unfoldable pub policy_of : RestartState → PolicyTransition
policy_of s =
    if has_policy s
    then record {
      has_state = true;
      version = s.policy_version;
      manifest_digest = s.policy_manifest_digest;
      epoch = floor_zero s.policy_epoch;
      activation_hold_remaining = max_int s.policy_activation_remaining (pos 0);
      from_warm_checkpoint = true;
    }
    else no_policy

-- A state of another chain or network, or with no batch, is turned down.
unfoldable pub is_foreign : Coordinator → RestartState → Bool
is_foreign c s =
    not (eq_text s.chain c.chain) || not (eq_text s.network c.network) || leb_ℤ s.batch_size (pos 0)

unfoldable pub seeding_of : Coordinator → Option RestartState → Option Controller → Seeding
seeding_of c (some s) previous = if is_foreign c s then cold_start else record {
  seed_batch = some s.batch_size;
  warm = true;
  override = record {
    was_manual_override = s.override_manual_active;
    release_hold_remaining = max_int s.override_release_remaining (pos 0);
  };
  policy = policy_of s;
}
seeding_of c none none = cold_start
seeding_of c none (some a) = record {
  seed_batch = some a.current_batch;
  warm = false;
  override = export_override_transition a;
  policy = export_policy_transition a;
}

unfoldable pub use_bounded_warm_start : Seeding → Bool
use_bounded_warm_start s =
    s.warm
    && not s.override.was_manual_override
    && eqb_ℤ s.override.release_hold_remaining (pos 0)
    && not s.policy.has_state

unfoldable pub reconciled : Seeding → Option Controller → Option Controller
reconciled s none = none
reconciled s (some a) =
    some (reconcile_policy_transition (reconcile_override_transition a s.override) s.policy)

unfoldable pub build : Coordinator → Config → Seeding → Option Controller
build c cfg s = reconciled s (
    if use_bounded_warm_start s
    then new_with_restart_seed c.batch_size cfg s.seed_batch
    else new_with_seed c.batch_size cfg s.seed_batch)

unfoldable pub with_auto_tune : Coordinator → Config → Option RestartState → Coordinator
with_auto_tune c cfg warm = record c { auto_tune = build c cfg (seeding_of c warm c.auto_tune) }

-- The state does not fit the coordinator.
abbrev pub TurnedDown : Coordinator → RestartState → Type 0
TurnedDown c s = (¬ (s.chain ≡ c.chain)) ⊎ (¬ (s.network ≡ c.network)) ⊎ (s.batch_size ≤ℤ pos 0)

-- What a controller owns that carries nothing over: the policy of its configuration, and no hold.
unfoldable pub OfConfig : Config → Option Controller → Type 0
OfConfig cfg none = cfg.enabled ≡ false
OfConfig cfg (some a) =
    (cfg.enabled ≡ true)
    × (a.override_release_left ≡ pos 0)
    × (a.policy_version ≡ normalize_policy_version cfg.policy_version)
    × (a.policy_manifest_digest ≡ normalize_policy_manifest_digest cfg.policy_manifest_digest)
    × (a.policy_epoch ≡ floor_zero cfg.policy_manifest_refresh_epoch)
    × (a.policy_activation_left ≡ pos 0)

build-OfConfig : (c : Coordinator) (cfg : Config) → OfConfig cfg (build c cfg cold_start)
unfolding OfConfig build reconciled use_bounded_warm_start new_with_seed new_with_seed_mode
    initial_controller reconcile_policy_transition reconcile_override_transition
    reset_adaptive_control_state ltb_ℤ
build-OfConfig c cfg = elim (Bool-cases cfg.enabled) [
  | inr e ↦ simp e refl
  | inl e ↦ elim (Bool-cases (ltb_ℤ (pos 0) (override_batch_of c.batch_size cfg))) [
    | inl o ↦ simp (e, o) (refl, refl, refl, refl, refl, refl)
    | inr o ↦ simp (e, o) (refl, refl, refl, refl, refl, refl)
  ]
]

is_foreign-TurnedDown :
    (c : Coordinator) (s : RestartState) → TurnedDown c s → is_foreign c s ≡ true
unfolding is_foreign
is_foreign-TurnedDown c s (inl n) = ground (arith, eq_text→eq s.chain c.chain)
is_foreign-TurnedDown c s (inr (inl n)) = ground (arith, eq_text→eq s.network c.network)
is_foreign-TurnedDown c s (inr (inr l)) = ground (arith, le→leb_ℤ s.batch_size (pos 0) l)

-- A restart state of another chain or of another network than the coordinator's, or with a batch
-- of zero or below, is turned down: the coordinator is the one of a cold start with no controller
-- before it, whose controller, where the configuration enables one, has the configuration's policy
-- version, digest and epoch and no hold left.
pub with_auto_tune_foreign :
    (c : Coordinator) (cfg : Config) (s : RestartState)
    → TurnedDown c s
    → (with_auto_tune c cfg (some s) ≡ with_auto_tune (record c { auto_tune = none }) cfg none)
      × OfConfig cfg (with_auto_tune c cfg (some s)).auto_tune
unfolding with_auto_tune seeding_of build
with_auto_tune_foreign c cfg s h =
    let e = is_foreign-TurnedDown c s h in (simp e refl, simp e (build-OfConfig c cfg))

reconciled-IsValid :
    (s : Seeding) (built : Option Controller) (a : Controller)
    → ((b : Controller) → built ≡ some b → IsValid b)
    → reconciled s built ≡ some a
    → IsValid a
unfolding reconciled
reconciled-IsValid s none a v h = cc
reconciled-IsValid s (some b) a v h =
    let e : reconcile_policy_transition (reconcile_override_transition b s.override) s.policy ≡ a =
      cc in
    subst IsValid e (
      reconcile_policy_transition-IsValid _ s.policy
        (reconcile_override_transition-IsValid b s.override (v b refl)))

build-IsValid :
    (c : Coordinator) (cfg : Config) (s : Seeding) (a : Controller)
    → build c cfg s ≡ some a
    → IsValid a
unfolding build new_with_restart_seed new_with_seed
build-IsValid c cfg s a h = elim (Bool-cases (use_bounded_warm_start s)) [
  | inl e ↦
      reconciled-IsValid s (new_with_seed_mode c.batch_size cfg s.seed_batch true) a
        (λ b k. new_with_seed_mode-IsValid c.batch_size cfg s.seed_batch true k) (simp e at h)
  | inr e ↦
      reconciled-IsValid s (new_with_seed_mode c.batch_size cfg s.seed_batch false) a
        (λ b k. new_with_seed_mode-IsValid c.batch_size cfg s.seed_batch false k) (simp e at h)
]

-- Whatever the configuration, the restart state and the controller before it are, a controller
-- that withAutoTune puts in place satisfies the controller's invariant, its batch between its
-- bounds.
pub with_auto_tune-IsValid :
    (c : Coordinator) (cfg : Config) (warm : Option RestartState) (a : Controller)
    → (with_auto_tune c cfg warm).auto_tune ≡ some a
    → IsValid a
unfolding with_auto_tune
with_auto_tune-IsValid c cfg warm a h = build-IsValid c cfg (seeding_of c warm c.auto_tune) a h
