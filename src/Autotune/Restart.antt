-- ===== src/Autotune/Restart.antt =====
-- policy_lineage.go, autotune.go: a controller that takes over the override and the policy of the
-- one before it.
use multichain_indexer.Prelude.{
  if◌then◌else◌, ℤ, pos, ltb_ℤ→lt, add64, Text, Bool, true, false, not, Option, none, some, arith,
}
use multichain_indexer.Autotune.Types.{OverrideTransition, PolicyTransition, Controller}
use multichain_indexer.Autotune.Clamp.{max_int, clamp_int_bounds}
use multichain_indexer.Autotune.Resolve.{
  reset_adaptive_control_state, reconcile_override_transition,
}
use multichain_indexer.Autotune.Policy.{
  resolve_same_epoch_lineage, own, adopt, extend_hold, pin, Meeting, meeting_of, meet_identical,
  meet_newer, meet_older, meet_same_epoch, meet, reconcile_policy_transition,
}
use multichain_indexer.Autotune.Bounds.{IsValid}

pub reconcile_override_transition-IsValid :
    (c : Controller) (t : OverrideTransition)
    → IsValid c
    → IsValid (reconcile_override_transition c t)
unfolding reconcile_override_transition reset_adaptive_control_state
reconcile_override_transition-IsValid c t v = ground (
  arith,
  clamp_int_bounds c.operator_override_batch c.min_batch_size c.max_batch_size,
  ltb_ℤ→lt (pos 0) t.release_hold_remaining,
  ltb_ℤ→lt (pos 0) c.operator_release_hold,
)

own-IsValid : (c : Controller) (d : Text) (e : ℤ) → IsValid c → IsValid (own c d e)
unfolding own
own-IsValid c d e v = ground arith

adopt-IsValid : (c : Controller) (d : Text) (e : ℤ) → IsValid c → IsValid (adopt c d e)
unfolding adopt own reset_adaptive_control_state
adopt-IsValid c d e v = ground arith

extend_hold-IsValid : (c : Controller) (n : ℤ) → IsValid c → IsValid (extend_hold c n)
unfolding extend_hold reset_adaptive_control_state
extend_hold-IsValid c n v = ground (arith, ltb_ℤ→lt c.policy_activation_left n)

pin-IsValid : (c : Controller) (d : Text) (e n : ℤ) → IsValid c → IsValid (pin c d e n)
unfolding pin
pin-IsValid c d e n v = extend_hold-IsValid (own c d e) n (own-IsValid c d e v)

-- Whichever branch is taken.
if_IsValid : (b : Bool) (c d : Controller) → IsValid c → IsValid d → IsValid (if b then c else d)
if_IsValid true c d v w = v
if_IsValid false c d v w = w

kept_IsValid :
    (o : Option Bool) (a b c : Controller)
    → IsValid a
    → IsValid b
    → IsValid c
    → IsValid (elim o [ some true ↦ a | some false ↦ b | none ↦ c ])
kept_IsValid none a b c u v w = w
kept_IsValid (some true) a b c u v w = u
kept_IsValid (some false) a b c u v w = v

module _ (c : Controller) (m : Meeting) (v : IsValid c) where
  pinned : IsValid (pin c m.previous_digest m.previous_epoch m.held)
  pinned = pin-IsValid c m.previous_digest m.previous_epoch m.held v

  adopted : IsValid (adopt c m.incoming_digest m.incoming_epoch)
  adopted = adopt-IsValid c m.incoming_digest m.incoming_epoch v

  identical : IsValid (meet_identical c m)
  unfolding meet_identical
  identical =
      if_IsValid _ _ _
        (extend_hold-IsValid (adopt c m.incoming_digest m.incoming_epoch) m.held adopted) pinned

  newer : IsValid (meet_newer c m)
  unfolding meet_newer
  newer = if_IsValid _ _ _ pinned (if_IsValid _ _ _ adopted (if_IsValid _ _ _ adopted pinned))

  older : IsValid (meet_older c m)
  unfolding meet_older
  older = if_IsValid _ _ _ adopted pinned

  same_epoch_kept : IsValid (meet_same_epoch c m)
  unfolding meet_same_epoch
  same_epoch_kept =
      kept_IsValid (resolve_same_epoch_lineage m.previous_epoch m.previous_digest m.incoming_digest)
        _ _ _ (own-IsValid c m.incoming_digest m.incoming_epoch v)
        (own-IsValid c m.previous_digest m.previous_epoch v) pinned

  meet-IsValid : IsValid (meet c m)
  unfolding meet
  meet-IsValid = if_IsValid _ _ _ identical (
      if_IsValid _ _ _
        (adopt-IsValid c m.incoming_digest
          (max_int (add64 m.previous_epoch (pos 1)) m.incoming_epoch) v)
        (if_IsValid _ _ _ newer (if_IsValid _ _ _ older same_epoch_kept)))

pub reconcile_policy_transition-IsValid :
    (c : Controller) (t : PolicyTransition) → IsValid c → IsValid (reconcile_policy_transition c t)
unfolding reconcile_policy_transition
reconcile_policy_transition-IsValid c t v =
    if_IsValid (not t.has_state) c (meet c (meeting_of c t)) v (meet-IsValid c (meeting_of c t) v)
