-- ===== src/Autotune/Lineage.antt =====
-- policy_lineage.go: how a policy's epoch and digest can change.
use multichain_indexer.Prelude.{
  if◌then◌else◌, Bool-cases, ℤ, pos, ◌≤ℤ◌, ◌<ℤ◌, ltb_ℤ, leb_ℤ, eqb_ℤ, ltb_ℤ→lt, ltb_ℤ→ge, leb_ℤ→le,
  eq_of_parts, eqb_ℤ_iff, add64, Text, eq_text, eq_text_iff, ◌≡◌, refl, ◌≢◌, inl, inr, Bool, true,
  false, ◌&&◌, Option, none, some, arith,
}
use multichain_indexer.Autotune.Types.{PolicyTransition, Controller}
use multichain_indexer.Autotune.Clamp.{max_int}
use multichain_indexer.Autotune.Digest.{parse_rollback_lineage, parse_snapshot_cutover_lineage}
use multichain_indexer.Autotune.Fence.{check}
use multichain_indexer.Autotune.Ordering.{is_epoch_rollover_stale_transition}
use multichain_indexer.Autotune.Policy.{
  resolve_same_epoch_lineage, is_snapshot_cutover, is_rollback_lineage, own, adopt, extend_hold,
  pin, Meeting, meeting_of, meet_identical, meet_newer, meet_older, meet_same_epoch, meet,
  reconcile_policy_transition,
}

abbrev Owns : Controller → Text → ℤ → Type 0
Owns c digest epoch = (c.policy_manifest_digest ≡ digest) × (c.policy_epoch ≡ epoch)

-- How the policy after a meeting comes from the two that met.
pub data Lineage (c : Controller) (m : Meeting) (after : Controller) : Type 0 where
  -- the previous policy is kept whole
  pinned : Owns after m.previous_digest m.previous_epoch → Lineage c m after
  -- another version: the incoming digest, above the previous epoch
  new_version :
      c.policy_version ≢ m.previous_version
      → Owns after m.incoming_digest (max_int (add64 m.previous_epoch (pos 1)) m.incoming_epoch)
      → Lineage c m after
  -- the next epoch
  next_epoch :
      m.incoming_epoch ≡ add64 m.previous_epoch (pos 1)
      → Owns after m.incoming_digest m.incoming_epoch
      → Lineage c m after
  -- a later epoch, by a snapshot whose digest names both epochs
  cutover :
      m.previous_epoch <ℤ m.incoming_epoch
      → parse_snapshot_cutover_lineage m.incoming_digest ≡ some (m.previous_epoch, m.incoming_epoch)
      → Owns after m.incoming_digest m.incoming_epoch
      → Lineage c m after
  -- an earlier epoch, by a rollback whose digest names both epochs
  rolled_back :
      (forward_seq : ℤ)
      → m.incoming_epoch <ℤ m.previous_epoch
      → m.previous_epoch ≤ℤ forward_seq
      → parse_rollback_lineage m.incoming_digest
        ≡ some (m.previous_epoch, m.incoming_epoch, forward_seq)
      → Owns after m.incoming_digest m.incoming_epoch
      → Lineage c m after
  -- the same epoch, by a rule of the table
  refreshed :
      m.incoming_epoch ≡ m.previous_epoch
      → resolve_same_epoch_lineage m.previous_epoch m.previous_digest m.incoming_digest ≡ some true
      → Owns after m.incoming_digest m.incoming_epoch
      → Lineage c m after

extend_hold-Owns :
    (c : Controller) (digest : Text) (epoch held : ℤ)
    → Owns c digest epoch
    → Owns (extend_hold c held) digest epoch
unfolding extend_hold
extend_hold-Owns c digest epoch held o = ground arith

adopt-Owns : (c : Controller) (digest : Text) (epoch : ℤ) → Owns (adopt c digest epoch) digest epoch
unfolding adopt
adopt-Owns c digest epoch = (refl, refl)

pin-Owns :
    (c : Controller) (digest : Text) (epoch held : ℤ) → Owns (pin c digest epoch held) digest epoch
unfolding pin
pin-Owns c digest epoch held = extend_hold-Owns _ digest epoch held (refl, refl)

eqb_ℤ_eq : (a b : ℤ) → eqb_ℤ a b ≡ true → a ≡ b
eqb_ℤ_eq a b = (eqb_ℤ_iff a b).0

snapshot_names :
    (p i : ℤ) (l : Option (ℤ × ℤ))
    → check l (λ l. eqb_ℤ l.0 p && eqb_ℤ l.1 i && ltb_ℤ l.0 l.1) ≡ true
    → l ≡ some (p, i)
snapshot_names p i none h = cc
snapshot_names p i (some (a, b)) h = ground (arith, eqb_ℤ_eq a p, eqb_ℤ_eq b i)

rollback_names :
    (p i : ℤ) (l : Option (ℤ × ℤ × ℤ))
    → check l (λ l. eqb_ℤ l.0 p && eqb_ℤ l.1 i && ltb_ℤ l.1 l.0 && leb_ℤ l.0 l.2) ≡ true
    → (f : ℤ) × (l ≡ some (p, i, f)) × (p ≤ℤ f)
rollback_names p i none h = cc
rollback_names p i (some (a, b, f)) h =
    (f, ground (arith, eqb_ℤ_eq a p, eqb_ℤ_eq b i), ground (arith, eqb_ℤ_eq a p, leb_ℤ→le a f))

own-Owns : (c : Controller) (digest : Text) (epoch : ℤ) → Owns (own c digest epoch) digest epoch
unfolding own
own-Owns c digest epoch = (refl, refl)

module _ (c : Controller) (m : Meeting) where
  pinned_pin : Lineage c m (pin c m.previous_digest m.previous_epoch m.held)
  pinned_pin = pinned (pin-Owns c _ _ _)

  meet_identical-Lineage : Lineage c m (meet_identical c m)
  unfolding meet_identical
  meet_identical-Lineage =
      elim (Bool-cases (eqb_ℤ m.incoming_epoch (add64 m.previous_epoch (pos 1)))) [
        | inl e ↦ rw e (
            next_epoch (eqb_ℤ_eq _ _ e)
              (extend_hold-Owns _ _ _ _ (adopt-Owns c m.incoming_digest m.incoming_epoch)))
        | inr e ↦ rw e pinned_pin
      ]

  is_rollback_lineage_lem :
      is_rollback_lineage m.previous_epoch m.incoming_epoch m.incoming_digest ≡ true
      → (f : ℤ) × (m.incoming_epoch <ℤ m.previous_epoch)
        × (m.previous_epoch ≤ℤ f)
        × (parse_rollback_lineage m.incoming_digest ≡ some (m.previous_epoch, m.incoming_epoch, f))
  unfolding is_rollback_lineage
  is_rollback_lineage_lem e =
      let (f, named, above) =
        rollback_names m.previous_epoch m.incoming_epoch (parse_rollback_lineage m.incoming_digest)
          (ground (arith, e)) in
      (f, ltb_ℤ→lt m.incoming_epoch m.previous_epoch (ground (arith, e)), above, named)

  is_snapshot_cutover_lem :
      is_snapshot_cutover m.previous_epoch m.incoming_epoch m.incoming_digest ≡ true
      → parse_snapshot_cutover_lineage m.incoming_digest ≡ some (m.previous_epoch, m.incoming_epoch)
  unfolding is_snapshot_cutover
  is_snapshot_cutover_lem e = snapshot_names _ _ _ (ground (arith, e))

  meet_older-Lineage : Lineage c m (meet_older c m)
  unfolding meet_older
  meet_older-Lineage =
      elim (Bool-cases (is_rollback_lineage m.previous_epoch m.incoming_epoch m.incoming_digest)) [
        | inl e ↦
            let h = is_rollback_lineage_lem e in
            rw e (rolled_back h.0 h.1 h.2 h.3 (adopt-Owns c _ _))
        | inr e ↦ rw e pinned_pin
      ]

  meet_newer-Lineage : m.previous_epoch <ℤ m.incoming_epoch → Lineage c m (meet_newer c m)
  unfolding meet_newer
  meet_newer-Lineage newer =
      elim (Bool-cases (
        is_epoch_rollover_stale_transition m.previous_epoch m.incoming_epoch m.previous_digest
          m.incoming_digest)) [
            | inl stale ↦ rw stale pinned_pin
            | inr fresh ↦
                elim (Bool-cases (eqb_ℤ m.incoming_epoch (add64 m.previous_epoch (pos 1)))) [
                  | inl e ↦ rw fresh (rw e (next_epoch (eqb_ℤ_eq _ _ e) (adopt-Owns c _ _)))
                  | inr gap ↦
                      elim (Bool-cases
                        (is_snapshot_cutover m.previous_epoch m.incoming_epoch m.incoming_digest)) [
                          | inl s ↦ rw fresh (
                              rw gap (
                                rw s
                                  (cutover newer (is_snapshot_cutover_lem s) (adopt-Owns c _ _))))
                          | inr n ↦ rw fresh (rw gap (rw n pinned_pin))
                        ]
                ]
          ]

  meet_same_epoch-Lineage : m.incoming_epoch ≡ m.previous_epoch → Lineage c m (meet_same_epoch c m)
  unfolding meet_same_epoch
  meet_same_epoch-Lineage same =
      by_rule (resolve_same_epoch_lineage m.previous_epoch m.previous_digest m.incoming_digest) refl
    where
      by_rule :
          (r : Option Bool)
          → resolve_same_epoch_lineage m.previous_epoch m.previous_digest m.incoming_digest ≡ r
          → Lineage c m (elim r [
            | some true ↦ own c m.incoming_digest m.incoming_epoch
            | some false ↦ own c m.previous_digest m.previous_epoch
            | none ↦ pin c m.previous_digest m.previous_epoch m.held
          ])
      by_rule none e = pinned_pin
      by_rule (some true) e = refreshed same e (own-Owns c _ _)
      by_rule (some false) e = pinned (own-Owns c _ _)

  by_epoch : Lineage c m (
      if ltb_ℤ m.previous_epoch m.incoming_epoch
      then meet_newer c m
      else if ltb_ℤ m.incoming_epoch m.previous_epoch
      then meet_older c m
      else meet_same_epoch c m)
  by_epoch = elim (Bool-cases (ltb_ℤ m.previous_epoch m.incoming_epoch)) [
    | inl n ↦ rw n (meet_newer-Lineage (ltb_ℤ→lt _ _ n))
    | inr n ↦ elim (Bool-cases (ltb_ℤ m.incoming_epoch m.previous_epoch)) [
      | inl o ↦ rw n (rw o meet_older-Lineage)
      | inr o ↦ rw n (
          rw o (
            meet_same_epoch-Lineage (
              eq_of_parts m.incoming_epoch m.previous_epoch
                (omega (arith, ltb_ℤ→ge _ _ n, ltb_ℤ→ge _ _ o)))))
    ]
  ]

  meet-Lineage : Lineage c m (meet c m)
  unfolding meet
  meet-Lineage = elim (Bool-cases (eq_text c.policy_version m.previous_version)) [
    | inl v ↦ elim (Bool-cases (eq_text m.incoming_digest m.previous_digest)) [
      | inl d ↦ rw v (rw d meet_identical-Lineage)
      | inr d ↦ rw v (rw d by_epoch)
    ]
    | inr v ↦ rw v (new_version (λ e. cc (v, (eq_text_iff _ _).1 e)) (adopt-Owns c _ _))
  ]

-- When a controller meets the policy of the controller before it, it owns afterwards the previous
-- digest with the previous epoch, or the incoming digest. With the incoming epoch that is taken
-- only at the next epoch, by a snapshot cutover or a rollback whose digest names both epochs, or
-- at the same epoch by a rule of the table; and otherwise only under another version, where the
-- epoch is the larger of the incoming one and the one after the previous.
pub reconcile_policy_transition-Lineage :
    (c : Controller) (t : PolicyTransition)
    → t.has_state ≡ true
    → Lineage c (meeting_of c t) (reconcile_policy_transition c t)
unfolding reconcile_policy_transition
reconcile_policy_transition-Lineage c t h = simp h (meet-Lineage c (meeting_of c t))
