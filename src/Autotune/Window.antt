-- ===== src/Autotune/Window.antt =====
-- rollback_fence.go, rollback_fence_ordering.go: a release-window transition and the one back.
use mathlib.Core.Path.{subst}
use multichain_indexer.Prelude.{
  ℤ, pos, ◌<ℤ◌, ltb_ℤ→lt, ge→ltb_ℤ, le_of_eq_ℤ, Text, ℕ, ◌≡◌, refl, sym, Bool, true, false, not,
  Option, none, some, List, [], ◌∷◌, arith,
}
use multichain_indexer.Autotune.Digest.{normalize_policy_manifest_digest}
use multichain_indexer.Autotune.Ordering.{
  parse_all_epoch_markers, parse_ownership_ordering, compare_ownership_ordering,
  stage_progression_markers, stage_progress, window_wins, is_release_window_transition,
}

compare_mirrored :
    (ls rs : List ℤ)
    → compare_ownership_ordering ls rs <ℤ pos 0
    → compare_ownership_ordering rs ls ≡ pos 1
unfolding compare_ownership_ordering
compare_mirrored [] rs h = absurd (omega arith)
compare_mirrored (l ∷ ls) [] h = absurd (omega arith)
compare_mirrored (l ∷ ls) (r ∷ rs) h =
    ground (arith, compare_mirrored ls rs, ltb_ℤ→lt l r, ltb_ℤ→lt r l)

flip : Option Bool → Option Bool
flip none = none
flip (some b) = some (not b)

stage_progress-flip :
    (is : List ℕ) (source target : List (Option ℤ))
    → stage_progress is target source ≡ flip (stage_progress is source target)
unfolding stage_progress flip
stage_progress-flip [] source target = refl
stage_progress-flip (i ∷ is) source target = ground (arith, stage_progress-flip is source target)

window_one_way :
    (stage : Option Bool) (source target : Option (List ℤ))
    → window_wins stage source target ≡ true
    → window_wins (flip stage) target source ≡ false
unfolding window_wins flip
window_one_way stage none target h = cc
window_one_way stage (some l) none h = cc
window_one_way (some true) (some l) (some r) h = refl
window_one_way (some false) (some l) (some r) h = cc
window_one_way none (some l) (some r) h =
    ge→ltb_ℤ _ _ (omega (arith, le_of_eq_ℤ (sym (compare_mirrored l r (ltb_ℤ→lt _ _ h)))))

abbrev stages : Text → Text → Option Bool
stages s t =
    stage_progress stage_progression_markers (parse_all_epoch_markers s) (parse_all_epoch_markers t)

last_test :
    (epoch : ℤ) (source target : Text)
    → is_release_window_transition epoch source target ≡ true
    → let s = normalize_policy_manifest_digest source in
      let t = normalize_policy_manifest_digest target in
      window_wins (stages s t) (parse_ownership_ordering epoch s) (parse_ownership_ordering epoch t)
      ≡ true
unfolding is_release_window_transition
last_test epoch source target h = ground (arith, h)

fails_last :
    (epoch : ℤ) (source target : Text)
    → let s = normalize_policy_manifest_digest source in
      let t = normalize_policy_manifest_digest target in
      window_wins (stages s t) (parse_ownership_ordering epoch s) (parse_ownership_ordering epoch t)
        ≡ false
      → is_release_window_transition epoch source target ≡ false
unfolding is_release_window_transition
fails_last epoch source target h = ground (arith, h)

-- Where the release-window transition from one digest to another is allowed, the transition back
-- is refused.
pub is_release_window_transition_one_way :
    (epoch : ℤ) (source target : Text)
    → is_release_window_transition epoch source target ≡ true
    → is_release_window_transition epoch target source ≡ false
is_release_window_transition_one_way epoch source target h =
    let s = normalize_policy_manifest_digest source in
    let t = normalize_policy_manifest_digest target in
    let back = window_one_way (stages s t) _ _ (last_test epoch source target h) in
    fails_last epoch target source (
      subst
        (λ o.
          window_wins o (parse_ownership_ordering epoch t) (parse_ownership_ordering epoch s)
          ≡ false)
        (sym (
          stage_progress-flip stage_progression_markers (parse_all_epoch_markers s)
            (parse_all_epoch_markers t)))
        back)
