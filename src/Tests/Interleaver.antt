-- ===== src/Tests/Interleaver.antt =====
-- internal/pipeline/ingester/interleaver.go on three chains.
use multichain_indexer.Prelude.{
  ltb, if◌then◌else◌, length, get_or, ◌+ℤ◌, ltb_ℤ, wrap64, add64, Text, codes, eq_text, ◌≡◌, refl,
  true, false, List, [], ◌∷◌, arith,
}
use multichain_indexer.Interleaver.{
  InterleaveTarget, Interleaver, commit_interleave_key, suc_index, order_index, add_key,
  add_targets, new_interleaver, set_waiting, preferred, is_empty, can_acquire, start_waiting,
  take_turn, turn_after, release, System, here, arrives, acquires, none_left, then_step, start,
}
use multichain_indexer.Interleaver.Exclusion.{Exclusive, run-Exclusive, can_acquire-release}

abbrev two_targets : List InterleaveTarget
two_targets =
    record { chain = codes "base"; network = codes "sepolia" }
    ∷ record { chain = codes "btc"; network = codes "testnet" }
    ∷ []

abbrev base_key : Text
base_key = codes "base-sepolia"

abbrev btc_key : Text
btc_key = codes "btc-testnet"

abbrev base_waits : System
base_waits = record (start two_targets) {
  object = start_waiting (new_interleaver two_targets) base_key;
  waiters = base_key ∷ [];
}

abbrev base_holds : System
base_holds = record {
  object = take_turn base_waits.object base_key;
  waiters = [];
  holders = (base_key, 0) ∷ [];
}

run-Exclusive_example : Exclusive base_holds
unfolding order_index start_waiting new_interleaver add_targets add_key eq_text
    commit_interleave_key suc_index can_acquire release is_empty preferred turn_after set_waiting
    add64 wrap64 ◌+ℤ◌ ltb_ℤ
run-Exclusive_example = run-Exclusive two_targets base_holds (
    then_step (then_step none_left (arrives {s = start two_targets} base_key 0 refl))
      (acquires {s = base_waits} base_key 0 true here refl refl))

abbrev both : Interleaver
both = start_waiting (new_interleaver two_targets) btc_key

can_acquire-release_example :
    btc_key ≡ (if ltb 1 (length both.order) then get_or both.order 1 [] else get_or both.order 0 [])
unfolding order_index start_waiting new_interleaver add_targets add_key eq_text
    commit_interleave_key suc_index can_acquire release is_empty preferred turn_after set_waiting
    add64 wrap64 ◌+ℤ◌ ltb_ℤ
can_acquire-release_example =
    can_acquire-release both base_key 0 btc_key false refl (omega arith) refl
