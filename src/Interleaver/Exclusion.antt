-- ===== src/Interleaver/Exclusion.antt =====
-- internal/pipeline/ingester/interleaver.go: one holder at a time, in turn.
use mathlib.Core.Path.{subst}
use native.Mathlib.Nat.{mod-eq_of_lt, mod_self}
use multichain_indexer.Prelude.{
  ltb, if◌then◌else◌, Bool-cases, Option-cases, length, get_or, pos, ◌<ℤ◌, ltb_ℤ, lt→ltb_ℤ, Text,
  eq_text, eq_text_refl, eq_text→eq, ℕ, suc, ◌+◌, ◌%◌, ◌<◌, ◌≡◌, refl, ap, ◌∙◌, inl, inr, Bool,
  true, false, ◌&&◌, not, some, List, [], ◌∷◌, arith,
}
use multichain_indexer.Interleaver.{
  InterleaveTarget, Interleaver, suc_index, order_index, add_targets, new_interleaver, preferred,
  is_empty, can_acquire, start_waiting, take_turn, cancel_waiter, turn_after, release, System,
  Member, here, there, Step, arrives, acquires, gives_up, releases, Steps, none_left, then_step,
  start,
}
use multichain_indexer.Interleaver.Order.{Keys, order_index-Keys, add_targets-Keys}

-- Nobody holds the turn, or one key does, and it is the active one.
unfoldable pub Held : Text → List (Text × ℕ) → Type 0
Held active [] = active ≡ []
Held active ((key, index) ∷ []) = (active ≡ key) × (eq_text key [] ≡ false)
Held active (a ∷ b ∷ hs) = ⊥

-- The place in the order is inside it.
unfoldable pub InOrder : ℕ → List Text → Type 0
InOrder next [] = next ≡ 0
InOrder next (k ∷ ks) = next < suc (length ks)

unfoldable pub Exclusive : System → Type 0
Exclusive s =
    Keys s.object.order × InOrder s.object.next s.object.order × Held s.object.active s.holders

turn_after-bound : (index n : ℕ) → 0 < n → turn_after index n < n
unfolding turn_after
turn_after-bound index n h = omega arith

Keys-nil : Keys []
unfolding Keys
Keys-nil = tt

InOrder-zero : (order : List Text) → InOrder 0 order
unfolding InOrder
InOrder-zero [] = refl
InOrder-zero (k ∷ ks) = omega arith

start-Exclusive : (targets : List InterleaveTarget) → Exclusive (start targets)
unfolding Exclusive Held new_interleaver
start-Exclusive targets =
    (add_targets-Keys targets [] Keys-nil, InOrder-zero (add_targets targets []), refl)

release-InOrder :
    (next index : ℕ) (order : List Text) (committed : Bool)
    → InOrder next order
    → InOrder
        (if committed && not (is_empty order) then turn_after index (length order) else next)
        order
unfolding InOrder is_empty
release-InOrder next index [] true h = h
release-InOrder next index [] false h = h
release-InOrder next index (k ∷ ks) true h = turn_after-bound index (suc (length ks)) (omega arith)
release-InOrder next index (k ∷ ks) false h = h

can_acquire-idle :
    (d : Interleaver) (key : Text) (over : Bool) → can_acquire d key over ≡ true → d.active ≡ []
unfolding can_acquire
can_acquire-idle d key over h = ground (arith, eq_text→eq d.active [])

idle-holders :
    (holders : List (Text × ℕ)) (active : Text) → Held active holders → active ≡ [] → holders ≡ []
unfolding Held eq_text
idle-holders [] active h e = refl
idle-holders (([], index) ∷ []) active (h, n) e = absurd cc
idle-holders (((c ∷ key), index) ∷ []) active (h, n) e = absurd cc
idle-holders (a ∷ b ∷ hs) active h e = absurd h

one-Held : (key : Text) (index : ℕ) → eq_text key [] ≡ false → Held key ((key, index) ∷ [])
unfolding Held
one-Held key index h = (refl, h)

acquires-Held :
    (d : Interleaver) (holders : List (Text × ℕ)) (key : Text) (index : ℕ) (over : Bool)
    → Keys d.order
    → Held d.active holders
    → order_index key d.order ≡ some index
    → can_acquire d key over ≡ true
    → Held key ((key, index) ∷ holders)
acquires-Held d holders key index over n h found can =
    simp (idle-holders holders d.active h (can_acquire-idle d key over can))
      (one-Held key index (order_index-Keys key d.order index n found))

no-Member : {A : Type 0} {a : A} {xs : List A} → ¬ Member a [] xs
no-Member m = elim m [ ]

releases-Held :
    (active : Text) {a : Text × ℕ} {hs rest : List (Text × ℕ)}
    → Member a hs rest
    → Held active hs
    → Held (if eq_text active a.0 then [] else active) rest
unfolding Held
releases-Held active {a = (key, index)} (here {xs = []}) (e, n) = simp (e, eq_text_refl key)
releases-Held active {a = (key, index)} (here {xs = b ∷ xs}) h = absurd h
releases-Held active {a = a} {hs = b ∷ c ∷ hs} (there m) h = absurd h
releases-Held active {a = a} {hs = b ∷ []} (there m) h = absurd (no-Member m)

cancel_waiter-same :
    (d : Interleaver) (key : Text)
    → ((cancel_waiter d key).order ≡ d.order)
      × ((cancel_waiter d key).next ≡ d.next)
      × ((cancel_waiter d key).active ≡ d.active)
unfolding cancel_waiter
cancel_waiter-same d key = elim (Bool-cases (ltb_ℤ (pos 0) (d.waiting key))) [
  | inl h ↦ simp h (refl, refl, refl)
  | inr h ↦ simp h (refl, refl, refl)
]

Step-Exclusive : {s t : System} → Exclusive s → Step s t → Exclusive t
unfolding Exclusive start_waiting take_turn release
Step-Exclusive e (arrives key index h) = e
Step-Exclusive {s = s} (n, b, h) (acquires key index over m found can) =
    (n, b, acquires-Held s.object s.holders key index over n h found can)
Step-Exclusive {s = s} (n, b, h) (gives_up key m) =
    let (order, next, active) = cancel_waiter-same s.object key in
    (simp order n, simp (order, next) b, simp active h)
Step-Exclusive {s = s} (n, b, h) (releases {rest = rest} key index committed m) = (
  n,
  release-InOrder s.object.next index s.object.order committed b,
  releases-Held s.object.active m h,
)

Steps-Exclusive : {s t : System} → Exclusive s → Steps s t → Exclusive t
Steps-Exclusive e none_left = e
Steps-Exclusive e (then_step run last) = Step-Exclusive (Steps-Exclusive e run) last

-- However goroutines arrive, take their turn, give up and release, in any state reached from the
-- start at most one key holds the turn and it is the active one, nobody holds it while none is
-- active, and the next place is inside the order.
pub run-Exclusive :
    (targets : List InterleaveTarget) (s : System) → Steps (start targets) s → Exclusive s
run-Exclusive targets s run = Steps-Exclusive (start-Exclusive targets) run

found-nonempty :
    (key : Text) (order : List Text) (index : ℕ)
    → order_index key order ≡ some index
    → is_empty order ≡ false
unfolding order_index is_empty
found-nonempty key [] index h = absurd cc
found-nonempty key (k ∷ ks) index h = refl

can_acquire-preferred :
    (d : Interleaver) (key : Text) (over : Bool)
    → pos 0 <ℤ d.waiting (preferred d)
    → can_acquire d key over ≡ true
    → key ≡ preferred d
unfolding can_acquire
can_acquire-preferred d key over w h =
    ground (arith, eq_text→eq key (preferred d), lt→ltb_ℤ (pos 0) (d.waiting (preferred d)))

release-preferred :
    (d : Interleaver) (key : Text) (index : ℕ)
    → order_index key d.order ≡ some index
    → preferred (release d key index true) ≡ get_or d.order (turn_after index (length d.order)) []
unfolding preferred release
release-preferred d key index h = simp (found-nonempty key d.order index h)

turn_after_next : (index n : ℕ) → suc index < n → turn_after index n ≡ suc index
unfolding turn_after
turn_after_next index n h = mod-eq_of_lt {n = index + 1} {m = n} (omega arith) ∙ omega arith

turn_after_last : (index n : ℕ) → suc index ≡ n → turn_after index n ≡ 0
unfolding turn_after
turn_after_last index n h =
    let e : index + 1 ≡ n = omega arith in subst (λ m. (index + 1) % m ≡ 0) e (mod_self (index + 1))

order_index-bound :
    (key : Text) (order : List Text) (index : ℕ)
    → order_index key order ≡ some index
    → index < length order
unfolding order_index suc_index
order_index-bound key [] index h = absurd cc
order_index-bound key (k ∷ ks) index h = elim (Bool-cases (eq_text key k)) [
  | inl e ↦ ground arith
  | inr e ↦ elim (Option-cases (order_index key ks)) [
    | inl n ↦ absurd (ground arith)
    | inr (i, n) ↦ let l = order_index-bound key ks i n in ground arith
  ]
]

key_after_turn :
    (index : ℕ) (order : List Text)
    → index < length order
    → get_or order (turn_after index (length order)) []
      ≡ (if ltb (suc index) (length order) then get_or order (suc index) [] else get_or order 0 [])
key_after_turn index order h = elim (Bool-cases (ltb (suc index) (length order))) [
  | inl l ↦
      simp l (ap (λ n. get_or order n []) (turn_after_next index (length order) (ground arith)))
  | inr l ↦
      let last : suc index ≡ length order = ground arith in
      simp l (ap (λ n. get_or order n []) (turn_after_last index (length order) last))
]

-- After a committed release the key at the next place in the order, or the first key after the
-- last place, is preferred: while it waits, no other key can take the turn, whatever its deadline.
pub can_acquire-release :
    (d : Interleaver) (key : Text) (index : ℕ) (other : Text) (over : Bool)
    → let next_key =
        if ltb (suc index) (length d.order)
        then get_or d.order (suc index) []
        else get_or d.order 0 [] in
      order_index key d.order ≡ some index
      → pos 0 <ℤ d.waiting next_key
      → can_acquire (release d key index true) other over ≡ true
      → other ≡ next_key
unfolding release
can_acquire-release d key index other over found w h =
    let e =
      release-preferred d key index found
      ∙ key_after_turn index d.order (order_index-bound key d.order index found) in
    can_acquire-preferred (release d key index true) other over (simp e w) h ∙ e
