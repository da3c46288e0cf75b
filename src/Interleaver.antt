-- ===== src/Interleaver.antt =====
-- internal/pipeline/ingester/interleaver.go: the turns in which the chains commit. Each critical
-- section of the mutex is one step; a goroutine that waits in Acquire, and a release function that
-- is still to be called, are entries of two lists beside the object.
use multichain_indexer.Prelude.{
  if◌then◌else◌, length, get_or, ℤ, pos, ltb_ℤ, add64, sub64, Text, codes, eq_text, ℕ, suc, ◌+◌,
  ◌%◌, ◌≡◌, Bool, true, false, ◌&&◌, ◌||◌, not, Option, none, some, List, [], ◌∷◌, ◌++◌,
}
pub mod Order
pub mod Exclusion

pub record InterleaveTarget : Type 0 where
  pub chain : Text
  pub network : Text

-- The map orderIndex is a search of `order`; the empty text is no key, as in the source.
pub record Interleaver : Type 0 where
  pub order : List Text
  pub active : Text
  pub next : ℕ
  pub waiting : Text → ℤ

unfoldable pub commit_interleave_key : Text → Text → Text
commit_interleave_key chain network = chain ++ codes "-" ++ network

unfoldable pub suc_index : Option ℕ → Option ℕ
suc_index none = none
suc_index (some i) = some (suc i)

unfoldable pub order_index : Text → List Text → Option ℕ
order_index key [] = none
order_index key (k ∷ ks) =
    let rest = order_index key ks in if eq_text key k then some 0 else suc_index rest

-- The loop over the targets: a key that is there already is skipped.
unfoldable pub add_key : Text → Option ℕ → List Text → List Text
add_key key none order = order ++ key ∷ []
add_key key (some i) order = order

unfoldable pub add_targets : List InterleaveTarget → List Text → List Text
add_targets [] order = order
add_targets (t ∷ ts) order =
    let key = commit_interleave_key t.chain t.network in
    add_targets ts (add_key key (order_index key order) order)

unfoldable pub new_interleaver : List InterleaveTarget → Interleaver
new_interleaver targets = record {
  order = add_targets targets [];
  active = [];
  next = 0;
  waiting = λ key. pos 0;
}

unfoldable pub set_waiting : (Text → ℤ) → Text → ℤ → Text → ℤ
set_waiting waiting key n k = if eq_text k key then n else waiting k

unfoldable pub preferred : Interleaver → Text
preferred d = get_or d.order d.next []

unfoldable pub is_empty : List Text → Bool
is_empty [] = true
is_empty (k ∷ ks) = false

-- `over` says that there is no deadline or that it has passed.
unfoldable pub can_acquire : Interleaver → Text → Bool → Bool
can_acquire d key over =
    if not (eq_text d.active []) || is_empty d.order
    then false
    else if eq_text key (preferred d)
    then true
    else if ltb_ℤ (pos 0) (d.waiting (preferred d))
    then false
    else over

-- The sections of Acquire before its loop, and in it once canAcquireLocked says yes
unfoldable pub start_waiting : Interleaver → Text → Interleaver
start_waiting d key = record d {
  waiting = set_waiting d.waiting key (add64 (d.waiting key) (pos 1));
}

unfoldable pub take_turn : Interleaver → Text → Interleaver
take_turn d key = record d {
  waiting = set_waiting d.waiting key (sub64 (d.waiting key) (pos 1));
  active = key;
}

unfoldable pub cancel_waiter : Interleaver → Text → Interleaver
cancel_waiter d key =
    if ltb_ℤ (pos 0) (d.waiting key)
    then record d { waiting = set_waiting d.waiting key (sub64 (d.waiting key) (pos 1)) }
    else d

-- (index + 1) % n
unfoldable pub turn_after : ℕ → ℕ → ℕ
turn_after index n = (index + 1) % n

-- The first call of a release function
unfoldable pub release : Interleaver → Text → ℕ → Bool → Interleaver
release d key index committed = record d {
  active = if eq_text d.active key then [] else d.active;
  next = if committed && not (is_empty d.order) then turn_after index (length d.order) else d.next;
}

-- The object, the keys that wait in Acquire, and the keys and indices of the release functions that
-- are still to be called.
pub record System : Type 0 where
  pub object : Interleaver
  pub waiters : List Text
  pub holders : List (Text × ℕ)

pub data Member {A : Type 0} : A → List A → List A → Type 0 where
  here : {a : A} {xs : List A} → Member a (a ∷ xs) xs
  there : {a b : A} {xs ys : List A} → Member a xs ys → Member a (b ∷ xs) (b ∷ ys)

-- One step: a goroutine arrives, takes its turn or gives up, or a release function is called for the
-- first time. Later calls of it return at once. `Member x xs ys` takes x out of xs.
pub data Step : System → System → Type 0 where
  arrives :
      {s : System} (key : Text) (index : ℕ)
      → order_index key s.object.order ≡ some index
      → Step s (record s { object = start_waiting s.object key; waiters = key ∷ s.waiters })
  acquires :
      {s : System} {rest : List Text} (key : Text) (index : ℕ) (over : Bool)
      → Member key s.waiters rest
      → order_index key s.object.order ≡ some index
      → can_acquire s.object key over ≡ true
      → Step s (record {
        object = take_turn s.object key;
        waiters = rest;
        holders = (key, index) ∷ s.holders;
      })
  gives_up :
      {s : System} {rest : List Text} (key : Text)
      → Member key s.waiters rest
      → Step s (record s { object = cancel_waiter s.object key; waiters = rest })
  releases :
      {s : System} {rest : List (Text × ℕ)} (key : Text) (index : ℕ) (committed : Bool)
      → Member (key, index) s.holders rest
      → Step s (record s { object = release s.object key index committed; holders = rest })

pub data Steps : System → System → Type 0 where
  none_left : {s : System} → Steps s s
  then_step : {s t u : System} → Steps s t → Step t u → Steps s u

abbrev pub start : List InterleaveTarget → System
start targets = record { object = new_interleaver targets; waiters = []; holders = [] }
