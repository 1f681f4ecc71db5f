-- ===== src/Runner/Concurrency.antt =====
-- `withConcurrency` of agent-runner/src/index.js: workers that share a cursor over a list of items.
pub mod Shares
pub mod Finishes
use centry.Prelude.{
  ℕ, ◌+◌, Option, none, some, List, [], ◌∷◌, length, get_elem?, replicate, Result, ok, err, min,
  ltb, ◌==◌, if◌then◌else◌, Bool, true, false, zero, suc,
}
use centry.Prelude.Text.{Text, codes}

-- What a worker is about: to take the next index, to wait for the item of an index, or nothing.
pub data Worker : Type 0 where
  free : Worker
  busy : (index : ℕ) → Worker
  returned : Worker

-- What stands in `results` for an item: what the function gave, or that it failed, with the message
-- and the item's id.
pub data Settled {ℓ} (B : Type ℓ) : Type ℓ where
  fulfilled : B → Settled B
  failed : (error : Text) (item : Option Text) → Settled B

-- The variables that the workers share, and the workers.
pub record Pool {ℓ} (B : Type ℓ) : Type ℓ where
  pub cursor : ℕ
  pub results : ℕ → Option (Settled B)
  pub workers : List Worker

-- The list with another element at a place.
unfoldable pub set_at {ℓ} : {A : Type ℓ} → List A → ℕ → A → List A
set_at [] k v = []
set_at (x ∷ xs) zero v = v ∷ xs
set_at (x ∷ xs) (suc k) v = x ∷ set_at xs k v

-- `error instanceof Error ? error.message : "agent_worker_failed"`
unfoldable pub message_of : Option Text → Text
message_of none = codes "agent_worker_failed"
message_of (some t) = t

-- The items, their ids, and what the function does with an item and its index: it gives a value or
-- throws, and of what it throws the message is there or not.
module _ {ℓ κ} {A : Type ℓ} {B : Type κ} (items : List A) (id_of : A → Option Text)
    (fn : A → ℕ → Result (Option Text) B) where
  -- The `try` and the `catch`.
  unfoldable pub settle : A → ℕ → Settled B
  unfolding message_of
  settle a i = elim (fn a i) [ ok b ↦ fulfilled b | err e ↦ failed (message_of e) (id_of a) ]

  -- A worker reads and moves the cursor, and waits for the item or returns.
  unfoldable pub take_index : Pool B → ℕ → Pool B
  unfolding set_at
  take_index p k = record p {
    cursor = p.cursor + 1;
    workers = set_at p.workers k (if ltb p.cursor (length items) then busy p.cursor else returned);
  }

  -- A worker's item is there.
  unfoldable pub end_run : Pool B → ℕ → ℕ → Pool B
  unfolding set_at settle
  end_run p k i = elim (get_elem? items i) [
    | none ↦ record p { workers = set_at p.workers k free }
    | some a ↦ record p {
      results = λ j. if j == i then some (settle a i) else p.results j;
      workers = set_at p.workers k free;
    }
  ]

  -- The next step of a worker, if it has one.
  unfoldable pub advance : Pool B → ℕ → Option (Pool B)
  unfolding take_index end_run
  advance p k = elim (get_elem? p.workers k) [
    | none ↦ none
    | some free ↦ some (take_index p k)
    | some (busy i) ↦ some (end_run p k i)
    | some returned ↦ none
  ]

  -- The steps of the workers in some order.
  unfoldable pub run : List ℕ → Pool B → Option (Pool B)
  unfolding advance
  run [] p = some p
  run (k ∷ ks) p = elim (advance p k) [ none ↦ none | some q ↦ run ks q ]

  -- The workers when they start.
  unfoldable pub start : ℕ → Pool B
  start concurrency = record {
    cursor = 0;
    results = λ i. none;
    workers = replicate (min concurrency (length items)) free;
  }
