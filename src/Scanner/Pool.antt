-- ===== src/Scanner/Pool.antt =====
-- The pool that maps over items with a limit on what is in flight: src/utils/concurrency.js. The
-- workers are interleaved by a schedule, the list of the workers that move: a worker that is ready
-- takes the next item or returns, one whose mapper has resolved stores the result.
pub mod Cells
pub mod Order
pub mod Progress
use qa_lab.Base.{
  ℕ, zero, suc, List, [], ◌∷◌, Bool, true, false, Option, none, some, if◌then◌else◌, ltb, ◌+◌,
  length, min,
}
use qa_lab.Scanner.Pool.Cells.{get, set, repeat}

pub data Worker : Type 0 where
  ready finished : Worker
  running : ℕ → Worker

pub record Pool (B : Type 0) : Type 0 where
  pub next_index : ℕ
  pub results : List (Option B)
  pub workers : List Worker

-- Math.max(1, Math.min(limit, items.length))
unfoldable pub worker_count : ℕ → ℕ → ℕ
worker_count limit n = let m = min limit n in if ltb m 1 then 1 else m

module _ {A B : Type 0} (mapper : A → ℕ → B) (items : List A) where
  unfoldable pub start : ℕ → Pool B
  unfolding worker_count
  start limit = record {
    next_index = 0;
    results = repeat none (length items);
    workers = repeat ready (worker_count limit (length items));
  }

  -- The head of a worker's loop.
  unfoldable pub take_next : ℕ → Pool B → Pool B
  take_next w p =
      if ltb p.next_index (length items)
      then record p {
        next_index = suc p.next_index;
        workers = set w (running p.next_index) p.workers;
      }
      else record p { workers = set w finished p.workers }

  abbrev pub mapped : ℕ → Option A → Option B
  mapped i none = none
  mapped i (some a) = some (mapper a i)

  -- The mapper's promise has resolved.
  unfoldable pub store : ℕ → ℕ → Pool B → Pool B
  store w i p = record p {
    results = set i (mapped i (get i items)) p.results;
    workers = set w ready p.workers;
  }

  unfoldable pub move : ℕ → Option Worker → Pool B → Pool B
  unfolding take_next store
  move w none p = p
  move w (some ready) p = take_next w p
  move w (some (running i)) p = store w i p
  move w (some finished) p = p

  unfoldable pub step : ℕ → Pool B → Pool B
  unfolding move
  step w p = move w (get w p.workers) p

  -- `mapWithConcurrency`, under a schedule.
  unfoldable pub run : List ℕ → Pool B → Pool B
  unfolding step
  run [] p = p
  run (w ∷ schedule) p = run schedule (step w p)

abbrev pub is_finished : Worker → Bool
is_finished finished = true
is_finished ready = false
is_finished (running i) = false

-- `Promise.all(workers)` resolves.
unfoldable pub all_finished : List Worker → Bool
all_finished [] = true
all_finished (w ∷ ws) = let rest = all_finished ws in if is_finished w then rest else false
