-- ===== src/Lint/Pool.antt =====
-- pkg/lint/linter.go: `LintAll`, a dispatcher and workers that share a channel without a buffer. A step
-- is one move of the dispatcher, of a worker, or of whoever cancels the context.
pub mod Complete
pub mod Progress
use otelcol_config_lint.Base.{
  Bool, List, Option, [], false, if◌then◌else◌, max, min, nat_eq, none, replicate, some, string_eq,
  true, ℕ, ◌&&◌, ◌++◌, ◌+◌, ◌<◌, ◌==◌, ◌∷◌, ◌≡◌, ◌⊎◌,
}
use otelcol_config_lint.Lint.Model.{Result}

-- A worker waits for an index, has received one and is to ask for cancellation, lints the file, or
-- has returned.
pub data Worker : Type 0 where
  waiting : Worker
  received : ℕ → Worker
  linting : ℕ → Worker
  returned : Worker

-- `next` is the dispatcher's index, `results` the slots that are written.
pub record Pool : Type 0 where
  pub next : ℕ
  pub closed : Bool
  pub cancelled : Bool
  pub workers : List Worker
  pub results : ℕ → Option Result

-- the number of workers that `LintAll` starts
unfoldable pub worker_count : ℕ → ℕ → ℕ
worker_count n files = min (max n 1) files

unfoldable pub start : ℕ → ℕ → Pool
unfolding worker_count
start n files = record {
  next = 0;
  closed = false;
  cancelled = false;
  workers = replicate (worker_count n files) waiting;
  results = λ _. none;
}

abbrev pub put : (ℕ → Option Result) → ℕ → Result → ℕ → Option Result
put results i r j = if j == i then some r else results j

-- `outcome i` is what `LintFile` gives for the file `i` where the context is not cancelled; where it is
-- cancelled meanwhile, any result may be written.
pub data Step (files : ℕ) (outcome : ℕ → Result) (s : Pool) : Pool → Type 0 where
  -- someone cancels the context
  cancel : s.cancelled ≡ false → Step files outcome s (record s { cancelled = true })
  -- the dispatcher hands its index to a worker that waits
  send :
      (front back : List Worker)
      → s.closed ≡ false
      → s.next < files
      → s.workers ≡ front ++ waiting ∷ back
      → Step files outcome s
          (record s { next = s.next + 1; workers = front ++ received s.next ∷ back })
  -- the dispatcher is through, or leaves its loop as the context is cancelled, and closes the channel
  close :
      s.closed ≡ false
      → (s.next ≡ files) ⊎ (s.cancelled ≡ true)
      → Step files outcome s (record s { closed = true })
  -- a worker that has received an index returns if the context is cancelled, and else lints the file
  give_up :
      (front back : List Worker) (i : ℕ)
      → s.cancelled ≡ true
      → s.workers ≡ front ++ received i ∷ back
      → Step files outcome s (record s { workers = front ++ returned ∷ back })
  begin :
      (front back : List Worker) (i : ℕ)
      → s.cancelled ≡ false
      → s.workers ≡ front ++ received i ∷ back
      → Step files outcome s (record s { workers = front ++ linting i ∷ back })
  finish :
      (front back : List Worker) (i : ℕ) (r : Result)
      → (s.cancelled ≡ false → r ≡ outcome i)
      → s.workers ≡ front ++ linting i ∷ back
      → Step files outcome s
          (record s { workers = front ++ waiting ∷ back; results = put s.results i r })
  -- a worker that waits on a closed channel returns
  leave :
      (front back : List Worker)
      → s.closed ≡ true
      → s.workers ≡ front ++ waiting ∷ back
      → Step files outcome s (record s { workers = front ++ returned ∷ back })

pub data Reach (files : ℕ) (outcome : ℕ → Result) (s : Pool) : Pool → Type 0 where
  here : Reach files outcome s s
  next : {t u : Pool} → Reach files outcome s t → Step files outcome t u → Reach files outcome s u

abbrev pub has_returned : Worker → Bool
has_returned returned = true
has_returned _ = false

-- `workers.Wait` has come back.
abbrev pub all_returned : List Worker → Bool
all_returned [] = true
all_returned (w ∷ ws) = has_returned w && all_returned ws

abbrev pub IsFinished : Pool → Type 0
IsFinished s = (s.closed ≡ true) × (all_returned s.workers ≡ true)

-- What `LintAll` returns: an error where the context is cancelled, and else the slots.
unfoldable pub returns : Pool → Option (ℕ → Option Result)
returns s = if s.cancelled then none else some s.results
