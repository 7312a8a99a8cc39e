-- ===== src/Lint/Pool/Progress.antt =====
-- LintAll never blocks: every state can move until all workers have returned, and no run is endless.
use otelcol_config_lint.Base.{
  sym, zero, ltb, replicate, ◌∙◌, ◌≤◌, Bool, Bool-cases, List, [], ap, arith, contains_func, false,
  if◌then◌else◌, inl, inr, length, refl, suc, true, ℕ, ◌*◌, ◌++◌, ◌+◌, ◌-◌, ◌<◌, ◌∷◌, ◌≡◌, ◌⊎◌,
}
use otelcol_config_lint.Lint.Model.{Result}
use otelcol_config_lint.Lint.Pool.{
  here, next, Reach, IsFinished, worker_count, start, Pool, Step, Worker, all_returned, begin,
  cancel, close, finish, give_up, leave, linting, received, returned, send, waiting,
}
use otelcol_config_lint.Lint.Pool.Complete.{Reach-Quiet, Quiet, some_returned}

abbrev pub weight : Worker → ℕ
weight waiting = 1
weight (received _) = 3
weight (linting _) = 2
weight returned = 0

abbrev pub load : List Worker → ℕ
load [] = 0
load (w ∷ ws) = weight w + load ws

-- The moves that are left at most.
abbrev pub moves_left : ℕ → Pool → ℕ
moves_left files s =
    3 * (files - s.next)
    + ((if s.closed then 0 else 1) + ((if s.cancelled then 0 else 1) + load s.workers))

load-middle :
    (front : List Worker) (w : Worker) (back : List Worker)
    → load (front ++ w ∷ back) ≡ weight w + (load front + load back)
load-middle [] w back = omega arith
load-middle (v ∷ front) w back = omega (arith, load-middle front w back)

-- A worker that has the property, with those in front of it and behind it.
find :
    (p : Worker → Bool) (ws : List Worker)
    → (contains_func ws p ≡ false)
      ⊎ ((front : List Worker) × (w : Worker) × (back : List Worker) × (ws ≡ front ++ w ∷ back)
          × (p w ≡ true))
find p [] = inl refl
find p (w ∷ ws) = elim (Bool-cases (p w)) [
  | inl h ↦ inr ([], w, ws, refl, h)
  | inr h ↦ elim (find p ws) [
    | inl none_found ↦ inl (rw h none_found)
    | inr (front, v, back, e, g) ↦ inr (w ∷ front, v, back, ap (λ l. w ∷ l) e, g)
  ]
]

abbrev is_busy : Worker → Bool
is_busy (received _) = true
is_busy (linting _) = true
is_busy _ = false

abbrev is_waiting : Worker → Bool
is_waiting waiting = true
is_waiting _ = false

idle-all_returned :
    (ws : List Worker)
    → contains_func ws is_busy ≡ false
    → contains_func ws is_waiting ≡ false
    → all_returned ws ≡ true
idle-all_returned [] b w = refl
idle-all_returned (waiting ∷ ws) b w = absurd (cc (w))
idle-all_returned (received i ∷ ws) b w = absurd (cc (b))
idle-all_returned (linting i ∷ ws) b w = absurd (cc (b))
idle-all_returned (returned ∷ ws) b w = idle-all_returned ws b w

returned-some_returned :
    (ws : List Worker) → 0 < length ws → all_returned ws ≡ true → some_returned ws ≡ true
returned-some_returned [] l h = absurd (omega arith)
returned-some_returned (returned ∷ ws) l h = refl
returned-some_returned (waiting ∷ ws) l h = absurd (cc (h))
returned-some_returned (received i ∷ ws) l h = absurd (cc (h))
returned-some_returned (linting i ∷ ws) l h = absurd (cc (h))

length-middle :
    (front : List Worker) (w w' : Worker) (back : List Worker)
    → length (front ++ w ∷ back) ≡ length (front ++ w' ∷ back)
length-middle [] w w' back = refl
length-middle (v ∷ front) w w' back = ap suc (length-middle front w w' back)

module _ (files : ℕ) (outcome : ℕ → Result) where
  Step-lowers : {s t : Pool} → Step files outcome s t → moves_left files t < moves_left files s
  Step-lowers {s} (cancel c) = ground arith
  Step-lowers {s} (send front back unshut more e) =
      rw e (omega (arith, load-middle front waiting back, load-middle front (received s.next) back))
  Step-lowers {s} (close unshut why) = ground arith
  Step-lowers {s} (give_up front back i stop e) =
      rw e (omega (arith, load-middle front (received i) back, load-middle front returned back))
  Step-lowers {s} (begin front back i running e) =
      rw e (omega (arith, load-middle front (received i) back, load-middle front (linting i) back))
  Step-lowers {s} (finish front back i r same e) =
      rw e (omega (arith, load-middle front (linting i) back, load-middle front waiting back))
  Step-lowers {s} (leave front back shut e) =
      rw e (omega (arith, load-middle front waiting back, load-middle front returned back))

  -- The index stays in range, and workers are neither made nor lost.
  abbrev Bounded : ℕ → Pool → Type 0
  Bounded k s = (s.next ≤ files) × (length s.workers ≡ k)

  kept_length :
      (k : ℕ) (s : Pool) (front : List Worker) (w w' : Worker) (back : List Worker)
      → s.workers ≡ front ++ w ∷ back
      → length s.workers ≡ k
      → length (front ++ w' ∷ back) ≡ k
  kept_length k s front w w' back e h = length-middle front w' w back ∙ sym (ap length e) ∙ h

  Step-Bounded : {s t : Pool} (k : ℕ) → Step files outcome s t → Bounded k s → Bounded k t
  Step-Bounded k (cancel c) b = b
  Step-Bounded {s} k (send front back unshut more e) b =
      (omega arith, kept_length k s front waiting (received s.next) back e b.1)
  Step-Bounded k (close unshut why) b = b
  Step-Bounded {s} k (give_up front back i stop e) b =
      (b.0, kept_length k s front (received i) returned back e b.1)
  Step-Bounded {s} k (begin front back i running e) b =
      (b.0, kept_length k s front (received i) (linting i) back e b.1)
  Step-Bounded {s} k (finish front back i r same e) b =
      (b.0, kept_length k s front (linting i) waiting back e b.1)
  Step-Bounded {s} k (leave front back shut e) b =
      (b.0, kept_length k s front waiting returned back e b.1)

  length-replicate : (k : ℕ) → length (replicate {A = Worker} k waiting) ≡ k
  length-replicate zero = refl
  length-replicate (suc k) = ap suc (length-replicate k)

  Reach-Bounded :
      (n : ℕ) {s : Pool} → Reach files outcome (start n files) s → Bounded (worker_count n files) s
  unfolding start
  Reach-Bounded n here = (omega arith, length-replicate (worker_count n files))
  Reach-Bounded n (next r st) = Step-Bounded (worker_count n files) st (Reach-Bounded n r)

  -- The dispatcher or a worker can move: a cancellation, which changes whether the context is
  -- cancelled, does not count.
  abbrev pub CanStep : Pool → Type 0
  CanStep s = (t : Pool) × Step files outcome s t × (t.cancelled ≡ s.cancelled)

  busy_steps :
      (s : Pool) (front : List Worker) (w : Worker) (back : List Worker)
      → s.workers ≡ front ++ w ∷ back
      → is_busy w ≡ true
      → CanStep s
  busy_steps s front (received i) back e h = elim (Bool-cases s.cancelled) [
    | inl stop ↦ (_, give_up front back i stop e, refl)
    | inr running ↦ (_, begin front back i running e, refl)
  ]
  busy_steps s front (linting i) back e h = (_, finish front back i (outcome i) (λ _. refl) e, refl)
  busy_steps s front waiting back e h = absurd (cc (h))
  busy_steps s front returned back e h = absurd (cc (h))

  waiting_steps :
      (s : Pool) (front : List Worker) (w : Worker) (back : List Worker)
      → s.next ≤ files
      → s.workers ≡ front ++ w ∷ back
      → is_waiting w ≡ true
      → CanStep s
  waiting_steps s front waiting back le e h = elim (Bool-cases s.closed) [
    | inl shut ↦ (_, leave front back shut e, refl)
    | inr unshut ↦ elim (Bool-cases (ltb s.next files)) [
      | inl more ↦ (_, send front back unshut (ground arith) e, refl)
      | inr through ↦ (_, close unshut (inl (ground arith)), refl)
    ]
  ]
  waiting_steps s front (received i) back le e h = absurd (cc (h))
  waiting_steps s front (linting i) back le e h = absurd (cc (h))
  waiting_steps s front returned back le e h = absurd (cc (h))

  idle_steps :
      (n : ℕ) (s : Pool)
      → 0 < files
      → Quiet files outcome s
      → Bounded (worker_count n files) s
      → all_returned s.workers ≡ true
      → IsFinished s ⊎ CanStep s
  unfolding worker_count
  idle_steps n s some_file quiet b gone = elim (Bool-cases s.closed) [
    | inl shut ↦ inl (shut, gone)
    | inr unshut ↦ elim (Bool-cases s.cancelled) [
      | inl stop ↦ inr (_, close unshut (inr stop), refl)
      | inr running ↦ absurd (
          cc (
            (quiet running).stays unshut,
            returned-some_returned s.workers (omega (arith, b.1)) gone,
          ))
    ]
  ]

  can_step :
      (n : ℕ) {s : Pool}
      → 0 < files
      → Reach files outcome (start n files) s
      → IsFinished s ⊎ CanStep s
  can_step n {s} some_file r =
      let b = Reach-Bounded n r in
      elim (find is_busy s.workers) [
        | inr (front, w, back, e, h) ↦ inr (busy_steps s front w back e h)
        | inl no_busy ↦ elim (find is_waiting s.workers) [
          | inr (front, w, back, e, h) ↦ inr (waiting_steps s front w back b.0 e h)
          | inl no_waiting ↦
              idle_steps n s some_file (Reach-Quiet files outcome n r) b
                (idle-all_returned s.workers no_busy no_waiting)
        ]
      ]

  -- LintAll ends: with at least one file and whatever number of workers is asked for, every state that
  -- it reaches is the end, where the channel is closed and all workers have returned, or one in which
  -- the dispatcher or a worker can move without a cancellation; and each move, that of a cancellation
  -- included, lowers a number.
  pub lint_all_ends :
      (n : ℕ) {s : Pool}
      → 0 < files
      → Reach files outcome (start n files) s
      → (IsFinished s ⊎ CanStep s)
        × ((t : Pool) → Step files outcome s t → moves_left files t < moves_left files s)
  lint_all_ends n some_file r = (can_step n some_file r, (λ t st. Step-lowers st))
