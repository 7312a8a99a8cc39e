-- ===== src/Lint/Pool/Complete.antt =====
-- Where nothing is cancelled, every file is linted and every slot holds its file's result.
use otelcol_config_lint.Base.{
  beq→eq, sym, ◌∙◌, zero, suc, replicate, Bool, Bool-cases, List, [], ap, arith, contains_func,
  false, inl, inr, nat_eq, refl, some, string_eq, true, ℕ, ◌++◌, ◌<◌, ◌==◌, ◌||◌, ◌∷◌, ◌≡◌, ◌⊎◌,
}
use otelcol_config_lint.Lint.Model.{Result}
use otelcol_config_lint.Lint.Pool.{
  IsFinished, Pool, Reach, Step, Worker, all_returned, begin, cancel, close, finish, give_up,
  has_returned, here, leave, linting, next, received, returned, send, start, waiting, worker_count,
}

abbrev pub holds : ℕ → Worker → Bool
holds i (received j) = i == j
holds i (linting j) = i == j
holds i _ = false

abbrev pub held : ℕ → List Worker → Bool
held i ws = contains_func ws (holds i)

abbrev pub some_returned : List Worker → Bool
some_returned ws = contains_func ws has_returned

pub contains_func-middle :
    {A : Type 0} (p : A → Bool) (front : List A) (a : A) (back : List A)
    → contains_func (front ++ a ∷ back) p ≡ (contains_func front p || (p a || contains_func back p))
contains_func-middle p [] a back = refl
contains_func-middle p (x ∷ front) a back = ground (arith, contains_func-middle p front a back)

-- The indices that were handed out are done or with a worker; a closed channel has handed out all; and
-- workers return only behind its closing.
pub record Inv (files : ℕ) (outcome : ℕ → Result) (s : Pool) : Type 0 where
  pub covered : (i : ℕ) → i < s.next → (s.results i ≡ some (outcome i)) ⊎ (held i s.workers ≡ true)
  pub handed_out : s.closed ≡ true → s.next ≡ files
  pub stays : s.closed ≡ false → some_returned s.workers ≡ false

module _ (files : ℕ) (outcome : ℕ → Result) where
  abbrev pub Quiet : Pool → Type 0
  Quiet s = s.cancelled ≡ false → Inv files outcome s

  -- The index stays with a worker that moves on, or its slot is written.
  moved :
      (s : Pool) (front back : List Worker) (w w' : Worker) (i : ℕ)
      → s.workers ≡ front ++ w ∷ back
      → (holds i w ≡ true → holds i w' ≡ true)
      → (s.results i ≡ some (outcome i)) ⊎ (held i s.workers ≡ true)
      → (s.results i ≡ some (outcome i)) ⊎ (held i (front ++ w' ∷ back) ≡ true)
  moved s front back w w' i e keep (inl done) = inl done
  moved s front back w w' i e keep (inr h) = inr (
      ground (
        arith,
        contains_func-middle (holds i) front w back,
        contains_func-middle (holds i) front w' back,
        ap (held i) e,
      ))

  still :
      (s : Pool) (front back : List Worker) (w w' : Worker)
      → s.workers ≡ front ++ w ∷ back
      → has_returned w' ≡ false
      → some_returned s.workers ≡ false
      → some_returned (front ++ w' ∷ back) ≡ false
  still s front back w w' e stay h = ground (
    arith,
    contains_func-middle has_returned front w back,
    contains_func-middle has_returned front w' back,
    ap some_returned e,
  )

  Step-Quiet : {s t : Pool} → Step files outcome s t → Quiet s → Quiet t
  Step-Quiet (cancel _) q c = absurd (cc (c))
  Step-Quiet {s} (send front back unshut more e) q c = record {
    covered = λ i below. elim (Bool-cases (i == s.next)) [
      | inl new ↦ inr (ground (arith, contains_func-middle (holds i) front (received s.next) back))
      | inr old ↦
          moved s front back waiting (received s.next) i e (λ h. absurd (cc (h)))
            ((q c).covered i (ground arith))
    ];
    handed_out = λ shut. absurd (cc (shut, unshut));
    stays = λ o. still s front back waiting (received s.next) e refl ((q c).stays o);
  }
  Step-Quiet {s} (close unshut (inl all)) q c = record {
    covered = (q c).covered;
    handed_out = λ _. all;
    stays = λ o. absurd (cc (o));
  }
  Step-Quiet {s} (close unshut (inr stop)) q c = absurd (cc (stop, c))
  Step-Quiet {s} (give_up front back i stop e) q c = absurd (cc (stop, c))
  Step-Quiet {s} (begin front back i running e) q c = record {
    covered =
        λ j below. moved s front back (received i) (linting i) j e (λ h. h) ((q c).covered j below);
    handed_out = (q c).handed_out;
    stays = λ o. still s front back (received i) (linting i) e refl ((q c).stays o);
  }
  Step-Quiet {s} (finish front back i r same e) q c = record {
    covered = λ j below. elim (Bool-cases (j == i)) [
      | inl hit ↦ inl (rw hit (ap some (same c ∙ ap outcome (sym (beq→eq j i hit)))))
      | inr miss ↦ rw miss (
          moved s front back (linting i) waiting j e (λ h. absurd (cc (h, miss)))
            ((q c).covered j below))
    ];
    handed_out = (q c).handed_out;
    stays = λ o. still s front back (linting i) waiting e refl ((q c).stays o);
  }
  Step-Quiet {s} (leave front back shut e) q c = record {
    covered = λ j below.
        moved s front back waiting returned j e (λ h. absurd (cc (h))) ((q c).covered j below);
    handed_out = (q c).handed_out;
    stays = λ o. absurd (cc (o, shut));
  }

  none_returned : (n : ℕ) → some_returned (replicate n waiting) ≡ false
  none_returned zero = refl
  none_returned (suc n) = none_returned n

  start-Quiet : (n : ℕ) → Quiet (start n files)
  unfolding start
  start-Quiet n c = record {
    covered = λ i below. absurd (omega arith);
    handed_out = λ shut. absurd (cc (shut));
    stays = λ _. none_returned (worker_count n files);
  }

  pub Reach-Quiet : (n : ℕ) {s : Pool} → Reach files outcome (start n files) s → Quiet s
  Reach-Quiet n here = start-Quiet n
  Reach-Quiet n (next r st) = Step-Quiet st (Reach-Quiet n r)

  none_held : (ws : List Worker) (i : ℕ) → all_returned ws ≡ true → held i ws ≡ false
  none_held [] i h = refl
  none_held (returned ∷ ws) i h = none_held ws i h
  none_held (waiting ∷ ws) i h = absurd (cc (h))
  none_held (received j ∷ ws) i h = absurd (cc (h))
  none_held (linting j ∷ ws) i h = absurd (cc (h))

  -- When LintAll has waited for its workers and its context is not cancelled, then whatever the order of
  -- the moves was, the slot of every file holds the result of that file.
  pub lint_all_complete :
      (n : ℕ) {s : Pool}
      → Reach files outcome (start n files) s
      → IsFinished s
      → s.cancelled ≡ false
      → (i : ℕ) → i < files
      → s.results i ≡ some (outcome i)
  lint_all_complete n {s} r (shut, gone) c i below =
      let inv = Reach-Quiet n r c in
      elim (inv.covered i (rw (inv.handed_out shut) below)) [
        | inl done ↦ done
        | inr h ↦ absurd (cc (h, none_held s.workers i gone))
      ]
