-- ===== src/Scanner/Pool/Progress.antt =====
-- The pool comes to an end: each move of a worker that has not returned uses up work.
use qa_lab.Base.{
  ℕ, zero, suc, List, [], ◌∷◌, Bool, true, false, Option, none, some, ◌≡◌, refl, arith, length, ◌<◌,
  ◌≤◌, ◌*◌, ◌-◌, ◌+◌, ltb, Bool-cases, inl, inr, if◌then◌else◌, ◌↔◌,
}
use qa_lab.Scanner.Pool.{
  Pool, Worker, ready, finished, running, start, take_next, store, move, step, run, all_finished,
  is_finished, worker_count,
}
use qa_lab.Scanner.Pool.Cells.{get, set, repeat}

-- The moves that a worker has before it without another item.
abbrev moves_of : Worker → ℕ
moves_of finished = 0
moves_of ready = 1
moves_of (running i) = 2

unfoldable pub moves_left : List Worker → ℕ
moves_left [] = 0
moves_left (w ∷ ws) = moves_of w + moves_left ws

moves_left-set :
    (w : ℕ) (x y : Worker) (ws : List Worker)
    → get w ws ≡ some x
    → moves_left (set w y ws) + moves_of x ≡ moves_left ws + moves_of y
unfolding moves_left
moves_left-set w x y [] h = absurd (cc)
moves_left-set zero x y (z ∷ ws) h = ground (arith, h)
moves_left-set (suc w) x y (z ∷ ws) h = omega (arith, moves_left-set w x y ws h)

moves_left-finished : (ws : List Worker) → (moves_left ws ≡ 0) ↔ (all_finished ws ≡ true)
unfolding moves_left all_finished
moves_left-finished [] = (λ h. refl, λ h. refl)
moves_left-finished (ready ∷ ws) = (λ h. absurd (omega (arith, h)), λ h. absurd (cc h))
moves_left-finished (running i ∷ ws) = (λ h. absurd (omega (arith, h)), λ h. absurd (cc h))
moves_left-finished (finished ∷ ws) =
    let ih = moves_left-finished ws in
    (λ h. ih.0 (omega (arith, h)), λ h. let e = ih.1 h in omega (arith, e))

-- The worker is there and has not returned.
abbrev pub can_move : Option Worker → Bool
can_move none = false
can_move (some w) = if is_finished w then false else true

module _ {A B : Type 0} (mapper : A → ℕ → B) (items : List A) where
  unfoldable pub work : Pool B → ℕ
  work p = 2 * (length items - p.next_index) + moves_left p.workers

  -- Each move of the schedule is one that its worker can make.
  unfoldable pub Effective : List ℕ → Pool B → Type 0
  Effective [] p = Unit
  Effective (w ∷ schedule) p =
      (can_move (get w p.workers) ≡ true) × Effective schedule (step mapper items w p)

  work-move :
      (w : ℕ) (o : Option Worker) (p : Pool B)
      → get w p.workers ≡ o
      → can_move o ≡ true
      → work (move mapper items w o p) + 1 ≡ work p
  unfolding work move take_next store
  work-move w none p e c = absurd (cc c)
  work-move w (some finished) p e c = absurd (cc c)
  work-move w (some (running i)) p e c =
      omega (arith, moves_left-set w (running i) ready p.workers e)
  work-move w (some ready) p e c = elim (Bool-cases (ltb p.next_index (length items))) [
    | inl more ↦
        let lt : p.next_index < length items = ground (arith, more) in
        rw more (omega (arith, moves_left-set w ready (running p.next_index) p.workers e, lt))
    | inr n ↦ rw n (omega (arith, moves_left-set w ready finished p.workers e))
  ]

  work-run :
      (schedule : List ℕ) (p : Pool B)
      → Effective schedule p
      → length schedule + work (run mapper items schedule p) ≡ work p
  unfolding run step Effective
  work-run [] p h = omega arith
  work-run (w ∷ schedule) p h = omega (
    arith,
    work-run schedule (step mapper items w p) h.1,
    work-move w (get w p.workers) p refl h.0,
  )

  moves_left-repeat : (n : ℕ) → moves_left (repeat ready n) ≡ n
  unfolding moves_left
  moves_left-repeat zero = refl
  moves_left-repeat (suc n) = omega (arith, moves_left-repeat n)

  work-start :
      (limit : ℕ)
      → work (start mapper items limit) ≡ 2 * length items + worker_count limit (length items)
  unfolding work start
  work-start limit = omega (arith, moves_left-repeat (worker_count limit (length items)))

  -- A schedule that moves only workers that have not returned has at most two moves for each item
  -- and one for each worker, and after just that many moves all workers have returned.
  pub run-ends :
      (limit : ℕ) (schedule : List ℕ)
      → Effective schedule (start mapper items limit)
      → (length schedule ≤ 2 * length items + worker_count limit (length items))
        × ((length schedule ≡ 2 * length items + worker_count limit (length items))
            → all_finished ((run mapper items schedule (start mapper items limit)).workers) ≡ true)
  run-ends limit schedule h =
      let p = run mapper items schedule (start mapper items limit) in
      let w = work-run schedule (start mapper items limit) h in
      let s = work-start limit in
      (
        omega (arith, w, s),
        λ e.
            let z : moves_left p.workers ≡ 0 = unfold work in omega (arith, w, s, e) in
            (moves_left-finished p.workers).0 z,
      )
