-- ===== src/Scanner/Pool/Order.antt =====
-- The results of the pool stand in the order of its items, whatever the schedule.
use qa_lab.Base.{
  ℕ, zero, suc, List, [], ◌∷◌, true, Option, none, some, ◌≡◌, ◌≢◌, ◌⊎◌, inl, inr, refl, arith,
  length, or_default, ◌<◌, ◌≤◌, ap, sym, subst, ◌∙◌, ltb, ◌==◌, Bool-cases, if◌then◌else◌,
}
use qa_lab.Scanner.Pool.{
  Pool, Worker, ready, finished, running, start, take_next, store, move, step, run, mapped,
  all_finished, worker_count,
}
use qa_lab.Scanner.Pool.Cells.{
  get, set, repeat, length-set, length-repeat, get-set_same, get-set_other, get-length,
}

same_or_other : (i j : ℕ) → (i ≡ j) ⊎ (i ≢ j)
same_or_other i j = elim (Bool-cases (i == j)) [
  | inl e ↦ inl (ground (arith, e))
  | inr e ↦ inr (λ k. ground (arith, e, k))
]

-- How many workers are at an item.
unfoldable pub in_flight : List Worker → ℕ
in_flight [] = 0
in_flight (ready ∷ ws) = in_flight ws
in_flight (finished ∷ ws) = in_flight ws
in_flight (running i ∷ ws) = suc (in_flight ws)

in_flight_bound : (ws : List Worker) → in_flight ws ≤ length ws
unfolding in_flight
in_flight_bound [] = omega arith
in_flight_bound (ready ∷ ws) = omega (arith, in_flight_bound ws)
in_flight_bound (finished ∷ ws) = omega (arith, in_flight_bound ws)
in_flight_bound (running i ∷ ws) = omega (arith, in_flight_bound ws)

module _ {A B : Type 0} (mapper : A → ℕ → B) (items : List A) where
  -- The item's result is stored, or a worker is at it.
  Started : Pool B → ℕ → Type 0
  Started p i =
      (get i p.results ≡ some (mapped mapper items i (get i items)))
      ⊎ ((w : ℕ) × (get w p.workers ≡ some (running i)))

  record Ordered (p : Pool B) : Type 0 where
    bounded : p.next_index ≤ length items
    sized : length p.results ≡ length items
    started : (i : ℕ) → i < p.next_index → Started p i
    taken : (w i : ℕ) → get w p.workers ≡ some (running i) → i < p.next_index
    left : (w : ℕ) → get w p.workers ≡ some finished → p.next_index ≡ length items

  -- Another worker is where it was.
  elsewhere :
      (ws : List Worker) (w v : ℕ) (x y z : Worker)
      → get w ws ≡ some x
      → x ≢ y
      → get v ws ≡ some y
      → get v (set w z ws) ≡ some y
  elsewhere ws w v x y z h ne k = elim (same_or_other v w) [
    | inl e ↦ absurd (ne (ap (λ o. or_default o x) (sym h ∙ ap (λ u. get u ws) (sym e) ∙ k)))
    | inr e ↦ get-set_other v w z ws e ∙ k
  ]

  -- What a cell of the changed list holds.
  changed :
      (ws : List Worker) (w v : ℕ) (z y : Worker)
      → get v (set w z ws) ≡ some y
      → (z ≡ y) ⊎ (get v ws ≡ some y)
  changed ws w v z y k = elim (same_or_other v w) [
    | inl e ↦
        let k' = subst (λ u. get u (set w z ws) ≡ some y) e k in
        let inside : w < length ws =
          omega (arith, get-length w (set w z ws) y k', length-set w z ws) in
        inl (ap (λ o. or_default o z) (sym (get-set_same w z ws inside) ∙ k'))
    | inr e ↦ inr (sym (get-set_other v w z ws e) ∙ k)
  ]

  abbrev index_of : Worker → ℕ
  index_of ready = 0
  index_of finished = 0
  index_of (running i) = i

  take_next-Ordered :
      (w : ℕ) (p : Pool B)
      → get w p.workers ≡ some ready
      → Ordered p
      → Ordered (take_next mapper items w p)
  unfolding take_next Started
  take_next-Ordered w p r h =
      let k = p.next_index in
      elim (Bool-cases (ltb k (length items))) [
        | inl more ↦ rw more (record {
          bounded = ground (arith, more);
          sized = h.sized;
          started = λ i lt. elim (same_or_other i k) [
            | inl e ↦ inr (
              w,
              get-set_same w (running k) p.workers (get-length w p.workers ready r)
                  ∙ ap (λ j. some (running j)) (sym e),
            )
            | inr e ↦ elim (h.started i (omega (arith, lt, e))) [
              | inl done ↦ inl done
              | inr (v, at) ↦
                  inr (v, elsewhere p.workers w v ready (running i) (running k) r (λ x. cc x) at)
            ]
          ];
          taken = λ v i at. elim (changed p.workers w v (running k) (running i) at) [
            | inl e ↦ let q : k ≡ i = ap index_of e in omega (arith, q)
            | inr old ↦ omega (arith, h.taken v i old)
          ];
          left = λ v at. elim (changed p.workers w v (running k) finished at) [
            | inl e ↦ absurd (cc e)
            | inr old ↦ absurd (ground (arith, h.left v old, more))
          ];
        })
        | inr none_left ↦ rw none_left (record {
          bounded = h.bounded;
          sized = h.sized;
          started = λ i lt. elim (h.started i lt) [
            | inl done ↦ inl done
            | inr (v, at) ↦
                inr (v, elsewhere p.workers w v ready (running i) finished r (λ x. cc x) at)
          ];
          taken = λ v i at. elim (changed p.workers w v finished (running i) at) [
            | inl e ↦ absurd (cc e)
            | inr old ↦ h.taken v i old
          ];
          left = λ v at. ground (arith, h.bounded, none_left);
        })
      ]

  store-Ordered :
      (w i : ℕ) (p : Pool B)
      → get w p.workers ≡ some (running i)
      → Ordered p
      → Ordered (store mapper items w i p)
  unfolding store Started
  store-Ordered w i p r h =
      let value = mapped mapper items i (get i items) in
      record {
        bounded = h.bounded;
        sized = length-set i value p.results ∙ h.sized;
        started = λ j lt. elim (same_or_other j i) [
          | inl e ↦ inl (
              subst
                (λ m. get m (set i value p.results) ≡ some (mapped mapper items m (get m items)))
                (sym e)
                (get-set_same i value p.results (omega (arith, h.taken w i r, h.bounded, h.sized))))
          | inr e ↦ elim (h.started j lt) [
            | inl done ↦ inl (get-set_other j i value p.results e ∙ done)
            | inr (v, at) ↦ inr (
              v,
              elsewhere p.workers w v (running i) (running j) ready r (λ x. e (sym (ap index_of x)))
                  at,
            )
          ]
        ];
        taken = λ v j at. elim (changed p.workers w v ready (running j) at) [
          | inl e ↦ absurd (cc e)
          | inr old ↦ h.taken v j old
        ];
        left = λ v at. elim (changed p.workers w v ready finished at) [
          | inl e ↦ absurd (cc e)
          | inr old ↦ h.left v old
        ];
      }

  move-Ordered :
      (w : ℕ) (o : Option Worker) (p : Pool B)
      → get w p.workers ≡ o
      → Ordered p
      → Ordered (move mapper items w o p)
  unfolding move
  move-Ordered w none p e h = h
  move-Ordered w (some ready) p e h = take_next-Ordered w p e h
  move-Ordered w (some (running i)) p e h = store-Ordered w i p e h
  move-Ordered w (some finished) p e h = h

  run-Ordered : (schedule : List ℕ) (p : Pool B) → Ordered p → Ordered (run mapper items schedule p)
  unfolding run step
  run-Ordered [] p h = h
  run-Ordered (w ∷ schedule) p h =
      run-Ordered schedule (step mapper items w p) (move-Ordered w (get w p.workers) p refl h)

  all_ready : (n w : ℕ) (y : Worker) → get w (repeat ready n) ≡ some y → y ≡ ready
  all_ready zero w y h = absurd (cc)
  all_ready (suc n) zero y h = cc
  all_ready (suc n) (suc w) y h = all_ready n w y h

  start-Ordered : (limit : ℕ) → Ordered (start mapper items limit)
  unfolding start Started
  start-Ordered limit =
      let n = worker_count limit (length items) in
      record {
        bounded = omega arith;
        sized = length-repeat none (length items);
        started = λ i lt. absurd (omega (arith, lt));
        taken = λ w i at. absurd (cc (all_ready n w (running i) at));
        left = λ w at. absurd (cc (all_ready n w finished at));
      }

  -- Where all workers have returned, none is at an item, and if there is one, no item is left.
  not_running : (ws : List Worker) (w i : ℕ) → all_finished ws ≡ true → get w ws ≢ some (running i)
  unfolding all_finished
  not_running [] w i h k = cc
  not_running (x ∷ ws) zero i h k = ground (arith, h, k)
  not_running (x ∷ ws) (suc w) i h k = not_running ws w i (ground (arith, h)) k

  first_finished :
      (ws : List Worker) → all_finished ws ≡ true → 0 < length ws → get 0 ws ≡ some finished
  unfolding all_finished
  first_finished [] h k = absurd (omega (arith, k))
  first_finished (ready ∷ ws) h k = absurd (cc h)
  first_finished (running i ∷ ws) h k = absurd (cc h)
  first_finished (finished ∷ ws) h k = refl

  length-move :
      (w : ℕ) (o : Option Worker) (p : Pool B)
      → length (move mapper items w o p).workers ≡ length p.workers
  unfolding move take_next store
  length-move w none p = refl
  length-move w (some ready) p = elim (Bool-cases (ltb p.next_index (length items))) [
    | inl e ↦ rw e (length-set w (running p.next_index) p.workers)
    | inr e ↦ rw e (length-set w finished p.workers)
  ]
  length-move w (some (running i)) p = length-set w ready p.workers
  length-move w (some finished) p = refl

  workers-start : (limit : ℕ) → 0 < length (start mapper items limit).workers
  unfolding start worker_count
  workers-start limit = ground (arith, length-repeat ready (worker_count limit (length items)))

  workers-limit :
      (limit : ℕ) → length (start mapper items limit).workers ≤ (if ltb limit 1 then 1 else limit)
  unfolding start worker_count
  workers-limit limit = ground (arith, length-repeat ready (worker_count limit (length items)))

  length-step : (w : ℕ) (p : Pool B) → length (step mapper items w p).workers ≡ length p.workers
  unfolding step
  length-step w p = length-move w (get w p.workers) p

  length-run :
      (schedule : List ℕ) (p : Pool B)
      → length (run mapper items schedule p).workers ≡ length p.workers
  unfolding run
  length-run [] p = refl
  length-run (w ∷ schedule) p = length-run schedule (step mapper items w p) ∙ length-step w p

  -- For every limit and every schedule of the workers: when all workers have returned, there are
  -- as many results as items, and each place holds the mapper's result for the item of that place.
  pub run-map :
      (limit : ℕ) (schedule : List ℕ)
      → all_finished ((run mapper items schedule (start mapper items limit)).workers) ≡ true
      → (length ((run mapper items schedule (start mapper items limit)).results) ≡ length items)
        × ((i : ℕ)
            → i < length items
            → get i ((run mapper items schedule (start mapper items limit)).results)
              ≡ some (mapped mapper items i (get i items)))
  run-map limit schedule f =
      let p0 = start mapper items limit in
      let p = run mapper items schedule p0 in
      let h = run-Ordered schedule p0 (start-Ordered limit) in
      let some_worker : 0 < length p.workers =
        omega (arith, length-run schedule p0, workers-start limit) in
      let all_taken = h.left 0 (first_finished p.workers f some_worker) in
      (
        h.sized,
        λ i lt.
            unfold Started in
            elim (h.started i (omega (arith, lt, all_taken))) [
              | inl done ↦ done
              | inr (w, at) ↦ absurd (not_running p.workers w i f at)
            ],
      )

  -- How many items are being mapped.
  pub run-in_flight :
      (limit : ℕ) (schedule : List ℕ)
      → in_flight ((run mapper items schedule (start mapper items limit)).workers)
        ≤ (if ltb limit 1 then 1 else limit)
  run-in_flight limit schedule =
      let p0 = start mapper items limit in
      omega (
        arith,
        in_flight_bound ((run mapper items schedule p0).workers),
        length-run schedule p0,
        workers-limit limit,
      )
