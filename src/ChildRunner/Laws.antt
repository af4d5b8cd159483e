-- ===== src/ChildRunner/Laws.antt =====
-- When the promise of a child run settles, and with what.
use qa_lab.Base.{
  subst, sym, ℕ, zero, suc, ◌≡◌, refl, ◌⊎◌, inl, inr, false, List, [], ◌∷◌, Option, none, some,
  arith, ◌==◌, if◌then◌else◌,
}
use qa_lab.ChildRunner.{
  Event, timeout, message, error, exit, Runner, Settlement, rejected, timed_out, exited,
  child_error, initial, answer, handle, drive,
}

handle-settled :
    (e : Event) (r : Runner) {v : Settlement} → r.settled ≡ some v → (handle e r).settled ≡ some v
unfolding handle
handle-settled timeout r h = ground arith
handle-settled (message m) r h = ground arith
handle-settled (error text) r h = ground arith
handle-settled (exit none) r h = h
handle-settled (exit (some code)) r h = ground arith

-- A child run whose promise has settled keeps that settlement, whatever events come later.
drive-settled :
    (es : List Event) (r : Runner) {v : Settlement}
    → r.settled ≡ some v
    → (drive es r).settled ≡ some v
unfolding drive
drive-settled [] r h = h
drive-settled (e ∷ es) r h = drive-settled es (handle e r) (handle-settled e r h)

-- The settlement that an event brings to a promise that is still open with its timer running.
abbrev pub brings : Event → Option Settlement
brings timeout = some (rejected timed_out)
brings (message m) = some (answer m)
brings (error text) = some (rejected (child_error text))
brings (exit none) = none
brings (exit (some code)) = if code == 0 then none else some (rejected (exited code))

-- If the first event of a child run brings a settlement (a time-out, a message, an error, or an
-- exit with a code other than 0), that is the outcome, whatever comes later.
drive-first :
    (e : Event) (es : List Event) {v : Settlement}
    → brings e ≡ some v
    → (drive (e ∷ es) initial).settled ≡ some v
unfolding drive initial
drive-first e es h = drive-settled es (handle e initial) (first e h)
  where
    first : (e : Event) {v : Settlement} → brings e ≡ some v → (handle e initial).settled ≡ some v
    first timeout h = h
    first (message m) h = h
    first (error text) h = h
    first (exit none) h = cc
    first (exit (some code)) h = ground arith

-- Only timer ticks: all that can still come from a child that has exited.
abbrev pub ticks : ℕ → List Event
ticks zero = []
ticks (suc n) = timeout ∷ ticks n

-- The child exits without a code (killed by a signal) or with code 0, and has sent no message.
abbrev pub IsSilent : Option ℕ → Type 0
IsSilent code = (code ≡ none) ⊎ (code ≡ some 0)

ignored : (r : Runner) → r.timer ≡ false → handle timeout r ≡ r
unfolding handle
ignored r h = ground (arith, h)

drive-ticks : (n : ℕ) (r : Runner) → r.timer ≡ false → (drive (ticks n) r).settled ≡ r.settled
unfolding drive
drive-ticks zero r h = refl
drive-ticks (suc n) r h =
    subst (λ x. (drive (ticks n) x).settled ≡ r.settled) (sym (ignored r h)) (drive-ticks n r h)

-- If the child exits without a code or with code 0, before any other event, the promise stays open
-- however many ticks of the timer follow.
pub silent_exit_hangs :
    (code : Option ℕ) (n : ℕ) → IsSilent code → (drive (exit code ∷ ticks n) initial).settled ≡ none
unfolding drive initial
silent_exit_hangs none n h = drive-ticks n (handle (exit none) initial) refl
silent_exit_hangs (some code) n (inl e) = cc
silent_exit_hangs (some code) n (inr e) = rw e (drive-ticks n (handle (exit (some 0)) initial) refl)
