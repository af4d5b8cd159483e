-- ===== src/ChildRunner.antt =====
-- `runScanInChild` (qa-lab-backend/src/scans/scan-child-runner.ts) as a machine that is driven by
-- the events of the child process and of the timer.
pub mod Laws
use qa_lab.Base.{
  ℕ, Bool, true, false, List, [], ◌∷◌, Option, none, some, Text, ◌==◌, ◌||◌, if◌then◌else◌, is_some,
  or_default,
}
use qa_lab.Worker.{ScanResult, ResultStatus, failed}

pub data Failure : Type 0 where
  timed_out child_failed : Failure
  child_error : Text → Failure
  exited : ℕ → Failure

pub data Settlement : Type 0 where
  resolved : ScanResult → Settlement
  rejected : Failure → Settlement

-- `msg`: its `ok`, `result` and `error`.
pub record Message : Type 0 where
  pub ok_flag : Option Bool
  pub result : Option ScanResult
  pub error : Option Text

-- An exit carries its code; a child that a signal killed has none.
pub data Event : Type 0 where
  timeout : Event
  message : Message → Event
  error : Text → Event
  exit : Option ℕ → Event

pub record Runner : Type 0 where
  pub timer : Bool
  pub killed : Bool
  pub settled : Option Settlement

pub initial : Runner
initial = record { timer = true; killed = false; settled = none }

-- A promise settles once.
abbrev pub settle : Settlement → Runner → Runner
settle v r = record r { settled = if is_some r.settled then r.settled else some v }

abbrev pub clear_timer : Runner → Runner
clear_timer r = record r { timer = false }

-- `msg.error` is truthy: present and not empty.
abbrev pub error_text : Option Text → Option Text
error_text none = none
error_text (some []) = none
error_text (some (c ∷ s)) = some (c ∷ s)

abbrev pub failed_result : ScanResult
failed_result = record {
  status = ResultStatus.failed;
  pages_scanned = none;
  error = none;
  overall_score = none;
  grade = none;
  findings = none;
}

abbrev pub is_false : Option Bool → Bool
is_false none = false
is_false (some b) = if b then false else true

pub answer : Message → Settlement
answer m = elim (error_text m.error) [
  | some text ↦ rejected (child_error text)
  | none ↦
      if is_false m.ok_flag
      then rejected child_failed
      else resolved (or_default m.result failed_result)
]

-- `code !== 0 && code !== null`
abbrev pub on_exit : Option ℕ → Runner → Runner
on_exit none r = r
on_exit (some code) r = if code == 0 then r else settle (rejected (exited code)) r

pub handle : Event → Runner → Runner
unfolding answer
handle timeout r =
    if r.timer then settle (rejected timed_out) (record r { timer = false; killed = true }) else r
handle (message m) r = settle (answer m) (clear_timer r)
handle (error text) r = settle (rejected (child_error text)) (clear_timer r)
handle (exit code) r = on_exit code (clear_timer r)

pub drive : List Event → Runner → Runner
unfolding handle
drive [] r = r
drive (e ∷ es) r = drive es (handle e r)
