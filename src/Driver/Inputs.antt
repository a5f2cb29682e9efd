-- ===== src/Driver/Inputs.antt =====
-- The submission of input reports to VHF in src/platform/windows/driver/libvirtualhid_umdf.cpp.
-- The callbacks run on several threads, and a device's mutex makes each locked block one step. A
-- thread stands between two of its blocks in two places: before its call of
-- `submit_next_vhf_input_report`, and inside it, while VHF has the report.
pub mod Permission
use plank_libvirtualhid.Common.{
  ℕ, zero, suc, ◌+◌, ◌-◌, ◌≡◌, Bool, true, false, not, ◌&&◌, ◌||◌, Option, none, some, List, [],
  ◌∷◌, ◌==◌, if◌then◌else◌,
}
use plank_libvirtualhid.Vhf.{Report, VhfInputReportQueue, push, pop}
use plank_libvirtualhid.Vhf

-- The fields of `DeviceRecord` that the mutex guards. `vhf_open` says that `vhf_handle` is not
-- null. A report that is handed to VHF is known by the number of its allocation, `allocations`
-- being the next one, which stands for the address that the code compares.
pub record InputState : Type 0 where
  pub pending_input_reports : VhfInputReportQueue
  pub in_flight_input_report : Option ℕ
  pub active_input_submissions : ℕ
  pub vhf_open : Bool
  pub vhf_ready_for_input_report : Bool
  pub shutting_down : Bool
  pub allocations : ℕ

-- `prepare_vhf_input_submission` after its first test: what `pop` gives decides.
unfoldable pub begin_submission :
    InputState → Option Report × VhfInputReportQueue → Option (ℕ × Report) × InputState
begin_submission s (none, q) = (none, record s { pending_input_reports = q })
begin_submission s (some report, q) = (
  some (s.allocations, report),
  record s {
    pending_input_reports = q;
    vhf_ready_for_input_report = false;
    in_flight_input_report = some s.allocations;
    active_input_submissions = s.active_input_submissions + 1;
    allocations = s.allocations + 1;
  },
)

unfoldable pub prepare_vhf_input_submission : InputState → Option (ℕ × Report) × InputState
prepare_vhf_input_submission s =
    if s.shutting_down || not s.vhf_open || not s.vhf_ready_for_input_report
    then (none, s)
    else begin_submission s (pop s.pending_input_reports)

abbrev pub is_report : ℕ → Option ℕ → Bool
is_report i none = false
is_report i (some j) = i == j

-- The second block of `submit_next_vhf_input_report`, after VHF has answered.
unfoldable pub end_submission : ℕ → Bool → InputState → InputState
end_submission i accepted s = record s {
  active_input_submissions = s.active_input_submissions - 1;
  in_flight_input_report =
      if not accepted && is_report i s.in_flight_input_report
      then none
      else s.in_flight_input_report;
}

-- The first block of `queue_vhf_input_report`; it fails once the device is going away.
unfoldable pub queue_vhf_input_report : Report → InputState → Bool × InputState
queue_vhf_input_report report s =
    if s.shutting_down || not s.vhf_open
    then (false, s)
    else (true, record s { pending_input_reports = push s.pending_input_reports report })

-- The block of `LvhEvtVhfReadyForNextReadReport`; the callback goes on if it gives true.
unfoldable pub ready_for_next_read_report : InputState → Bool × InputState
ready_for_next_read_report s =
    if s.shutting_down || not s.vhf_open
    then (false, s)
    else (true, record s { in_flight_input_report = none; vhf_ready_for_input_report = true })

-- The first block of `delete_vhf_device`, up to its wait.
unfoldable pub shut_down : InputState → InputState
shut_down s = record s {
  shutting_down = true;
  vhf_open = false;
  vhf_ready_for_input_report = false;
  pending_input_reports = Vhf.clear s.pending_input_reports;
}

-- The last block of `delete_vhf_device`, after `VhfDelete`.
unfoldable pub forget_in_flight : InputState → InputState
forget_in_flight s = record s { in_flight_input_report = none }

-- The device and the threads at work on it.
pub record World : Type 0 where
  pub device : InputState
  -- Threads about to call `submit_next_vhf_input_report`.
  pub callers : ℕ
  -- Reports that VHF has been given and has not answered for, by their allocations.
  pub submitting : List ℕ
  -- Calls of the ready callback that went on, and reports given to VHF, so far.
  pub permissions : ℕ
  pub submissions : ℕ
  -- `VhfDelete` has run.
  pub deleted : Bool

-- What is left of the reports in VHF's hands when one of them is answered for.
abbrev pub without : ℕ → List ℕ → List ℕ
without i [] = []
without i (j ∷ js) = if i == j then js else j ∷ without i js

abbrev pub has : ℕ → List ℕ → Bool
has i [] = false
has i (j ∷ js) = i == j || has i js

-- A prepared submission is in VHF's hands.
abbrev pub handed_over : World → Option (ℕ × Report) × InputState → World
handed_over w (none, d) = record w { device = d }
handed_over w (some (i, report), d) = record w {
  device = d;
  submitting = i ∷ w.submitting;
  submissions = w.submissions + 1;
}

-- A call that goes on to `submit_next_vhf_input_report`, with what it counts as a permission.
abbrev pub going_on : World → ℕ → Bool × InputState → World
going_on w granted (goes_on, d) = record w {
  device = d;
  callers = if goes_on then w.callers + 1 else w.callers;
  permissions = if goes_on then w.permissions + granted else w.permissions;
}

-- The threads' steps, in any order.
pub data Step (w : World) : World → Type 0 where
  queues : (report : Report) → Step w (going_on w 0 (queue_vhf_input_report report w.device))
  readies : Step w (going_on w 1 (ready_for_next_read_report w.device))
  prepares :
      (others : ℕ)
      → w.callers ≡ suc others
      → Step w (handed_over (record w { callers = others }) (prepare_vhf_input_submission w.device))
  answers :
      (i : ℕ) (accepted : Bool)
      → has i w.submitting ≡ true
      → Step w (record w {
        device = end_submission i accepted w.device;
        submitting = without i w.submitting;
      })
  shuts_down : Step w (record w { device = shut_down w.device })
  -- The wait is over once no submission is active, and the handle is deleted.
  deletes :
      w.device.shutting_down ≡ true
      → w.device.active_input_submissions ≡ 0
      → Step w (record w { deleted = true })
  forgets : w.deleted ≡ true → Step w (record w { device = forget_in_flight w.device })

pub data Reach (start : World) : World → Type 0 where
  here : Reach start start
  next : {w v : World} → Reach start w → Step w v → Reach start v

-- A device that VHF has just started.
abbrev pub started : VhfInputReportQueue → World
started q = record {
  device = record {
    pending_input_reports = q;
    in_flight_input_report = none;
    active_input_submissions = 0;
    vhf_open = true;
    vhf_ready_for_input_report = false;
    shutting_down = false;
    allocations = 0;
  };
  callers = 0;
  submitting = [];
  permissions = 0;
  submissions = 0;
  deleted = false;
}
