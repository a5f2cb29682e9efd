-- ===== src/Driver/Inputs/Permission.antt =====
-- What holds of the submission of input reports in every interleaving.
use plank_libvirtualhid.Common.{
  ℕ, suc, ◌+◌, ◌≤◌, ◌≡◌, refl, Bool, true, false, not, ◌&&◌, ◌||◌, Option, none, some, List, [],
  ◌∷◌, length, if◌then◌else◌, arith,
}
use plank_libvirtualhid.Vhf.{Report, VhfInputReportQueue, pop, empty}
use plank_libvirtualhid.Vhf.Bounded.{pop-none}
use plank_libvirtualhid.Driver.Inputs.{
  InputState, begin_submission, prepare_vhf_input_submission, end_submission,
  queue_vhf_input_report, ready_for_next_read_report, shut_down, World, without, has, handed_over,
  going_on, Step, queues, readies, prepares, answers, shuts_down, deletes, forgets,
  forget_in_flight, Reach, here, next, started,
}

-- VHF may be given a report now.
abbrev pub may_submit : InputState → Bool
may_submit s = not s.shutting_down && s.vhf_open && s.vhf_ready_for_input_report

pub record IsOrderly (w : World) : Type 0 where
  -- Each permission of VHF is used at most once, and one that is left shows in the flag.
  pub permitted :
      w.submissions + (if w.device.vhf_ready_for_input_report then 1 else 0) ≤ w.permissions
  -- The counter that the deletion waits for counts the reports in VHF's hands.
  pub counted : w.device.active_input_submissions ≡ length w.submitting
  -- A device that is going away has no handle and no permission.
  pub closed : w.device.shutting_down ≡ true → w.device.vhf_open ≡ false
  pub refused : w.device.shutting_down ≡ true → w.device.vhf_ready_for_input_report ≡ false
  -- The handle is deleted only when VHF has no report, and gets none afterwards.
  pub after_delete : w.deleted ≡ true → (w.device.shutting_down ≡ true) × (w.submitting ≡ [])
  -- A report that could be submitted has a thread that will submit it.
  pub served :
      w.callers ≡ 0 → may_submit w.device ≡ true → empty w.device.pending_input_reports ≡ true

length-without : (i : ℕ) (is : List ℕ) → has i is ≡ true → length is ≡ suc (length (without i is))
length-without i [] h = cc
length-without i (j ∷ js) h = ground (arith, length-without i js)

queues-IsOrderly :
    (w : World) (report : Report)
    → IsOrderly w
    → IsOrderly (going_on w 0 (queue_vhf_input_report report w.device))
unfolding queue_vhf_input_report
queues-IsOrderly w report v =
    ground (arith, v.permitted, v.counted, v.closed, v.refused, v.after_delete, v.served)

readies-IsOrderly :
    (w : World) → IsOrderly w → IsOrderly (going_on w 1 (ready_for_next_read_report w.device))
unfolding ready_for_next_read_report
readies-IsOrderly w v =
    ground (arith, v.permitted, v.counted, v.closed, v.refused, v.after_delete, v.served)

answers-IsOrderly :
    (w : World) (i : ℕ) (accepted : Bool)
    → has i w.submitting ≡ true
    → IsOrderly w
    → IsOrderly (record w {
      device = end_submission i accepted w.device;
      submitting = without i w.submitting;
    })
unfolding end_submission
answers-IsOrderly w i accepted h v = ground (
  arith,
  v.permitted,
  v.counted,
  v.closed,
  v.refused,
  v.after_delete,
  v.served,
  length-without i w.submitting h,
)

shuts_down-IsOrderly :
    (w : World) → IsOrderly w → IsOrderly (record w { device = shut_down w.device })
unfolding shut_down
shuts_down-IsOrderly w v =
    ground (arith, v.permitted, v.counted, v.closed, v.refused, v.after_delete, v.served)

deletes-IsOrderly :
    (w : World)
    → w.device.shutting_down ≡ true
    → w.device.active_input_submissions ≡ 0
    → IsOrderly w
    → IsOrderly (record w { deleted = true })
deletes-IsOrderly w s a v =
    ground (arith, v.permitted, v.counted, v.closed, v.refused, v.after_delete, v.served)

forgets-IsOrderly :
    (w : World) → IsOrderly w → IsOrderly (record w { device = forget_in_flight w.device })
unfolding forget_in_flight
forgets-IsOrderly w v =
    ground (arith, v.permitted, v.counted, v.closed, v.refused, v.after_delete, v.served)

begin_submission-IsOrderly :
    (w : World) (others : ℕ) (taken : Option Report × VhfInputReportQueue)
    → w.callers ≡ suc others
    → may_submit w.device ≡ true
    → (taken.0 ≡ none → empty taken.1 ≡ true)
    → IsOrderly w
    → IsOrderly (handed_over (record w { callers = others }) (begin_submission w.device taken))
unfolding begin_submission
begin_submission-IsOrderly w others (none, q) c m e v =
    ground (arith, v.permitted, v.counted, v.closed, v.refused, v.after_delete, v.served, e refl)
begin_submission-IsOrderly w others (some report, q) c m e v =
    ground (arith, v.permitted, v.counted, v.closed, v.refused, v.after_delete, v.served)

-- The test of a preparation, whose outcome `refuses` is, before what it does when it goes on.
guarded-IsOrderly :
    (w : World) (others : ℕ) (refuses : Bool) (begun : Option (ℕ × Report) × InputState)
    → refuses ≡ not (may_submit w.device)
    → (may_submit w.device ≡ true → IsOrderly (handed_over (record w { callers = others }) begun))
    → IsOrderly w
    → IsOrderly
        (handed_over (record w { callers = others }) (if refuses then (none, w.device) else begun))
guarded-IsOrderly w others true begun r on v =
    ground (arith, v.permitted, v.counted, v.closed, v.refused, v.after_delete, v.served)
guarded-IsOrderly w others false begun r on v = on (ground arith)

prepares-IsOrderly :
    (w : World) (others : ℕ)
    → w.callers ≡ suc others
    → IsOrderly w
    → IsOrderly
        (handed_over (record w { callers = others }) (prepare_vhf_input_submission w.device))
unfolding prepare_vhf_input_submission
prepares-IsOrderly w others c v =
    guarded-IsOrderly w others
      (w.device.shutting_down || not w.device.vhf_open || not w.device.vhf_ready_for_input_report)
      (begin_submission w.device (pop w.device.pending_input_reports)) (ground arith)
      (λ m.
        begin_submission-IsOrderly w others (pop w.device.pending_input_reports) c m
          (pop-none w.device.pending_input_reports) v)
      v

Step-IsOrderly : {w v : World} → Step w v → IsOrderly w → IsOrderly v
Step-IsOrderly {w} (queues report) o = queues-IsOrderly w report o
Step-IsOrderly {w} readies o = readies-IsOrderly w o
Step-IsOrderly {w} (prepares others c) o = prepares-IsOrderly w others c o
Step-IsOrderly {w} (answers i accepted h) o = answers-IsOrderly w i accepted h o
Step-IsOrderly {w} shuts_down o = shuts_down-IsOrderly w o
Step-IsOrderly {w} (deletes s a) o = deletes-IsOrderly w s a o
Step-IsOrderly {w} (forgets d) o = forgets-IsOrderly w o

started-IsOrderly : (q : VhfInputReportQueue) → IsOrderly (started q)
started-IsOrderly q = ground arith

-- In every interleaving from the start of a device: VHF is given no more reports than it has
-- permitted; the counter of active submissions is the number of reports it holds; once the handle
-- is deleted it holds none and the device is closed; and whenever VHF could take a report and no
-- thread is on its way to submit one, the queue is empty.
pub Reach-IsOrderly : (q : VhfInputReportQueue) (w : World) → Reach (started q) w → IsOrderly w
Reach-IsOrderly q w here = started-IsOrderly q
Reach-IsOrderly q w (next {w = u} before step) = Step-IsOrderly step (Reach-IsOrderly q u before)
