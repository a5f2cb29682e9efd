-- ===== src/Driver/Tests.antt =====
-- Runs of the UMDF driver's definitions, src/platform/windows/driver/libvirtualhid_umdf.cpp.
use plank_libvirtualhid.Driver.Sessions.{
  Session, VhfAnswers, no_sessions, creates, destroys, cleans_file,
}
use plank_libvirtualhid.Driver.Sessions
use plank_libvirtualhid.Driver.Sessions.Table.{run-no_sessions}
use plank_libvirtualhid.Driver.Sessions.Creation.{IsTabled}
use plank_libvirtualhid.Common.{
  ℕ, ◌+◌, ◌≡◌, ◌⊎◌, refl, arith, true, false, none, List, [], ◌∷◌, ◌==◌, if◌then◌else◌,
}
use plank_libvirtualhid.Protocol.{gamepad_generic}
use plank_libvirtualhid.Vhf.{VhfInputReportQueue, create}
use plank_libvirtualhid.Driver.Inputs.{
  World, queue_vhf_input_report, ready_for_next_read_report, prepare_vhf_input_submission, going_on,
  handed_over, here, next, queues, readies, prepares, started,
}
use plank_libvirtualhid.Driver.Outputs.{
  OutputState, no_outputs, Op, queues, reads, cancels, run, queue_output_event,
  output_read_canceled, find_pending,
}
use plank_libvirtualhid.Driver.Outputs.Once.{
  count_pending, count_completed, times_read, run-no_outputs,
}
use plank_libvirtualhid.Driver.Outputs.Channel.{channel, sent, waiting}
use plank_libvirtualhid.Driver.Outputs.Order.{channel-run}
use plank_libvirtualhid.Driver.Outputs.Cancel.{canceled-queue_output_event}
use plank_libvirtualhid.Driver.Inputs.Permission.{IsOrderly, Reach-IsOrderly}

abbrev fresh : VhfInputReportQueue
fresh = create gamepad_generic 0 1

abbrev queued : World
unfolding queue_vhf_input_report
queued = going_on (started fresh) 0 (queue_vhf_input_report (1 ∷ 5 ∷ []) (started fresh).device)

abbrev permitted_once : World
unfolding ready_for_next_read_report
permitted_once = going_on queued 1 (ready_for_next_read_report queued.device)

abbrev submitted : World
submitted =
    handed_over (record permitted_once { callers = 1 })
      (prepare_vhf_input_submission permitted_once.device)

Reach-IsOrderly_example : IsOrderly submitted
unfolding queue_vhf_input_report ready_for_next_read_report
Reach-IsOrderly_example =
    Reach-IsOrderly fresh submitted
      (next (next (next here (queues (1 ∷ 5 ∷ []))) readies) (prepares 1 refl))

-- Two files: an event is kept for file 7 until it is read, and a request of file 8 waits.
abbrev traffic : List Op
traffic =
    queues 7 (1 ∷ 2 ∷ []) true true
    ∷ reads 20 8 true true
    ∷ queues 7 (3 ∷ []) true true
    ∷ reads 21 7 true true
    ∷ cancels 20
    ∷ []

abbrev file_of : ℕ → ℕ
file_of r = if r == 20 then 8 else 7

run-no_outputs_example :
    count_pending 20 (run traffic no_outputs).pending_output_requests
      + count_completed 20 (run traffic no_outputs).completed
    ≡ times_read 20 traffic
run-no_outputs_example = run-no_outputs 20 traffic (refl, (tt, (refl, (tt, (tt, tt)))))

channel-run_example :
    (channel file_of 7 (run traffic no_outputs) ≡ sent 7 traffic)
    × ((find_pending 7 (run traffic no_outputs).pending_output_requests ≡ none)
        ⊎ (waiting 7 (run traffic no_outputs).buffered_output_events ≡ []))
channel-run_example =
    channel-run file_of 7 traffic
      ((refl, refl), ((refl, refl), ((refl, refl), ((refl, refl), (tt, tt)))))

abbrev one_reader : OutputState
one_reader = record no_outputs {
  pending_output_requests = record { request = 21; owner_file = 7 } ∷ [];
}

canceled-queue_output_event_example :
    ((output_read_canceled 21 (queue_output_event 7 (5 ∷ []) false true one_reader)).completed
      ≡ one_reader.completed)
    × (count_pending 21
          (output_read_canceled 21
            (queue_output_event 7 (5 ∷ []) false true one_reader)).pending_output_requests
        ≡ 0)
unfolding find_pending
canceled-queue_output_event_example =
    canceled-queue_output_event 7 21 (5 ∷ []) true one_reader refl refl

-- Two devices of one file; one is destroyed, the other goes with its file.
abbrev works : VhfAnswers
works = record {
  target_created = true;
  target_opened = true;
  vhf_created = true;
  vhf_started = true;
}

abbrev session_of : ℕ → Session
session_of token = record {
  owner_device = 1;
  owner_file = 7;
  session_token = token ∷ [];
  vhf_handle = false;
  vhf_io_target = false;
}

-- The second device cannot be started.
abbrev session_life : List Sessions.Op
session_life =
    creates true true true true works (session_of 5)
    ∷ creates true true true true (record works { vhf_started = false }) (session_of 6)
    ∷ creates true true true true works (session_of 8)
    ∷ destroys true true true 1 (5 ∷ [])
    ∷ cleans_file 7
    ∷ []

run-no_sessions_example : IsTabled (Sessions.run session_life no_sessions)
run-no_sessions_example = run-no_sessions session_life (omega arith)
