-- ===== src/Vhf/Tests.antt =====
-- The queue's theorems at a generic gamepad with report id 1, and runs of the queue.
use plank_libvirtualhid.Common.{◌≤◌, ◌≡◌, refl, List, [], ◌∷◌, arith}
use plank_libvirtualhid.Vhf.{
  Report, create, size, is_protocol_report, same_discrete_state, push, pop, supersedes_back,
  make_room, append_protocol, append_report, discrete_offsets, equal_at?, equal_at,
}
use plank_libvirtualhid.Vhf.Bounded.{Op, pushes, pops, run, run-create-le}
use plank_libvirtualhid.Vhf.SameState.{Distinct, run-create-Distinct}
use plank_libvirtualhid.Vhf.Coalesce.{push_all, drain, drain-push_all}

-- Two reports with no button pressed and different axes, one with a button, a protocol report.
abbrev still : Report
still = 1 ∷ 0 ∷ 0 ∷ 128 ∷ []

abbrev moved : Report
moved = 1 ∷ 0 ∷ 0 ∷ 140 ∷ []

abbrev pressed : Report
pressed = 1 ∷ 4 ∷ 0 ∷ 140 ∷ []

abbrev reply : Report
reply = 0x12 ∷ 1 ∷ []

abbrev history : List Op
history = pushes still ∷ pushes moved ∷ pushes reply ∷ pops ∷ pushes pressed ∷ []

abbrev burst : List Report
burst = still ∷ moved ∷ reply ∷ pressed ∷ still ∷ []

drain-burst : drain 5 (push_all (create 0 1 1) burst) ≡ reply ∷ moved ∷ pressed ∷ still ∷ []
unfolding drain push_all create push pop is_protocol_report supersedes_back make_room size
    append_protocol append_report same_discrete_state discrete_offsets equal_at? equal_at
drain-burst = refl

run-create-le_example : size (run (create 0 1 1) history) ≤ 32
run-create-le_example = run-create-le 0 1 1 history

run-create-Distinct_example :
    Distinct (same_discrete_state (create 0 1 1)) (run (create 0 1 1) history).reports
run-create-Distinct_example = run-create-Distinct 0 1 1 history

drain-push_all_example :
    drain 4 (push_all (create 0 1 1) burst) ≡ reply ∷ moved ∷ pressed ∷ still ∷ []
unfolding create is_protocol_report same_discrete_state discrete_offsets equal_at? equal_at
drain-push_all_example = drain-push_all 0 1 1 burst (omega arith)
