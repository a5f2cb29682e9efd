-- ===== src/Vhf/Bounded.antt =====
-- The bound of `VhfInputReportQueue`, and what a push may drop to keep it.
use plank_libvirtualhid.Common.{
  ℕ, ◌≤◌, ◌<◌, ◌≡◌, List, [], ◌∷◌, ◌++◌, length, tail, last?, none, some, true, arith,
  length-append, length-set_last, last?-append, last?-set_last, if◌then◌else◌,
}
use plank_libvirtualhid.Vhf.{
  Report, VhfInputReportQueue, max_pending, create, size, is_protocol_report, make_room,
  supersedes_back, append_protocol, append_report, push, pop, pop_report, empty, clear,
}

pub data Op : Type 0 where
  pushes : Report → Op
  pops clears : Op

unfoldable pub step : VhfInputReportQueue → Op → VhfInputReportQueue
step q (pushes r) = push q r
step q pops = (pop q).1
step q clears = clear q

unfoldable pub run : VhfInputReportQueue → List Op → VhfInputReportQueue
run q [] = q
run q (op ∷ ops) = run (step q op) ops

make_room-lt : (q : VhfInputReportQueue) → size q ≤ max_pending → size (make_room q) < max_pending
unfolding make_room size
make_room-lt q h = ground arith

push-le :
    (q : VhfInputReportQueue) (r : Report) → size q ≤ max_pending → size (push q r) ≤ max_pending
unfolding push append_protocol append_report size
push-le q r h = ground (
  arith,
  make_room-lt q h,
  length-append (make_room q).protocol_reports (r ∷ []),
  length-append (make_room q).reports (r ∷ []),
  length-set_last q.reports r,
)

pop-le : (q : VhfInputReportQueue) → size (pop q).1 ≤ size q
unfolding pop size
pop-le q = ground arith

-- A pop that gives nothing has found nothing.
pub pop-none : (q : VhfInputReportQueue) → (pop q).0 ≡ none → empty (pop q).1 ≡ true
unfolding pop pop_report empty
pop-none q h = ground arith

step-le :
    (q : VhfInputReportQueue) (op : Op) → size q ≤ max_pending → size (step q op) ≤ max_pending
unfolding step clear size
step-le q (pushes r) h = push-le q r h
step-le q pops h = omega (arith, pop-le q)
step-le q clears h = omega arith

run-le :
    (q : VhfInputReportQueue) (ops : List Op)
    → size q ≤ max_pending
    → size (run q ops) ≤ max_pending
unfolding run
run-le q [] h = h
run-le q (op ∷ ops) h = run-le (step q op) ops (step-le q op h)

-- After any history of pushes, pops and clears on a new queue, at most 32 reports are pending.
pub run-create-le :
    (kind bus id : ℕ) (ops : List Op) → size (run (create kind bus id) ops) ≤ max_pending
unfolding create size
run-create-le kind bus id ops = run-le _ ops (omega arith)

-- Within the bound, a push never drops a protocol report while fewer than 32 of those are pending:
-- the protocol lane keeps its reports in order, with a pushed protocol report behind them. The
-- pushed report itself is the last of its lane afterwards.
pub push_keeps :
    (q : VhfInputReportQueue) (r : Report)
    → length q.protocol_reports < max_pending
    → ((push q r).protocol_reports
        ≡ (if is_protocol_report q r then q.protocol_reports ++ r ∷ [] else q.protocol_reports))
      × (last? (if is_protocol_report q r then (push q r).protocol_reports else (push q r).reports)
          ≡ some r)
unfolding push append_protocol append_report make_room size supersedes_back
push_keeps q r h = ground (
  arith,
  last?-append q.protocol_reports r,
  last?-append q.reports r,
  last?-append (tail q.reports) r,
  last?-set_last q.reports r,
)
