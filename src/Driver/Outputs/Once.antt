-- ===== src/Driver/Outputs/Once.antt =====
-- Each read of an output report is answered once.
use plank_libvirtualhid.Common.{
  ℕ, ◌+◌, ◌≡◌, refl, Bool, true, false, Option, none, some, List, [], ◌∷◌, ◌++◌, ◌==◌,
  if◌then◌else◌, arith,
}
use plank_libvirtualhid.Driver.Outputs.{
  Event, PendingOutputRequest, Answer, delivered, cancelled, failed, Completion, OutputState,
  no_outputs, complete_request, has_request, erase_request, find_pending, erase_pending,
  remove_pending_output_request, complete_output_request, buffer_event, keep_unless_taken,
  erase_pending_of, erase_buffered, find_buffered, buffered_of_others, queue_for,
  queue_output_event, read_for, handle_read_output_report_request, complete_all,
  complete_pending_output_requests, pending_of, pending_of_others, cancel_output_requests_for_file,
  complete_if_removed, output_read_canceled, Op, queues, reads, cancels, cleans, stops, step, run,
}

abbrev pub count_pending : ℕ → List PendingOutputRequest → ℕ
count_pending r [] = 0
count_pending r (p ∷ ps) = (if p.request == r then 1 else 0) + count_pending r ps

abbrev pub count_completed : ℕ → List Completion → ℕ
count_completed r [] = 0
count_completed r (c ∷ cs) = (if c.request == r then 1 else 0) + count_completed r cs

-- How often a request waits or has been completed.
abbrev pub known : ℕ → OutputState → ℕ
known r s = count_pending r s.pending_output_requests + count_completed r s.completed

abbrev pub read_by : ℕ → Op → ℕ
read_by r (reads request file marked retrieved) = if request == r then 1 else 0
read_by r (queues file event unmarked retrieved) = 0
read_by r (cancels request) = 0
read_by r (cleans file unmarked) = 0
read_by r (stops unmarked) = 0

abbrev pub times_read : ℕ → List Op → ℕ
times_read r [] = 0
times_read r (op ∷ ops) = read_by r op + times_read r ops

-- No request that is about to be answered is being cancelled at that moment.
abbrev pub Unmarks : Op → Type 0
Unmarks (queues file event unmarked retrieved) = unmarked ≡ true
Unmarks (reads request file marked retrieved) = Unit
Unmarks (cancels request) = Unit
Unmarks (cleans file unmarked) = (r : ℕ) → unmarked r ≡ true
Unmarks (stops unmarked) = (r : ℕ) → unmarked r ≡ true

abbrev pub AllUnmark : List Op → Type 0
AllUnmark [] = Unit
AllUnmark (op ∷ ops) = Unmarks op × AllUnmark ops

count_pending-append :
    (r : ℕ) (ps qs : List PendingOutputRequest)
    → count_pending r (ps ++ qs) ≡ count_pending r ps + count_pending r qs
count_pending-append r [] qs = omega arith
count_pending-append r (p ∷ ps) qs = omega (arith, count_pending-append r ps qs)

count_completed-append :
    (r : ℕ) (cs ds : List Completion)
    → count_completed r (cs ++ ds) ≡ count_completed r cs + count_completed r ds
count_completed-append r [] ds = omega arith
count_completed-append r (c ∷ cs) ds = omega (arith, count_completed-append r cs ds)

known-complete_request :
    (r request : ℕ) (answer : Answer) (s : OutputState)
    → known r (complete_request request answer s) ≡ (if request == r then 1 else 0) + known r s
unfolding complete_request
known-complete_request r request answer s = omega (
  arith,
  count_completed-append r s.completed (record { request = request; answer = answer } ∷ []),
)

known-complete_all :
    (r : ℕ) (unmarked : ℕ → Bool) (ps : List PendingOutputRequest) (s : OutputState)
    → ((q : ℕ) → unmarked q ≡ true)
    → known r (complete_all unmarked ps s) ≡ count_pending r ps + known r s
unfolding complete_all
known-complete_all r unmarked [] s u = omega arith
known-complete_all r unmarked (p ∷ ps) s u = ground (
  arith,
  u p.request,
  known-complete_all r unmarked ps
      (if unmarked p.request then complete_request p.request cancelled s else s) u,
  known-complete_request r p.request cancelled s,
)

count_pending-pending_of :
    (r file : ℕ) (ps : List PendingOutputRequest)
    → count_pending r (pending_of file ps) + count_pending r (pending_of_others file ps)
      ≡ count_pending r ps
unfolding pending_of pending_of_others
count_pending-pending_of r file [] = refl
count_pending-pending_of r file (p ∷ ps) = ground (arith, count_pending-pending_of r file ps)

pub count_pending-erase_pending :
    (r file q : ℕ) (ps : List PendingOutputRequest)
    → find_pending file ps ≡ some q
    → count_pending r ps ≡ (if q == r then 1 else 0) + count_pending r (erase_pending file ps)
unfolding find_pending erase_pending
count_pending-erase_pending r file q [] h = cc
count_pending-erase_pending r file q (p ∷ ps) h =
    ground (arith, count_pending-erase_pending r file q ps)

count_pending-erase_request :
    (r q : ℕ) (ps : List PendingOutputRequest)
    → has_request q ps ≡ true
    → count_pending r ps ≡ (if q == r then 1 else 0) + count_pending r (erase_request q ps)
unfolding has_request erase_request
count_pending-erase_request r q [] h = cc
count_pending-erase_request r q (p ∷ ps) h = ground (arith, count_pending-erase_request r q ps)

complete_output_request-known :
    (r request : ℕ) (event : Event) (is_cancelable retrieved : Bool) (s : OutputState)
    → known r (complete_output_request request event is_cancelable true retrieved s).1
      ≡ (if request == r then 1 else 0) + known r s
unfolding complete_output_request
complete_output_request-known r request event is_cancelable retrieved s = ground (
  arith,
  known-complete_request r request failed s,
  known-complete_request r request (delivered event) s,
)

queue_for-known :
    (r file : ℕ) (event : Event) (retrieved : Bool) (o : Option ℕ) (s : OutputState)
    → find_pending file s.pending_output_requests ≡ o
    → known r (queue_for file event true retrieved o s) ≡ known r s
unfolding queue_for keep_unless_taken buffer_event complete_output_request erase_pending_of
queue_for-known r file event retrieved none s h = refl
queue_for-known r file event retrieved (some q) s h = ground (
  arith,
  count_pending-erase_pending r file q s.pending_output_requests h,
  known-complete_request r q failed (erase_pending_of file s),
  known-complete_request r q (delivered event) (erase_pending_of file s),
)

read_for-known :
    (r request file : ℕ) (marked retrieved : Bool) (o : Option Event) (s : OutputState)
    → known r (read_for request file marked retrieved o s)
      ≡ (if request == r then 1 else 0) + known r s
unfolding read_for
read_for-known r request file marked retrieved none s = ground (
  arith,
  known-complete_request r request failed s,
  count_pending-append r s.pending_output_requests
      (record { request = request; owner_file = file } ∷ []),
)
read_for-known r request file marked retrieved (some event) s =
    complete_output_request-known r request event false retrieved
      (record s { buffered_output_events = erase_buffered file s.buffered_output_events })

canceled-known :
    (r request : ℕ) (s : OutputState) → known r (output_read_canceled request s) ≡ known r s
unfolding output_read_canceled remove_pending_output_request complete_if_removed complete_request
canceled-known r request s = ground (
  arith,
  count_pending-erase_request r request s.pending_output_requests,
  count_completed-append r s.completed (record { request = request; answer = cancelled } ∷ []),
)

step-known :
    (r : ℕ) (op : Op) (s : OutputState)
    → Unmarks op
    → known r (step op s) ≡ read_by r op + known r s
unfolding step queue_output_event handle_read_output_report_request complete_pending_output_requests
    cancel_output_requests_for_file
step-known r (queues file event unmarked retrieved) s u = rw u (
    omega (
      arith,
      queue_for-known r file event retrieved (find_pending file s.pending_output_requests) s refl,
    ))
step-known r (reads request file marked retrieved) s u =
    read_for-known r request file marked retrieved (find_buffered file s.buffered_output_events) s
step-known r (cancels request) s u = omega (arith, canceled-known r request s)
step-known r (cleans file unmarked) s u = omega (
  arith,
  known-complete_all r unmarked (pending_of file s.pending_output_requests)
      (record s {
        pending_output_requests = pending_of_others file s.pending_output_requests;
        buffered_output_events = buffered_of_others file s.buffered_output_events;
      })
      u,
  count_pending-pending_of r file s.pending_output_requests,
)
step-known r (stops unmarked) s u = omega (
  arith,
  known-complete_all r unmarked s.pending_output_requests
      (record s { pending_output_requests = []; buffered_output_events = [] }) u,
)

run-known :
    (r : ℕ) (ops : List Op) (s : OutputState)
    → AllUnmark ops
    → known r (run ops s) ≡ times_read r ops + known r s
unfolding run
run-known r [] s u = omega arith
run-known r (op ∷ ops) s (u, us) =
    omega (arith, step-known r op s u, run-known r ops (step op s) us)

-- After any history of events, reads, cancellations, file clean-ups and stops, as long as every
-- request that the code takes from its list can be unmarked, each request has been completed and
-- waits, taken together, exactly as often as it was read: none is lost and none answered twice.
pub run-no_outputs :
    (r : ℕ) (ops : List Op)
    → AllUnmark ops
    → count_pending r (run ops no_outputs).pending_output_requests
        + count_completed r (run ops no_outputs).completed
      ≡ times_read r ops
run-no_outputs r ops u = omega (arith, run-known r ops no_outputs u)
