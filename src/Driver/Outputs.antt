-- ===== src/Driver/Outputs.antt =====
-- The reads of output reports in src/platform/windows/driver/libvirtualhid_umdf.cpp: the read
-- requests that wait for an event and the events that wait for a request, under
-- `output_requests_mutex`. Requests and files are known by numbers. What the framework answers is
-- an argument: `unmarked` for `WdfRequestUnmarkCancelable`, `marked` for
-- `WdfRequestMarkCancelableEx`, and `retrieved` for the retrieval of a request's output buffer.
pub mod Once
pub mod Channel
pub mod Order
pub mod Cancel
use plank_libvirtualhid.Common.{
  ℕ, Bool, true, false, not, ◌&&◌, Option, none, some, List, [], ◌∷◌, ◌++◌, ◌==◌, if◌then◌else◌,
}

-- `LvhWindowsOutputReportEvent`, as its bytes.
abbrev pub Event : Type 0
Event = List ℕ

pub record PendingOutputRequest : Type 0 where
  pub request : ℕ
  pub owner_file : ℕ

pub record BufferedOutputEvent : Type 0 where
  pub event : Event
  pub owner_file : ℕ

-- How a read request was completed.
pub data Answer : Type 0 where
  delivered : Event → Answer
  cancelled failed : Answer

pub record Completion : Type 0 where
  pub request : ℕ
  pub answer : Answer

-- The part of `DriverState` that the mutex guards, and the requests completed so far.
pub record OutputState : Type 0 where
  pub pending_output_requests : List PendingOutputRequest
  pub buffered_output_events : List BufferedOutputEvent
  pub completed : List Completion

abbrev pub no_outputs : OutputState
no_outputs = record { pending_output_requests = []; buffered_output_events = []; completed = [] }

unfoldable pub complete_request : ℕ → Answer → OutputState → OutputState
complete_request request answer s = record s {
  completed = s.completed ++ record { request = request; answer = answer } ∷ [];
}

unfoldable pub has_request : ℕ → List PendingOutputRequest → Bool
has_request request [] = false
has_request request (p ∷ ps) = if p.request == request then true else has_request request ps

unfoldable pub erase_request : ℕ → List PendingOutputRequest → List PendingOutputRequest
erase_request request [] = []
erase_request request (p ∷ ps) = if p.request == request then ps else p ∷ erase_request request ps

-- The first request of a file that waits, and the list without it.
unfoldable pub find_pending : ℕ → List PendingOutputRequest → Option ℕ
find_pending file [] = none
find_pending file (p ∷ ps) = if p.owner_file == file then some p.request else find_pending file ps

unfoldable pub erase_pending : ℕ → List PendingOutputRequest → List PendingOutputRequest
erase_pending file [] = []
erase_pending file (p ∷ ps) = if p.owner_file == file then ps else p ∷ erase_pending file ps

unfoldable pub find_buffered : ℕ → List BufferedOutputEvent → Option Event
find_buffered file [] = none
find_buffered file (b ∷ bs) = if b.owner_file == file then some b.event else find_buffered file bs

unfoldable pub erase_buffered : ℕ → List BufferedOutputEvent → List BufferedOutputEvent
erase_buffered file [] = []
erase_buffered file (b ∷ bs) = if b.owner_file == file then bs else b ∷ erase_buffered file bs

unfoldable pub remove_pending_output_request : ℕ → OutputState → Bool × OutputState
remove_pending_output_request request s =
    if has_request request s.pending_output_requests
    then (
      true,
      record s { pending_output_requests = erase_request request s.pending_output_requests },
    )
    else (false, s)

-- `request_is_cancelable && !NT_SUCCESS(WdfRequestUnmarkCancelable(request))` is the first test.
unfoldable pub complete_output_request :
    ℕ → Event → (is_cancelable unmarked retrieved : Bool) → OutputState → Bool × OutputState
complete_output_request request event is_cancelable unmarked retrieved s =
    if is_cancelable && not unmarked
    then (false, s)
    else if not retrieved
    then (true, complete_request request failed s)
    else (true, complete_request request (delivered event) s)

unfoldable pub buffer_event : ℕ → Event → OutputState → OutputState
buffer_event file event s = record s {
  buffered_output_events =
      s.buffered_output_events ++ record { event = event; owner_file = file } ∷ [];
}

-- The end of `queue_output_event`: an event that was not taken is kept.
unfoldable pub keep_unless_taken : ℕ → Event → Bool × OutputState → OutputState
keep_unless_taken file event (true, s) = s
keep_unless_taken file event (false, s) = buffer_event file event s

unfoldable pub erase_pending_of : ℕ → OutputState → OutputState
erase_pending_of file s = record s {
  pending_output_requests = erase_pending file s.pending_output_requests;
}

unfoldable pub queue_for :
    ℕ → Event → (unmarked retrieved : Bool) → Option ℕ → OutputState → OutputState
queue_for file event unmarked retrieved none s = buffer_event file event s
queue_for file event unmarked retrieved (some request) s =
    keep_unless_taken file event
      (complete_output_request request event true unmarked retrieved (erase_pending_of file s))

unfoldable pub queue_output_event :
    ℕ → Event → (unmarked retrieved : Bool) → OutputState → OutputState
queue_output_event file event unmarked retrieved s =
    queue_for file event unmarked retrieved (find_pending file s.pending_output_requests) s

unfoldable pub read_for :
    ℕ → ℕ → (marked retrieved : Bool) → Option Event → OutputState → OutputState
read_for request file marked retrieved (some event) s =
    (complete_output_request request event false true retrieved
      (record s { buffered_output_events = erase_buffered file s.buffered_output_events })).1
read_for request file marked retrieved none s =
    if not marked then complete_request request failed s else record s {
      pending_output_requests =
          s.pending_output_requests ++ record { request = request; owner_file = file } ∷ [];
    }

-- `owner_file` is the file of the request, which the framework knows.
unfoldable pub handle_read_output_report_request :
    ℕ → ℕ → (marked retrieved : Bool) → OutputState → OutputState
handle_read_output_report_request request file marked retrieved s =
    read_for request file marked retrieved (find_buffered file s.buffered_output_events) s

-- The loops that complete requests taken from the list, the ones that can be unmarked.
unfoldable pub complete_all : (ℕ → Bool) → List PendingOutputRequest → OutputState → OutputState
complete_all unmarked [] s = s
complete_all unmarked (p ∷ ps) s =
    complete_all unmarked ps
      (if unmarked p.request then complete_request p.request cancelled s else s)

-- Every caller passes STATUS_CANCELLED.
unfoldable pub complete_pending_output_requests : (ℕ → Bool) → OutputState → OutputState
complete_pending_output_requests unmarked s =
    complete_all unmarked s.pending_output_requests
      (record s { pending_output_requests = []; buffered_output_events = [] })

-- The requests of a file, and those of the others.
unfoldable pub pending_of : ℕ → List PendingOutputRequest → List PendingOutputRequest
pending_of file [] = []
pending_of file (p ∷ ps) =
    if p.owner_file == file then p ∷ pending_of file ps else pending_of file ps

unfoldable pub pending_of_others : ℕ → List PendingOutputRequest → List PendingOutputRequest
pending_of_others file [] = []
pending_of_others file (p ∷ ps) =
    if p.owner_file == file then pending_of_others file ps else p ∷ pending_of_others file ps

unfoldable pub buffered_of_others : ℕ → List BufferedOutputEvent → List BufferedOutputEvent
buffered_of_others file [] = []
buffered_of_others file (b ∷ bs) =
    if b.owner_file == file then buffered_of_others file bs else b ∷ buffered_of_others file bs

unfoldable pub cancel_output_requests_for_file : ℕ → (ℕ → Bool) → OutputState → OutputState
cancel_output_requests_for_file file unmarked s =
    complete_all unmarked (pending_of file s.pending_output_requests) (record s {
      pending_output_requests = pending_of_others file s.pending_output_requests;
      buffered_output_events = buffered_of_others file s.buffered_output_events;
    })

unfoldable pub complete_if_removed : ℕ → Bool × OutputState → OutputState
complete_if_removed request (true, s) = complete_request request cancelled s
complete_if_removed request (false, s) = s

-- `LvhEvtOutputReadCanceled`
unfoldable pub output_read_canceled : ℕ → OutputState → OutputState
output_read_canceled request s =
    complete_if_removed request (remove_pending_output_request request s)

-- What happens to the reads, with what the framework answers.
pub data Op : Type 0 where
  queues : ℕ → Event → (unmarked retrieved : Bool) → Op
  reads : ℕ → ℕ → (marked retrieved : Bool) → Op
  cancels : ℕ → Op
  cleans : ℕ → (ℕ → Bool) → Op
  stops : (ℕ → Bool) → Op

unfoldable pub step : Op → OutputState → OutputState
step (queues file event unmarked retrieved) s = queue_output_event file event unmarked retrieved s
step (reads request file marked retrieved) s =
    handle_read_output_report_request request file marked retrieved s
step (cancels request) s = output_read_canceled request s
step (cleans file unmarked) s = cancel_output_requests_for_file file unmarked s
step (stops unmarked) s = complete_pending_output_requests unmarked s

unfoldable pub run : List Op → OutputState → OutputState
run [] s = s
run (op ∷ ops) s = run ops (step op s)
