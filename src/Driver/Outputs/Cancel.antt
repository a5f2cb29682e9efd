-- ===== src/Driver/Outputs/Cancel.antt =====
-- A read request that is being cancelled while an event for it arrives.
use plank_libvirtualhid.Common.{ℕ, ◌≡◌, refl, Bool, false, some, List, [], ◌∷◌, arith}
use plank_libvirtualhid.Driver.Outputs.{
  Event, PendingOutputRequest, OutputState, has_request, find_pending, erase_pending,
  remove_pending_output_request, complete_output_request, buffer_event, keep_unless_taken,
  erase_pending_of, queue_for, queue_output_event, complete_if_removed, output_read_canceled,
}
use plank_libvirtualhid.Driver.Outputs.Once.{count_pending, count_pending-erase_pending}

has_request-none :
    (r : ℕ) (ps : List PendingOutputRequest) → count_pending r ps ≡ 0 → has_request r ps ≡ false
unfolding has_request
has_request-none r [] h = refl
has_request-none r (p ∷ ps) h = ground (arith, has_request-none r ps)

none_left :
    (file r : ℕ) (ps : List PendingOutputRequest)
    → find_pending file ps ≡ some r
    → count_pending r ps ≡ 1
    → count_pending r (erase_pending file ps) ≡ 0
none_left file r ps h one = ground (arith, count_pending-erase_pending r file r ps h)

canceled-absent :
    (r : ℕ) (s : OutputState)
    → count_pending r s.pending_output_requests ≡ 0
    → output_read_canceled r s ≡ s
unfolding output_read_canceled remove_pending_output_request complete_if_removed
canceled-absent r s h = rw (has_request-none r s.pending_output_requests h) refl

refused-queue_output_event :
    (file r : ℕ) (event : Event) (retrieved : Bool) (s : OutputState)
    → find_pending file s.pending_output_requests ≡ some r
    → queue_output_event file event false retrieved s
      ≡ buffer_event file event (erase_pending_of file s)
unfolding queue_output_event queue_for keep_unless_taken complete_output_request
refused-queue_output_event file r event retrieved s h = rw (h, queue_for) refl

-- When an event arrives for a request that waits once and is being cancelled, so that it cannot be
-- unmarked, then the framework's cancellation callback, which comes after that, finds nothing: the
-- request no longer waits, and nothing has completed it or any other.
pub canceled-queue_output_event :
    (file r : ℕ) (event : Event) (retrieved : Bool) (s : OutputState)
    → find_pending file s.pending_output_requests ≡ some r
    → count_pending r s.pending_output_requests ≡ 1
    → ((output_read_canceled r (queue_output_event file event false retrieved s)).completed
        ≡ s.completed)
      × (count_pending r
            (output_read_canceled r
              (queue_output_event file event false retrieved s)).pending_output_requests
          ≡ 0)
unfolding buffer_event erase_pending_of
canceled-queue_output_event file r event retrieved s h one =
    rw
      (
        refused-queue_output_event file r event retrieved s h,
        canceled-absent r (buffer_event file event (erase_pending_of file s))
            (none_left file r s.pending_output_requests h one),
      )
      (refl, none_left file r s.pending_output_requests h one)
