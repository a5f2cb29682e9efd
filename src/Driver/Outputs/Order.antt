-- ===== src/Driver/Outputs/Order.antt =====
-- The events of a file reach its readers in the order in which they arrive.
use plank_libvirtualhid.Common.{
  ℕ, ◌≡◌, ◌⊎◌, inl, inr, refl, ap, sym, Bool, true, false, Option, none, some, List, [], ◌∷◌, ◌++◌,
  ◌==◌, if◌then◌else◌, arith, Bool-cases, ◌∙◌,
}
use plank_libvirtualhid.Driver.Outputs.{
  Event, Answer, delivered, cancelled, failed, OutputState, no_outputs, complete_request,
  has_request, erase_request, find_pending, find_buffered, erase_buffered,
  remove_pending_output_request, complete_output_request, buffer_event, keep_unless_taken,
  erase_pending_of, queue_for, queue_output_event, read_for, handle_read_output_report_request,
  complete_if_removed, output_read_canceled, Op, queues, reads, cancels, cleans, stops, step, run,
}
use plank_libvirtualhid.Driver.Outputs.Channel.{
  received, waiting, sent_by, sent, Flows, AllFlow, IsMatched, channel, ++_assoc, ++_nil,
  waiting-append, waiting-erase_buffered, waiting-none, owned-find_pending, owned-erase_pending,
  owned-erase_request, owned-append, find_pending-erase_pending, find_pending-erase_request,
  find_pending-append, channel-complete_request, channel-buffer_event,
}

-- What a step from `s` to `s'` that sends `new` to the file keeps.
record IsStep (file_of : ℕ → ℕ) (f : ℕ) (new : List Event) (s s' : OutputState) : Type 0 where
  matched : IsMatched file_of f s'
  extended : channel file_of f s' ≡ channel file_of f s ++ new

swap_nil : (xs ws es : List Event) → ws ≡ [] → xs ++ (es ++ ws) ≡ (xs ++ ws) ++ es
swap_nil xs ws es h = rw (h, ++_nil es, ++_nil xs) refl

buffer_event-IsMatched :
    (file_of : ℕ → ℕ) (f file : ℕ) (event : Event) (s : OutputState)
    → find_pending file s.pending_output_requests ≡ none
    → IsMatched file_of f s
    → IsMatched file_of f (buffer_event file event s)
unfolding buffer_event
buffer_event-IsMatched file_of f file event s h m = record {
  owned = m.owned;
  apart = ground (
    arith,
    m.apart,
    h,
    waiting-append f s.buffered_output_events (record { event = event; owner_file = file } ∷ []),
  );
}

served-IsMatched :
    (file_of : ℕ → ℕ) (f file r : ℕ) (answer : Answer) (s : OutputState)
    → IsMatched file_of f s
    → IsMatched file_of f (complete_request r answer (erase_pending_of file s))
unfolding complete_request erase_pending_of
served-IsMatched file_of f file r answer s m = record {
  owned = owned-erase_pending file_of file s.pending_output_requests m.owned;
  apart = ground (arith, m.apart, find_pending-erase_pending f file s.pending_output_requests);
}

complete_request-IsMatched :
    (file_of : ℕ → ℕ) (f r : ℕ) (answer : Answer) (s : OutputState)
    → IsMatched file_of f s
    → IsMatched file_of f (complete_request r answer s)
unfolding complete_request
complete_request-IsMatched file_of f r answer s m = record { owned = m.owned; apart = m.apart }

erase_buffered-IsMatched :
    (file_of : ℕ → ℕ) (f file : ℕ) (event : Event) (s : OutputState)
    → find_buffered file s.buffered_output_events ≡ some event
    → IsMatched file_of f s
    → IsMatched file_of f
        (record s { buffered_output_events = erase_buffered file s.buffered_output_events })
erase_buffered-IsMatched file_of f file event s h m = record {
  owned = m.owned;
  apart = ground (arith, m.apart, waiting-erase_buffered file f event s.buffered_output_events h);
}

queue_for-IsStep :
    (file_of : ℕ → ℕ) (f file : ℕ) (event : Event) (o : Option ℕ) (s : OutputState)
    → find_pending file s.pending_output_requests ≡ o
    → IsMatched file_of f s
    → IsStep file_of f (if file == f then event ∷ [] else []) s (queue_for file event true true o s)
unfolding queue_for keep_unless_taken complete_output_request erase_pending_of
queue_for-IsStep file_of f file event none s h m = record {
  matched = buffer_event-IsMatched file_of f file event s h m;
  extended = channel-buffer_event file_of f file event s;
}
queue_for-IsStep file_of f file event (some r) s h m = record {
  matched = served-IsMatched file_of f file r (delivered event) s m;
  extended = ground (
    arith,
    m.apart,
    channel-complete_request file_of f r (delivered event) (erase_pending_of file s),
    owned-find_pending file_of file r s.pending_output_requests m.owned h,
    swap_nil (received file_of f s.completed) (waiting f s.buffered_output_events) (event ∷ []),
    ++_nil (received file_of f s.completed ++ waiting f s.buffered_output_events),
  );
}

read_for-IsStep :
    (file_of : ℕ → ℕ) (f r file : ℕ) (marked : Bool) (o : Option Event) (s : OutputState)
    → find_buffered file s.buffered_output_events ≡ o
    → file ≡ file_of r
    → IsMatched file_of f s
    → IsStep file_of f [] s (read_for r file marked true o s)
unfolding read_for complete_output_request
read_for-IsStep file_of f r file true none s h own m = record {
  matched = record {
    owned =
        owned-append file_of (record { request = r; owner_file = file }) s.pending_output_requests
          m.owned own;
    apart = ground (
      arith,
      m.apart,
      waiting-none f s.buffered_output_events,
      find_pending-append f (record { request = r; owner_file = file }) s.pending_output_requests,
    );
  };
  extended = sym (++_nil (channel file_of f s));
}
read_for-IsStep file_of f r file false none s h own m = record {
  matched = complete_request-IsMatched file_of f r failed s m;
  extended =
      ground (arith, channel-complete_request file_of f r failed s, ++_nil (channel file_of f s));
}
read_for-IsStep file_of f r file marked (some event) s h own m = record {
  matched =
      complete_request-IsMatched file_of f r (delivered event)
        (record s { buffered_output_events = erase_buffered file s.buffered_output_events })
        (erase_buffered-IsMatched file_of f file event s h m);
  extended = ground (
    arith,
    own,
    channel-complete_request file_of f r (delivered event)
        (record s { buffered_output_events = erase_buffered file s.buffered_output_events }),
    waiting-erase_buffered file f event s.buffered_output_events h,
    ++_nil (channel file_of f s),
  );
}

canceled-IsStep :
    (file_of : ℕ → ℕ) (f r : ℕ) (s : OutputState)
    → IsMatched file_of f s
    → IsStep file_of f [] s (output_read_canceled r s)
unfolding output_read_canceled remove_pending_output_request complete_if_removed
canceled-IsStep file_of f r s m = elim (Bool-cases (has_request r s.pending_output_requests)) [
  | inl e ↦ rw e (record {
    matched =
        complete_request-IsMatched file_of f r cancelled
          (record s { pending_output_requests = erase_request r s.pending_output_requests })
          (record {
            owned = owned-erase_request file_of r s.pending_output_requests m.owned;
            apart =
                ground (arith, m.apart, find_pending-erase_request f r s.pending_output_requests);
          });
    extended = ground (
      arith,
      channel-complete_request file_of f r cancelled
          (record s { pending_output_requests = erase_request r s.pending_output_requests }),
      ++_nil (channel file_of f s),
    );
  })
  | inr e ↦ rw e (record { matched = m; extended = sym (++_nil (channel file_of f s)) })
]

step-IsStep :
    (file_of : ℕ → ℕ) (f : ℕ) (op : Op) (s : OutputState)
    → Flows file_of op
    → IsMatched file_of f s
    → IsStep file_of f (sent_by f op) s (step op s)
unfolding step queue_output_event handle_read_output_report_request
step-IsStep file_of f (queues file event unmarked retrieved) s (u, v) m =
    rw (u, v)
      (queue_for-IsStep file_of f file event (find_pending file s.pending_output_requests) s refl m)
step-IsStep file_of f (reads r file marked retrieved) s (own, v) m = rw v (
    read_for-IsStep file_of f r file marked (find_buffered file s.buffered_output_events) s refl own
      m)
step-IsStep file_of f (cancels r) s u m = canceled-IsStep file_of f r s m
step-IsStep file_of f (cleans file unmarked) s u m = cc
step-IsStep file_of f (stops unmarked) s u m = cc

run-IsStep :
    (file_of : ℕ → ℕ) (f : ℕ) (ops : List Op) (s : OutputState)
    → AllFlow file_of ops
    → IsMatched file_of f s
    → IsStep file_of f (sent f ops) s (run ops s)
unfolding run
run-IsStep file_of f [] s u m = record {
  matched = m;
  extended = sym (++_nil (channel file_of f s));
}
run-IsStep file_of f (op ∷ ops) s (u, us) m =
    let first = step-IsStep file_of f op s u m in
    let rest = run-IsStep file_of f ops (step op s) us first.matched in
    record {
      matched = rest.matched;
      extended =
          rest.extended
          ∙ ap (λ t. t ++ sent f ops) first.extended
          ∙ ++_assoc (channel file_of f s) (sent_by f op) (sent f ops);
    }

-- After any history of events, reads and cancellations in which requests can be unmarked, their
-- buffers retrieved and no file is closed, what the reads of a file have received, followed by what
-- is buffered for it, is exactly what was sent to it, in order; and the file has no reader that
-- waits or no event that waits.
pub channel-run :
    (file_of : ℕ → ℕ) (f : ℕ) (ops : List Op)
    → AllFlow file_of ops
    → (channel file_of f (run ops no_outputs) ≡ sent f ops)
      × ((find_pending f (run ops no_outputs).pending_output_requests ≡ none)
          ⊎ (waiting f (run ops no_outputs).buffered_output_events ≡ []))
unfolding find_pending
channel-run file_of f ops u =
    let all = run-IsStep file_of f ops no_outputs u (record { owned = tt; apart = inl refl }) in
    (all.extended, all.matched.apart)
