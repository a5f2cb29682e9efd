-- ===== src/Driver/Outputs/Channel.antt =====
-- The events received for a file and those that wait for it, as one channel.
use plank_libvirtualhid.Common.{
  ℕ, ◌≡◌, ◌⊎◌, refl, ap, sym, true, false, none, some, List, [], ◌∷◌, ◌++◌, ◌==◌, if◌then◌else◌,
  arith,
}
use plank_libvirtualhid.Driver.Outputs.{
  Event, PendingOutputRequest, BufferedOutputEvent, Answer, delivered, cancelled, failed,
  Completion, OutputState, complete_request, erase_request, find_pending, erase_pending,
  find_buffered, erase_buffered, buffer_event, Op, queues, reads, cancels, cleans, stops,
}

abbrev pub event_of : Answer → List Event
event_of (delivered event) = event ∷ []
event_of cancelled = []
event_of failed = []

-- The events that the completed reads of a file got, `file_of` being `WdfRequestGetFileObject`.
abbrev pub received : (ℕ → ℕ) → ℕ → List Completion → List Event
received file_of f [] = []
received file_of f (c ∷ cs) =
    (if file_of c.request == f then event_of c.answer else []) ++ received file_of f cs

abbrev pub waiting : ℕ → List BufferedOutputEvent → List Event
waiting f [] = []
waiting f (b ∷ bs) = (if b.owner_file == f then b.event ∷ [] else []) ++ waiting f bs

abbrev pub sent_by : ℕ → Op → List Event
sent_by f (queues file event unmarked retrieved) = if file == f then event ∷ [] else []
sent_by f (reads request file marked retrieved) = []
sent_by f (cancels request) = []
sent_by f (cleans file unmarked) = []
sent_by f (stops unmarked) = []

abbrev pub sent : ℕ → List Op → List Event
sent f [] = []
sent f (op ∷ ops) = sent_by f op ++ sent f ops

-- Nothing of an operation is dropped: no request is cancelled while it is answered, the buffers of
-- the requests can be had, and no file is closed.
abbrev pub Flows : (ℕ → ℕ) → Op → Type 0
Flows file_of (queues file event unmarked retrieved) = (unmarked ≡ true) × (retrieved ≡ true)
Flows file_of (reads request file marked retrieved) = (file ≡ file_of request) × (retrieved ≡ true)
Flows file_of (cancels request) = Unit
Flows file_of (cleans file unmarked) = false ≡ true
Flows file_of (stops unmarked) = false ≡ true

abbrev pub AllFlow : (ℕ → ℕ) → List Op → Type 0
AllFlow file_of [] = Unit
AllFlow file_of (op ∷ ops) = Flows file_of op × AllFlow file_of ops

abbrev pub AllOwned : (ℕ → ℕ) → List PendingOutputRequest → Type 0
AllOwned file_of [] = Unit
AllOwned file_of (p ∷ ps) = (p.owner_file ≡ file_of p.request) × AllOwned file_of ps

-- The file `f` has no reader that waits, or no event that waits.
pub record IsMatched (file_of : ℕ → ℕ) (f : ℕ) (s : OutputState) : Type 0 where
  pub owned : AllOwned file_of s.pending_output_requests
  pub apart :
      (find_pending f s.pending_output_requests ≡ none) ⊎ (waiting f s.buffered_output_events ≡ [])

-- Both lists as one channel of the file: what was received, and what comes next.
abbrev pub channel : (ℕ → ℕ) → ℕ → OutputState → List Event
channel file_of f s = received file_of f s.completed ++ waiting f s.buffered_output_events

pub ++_assoc : (xs ys zs : List Event) → (xs ++ ys) ++ zs ≡ xs ++ (ys ++ zs)
++_assoc [] ys zs = refl
++_assoc (x ∷ xs) ys zs = ap (λ t. x ∷ t) (++_assoc xs ys zs)

pub ++_nil : (xs : List Event) → xs ++ [] ≡ xs
++_nil [] = refl
++_nil (x ∷ xs) = ap (λ t. x ∷ t) (++_nil xs)

pub received-append :
    (file_of : ℕ → ℕ) (f : ℕ) (cs ds : List Completion)
    → received file_of f (cs ++ ds) ≡ received file_of f cs ++ received file_of f ds
received-append file_of f [] ds = refl
received-append file_of f (c ∷ cs) ds = rw (received-append file_of f cs ds) (
    sym (
      ++_assoc (if file_of c.request == f then event_of c.answer else []) (received file_of f cs)
        (received file_of f ds)))

pub waiting-append :
    (f : ℕ) (bs ds : List BufferedOutputEvent) → waiting f (bs ++ ds) ≡ waiting f bs ++ waiting f ds
waiting-append f [] ds = refl
waiting-append f (b ∷ bs) ds =
    rw (waiting-append f bs ds) (
      sym (++_assoc (if b.owner_file == f then b.event ∷ [] else []) (waiting f bs) (waiting f ds)))

-- What the buffer does when the first event of a file is taken.
pub waiting-erase_buffered :
    (file f : ℕ) (event : Event) (bs : List BufferedOutputEvent)
    → find_buffered file bs ≡ some event
    → waiting f bs ≡ (if file == f then event ∷ [] else []) ++ waiting f (erase_buffered file bs)
unfolding find_buffered erase_buffered
waiting-erase_buffered file f event [] h = cc
waiting-erase_buffered file f event (b ∷ bs) h =
    ground (arith, waiting-erase_buffered file f event bs)

pub waiting-none :
    (f : ℕ) (bs : List BufferedOutputEvent) → find_buffered f bs ≡ none → waiting f bs ≡ []
unfolding find_buffered
waiting-none f [] h = refl
waiting-none f (b ∷ bs) h = ground (arith, waiting-none f bs)

pub owned-find_pending :
    (file_of : ℕ → ℕ) (file r : ℕ) (ps : List PendingOutputRequest)
    → AllOwned file_of ps
    → find_pending file ps ≡ some r
    → file_of r ≡ file
unfolding find_pending
owned-find_pending file_of file r [] o h = cc
owned-find_pending file_of file r (p ∷ ps) o h =
    ground (arith, o.0, owned-find_pending file_of file r ps o.1)

pub owned-erase_pending :
    (file_of : ℕ → ℕ) (file : ℕ) (ps : List PendingOutputRequest)
    → AllOwned file_of ps
    → AllOwned file_of (erase_pending file ps)
unfolding erase_pending
owned-erase_pending file_of file [] o = tt
owned-erase_pending file_of file (p ∷ ps) o =
    ground (arith, o.0, o.1, owned-erase_pending file_of file ps o.1)

pub owned-erase_request :
    (file_of : ℕ → ℕ) (r : ℕ) (ps : List PendingOutputRequest)
    → AllOwned file_of ps
    → AllOwned file_of (erase_request r ps)
unfolding erase_request
owned-erase_request file_of r [] o = tt
owned-erase_request file_of r (p ∷ ps) o =
    ground (arith, o.0, o.1, owned-erase_request file_of r ps o.1)

pub owned-append :
    (file_of : ℕ → ℕ) (p : PendingOutputRequest) (ps : List PendingOutputRequest)
    → AllOwned file_of ps
    → p.owner_file ≡ file_of p.request
    → AllOwned file_of (ps ++ p ∷ [])
owned-append file_of p [] o h = (h, tt)
owned-append file_of p (q ∷ ps) o h = (o.0, owned-append file_of p ps o.1 h)

pub find_pending-erase_pending :
    (f file : ℕ) (ps : List PendingOutputRequest)
    → find_pending f ps ≡ none
    → find_pending f (erase_pending file ps) ≡ none
unfolding find_pending erase_pending
find_pending-erase_pending f file [] h = refl
find_pending-erase_pending f file (p ∷ ps) h = ground (arith, find_pending-erase_pending f file ps)

pub find_pending-erase_request :
    (f r : ℕ) (ps : List PendingOutputRequest)
    → find_pending f ps ≡ none
    → find_pending f (erase_request r ps) ≡ none
unfolding find_pending erase_request
find_pending-erase_request f r [] h = refl
find_pending-erase_request f r (p ∷ ps) h = ground (arith, find_pending-erase_request f r ps)

pub find_pending-append :
    (f : ℕ) (p : PendingOutputRequest) (ps : List PendingOutputRequest)
    → find_pending f ps ≡ none
    → (p.owner_file == f) ≡ false
    → find_pending f (ps ++ p ∷ []) ≡ none
unfolding find_pending
find_pending-append f p [] h n = rw n refl
find_pending-append f p (q ∷ ps) h n = ground (arith, find_pending-append f p ps)

-- The channel after a completion, and after an event is put into the buffer.
pub channel-complete_request :
    (file_of : ℕ → ℕ) (f r : ℕ) (answer : Answer) (s : OutputState)
    → channel file_of f (complete_request r answer s)
      ≡ received file_of f s.completed
        ++ ((if file_of r == f then event_of answer else []) ++ waiting f s.buffered_output_events)
unfolding complete_request
channel-complete_request file_of f r answer s =
    rw
      (
        received-append file_of f s.completed (record { request = r; answer = answer } ∷ []),
        ++_nil (if file_of r == f then event_of answer else []),
      )
      (++_assoc (received file_of f s.completed) (if file_of r == f then event_of answer else [])
        (waiting f s.buffered_output_events))

pub channel-buffer_event :
    (file_of : ℕ → ℕ) (f file : ℕ) (event : Event) (s : OutputState)
    → channel file_of f (buffer_event file event s)
      ≡ channel file_of f s ++ (if file == f then event ∷ [] else [])
unfolding buffer_event
channel-buffer_event file_of f file event s =
    rw
      (
        waiting-append f s.buffered_output_events
            (record { event = event; owner_file = file } ∷ []),
        ++_nil (if file == f then event ∷ [] else []),
      )
      (sym (
        ++_assoc (received file_of f s.completed) (waiting f s.buffered_output_events)
          (if file == f then event ∷ [] else [])))
