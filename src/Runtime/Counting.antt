-- ===== src/Runtime/Counting.antt =====
-- What one device of src/core/runtime.cpp remembers of the events that its backend has accepted.
use Prim.Native.String.{String}
use plank_libvirtualhid.Common.{
  ◌+◌, ◌%◌, ◌^◌, ◌<◌, ◌≡◌, refl, ap, ◌∙◌, true, false, List, [], ◌∷◌, length, if◌then◌else◌, arith,
  inl, inr, Bool-cases,
}
use plank_libvirtualhid.Types.{OperationStatus, ErrorCode, failure, is_ok}
use plank_libvirtualhid.Runtime.Device.{
  Device, on_backend, close, record_event, submit_event, submit_validated,
}
use plank_libvirtualhid.Runtime.History.{Call, event, closing, call, calls}

-- The updates of the events that were answered with success, in the order of the calls.
abbrev pub accepted :
    {World Handle Last : Type 0}
    → List (Call World Handle Last)
    → List OperationStatus
    → List (Last → Last)
accepted (event validation act update ∷ cs) (status ∷ ss) =
    if is_ok status then update ∷ accepted cs ss else accepted cs ss
accepted (closing ∷ cs) (status ∷ ss) = accepted cs ss
accepted cs ss = []

abbrev pub apply_all : {Last : Type 0} → List (Last → Last) → Last → Last
apply_all [] last = last
apply_all (update ∷ us) last = apply_all us (update last)

-- The device has counted these updates since `d`, and remembers what they make of its last event.
pub record Remembers {Handle Options Last : Type 0} (us : List (Last → Last))
    (d e : Device Handle Options Last) : Type 0 where
  pub counted : e.submitted ≡ (d.submitted + length us) % 2 ^ 64
  pub last_event : e.last ≡ apply_all us d.last
  pub same_id : e.id ≡ d.id

-- What a single call does to a device, by its answer.
abbrev noted :
    {World Handle Last : Type 0} → Call World Handle Last → OperationStatus → List (Last → Last)
noted (event validation act update) status = if is_ok status then update ∷ [] else []
noted closing status = []

joined :
    {World Handle Options Last : Type 0}
    → (c : Call World Handle Last) (cs : List (Call World Handle Last)) (status : OperationStatus)
    → (ss : List OperationStatus) (d e f : Device Handle Options Last)
    → Remembers (noted c status) d e
    → Remembers (accepted cs ss) e f
    → Remembers (accepted (c ∷ cs) (status ∷ ss)) d f
joined (event validation act update) cs status ss d e f p q = elim (Bool-cases (is_ok status)) [
  | inl t ↦
      let p' = rw t at p in
      rw t (record {
        counted = omega (arith, p'.counted, q.counted);
        last_event = q.last_event ∙ ap (apply_all (accepted cs ss)) p'.last_event;
        same_id = q.same_id ∙ p'.same_id;
      })
  | inr t ↦
      let p' = rw t at p in
      rw t (record {
        counted = omega (arith, p'.counted, q.counted);
        last_event = q.last_event ∙ ap (apply_all (accepted cs ss)) p'.last_event;
        same_id = q.same_id ∙ p'.same_id;
      })
]
joined closing cs status ss d e f p q = record {
  counted = omega (arith, p.counted, q.counted);
  last_event = q.last_event ∙ ap (apply_all (accepted cs ss)) p.last_event;
  same_id = q.same_id ∙ p.same_id;
}

module _ {World Handle Options Last : Type 0} (closed_message : String)
    (backend_close : Handle → World → OperationStatus × World) where
  record_event-Remembers :
      (act : Handle → World → OperationStatus × World)
      → (update : Last → Last) (d : Device Handle Options Last) (r : OperationStatus × World)
      → d.submitted < 2 ^ 64
      → let e = record_event update d r in Remembers (if is_ok e.0 then update ∷ [] else []) d e.1
  unfolding record_event
  record_event-Remembers act update d r h = elim (Bool-cases (is_ok r.0)) [
    | inl e ↦ rw e (record { counted = refl; last_event = refl; same_id = refl })
    | inr e ↦ rw (e, e) (record { counted = omega arith; last_event = refl; same_id = refl })
  ]

  submit_open :
      (act : Handle → World → OperationStatus × World)
      → (update : Last → Last) (d : Device Handle Options Last) (w : World) → d.is_open ≡ true
      → submit_event closed_message act update d w
        ≡ record_event update d (on_backend d.backend act w)
  unfolding submit_event
  submit_open act update d w e = ground arith

  submit_closed :
      (act : Handle → World → OperationStatus × World)
      → (update : Last → Last) (d : Device Handle Options Last) (w : World) → d.is_open ≡ false
      → submit_event closed_message act update d w
        ≡ (failure ErrorCode.device_closed closed_message, d, w)
  unfolding submit_event
  submit_closed act update d w e = ground arith

  submit_event-Remembers :
      (act : Handle → World → OperationStatus × World)
      → (update : Last → Last) (d : Device Handle Options Last) (w : World) → d.submitted < 2 ^ 64
      → let e = submit_event closed_message act update d w in
        Remembers (if is_ok e.0 then update ∷ [] else []) d e.1
  submit_event-Remembers act update d w h = elim (Bool-cases d.is_open) [
    | inl e ↦
        rw (submit_open act update d w e)
          (record_event-Remembers act update d (on_backend d.backend act w) h)
    | inr e ↦
        rw (submit_closed act update d w e)
          (record { counted = omega arith; last_event = refl; same_id = refl })
  ]

  submit_valid :
      (validation : OperationStatus) (act : Handle → World → OperationStatus × World)
      → (update : Last → Last) (d : Device Handle Options Last) (w : World)
      → is_ok validation ≡ true
      → submit_validated validation closed_message act update d w
        ≡ submit_event closed_message act update d w
  unfolding submit_validated
  submit_valid validation act update d w e = ground arith

  submit_invalid :
      (validation : OperationStatus) (act : Handle → World → OperationStatus × World)
      → (update : Last → Last) (d : Device Handle Options Last) (w : World)
      → is_ok validation ≡ false
      → submit_validated validation closed_message act update d w ≡ (validation, d, w)
  unfolding submit_validated
  submit_invalid validation act update d w e = ground arith

  call-Remembers :
      (c : Call World Handle Last) (d : Device Handle Options Last) (w : World)
      → d.submitted < 2 ^ 64
      → let e = call closed_message backend_close c d w in Remembers (noted c e.0) d e.1
  unfolding call close
  call-Remembers (event validation act update) d w h = elim (Bool-cases (is_ok validation)) [
    | inl v ↦
        rw (submit_valid validation act update d w v) (submit_event-Remembers act update d w h)
    | inr v ↦
        rw (submit_invalid validation act update d w v, v)
          (record { counted = omega arith; last_event = refl; same_id = refl })
  ]
  call-Remembers closing d w h = elim (Bool-cases d.is_open) [
    | inl e ↦ rw e (record { counted = omega arith; last_event = refl; same_id = refl })
    | inr e ↦ rw e (record { counted = omega arith; last_event = refl; same_id = refl })
  ]

  -- Whatever a backend answers, a device counts (modulo the word size) exactly the events of a
  -- history of calls that were answered with success, remembers what these make of its last event
  -- in the order of the calls, and keeps its id.
  pub calls-Remembers :
      (cs : List (Call World Handle Last)) (d : Device Handle Options Last) (w : World)
      → d.submitted < 2 ^ 64
      → let r = calls closed_message backend_close cs d w in Remembers (accepted cs r.0) d r.1
  unfolding calls
  calls-Remembers [] d w h = record { counted = omega arith; last_event = refl; same_id = refl }
  calls-Remembers (c ∷ cs) d w h =
      let r = call closed_message backend_close c d w in
      let first = call-Remembers c d w h in
      let rest = calls closed_message backend_close cs r.1 r.2 in
      joined c cs r.0 rest.0 d r.1 rest.1 first
        (calls-Remembers cs r.1 r.2 (omega (arith, first.counted)))
