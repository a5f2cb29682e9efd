-- ===== src/Vhf/SameState.antt =====
-- `same_discrete_state` compares like an equality, and pending regular reports differ by it.
use plank_libvirtualhid.Common.{
  sym, ◌∙◌, Option-cases, ℕ, ◌≡◌, refl, Bool, true, false, Option, none, some, List, [], ◌∷◌, ◌++◌,
  tail, set_last, last?, arith, Bool-cases, inl, inr,
}
use plank_libvirtualhid.Vhf.{
  Report, VhfInputReportQueue, create, equal_at, equal_at?, discrete_offsets, same_discrete_state,
  supersedes_back, make_room, append_report, append_protocol, push, pop, clear,
}
use plank_libvirtualhid.Vhf.Bounded.{Op, pushes, pops, clears, step, run}

equal_at-sym : (l r : Report) (os : List ℕ) → equal_at l r os ≡ true → equal_at r l os ≡ true
unfolding equal_at
equal_at-sym l r [] h = refl
equal_at-sym l r (o ∷ os) h = ground (arith, equal_at-sym l r os)

equal_at_trans :
    (l m r : Report) (os : List ℕ)
    → equal_at l m os ≡ true
    → equal_at m r os ≡ true
    → equal_at l r os ≡ true
unfolding equal_at
equal_at_trans l m r [] h k = refl
equal_at_trans l m r (o ∷ os) h k = ground (arith, equal_at_trans l m r os)

offsets-sym : (l r : Report) (o : Option (List ℕ)) → equal_at? l r o ≡ true → equal_at? r l o ≡ true
unfolding equal_at?
offsets-sym l r none h = h
offsets-sym l r (some os) h = equal_at-sym l r os h

offsets_trans :
    (l m r : Report) (o : Option (List ℕ))
    → equal_at? l m o ≡ true
    → equal_at? m r o ≡ true
    → equal_at? l r o ≡ true
unfolding equal_at?
offsets_trans l m r none h k = h
offsets_trans l m r (some os) h k = equal_at_trans l m r os h k

same-sym :
    (q : VhfInputReportQueue) (l r : Report)
    → same_discrete_state q l r ≡ true
    → same_discrete_state q r l ≡ true
unfolding same_discrete_state
same-sym q l r h = ground (arith, offsets-sym l r (discrete_offsets q.gamepad_kind q.bus_type))

same_trans :
    (q : VhfInputReportQueue) (l m r : Report)
    → same_discrete_state q l m ≡ true
    → same_discrete_state q m r ≡ true
    → same_discrete_state q l r ≡ true
unfolding same_discrete_state
same_trans q l m r h k =
    ground (arith, offsets_trans l m r (discrete_offsets q.gamepad_kind q.bus_type))

-- No two neighbours are related.
abbrev pub Distinct : (Report → Report → Bool) → List Report → Type 0
Distinct same [] = Unit
Distinct same (r ∷ []) = Unit
Distinct same (r ∷ s ∷ rs) = (same r s ≡ false) × Distinct same (s ∷ rs)

module _ (same : Report → Report → Bool) where
  tail-Distinct : (rs : List Report) → Distinct same rs → Distinct same (tail rs)
  tail-Distinct [] d = tt
  tail-Distinct (r ∷ []) d = tt
  tail-Distinct (r ∷ s ∷ rs) d = d.1

  append-Distinct :
      (rs : List Report) (r : Report)
      → ((b : Report) → last? rs ≡ some b → same b r ≡ false)
      → Distinct same rs
      → Distinct same (rs ++ r ∷ [])
  append-Distinct [] r h d = tt
  append-Distinct (b ∷ []) r h d = (h b refl, tt)
  append-Distinct (p ∷ b ∷ rs) r h d = (d.0, append-Distinct (b ∷ rs) r h d.1)

  set_last-Distinct :
      (rs : List Report) (b r : Report)
      → ((p : Report) → same p b ≡ false → same p r ≡ false)
      → last? rs ≡ some b
      → Distinct same rs
      → Distinct same (set_last rs r)
  set_last-Distinct [] b r h e d = tt
  set_last-Distinct (x ∷ []) b r h e d = tt
  set_last-Distinct (p ∷ x ∷ []) b r h e d = (h p (ground (arith, d.0)), tt)
  set_last-Distinct (p ∷ x ∷ y ∷ rs) b r h e d = (d.0, set_last-Distinct (x ∷ y ∷ rs) b r h e d.1)

-- `q` is configured as `c`, and neighbours of its regular lane differ in their discrete states.
pub record IsCoalesced (c q : VhfInputReportQueue) : Type 0 where
  pub kind : q.gamepad_kind ≡ c.gamepad_kind
  pub bus : q.bus_type ≡ c.bus_type
  pub id : q.input_report_id ≡ c.input_report_id
  pub distinct : Distinct (same_discrete_state c) q.reports

-- A superseding report stands to the one before it as the superseded one did.
same-false :
    (c : VhfInputReportQueue) (p b r : Report)
    → same_discrete_state c b r ≡ true
    → same_discrete_state c p b ≡ false
    → same_discrete_state c p r ≡ false
same-false c p b r s n = elim (Bool-cases (same_discrete_state c p r)) [
  | inl e ↦ cc (same_trans c p r b e (same-sym c b r s))
  | inr e ↦ e
]

same_config :
    (c q : VhfInputReportQueue) (l r : Report)
    → IsCoalesced c q
    → same_discrete_state q l r ≡ same_discrete_state c l r
unfolding same_discrete_state
same_config c q l r v = rw (v.kind, v.bus, v.id)

supersedes-some :
    (q : VhfInputReportQueue) (r b : Report)
    → last? q.reports ≡ some b
    → supersedes_back q r ≡ same_discrete_state q b r
unfolding supersedes_back
supersedes-some q r b e = rw (e, supersedes_back)

make_room-IsCoalesced : (c q : VhfInputReportQueue) → IsCoalesced c q → IsCoalesced c (make_room q)
unfolding make_room
make_room-IsCoalesced c q v =
    ground (arith, tail-Distinct (same_discrete_state c) q.reports v.distinct)

last?-tail : (rs : List Report) (b : Report) → last? (tail rs) ≡ some b → last? rs ≡ some b
last?-tail [] b e = e
last?-tail (r ∷ []) b e = cc
last?-tail (r ∷ s ∷ rs) b e = e

last?-make_room :
    (q : VhfInputReportQueue) (b : Report)
    → last? (make_room q).reports ≡ some b
    → last? q.reports ≡ some b
unfolding make_room
last?-make_room q b e = ground (arith, last?-tail q.reports b)

push_new-IsCoalesced :
    (c q : VhfInputReportQueue) (r : Report)
    → supersedes_back q r ≡ false
    → IsCoalesced c q
    → IsCoalesced c (append_report r (make_room q))
unfolding append_report
push_new-IsCoalesced c q r s v =
    let m = make_room-IsCoalesced c q v in
    record {
      kind = m.kind;
      bus = m.bus;
      id = m.id;
      distinct =
          append-Distinct (same_discrete_state c) (make_room q).reports r
            (λ b e.
              let e' = last?-make_room q b e in
              sym (same_config c q b r v) ∙ sym (supersedes-some q r b e') ∙ s)
            m.distinct;
    }

push_same-IsCoalesced :
    (c q : VhfInputReportQueue) (r : Report)
    → supersedes_back q r ≡ true
    → IsCoalesced c q
    → IsCoalesced c (record q { reports = set_last q.reports r })
unfolding supersedes_back
push_same-IsCoalesced c q r s v = elim (Option-cases (last? q.reports)) [
  | inl e ↦ absurd (ground arith)
  | inr (b, e) ↦
      let same : same_discrete_state c b r ≡ true =
        sym (same_config c q b r v) ∙ sym (supersedes-some q r b e) ∙ s in
      record {
        kind = v.kind;
        bus = v.bus;
        id = v.id;
        distinct =
            set_last-Distinct (same_discrete_state c) q.reports b r
              (λ p n. same-false c p b r same n) e v.distinct;
      }
]

push-IsCoalesced :
    (c q : VhfInputReportQueue) (r : Report) → IsCoalesced c q → IsCoalesced c (push q r)
unfolding push append_protocol
push-IsCoalesced c q r v =
    ground
      (arith, make_room-IsCoalesced c q v, push_new-IsCoalesced c q r, push_same-IsCoalesced c q r)

pop-IsCoalesced : (c q : VhfInputReportQueue) → IsCoalesced c q → IsCoalesced c (pop q).1
unfolding pop
pop-IsCoalesced c q v = ground (arith, tail-Distinct (same_discrete_state c) q.reports v.distinct)

run-IsCoalesced :
    (c q : VhfInputReportQueue) (ops : List Op) → IsCoalesced c q → IsCoalesced c (run q ops)
unfolding run step clear
run-IsCoalesced c q [] v = v
run-IsCoalesced c q (pushes r ∷ ops) v = run-IsCoalesced c (push q r) ops (push-IsCoalesced c q r v)
run-IsCoalesced c q (pops ∷ ops) v = run-IsCoalesced c (pop q).1 ops (pop-IsCoalesced c q v)
run-IsCoalesced c q (clears ∷ ops) v =
    run-IsCoalesced c (clear q) ops
      (record { kind = v.kind; bus = v.bus; id = v.id; distinct = tt })

-- After any history of pushes, pops and clears on a new queue, no two neighbouring pending regular
-- reports have the same discrete state: every report that could be superseded has been.
pub run-create-Distinct :
    (kind bus id : ℕ) (ops : List Op)
    → let q = create kind bus id in Distinct (same_discrete_state q) (run q ops).reports
unfolding create
run-create-Distinct kind bus id ops =
    (run-IsCoalesced _ _ ops
      (record { kind = refl; bus = refl; id = refl; distinct = tt })).distinct
