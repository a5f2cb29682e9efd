-- ===== src/Vhf/Coalesce.antt =====
-- What `VhfInputReportQueue` delivers, against a description of it on whole lists: the protocol
-- reports in order, then the last report of each run of equal discrete states.
use mathlib.Core.List.{append_assoc, append-nil}
use plank_libvirtualhid.Common.{
  ℕ, zero, suc, ◌+◌, ◌≤◌, ◌<◌, ◌≡◌, refl, ap, ◌∙◌, inl, inr, Bool, true, false, not, none, some,
  List, [], ◌∷◌, ◌++◌, length, arith, length-append, last?-append, set_last-append, Bool-cases,
  if◌then◌else◌,
}
use plank_libvirtualhid.Vhf.{
  Report, VhfInputReportQueue, max_pending, create, size, is_protocol_report, same_discrete_state,
  make_room, supersedes_back, append_protocol, append_report, push, pop,
}

unfoldable pub push_all : VhfInputReportQueue → List Report → VhfInputReportQueue
push_all q [] = q
push_all q (r ∷ rs) = push_all (push q r) rs

-- What `n` calls of `pop` return.
unfoldable pub drain : ℕ → VhfInputReportQueue → List Report
drain zero q = []
drain (suc n) q =
    let (r, q') = pop q in
    let rest = drain n q' in elim r [ none ↦ rest | some report ↦ report ∷ rest ]

-- The sublist of the reports that do, or do not, pass a test.
abbrev pub keep : (Report → Bool) → List Report → List Report
keep p [] = []
keep p (r ∷ rs) = if p r then r ∷ keep p rs else keep p rs

-- The last report of each run of neighbours that `same` relates.
abbrev pub coalesce : (Report → Report → Bool) → List Report → List Report
coalesce same [] = []
coalesce same (r ∷ []) = r ∷ []
coalesce same (r ∷ s ∷ rs) = if same r s then coalesce same (s ∷ rs) else r ∷ coalesce same (s ∷ rs)

module _ (q : VhfInputReportQueue) where
  -- The queue `q` with other lanes.
  abbrev pub lanes : List Report → List Report → VhfInputReportQueue
  lanes ps rs = record q { protocol_reports = ps; reports = rs }

  abbrev pub protocol : List Report → List Report
  protocol = keep (is_protocol_report q)

  abbrev pub regular : List Report → List Report
  regular = keep (λ r. not (is_protocol_report q r))

  push_protocol :
      (ps rs : List Report) (r : Report)
      → is_protocol_report q r ≡ true
      → length ps + length rs < max_pending
      → push (lanes ps rs) r ≡ lanes (ps ++ r ∷ []) rs
  unfolding push make_room append_protocol size is_protocol_report
  push_protocol ps rs r t h = ground arith

  supersedes-append :
      (ps pre : List Report) (b r : Report)
      → supersedes_back (lanes ps (pre ++ b ∷ [])) r ≡ same_discrete_state q b r
  unfolding supersedes_back same_discrete_state
  supersedes-append ps pre b r = rw (last?-append pre b, supersedes_back)

  is_protocol-lanes :
      (ps rs : List Report) (r : Report)
      → is_protocol_report (lanes ps rs) r ≡ is_protocol_report q r
  unfolding is_protocol_report
  is_protocol-lanes ps rs r = refl

  push_same :
      (ps pre : List Report) (b r : Report)
      → is_protocol_report q r ≡ false
      → same_discrete_state q b r ≡ true
      → push (lanes ps (pre ++ b ∷ [])) r ≡ lanes ps (pre ++ r ∷ [])
  unfolding push
  push_same ps pre b r t s = rw (
    is_protocol-lanes ps (pre ++ b ∷ []) r,
    t,
    supersedes-append ps pre b r,
    s,
    set_last-append pre b r,
  )

  push_new :
      (ps pre : List Report) (b r : Report)
      → is_protocol_report q r ≡ false
      → same_discrete_state q b r ≡ false
      → length ps + length pre + 1 < max_pending
      → push (lanes ps (pre ++ b ∷ [])) r ≡ lanes ps ((pre ++ b ∷ []) ++ r ∷ [])
  unfolding push make_room append_report size
  push_new ps pre b r t s h =
      rw (is_protocol-lanes ps (pre ++ b ∷ []) r, t, supersedes-append ps pre b r, s)
        (ground (arith, length-append pre (b ∷ [])))

  push_first :
      (ps : List Report) (r : Report)
      → is_protocol_report q r ≡ false
      → length ps < max_pending
      → push (lanes ps []) r ≡ lanes ps (r ∷ [])
  unfolding push make_room append_report size supersedes_back is_protocol_report
  push_first ps r t h = ground arith

  abbrev merged : List Report → List Report
  merged = coalesce (same_discrete_state q)

  length-coalesce_pos : (b : Report) (rs : List Report) → 1 ≤ length (merged (b ∷ rs))
  length-coalesce_pos b [] = omega arith
  length-coalesce_pos b (r ∷ rs) = ground (arith, length-coalesce_pos r rs)

  -- From a nonempty regular lane.
  push_all-lanes :
      (rs ps pre : List Report) (b : Report)
      → length ps + length (protocol rs) + length pre + length (merged (b ∷ regular rs))
        ≤ max_pending
      → push_all (lanes ps (pre ++ b ∷ [])) rs
        ≡ lanes (ps ++ protocol rs) (pre ++ merged (b ∷ regular rs))
  unfolding push_all
  push_all-lanes [] ps pre b h = rw append-nil
  push_all-lanes (r ∷ rs) ps pre b h = elim (Bool-cases (is_protocol_report q r)) [
    | inl t ↦
        let h' = rw t at h in
        let l = length-coalesce_pos b (regular rs) in
        rw (
          t,
          push_protocol ps (pre ++ b ∷ []) r t (omega (arith, h', l, length-append pre (b ∷ []))),
          push_all-lanes rs (ps ++ r ∷ []) pre b (omega (arith, h', length-append ps (r ∷ []))),
          append_assoc,
        )
    | inr t ↦ elim (Bool-cases (same_discrete_state q b r)) [
      | inl s ↦
          let h' = rw (t, s) at h in
          rw (t, s, push_same ps pre b r t s, push_all-lanes rs ps pre r h')
      | inr s ↦
          let h' = rw (t, s) at h in
          let l = length-coalesce_pos r (regular rs) in
          rw (
            t,
            s,
            push_new ps pre b r t s (omega (arith, h', l)),
            push_all-lanes rs ps (pre ++ b ∷ []) r (omega (arith, h', length-append pre (b ∷ []))),
            append_assoc,
          )
    ]
  ]

  push_all-none :
      (rs ps : List Report)
      → length ps + length (protocol rs) + length (merged (regular rs)) ≤ max_pending
      → push_all (lanes ps []) rs ≡ lanes (ps ++ protocol rs) (merged (regular rs))
  unfolding push_all
  push_all-none [] ps h = rw append-nil
  push_all-none (r ∷ rs) ps h = elim (Bool-cases (is_protocol_report q r)) [
    | inl t ↦
        let h' = rw t at h in
        rw (
          t,
          push_protocol ps [] r t (omega (arith, h')),
          push_all-none rs (ps ++ r ∷ []) (omega (arith, h', length-append ps (r ∷ []))),
          append_assoc,
        )
    | inr t ↦
        let h' = rw t at h in
        rw (
          t,
          push_first ps r t (omega (arith, h', length-coalesce_pos r (regular rs))),
          push_all-lanes rs ps [] r (omega (arith, h')),
        )
  ]

drain-lanes :
    (n : ℕ) (q : VhfInputReportQueue) (ps rs : List Report)
    → length ps + length rs ≤ n
    → drain n (lanes q ps rs) ≡ ps ++ rs
unfolding drain pop
drain-lanes zero q [] [] h = refl
drain-lanes zero q [] (r ∷ rs) h = absurd (omega arith)
drain-lanes zero q (p ∷ ps) rs h = absurd (omega arith)
drain-lanes (suc n) q [] [] h = drain-lanes n q [] [] (omega arith)
drain-lanes (suc n) q [] (r ∷ rs) h = ap (◌∷◌ r) (drain-lanes n q [] rs (omega arith))
drain-lanes (suc n) q (p ∷ ps) rs h = ap (◌∷◌ p) (drain-lanes n q ps rs (omega arith))

-- A burst of reports pushed on a new queue, of which at most 32 have to be kept, is delivered by
-- as many calls of `pop` as this: first every protocol report, in the order of the pushes, and
-- then the last report of each run of neighbouring regular reports with one discrete state.
pub drain-push_all :
    (kind bus id : ℕ) (rs : List Report)
    → let q = create kind bus id in
      let due = protocol q rs ++ coalesce (same_discrete_state q) (regular q rs) in
      length due ≤ max_pending → drain (length due) (push_all q rs) ≡ due
unfolding create
drain-push_all kind bus id rs h =
    let q = create kind bus id in
    let ps = protocol q rs in
    let ms = coalesce (same_discrete_state q) (regular q rs) in
    let sum = length-append ps ms in
    ap (drain (length (ps ++ ms))) (push_all-none q rs [] (omega (arith, h, sum)))
    ∙ drain-lanes (length (ps ++ ms)) q ps ms (omega (arith, sum))
