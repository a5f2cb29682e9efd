-- ===== src/PidRumble/Quiet.antt =====
-- Between two transitions of `GenericPidRumbleState` nothing that can be felt happens.
use plank_libvirtualhid.Common.Float.{Float}
use plank_libvirtualhid.Common.{
  ℕ, ◌≤◌, ◌≡◌, refl, ap₂, ◌∙◌, sym, true, false, Option, none, some, List, [], ◌∷◌, map, ◌==◌,
  arith, Bool-cases, inl, inr, ==_refl, ==_iff,
}
use plank_libvirtualhid.PidRumble.{Effect, RumbleState, unchanged, expire_effect, expire_effects}
use plank_libvirtualhid.PidRumble.Reports.{
  is_felt, candidate, next_transition, combined, current_strength, advance,
}
use plank_libvirtualhid.PidRumble.Schedule.{Later, All, All-map, Covers, next_transition-Covers}

abbrev pub EndsAfter : ℕ → Option ℕ → Type 0
EndsAfter start none = Unit
EndsAfter start (some t) = start ≤ t

-- A running effect that counts as started has started by `now`, and no effect ends before it starts.
pub record IsTimely (now : ℕ) (e : Effect) : Type 0 where
  pub by_now : e.running ≡ true → e.started ≡ true → e.start ≤ now
  pub ends_after : e.running ≡ true → EndsAfter e.start e.end

expire-IsTimely :
    (from now : ℕ) (e : Effect) → from ≤ now → IsTimely from e → IsTimely now (expire_effect now e)
unfolding expire_effect
expire-IsTimely from now e h v = record {
  by_now = ground (arith, v.by_now);
  ends_after = ground (arith, v.ends_after);
}

-- Before its next transition an effect neither changes nor starts or stops to be felt.
quiet_expire :
    (now later : ℕ) (e : Effect)
    → now ≤ later
    → IsTimely now e
    → Later later (candidate e)
    → expire_effect later e ≡ e
unfolding candidate expire_effect
quiet_expire now later e h v l = ground (arith, v.by_now, v.ends_after)

quiet_felt :
    (now later : ℕ) (e : Effect) → now ≤ later → IsTimely now e → is_felt later e ≡ is_felt now e
unfolding is_felt
quiet_felt now later e h v = ground (arith, v.by_now)

Covers-Later : (later : ℕ) (next o : Option ℕ) → Covers next o → Later later next → Later later o
Covers-Later later next none c l = tt
Covers-Later later none (some t) c l = absurd c
Covers-Later later (some u) (some t) c l = omega arith

module _ (double : Float) where
  -- The same for a whole list of effects.
  record IsQuiet (now later : ℕ) (es : List Effect) : Type 0 where
    same : map (expire_effect later) es ≡ es
    felt :
        (gain total : ℕ) → combined double gain later total es ≡ combined double gain now total es

  All-IsQuiet :
      (now later : ℕ) (next : Option ℕ) (es : List Effect)
      → now ≤ later
      → Later later next
      → All (IsTimely now) es
      → All (λ e. Covers next (candidate e)) es
      → IsQuiet now later es
  unfolding combined
  All-IsQuiet now later next [] h l v c = record { same = refl; felt = λ gain total. refl }
  All-IsQuiet now later next (e ∷ es) h l v c =
      let rest = All-IsQuiet now later next es h l v.1 c.1 in
      record {
        same =
            ap₂ ◌∷◌ (quiet_expire now later e h v.0 (Covers-Later later next (candidate e) c.0 l))
              rest.same;
        felt = λ gain total. rw (quiet_felt now later e h v.0) (rest.felt gain _);
      }

  paused-advance : (now : ℕ) (s : RumbleState) → (advance double now s).1.paused ≡ s.paused
  unfolding advance expire_effects
  paused-advance now s = ground arith

  effects-advance :
      (now : ℕ) (s : RumbleState)
      → s.paused ≡ false
      → (advance double now s).1.effects ≡ map (expire_effect now) s.effects
  unfolding advance expire_effects
  effects-advance now s h = ground arith

  strength-record :
      (now n : ℕ) (s : RumbleState)
      → current_strength double now (record s { last_strength = n }) ≡ current_strength double now s
  unfolding current_strength
  strength-record now n s = refl

  last_strength-expire :
      (now : ℕ) (s : RumbleState) → (expire_effects now s).last_strength ≡ s.last_strength
  unfolding expire_effects
  last_strength-expire now s = ground arith

  strength-advance :
      (now : ℕ) (s : RumbleState)
      → (advance double now s).1.last_strength
        ≡ current_strength double now (advance double now s).1
  unfolding advance
  strength-advance now s =
      let t = expire_effects now s in
      elim (Bool-cases (current_strength double now t == s.last_strength)) [
        | inl e ↦ rw e (last_strength-expire now s ∙ sym ((==_iff _ _).0 e))
        | inr e ↦ rw e (sym (strength-record now (current_strength double now t) t))
      ]

  strength-quiet :
      (now later : ℕ) (s : RumbleState)
      → IsQuiet now later s.effects
      → current_strength double later s ≡ current_strength double now s
  unfolding current_strength
  strength-quiet now later s q = rw (q.felt s.device_gain 0)

  expire-quiet :
      (now later : ℕ) (s : RumbleState) → IsQuiet now later s.effects → expire_effects later s ≡ s
  unfolding expire_effects
  expire-quiet now later s q = ground (arith, q.same)

  advance-same :
      (now : ℕ) (s : RumbleState)
      → expire_effects now s ≡ s
      → current_strength double now s ≡ s.last_strength
      → advance double now s ≡ (unchanged, s)
  unfolding advance
  advance-same now s e f = rw (e, f, ==_refl s.last_strength)

  -- Take a device that is not paused, whose running effects count as started only if they have
  -- started by `from` and do not end before they start. Once it is advanced at `now`, any further
  -- `advance` before its next transition reports no change and leaves the state as it is.
  pub advance_quiet :
      (s : RumbleState) (from now later : ℕ)
      → s.paused ≡ false
      → All (IsTimely from) s.effects
      → from ≤ now
      → now ≤ later
      → Later later (next_transition (advance double now s).1)
      → advance double later (advance double now s).1 ≡ (unchanged, (advance double now s).1)
  advance_quiet s from now later p v h k l =
      let t = (advance double now s).1 in
      let timely : All (IsTimely now) t.effects = rw (effects-advance now s p) (
        All-map (IsTimely from) (IsTimely now) (expire_effect now)
          (λ e. expire-IsTimely from now e h) s.effects v) in
      let q =
        All-IsQuiet now later (next_transition t) t.effects k l timely
          (next_transition-Covers t (paused-advance now s ∙ p)) in
      advance-same later t (expire-quiet now later t q)
        (strength-quiet now later t q ∙ sym (strength-advance now s))
