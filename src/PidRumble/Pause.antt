-- ===== src/PidRumble/Pause.antt =====
-- Pausing and continuing a `GenericPidRumbleState`.
use plank_libvirtualhid.Common.Float.{Float}
use plank_libvirtualhid.Common.{
  ℕ, zero, suc, ◌+◌, ◌-◌, ◌%◌, ◌^◌, ◌≤◌, ◌<◌, ◌≡◌, refl, ap, ◌∙◌, true, false, not, ◌||◌, ◌⊎◌,
  Option, none, some, List, [], ◌∷◌, map, min, if◌then◌else◌, arith, length, get_or, set,
}
use plank_libvirtualhid.PidRumble.Force.{scale_force}
use plank_libvirtualhid.PidRumble.{
  Effect, new_effect, RumbleState, effect_at, with_effect, start_effect, shift_effect,
  continue_effects, resume_since,
}
use plank_libvirtualhid.PidRumble.Reports.{
  is_felt, candidate, earlier, next_of, next_transition, combined, current_strength,
}

abbrev pub later_by : ℕ → Option ℕ → Option ℕ
later_by n none = none
later_by n (some t) = some (t + n)

shift_felt :
    (p now : ℕ) (e : Effect) → p ≤ now → is_felt now (shift_effect (now - p) e) ≡ is_felt p e
unfolding is_felt shift_effect
shift_felt p now e h = ground arith

shift_candidate : (n : ℕ) (e : Effect) → candidate (shift_effect n e) ≡ later_by n (candidate e)
unfolding candidate shift_effect
shift_candidate n e = ground arith

shift_earlier :
    (n : ℕ) (o p : Option ℕ) → earlier (later_by n o) (later_by n p) ≡ later_by n (earlier o p)
unfolding earlier
shift_earlier n none p = refl
shift_earlier n (some t) none = refl
shift_earlier n (some t) (some u) = ground arith

shift_next_of :
    (n : ℕ) (next : Option ℕ) (es : List Effect)
    → next_of (later_by n next) (map (shift_effect n) es) ≡ later_by n (next_of next es)
unfolding next_of
shift_next_of n next [] = refl
shift_next_of n next (e ∷ es) =
    ap (λ c. next_of (earlier c (later_by n next)) (map (shift_effect n) es)) (shift_candidate n e)
    ∙ ap (λ o. next_of o (map (shift_effect n) es)) (shift_earlier n (candidate e) next)
    ∙ shift_next_of n (earlier (candidate e) next) es

shift_force :
    (n : ℕ) (e : Effect)
    → ((shift_effect n e).magnitude ≡ e.magnitude) × ((shift_effect n e).gain ≡ e.gain)
unfolding shift_effect
shift_force n e = ground arith

module _ (double : Float) where
  -- One step of the sum.
  abbrev added : ℕ → ℕ → ℕ → Effect → ℕ
  added gain now total e =
      if is_felt now e then (total + scale_force double e.magnitude e.gain gain) % 2 ^ 32 else total

  shift_total :
      (p now gain total : ℕ) (e : Effect)
      → p ≤ now
      → added gain now total (shift_effect (now - p) e) ≡ added gain p total e
  shift_total p now gain total e h =
      rw (shift_felt p now e h, (shift_force (now - p) e).0, (shift_force (now - p) e).1)

  shift_combined :
      (p now gain total : ℕ) (es : List Effect)
      → p ≤ now
      → combined double gain now total (map (shift_effect (now - p)) es)
        ≡ combined double gain p total es
  unfolding combined
  shift_combined p now gain total [] h = refl
  shift_combined p now gain total (e ∷ es) h =
      ap (λ t. combined double gain now t (map (shift_effect (now - p)) es))
        (shift_total p now gain total e h)
      ∙ shift_combined p now gain (added gain p total e) es h

  -- A pause stops the clock: continuing at `now` a device that is paused since `p` gives the
  -- strength that the same device, not paused, has at `p`, and every later transition comes later
  -- by the length of the pause.
  pub continue_effects_lem :
      (s : RumbleState) (p now : ℕ)
      → s.paused ≡ true
      → s.pause_started ≡ some p
      → p ≤ now
      → let awake = record s { paused = false; pause_started = none } in
        (current_strength double now (continue_effects now s) ≡ current_strength double p awake)
        × (next_transition (continue_effects now s) ≡ later_by (now - p) (next_transition awake))
  unfolding continue_effects current_strength next_transition
  continue_effects_lem s p now e f h =
      rw (e, f, resume_since)
        (
          ap (λ t. if not s.actuators_enabled || false then 0 else min t 65535)
              (shift_combined p now s.device_gain 0 s.effects h),
          shift_next_of (now - p) none s.effects,
        )

get_or-set_self :
    (es : List Effect) (i : ℕ) (v d : Effect) → i < length es → get_or (set es i v) i d ≡ v
get_or-set_self [] i v d h = elim h [ ]
get_or-set_self (e ∷ es) zero v d h = refl
get_or-set_self (e ∷ es) (suc i) v d h = get_or-set_self es i v d (omega arith)

get_or-map :
    (f : Effect → Effect) (es : List Effect) (i : ℕ) (d : Effect)
    → i < length es
    → get_or (map f es) i d ≡ f (get_or es i d)
get_or-map f [] i d h = elim h [ ]
get_or-map f (e ∷ es) zero d h = refl
get_or-map f (e ∷ es) (suc i) d h = get_or-map f es i d (omega arith)

length-set_effect : (es : List Effect) (i : ℕ) (v : Effect) → length (set es i v) ≡ length es
length-set_effect [] i v = refl
length-set_effect (e ∷ es) zero v = refl
length-set_effect (e ∷ es) (suc i) v = ap suc (length-set_effect es i v)

late_start :
    (e : Effect) (loops p n now : ℕ)
    → e.start_delay ≡ 0
    → e.duration_is_infinite ≡ true
    → (e.effect_type ≡ 1) ⊎ (e.effect_type ≡ 2)
    → p < n
    → n ≤ now
    → let e' = shift_effect (now - p) (start_effect e loops n) in
      (is_felt now e' ≡ false) × (candidate e' ≡ none) × (is_felt (n + (now - p)) e' ≡ true)
unfolding is_felt candidate start_effect shift_effect
late_start e loops p n now d inf t h k = ground arith

-- An effect without a delay and without an end that is started while the device is paused is moved
-- by the whole length of the pause when the device continues. It is not felt then, only from a
-- moment that lies as far after the continuation as the start lay after the pause, and this moment
-- is no candidate for the next transition.
pub continue_misses_start :
    (s : RumbleState) (i loops p n now : ℕ)
    → i < length s.effects
    → s.paused ≡ true
    → s.pause_started ≡ some p
    → (effect_at s i).start_delay ≡ 0
    → (effect_at s i).duration_is_infinite ≡ true
    → ((effect_at s i).effect_type ≡ 1) ⊎ ((effect_at s i).effect_type ≡ 2)
    → p < n
    → n ≤ now
    → let e =
        effect_at
          (continue_effects now (with_effect s i (start_effect (effect_at s i) loops n)))
          i in
      (is_felt now e ≡ false) × (candidate e ≡ none) × (is_felt (n + (now - p)) e ≡ true)
unfolding continue_effects
continue_misses_start s i loops p n now b e f d inf t h k =
    rw
      (
        e,
        f,
        resume_since,
        get_or-map (shift_effect (now - p)) (set s.effects i (start_effect (effect_at s i) loops n))
            i new_effect
            (omega (arith, length-set_effect s.effects i (start_effect (effect_at s i) loops n))),
        get_or-set_self s.effects i (start_effect (effect_at s i) loops n) new_effect b,
      )
      (late_start (effect_at s i) loops p n now d inf t h k)
