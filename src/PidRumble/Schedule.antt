-- ===== src/PidRumble/Schedule.antt =====
-- The timer contract of `GenericPidRumbleState`: `next_transition` names a later moment, the first
-- one that matters, and until then `advance` has nothing to report.
use plank_libvirtualhid.Common.Float.{Float}
use plank_libvirtualhid.Common.{
  ℕ, ◌≤◌, ◌<◌, ◌≡◌, refl, subst, true, false, Option, none, some, List, [], ◌∷◌, map, arith, inl,
  inr, ◌⊎◌,
}
use plank_libvirtualhid.PidRumble.{Effect, RumbleState, expire_effect, expire_effects}
use plank_libvirtualhid.PidRumble.Reports.{candidate, earlier, next_of, next_transition, advance}

-- A moment, if any, lies after `now`.
abbrev pub Later : ℕ → Option ℕ → Type 0
Later now none = Unit
Later now (some t) = now < t

abbrev pub All : (Effect → Type 0) → List Effect → Type 0
All P [] = Unit
All P (e ∷ es) = P e × All P es

pub All-map :
    (P Q : Effect → Type 0) (f : Effect → Effect)
    → ((e : Effect) → P e → Q (f e))
    → (es : List Effect) → All P es
    → All Q (map f es)
All-map P Q f h [] a = tt
All-map P Q f h (e ∷ es) a = (h e a.0, All-map P Q f h es a.1)

-- What is left of an effect after `expire_effect` lies in the future.
expire-Later : (now : ℕ) (e : Effect) → Later now (candidate (expire_effect now e))
unfolding candidate expire_effect
expire-Later now e = ground arith

earlier-Later : (now : ℕ) (o p : Option ℕ) → Later now o → Later now p → Later now (earlier o p)
unfolding earlier
earlier-Later now none p h k = k
earlier-Later now (some t) none h k = h
earlier-Later now (some t) (some u) h k = ground arith

next_of-Later :
    (now : ℕ) (next : Option ℕ) (es : List Effect)
    → Later now next
    → All (λ e. Later now (candidate e)) es
    → Later now (next_of next es)
unfolding next_of
next_of-Later now next [] h a = h
next_of-Later now next (e ∷ es) h a =
    next_of-Later now (earlier (candidate e) next) es (earlier-Later now (candidate e) next a.0 h)
      a.1

expired-Later :
    (now : ℕ) (es : List Effect) → All (λ e. Later now (candidate e)) (map (expire_effect now) es)
expired-Later now [] = tt
expired-Later now (e ∷ es) = (expire-Later now e, expired-Later now es)

next_transition-expire :
    (now : ℕ) (s : RumbleState) → Later now (next_transition (expire_effects now s))
unfolding next_transition expire_effects
next_transition-expire now s = ground (
  arith,
  next_of-Later now none (map (expire_effect now) s.effects) tt (expired-Later now s.effects),
)

next_transition-strength :
    (s : RumbleState) (n : ℕ) → next_transition (record s { last_strength = n }) ≡ next_transition s
unfolding next_transition
next_transition-strength s n = refl

-- After `advance` at `now` the next transition, if there is one, lies after `now`: a timer armed
-- with it fires later, and does not spin.
pub next_transition-advance :
    (double : Float) (now : ℕ) (s : RumbleState)
    → Later now (next_transition (advance double now s).1)
unfolding advance next_transition
next_transition-advance double now s = ground (arith, next_transition-expire now s)

-- The option `next` is at most the option `o`, where none stands for never.
abbrev pub Covers : Option ℕ → Option ℕ → Type 0
Covers next none = Unit
Covers none (some t) = ⊥
Covers (some u) (some t) = u ≤ t

-- A moment at which an effect of the list changes by itself: a running effect that has not started
-- starts then, or one that has started ends then.
abbrev pub ChangesAt : ℕ → Effect → Type 0
ChangesAt t e =
    (e.running ≡ true)
    × (((e.started ≡ false) × (e.start ≡ t)) ⊎ ((e.started ≡ true) × (e.end ≡ some t)))

abbrev pub AnyChangesAt : ℕ → List Effect → Type 0
AnyChangesAt t [] = ⊥
AnyChangesAt t (e ∷ es) = ChangesAt t e ⊎ AnyChangesAt t es

candidate-ChangesAt : (e : Effect) (t : ℕ) → candidate e ≡ some t → ChangesAt t e
unfolding candidate
candidate-ChangesAt e t h = ground arith

ChangesAt-candidate : (e : Effect) (t : ℕ) → ChangesAt t e → candidate e ≡ some t
unfolding candidate
ChangesAt-candidate e t h = ground arith

Covers-earlier : (o p q : Option ℕ) → Covers p q → Covers (earlier o p) q
unfolding earlier
Covers-earlier none p q h = h
Covers-earlier (some t) p none h = tt
Covers-earlier (some t) none (some v) h = absurd h
Covers-earlier (some t) (some u) (some v) h = ground arith

Covers-earlier_self : (o p : Option ℕ) → Covers (earlier o p) o
unfolding earlier
Covers-earlier_self none p = tt
Covers-earlier_self (some t) none = omega arith
Covers-earlier_self (some t) (some u) = ground arith

next_of-Covers : (next q : Option ℕ) (es : List Effect) → Covers next q → Covers (next_of next es) q
unfolding next_of
next_of-Covers next q [] h = h
next_of-Covers next q (e ∷ es) h =
    next_of-Covers (earlier (candidate e) next) q es (Covers-earlier (candidate e) next q h)

next_of-least :
    (next : Option ℕ) (es : List Effect) → All (λ e. Covers (next_of next es) (candidate e)) es
unfolding next_of
next_of-least next [] = tt
next_of-least next (e ∷ es) = (
  next_of-Covers (earlier (candidate e) next) (candidate e) es
      (Covers-earlier_self (candidate e) next),
  next_of-least (earlier (candidate e) next) es,
)

earlier-either : (o p : Option ℕ) (t : ℕ) → earlier o p ≡ some t → (o ≡ some t) ⊎ (p ≡ some t)
unfolding earlier
earlier-either none p t h = inr h
earlier-either (some u) none t h = inl h
earlier-either (some u) (some v) t h = ground arith

next_of-AnyChangesAt :
    (next : Option ℕ) (es : List Effect) (t : ℕ)
    → next_of next es ≡ some t
    → (next ≡ some t) ⊎ AnyChangesAt t es
unfolding next_of
next_of-AnyChangesAt next [] t h = inl h
next_of-AnyChangesAt next (e ∷ es) t h = ground (
  arith,
  next_of-AnyChangesAt (earlier (candidate e) next) es t h,
  earlier-either (candidate e) next t,
  candidate-ChangesAt e t,
)

Covers-AnyChangesAt :
    (next : Option ℕ) (es : List Effect) (t : ℕ)
    → All (λ e. Covers next (candidate e)) es
    → AnyChangesAt t es
    → Covers next (some t)
Covers-AnyChangesAt next [] t a h = absurd h
Covers-AnyChangesAt next (e ∷ es) t a (inl h) = subst (Covers next) (ChangesAt-candidate e t h) a.0
Covers-AnyChangesAt next (e ∷ es) t a (inr h) = Covers-AnyChangesAt next es t a.1 h

pub next_transition-Covers :
    (s : RumbleState)
    → s.paused ≡ false
    → All (λ e. Covers (next_transition s) (candidate e)) s.effects
unfolding next_transition
next_transition-Covers s h = rw h (next_of-least none s.effects)

-- While the device is not paused, the next transition is the least of the moments at which a
-- running effect starts, if it has not started, or ends, once it has: if there is such a moment,
-- the next transition is one and none precedes it.
pub next_transition-least :
    (s : RumbleState) (t : ℕ)
    → s.paused ≡ false
    → (AnyChangesAt t s.effects → Covers (next_transition s) (some t))
      × (next_transition s ≡ some t → AnyChangesAt t s.effects)
unfolding next_transition
next_transition-least s t h = rw h (
  Covers-AnyChangesAt (next_of none s.effects) s.effects t (next_of-least none s.effects),
  λ e. ground (arith, next_of-AnyChangesAt none s.effects t e),
)
