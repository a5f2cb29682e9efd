-- ===== src/Driver/Sessions/Ids.antt =====
-- The ids of the table and those of the objects of VHF and the framework, under each change.
use plank_libvirtualhid.Common.{
  ℕ, ◌+◌, ◌≤◌, ◌<◌, ◌≡◌, refl, Bool, true, false, not, ◌&&◌, ◌||◌, List, [], ◌∷◌, ◌++◌, ◌==◌,
  if_elim, subst, Bool-cases, inl, inr, some, arith,
}
use plank_libvirtualhid.Driver.Sessions.{
  Session, Sessions, find_session, erase_session, delete_object, erase_owned, delete_owned,
}

abbrev pub has_id : ℕ → List ℕ → Bool
has_id i [] = false
has_id i (j ∷ js) = j == i || has_id i js

abbrev pub has_session : ℕ → Sessions → Bool
has_session i [] = false
has_session i ((j, s) ∷ ss) = j == i || has_session i ss

-- No two sessions have one id, every id is below a bound, and every session has its handles.
abbrev pub IsDistinct : ℕ → Sessions → Type 0
IsDistinct bound [] = Unit
IsDistinct bound ((i, s) ∷ ss) =
    (has_session i ss ≡ false)
    × (i < bound)
    × (s.vhf_handle ≡ true)
    × (s.vhf_io_target ≡ true)
    × IsDistinct bound ss

pub has_session-erase_session :
    (i id : ℕ) (ss : Sessions)
    → has_session i (erase_session id ss) ≡ (has_session i ss && not (id == i))
unfolding erase_session
has_session-erase_session i id [] = refl
has_session-erase_session i id ((j, s) ∷ ss) = ground (arith, has_session-erase_session i id ss)

pub has_id-delete_object :
    (i id : ℕ) (is : List ℕ) → has_id i (delete_object id is) ≡ (has_id i is && not (id == i))
unfolding delete_object
has_id-delete_object i id [] = refl
has_id-delete_object i id (j ∷ js) = ground (arith, has_id-delete_object i id js)

pub has_id-append : (i id : ℕ) (is : List ℕ) → has_id i (is ++ (id ∷ [])) ≡ (has_id i is || id == i)
has_id-append i id [] = ground arith
has_id-append i id (j ∷ js) = ground (arith, has_id-append i id js)

pub has_session-append :
    (i id : ℕ) (s : Session) (ss : Sessions)
    → has_session i (ss ++ ((id, s) ∷ [])) ≡ (has_session i ss || id == i)
has_session-append i id s [] = ground arith
has_session-append i id s ((j, c) ∷ ss) = ground (arith, has_session-append i id s ss)

pub has_session-erase_owned :
    (i : ℕ) (owned : Session → Bool) (ss : Sessions)
    → has_session i ss ≡ false
    → has_session i (erase_owned owned ss) ≡ false
unfolding erase_owned
has_session-erase_owned i owned [] h = refl
has_session-erase_owned i owned ((j, s) ∷ ss) h = ground (arith, has_session-erase_owned i owned ss)

pub has_id-delete_owned_none :
    (i : ℕ) (owned held : Session → Bool) (ss : Sessions) (is : List ℕ)
    → has_session i ss ≡ false
    → has_id i (delete_owned owned held ss is) ≡ has_id i is
unfolding delete_owned
has_id-delete_owned_none i owned held [] is h = refl
has_id-delete_owned_none i owned held ((j, s) ∷ ss) is h = ground (
  arith,
  has_id-delete_owned_none i owned held ss is,
  has_id-delete_owned_none i owned held ss (delete_object j is),
  has_id-delete_object i j is,
)

-- An id is left in VHF exactly if its session is left.
pub has_id-delete_owned :
    (i bound : ℕ) (owned held : Session → Bool) (ss : Sessions) (is : List ℕ)
    → ((s : Session) → s.vhf_handle ≡ true → s.vhf_io_target ≡ true → held s ≡ true)
    → IsDistinct bound ss
    → has_id i (delete_owned owned held ss is)
      ≡ (has_id i is && (not (has_session i ss) || has_session i (erase_owned owned ss)))
unfolding delete_owned erase_owned
has_id-delete_owned i bound owned held [] is h d = ground arith
has_id-delete_owned i bound owned held ((j, s) ∷ ss) is h d = ground (
  arith,
  h s d.2 d.3,
  d.0,
  has_id-delete_owned i bound owned held ss is h d.4,
  has_id-delete_owned i bound owned held ss (delete_object j is) h d.4,
  has_id-delete_object i j is,
  has_session-erase_owned j owned ss d.0,
)

pub IsDistinct-erase_session :
    (bound id : ℕ) (ss : Sessions) → IsDistinct bound ss → IsDistinct bound (erase_session id ss)
unfolding erase_session
IsDistinct-erase_session bound id [] d = tt
IsDistinct-erase_session bound id ((j, s) ∷ ss) d =
    if_elim (IsDistinct bound) (j == id) (λ _. IsDistinct-erase_session bound id ss d.4)
      (λ _. (
        ground (arith, d.0, has_session-erase_session j id ss),
        d.1,
        d.2,
        d.3,
        IsDistinct-erase_session bound id ss d.4,
      ))

pub IsDistinct-erase_owned :
    (bound : ℕ) (owned : Session → Bool) (ss : Sessions)
    → IsDistinct bound ss
    → IsDistinct bound (erase_owned owned ss)
unfolding erase_owned
IsDistinct-erase_owned bound owned [] d = tt
IsDistinct-erase_owned bound owned ((j, s) ∷ ss) d =
    if_elim (IsDistinct bound) (owned s) (λ _. IsDistinct-erase_owned bound owned ss d.4)
      (λ _. (
        has_session-erase_owned j owned ss d.0,
        d.1,
        d.2,
        d.3,
        IsDistinct-erase_owned bound owned ss d.4,
      ))

-- A session with the bound as its id is a new one.
pub erase_session-new :
    (bound id : ℕ) (ss : Sessions) → bound ≤ id → IsDistinct bound ss → erase_session id ss ≡ ss
unfolding erase_session
erase_session-new bound id [] le d = refl
erase_session-new bound id ((j, s) ∷ ss) le d =
    ground (arith, d.1, erase_session-new bound id ss le d.4)

pub IsDistinct-append :
    (bound : ℕ) (session : Session) (ss : Sessions)
    → session.vhf_handle ≡ true
    → session.vhf_io_target ≡ true
    → IsDistinct bound ss
    → IsDistinct (bound + 1) (ss ++ ((bound, session) ∷ []))
IsDistinct-append bound session [] h t d = (refl, omega arith, h, t, tt)
IsDistinct-append bound session ((j, s) ∷ ss) h t d = (
  ground (arith, d.0, d.1, has_session-append j bound session ss),
  omega (arith, d.1),
  d.2,
  d.3,
  IsDistinct-append bound session ss h t d.4,
)

pub has_session-bound :
    (bound : ℕ) (ss : Sessions) → IsDistinct bound ss → has_session bound ss ≡ false
has_session-bound bound [] d = refl
has_session-bound bound ((j, s) ∷ ss) d = ground (arith, d.1, has_session-bound bound ss d.4)

-- A session that is found has its handles.
pub find_session-handles :
    (bound id : ℕ) (ss : Sessions) (s : Session)
    → IsDistinct bound ss
    → find_session id ss ≡ some s
    → (s.vhf_handle ≡ true) × (s.vhf_io_target ≡ true)
unfolding find_session
find_session-handles bound id [] s d e = ground (arith, e)
find_session-handles bound id ((j, c) ∷ ss) s d e = elim (Bool-cases (j == id)) [
  | inl t ↦
      let same : c ≡ s = ground (arith, t, e) in
      subst (λ (c : Session). (c.vhf_handle ≡ true) × (c.vhf_io_target ≡ true)) same (d.2, d.3)
  | inr f ↦ find_session-handles bound id ss s d.4 (ground (arith, e, f))
]
