-- ===== src/Adapter/State/Synced.antt =====
-- What the gamepad has been given is the state that the adapter keeps.
use Prim.Native.String.{String}
use plank_libvirtualhid.Common.{
  ℕ, ◌+◌, ◌%◌, ◌^◌, ◌≡◌, refl, Bool, true, false, not, Option, none, some, List, length, is_empty,
  leb, if_elim, set,
}
use plank_libvirtualhid.Types.{OperationStatus, ErrorCode, success, failure, is_ok, DeviceProfile}
use plank_libvirtualhid.Types.ButtonSet
use plank_libvirtualhid.Runtime.Device.{on_backend, record_event}
use plank_libvirtualhid.Adapter.State.{
  GamepadState, GamepadTouchContact, no_contact, Gamepad, GamepadStateAdapter, missing_gamepad,
  unsupported_feature, no_motion, no_battery, no_touchpad, button_supported, gamepad_submit,
  submit_to, submit, change, change_for, contact_for, Setter, set_state, set_button, set_left_stick,
  set_right_stick, set_left_trigger, set_right_trigger, set_acceleration, set_gyroscope, set_motion,
  clear_motion, set_battery, clear_battery, set_touchpad_contact, clear_touchpad_contact, apply,
}

module _ {World Handle Number : Type 0} (zero : Number)
    (pack : DeviceProfile → GamepadState Number → List ℕ)
    (normalize : GamepadState Number → GamepadState Number)
    (backend : Handle → GamepadState Number → List ℕ → World → OperationStatus × World) where
  -- A result of a call on an adapter whose gamepad was `before`: with success the gamepad's last
  -- event is the adapter's state, one more than before; with failure the gamepad is as it was.
  pub data Result (before : Option (Gamepad Handle Number))
      : OperationStatus × GamepadStateAdapter Handle Number × World → Type 0 where
    submitted :
        (d e : Gamepad Handle Number) (status : OperationStatus)
        (a : GamepadStateAdapter Handle Number) (w : World)
        → before ≡ some d
        → a.gamepad ≡ some e
        → e.last ≡ (normalize a.state, pack e.options.profile a.state)
        → e.submitted ≡ (d.submitted + 1) % 2 ^ 64
        → is_ok status ≡ true
        → Result before (status, a, w)
    failed :
        (status : OperationStatus) (a : GamepadStateAdapter Handle Number) (w : World)
        → a.gamepad ≡ before
        → is_ok status ≡ false
        → Result before (status, a, w)

  -- What a call of the gamepad means for the adapter.
  abbrev Wrapped :
      Gamepad Handle Number
      → GamepadStateAdapter Handle Number
      → OperationStatus × Gamepad Handle Number × World
      → Type 0
  Wrapped d a r = Result (some d) (r.0, record a { gamepad = some r.1 }, r.2)

  unchanged-Wrapped :
      (d : Gamepad Handle Number) (a : GamepadStateAdapter Handle Number) (status : OperationStatus)
      (w : World)
      → is_ok status ≡ false
      → Wrapped d a (status, d, w)
  unchanged-Wrapped d a status w f = failed status (record a { gamepad = some d }) w refl f

  record_event-Wrapped :
      (d : Gamepad Handle Number) (a : GamepadStateAdapter Handle Number)
      (r : OperationStatus × World)
      → Wrapped d a (record_event (λ _. (normalize a.state, pack d.options.profile a.state)) d r)
  unfolding record_event
  record_event-Wrapped d a r =
      let e = record d {
        last = (normalize a.state, pack d.options.profile a.state);
        submitted = (d.submitted + 1) % 2 ^ 64;
      } in
      if_elim (Wrapped d a) (is_ok r.0)
        (λ _. submitted d e success (record a { gamepad = some e }) r.1 refl refl refl refl refl)
        (λ f. unchanged-Wrapped d a r.0 r.1 f)

  submit_to-Result :
      (o : Option (Gamepad Handle Number)) (a : GamepadStateAdapter Handle Number) (w : World)
      → a.gamepad ≡ o
      → Result o (submit_to pack normalize backend o a w)
  unfolding submit_to gamepad_submit
  submit_to-Result none a w e = failed missing_gamepad a w e refl
  submit_to-Result (some d) a w e =
      let report = pack d.options.profile a.state in
      if_elim (Wrapped d a) (not d.is_open)
        (λ _. unchanged-Wrapped d a (failure ErrorCode.device_closed "gamepad is closed") w refl)
        (λ _.
          if_elim (Wrapped d a) (is_empty report)
            (λ _.
              unchanged-Wrapped d a
                (failure ErrorCode.backend_failure "failed to pack gamepad input report") w refl)
            (λ _.
              record_event-Wrapped d a
                (on_backend d.backend (λ h. backend h (normalize a.state) report) w)))

  change-Result :
      (update : GamepadState Number → GamepadState Number) (a : GamepadStateAdapter Handle Number)
      (w : World)
      → Result a.gamepad (change pack normalize backend update a w)
  unfolding change submit
  change-Result update a w = submit_to-Result a.gamepad (record a { state = update a.state }) w refl

  change_for-Result :
      (o : Option (Gamepad Handle Number)) (supported : Bool) (feature : String)
      (update : GamepadState Number → GamepadState Number) (a : GamepadStateAdapter Handle Number)
      (w : World)
      → a.gamepad ≡ o
      → Result a.gamepad (change_for pack normalize backend o supported feature update a w)
  unfolding change_for
  change_for-Result none supported feature update a w e = failed missing_gamepad a w refl refl
  change_for-Result (some d) supported feature update a w e =
      if_elim (Result a.gamepad) (not supported)
        (λ _. failed (unsupported_feature feature) a w refl refl) (λ _. change-Result update a w)

  contact_for-Result :
      (o : Option (Gamepad Handle Number)) (index : ℕ) (contact : GamepadTouchContact Number)
      (a : GamepadStateAdapter Handle Number) (w : World)
      → Result a.gamepad (contact_for pack normalize backend o index contact a w)
  unfolding contact_for
  contact_for-Result none index contact a w = failed missing_gamepad a w refl refl
  contact_for-Result (some d) index contact a w =
      if_elim (Result a.gamepad) (not a.support.supports_touchpad)
        (λ _. failed (unsupported_feature no_touchpad) a w refl refl)
        (λ _.
          if_elim (Result a.gamepad) (leb (length a.state.touchpad_contacts) index)
            (λ _.
              failed (failure ErrorCode.invalid_argument "touchpad contact index is out of range") a
                w refl refl)
            (λ _.
              change-Result
                (λ s. record s { touchpad_contacts = set s.touchpad_contacts index contact }) a w))

  -- Every member that changes the state ends in one of two ways: with success, and then the
  -- gamepad's last event is the whole state that the adapter now keeps, normalized, with the report
  -- it is packed into, and one more event is counted; or with a failure, and then the gamepad is as
  -- it was before.
  pub apply-Result :
      (setter : Setter Number) (a : GamepadStateAdapter Handle Number) (w : World)
      → Result a.gamepad (apply zero pack normalize backend setter a w)
  unfolding apply
  apply-Result (set_state state) a w = change-Result (λ _. state) a w
  apply-Result (set_button button pressed) a w =
      change_for-Result a.gamepad (button_supported a.gamepad button)
        "selected gamepad profile cannot expose the requested button"
        (λ s. record s { buttons = ButtonSet.set s.buttons button pressed }) a w refl
  apply-Result (set_left_stick stick) a w = change-Result (λ s. record s { left_stick = stick }) a w
  apply-Result (set_right_stick stick) a w =
      change-Result (λ s. record s { right_stick = stick }) a w
  apply-Result (set_left_trigger value) a w =
      change-Result (λ s. record s { left_trigger = value }) a w
  apply-Result (set_right_trigger value) a w =
      change-Result (λ s. record s { right_trigger = value }) a w
  apply-Result (set_acceleration acceleration) a w =
      change_for-Result a.gamepad a.support.supports_motion no_motion
        (λ s. record s { acceleration = acceleration }) a w refl
  apply-Result (set_gyroscope gyroscope) a w =
      change_for-Result a.gamepad a.support.supports_motion no_motion
        (λ s. record s { gyroscope = gyroscope }) a w refl
  apply-Result (set_motion acceleration gyroscope) a w =
      change_for-Result a.gamepad a.support.supports_motion no_motion
        (λ s. record s { acceleration = some acceleration; gyroscope = some gyroscope }) a w refl
  apply-Result clear_motion a w =
      change_for-Result a.gamepad a.support.supports_motion no_motion
        (λ s. record s { acceleration = none; gyroscope = none }) a w refl
  apply-Result (set_battery battery) a w =
      change_for-Result a.gamepad a.support.supports_battery no_battery
        (λ s. record s { battery = some battery }) a w refl
  apply-Result clear_battery a w =
      change_for-Result a.gamepad a.support.supports_battery no_battery
        (λ s. record s { battery = none }) a w refl
  apply-Result (set_touchpad_contact index contact) a w =
      contact_for-Result a.gamepad index contact a w
  apply-Result (clear_touchpad_contact index) a w =
      contact_for-Result a.gamepad index (no_contact zero) a w
