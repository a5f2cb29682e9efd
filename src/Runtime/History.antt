-- ===== src/Runtime/History.antt =====
-- Histories of calls on one device of src/core/runtime.cpp.
use Prim.Native.String.{String}
use plank_libvirtualhid.Common.{List, [], ◌∷◌}
use plank_libvirtualhid.Types.{OperationStatus}
use plank_libvirtualhid.Runtime.Device.{Device, close, submit_validated}

-- A call of a handle: an event for the backend with what the validation
-- of it answers and what the device remembers of it, or a close.
pub data Call (World Handle Last : Type 0) : Type 0 where
  event :
      (validation : OperationStatus)
      → (Handle → World → OperationStatus × World)
      → (Last → Last)
      → Call World Handle Last
  closing : Call World Handle Last

module _ {World Handle Options Last : Type 0} (closed_message : String)
    (backend_close : Handle → World → OperationStatus × World) where
  unfoldable pub call :
      Call World Handle Last
      → Device Handle Options Last
      → World
      → OperationStatus × Device Handle Options Last × World
  call (event validation act update) d w = submit_validated validation closed_message act update d w
  call closing d w = close backend_close d w

  -- The statuses that a history of calls returns, with the device and the world after it.
  unfoldable pub calls :
      List (Call World Handle Last)
      → Device Handle Options Last
      → World
      → List OperationStatus × Device Handle Options Last × World
  calls [] d w = ([], d, w)
  calls (c ∷ cs) d w =
      let r = call c d w in let rest = calls cs r.1 r.2 in (r.0 ∷ rest.0, rest.1, rest.2)
