-- ===== src/SwitchPro/Tests.antt =====
-- Replies to reports of a host.
use plank_libvirtualhid.Common.{
  ℕ, ◌+◌, ◌≡◌, refl, none, some, List, [], ◌∷◌, ◌++◌, get_or, replicate, ltb, if◌then◌else◌, arith,
}
use plank_libvirtualhid.Report.Bytes.{read_u32}
use plank_libvirtualhid.SwitchPro.{make_switch_pro_reply, set_spi_reply, acknowledged, usb_reply}
use plank_libvirtualhid.SwitchPro.Spi.{flash, make_switch_pro_reply-flash}

-- Nine bytes of the stick calibration from 0x603D, as a host asks for them.
abbrev stick_request : List ℕ
stick_request = 0x01 ∷ 0x07 ∷ (replicate 8 0 ++ (0x10 ∷ 0x3D ∷ 0x60 ∷ 0x00 ∷ 0x00 ∷ 0x09 ∷ []))

timeout_ignored : make_switch_pro_reply (0x80 ∷ 0x04 ∷ []) ≡ none
unfolding make_switch_pro_reply usb_reply
timeout_ignored = refl

make_switch_pro_reply-flash_example :
    (make_switch_pro_reply stick_request
      ≡ some (set_spi_reply (acknowledged stick_request 0x10) stick_request))
    × (get_or (set_spi_reply (acknowledged stick_request 0x10) stick_request) (20 + 5) 0
        ≡ (if ltb 5 9 then flash (read_u32 stick_request 11 + 5) else 0))
make_switch_pro_reply-flash_example =
    make_switch_pro_reply-flash stick_request 5 refl refl (omega arith) (omega arith)
