-- ===== src/PlayStation/Tests.antt =====
-- Feature reports of paired gamepads.
use plank_libvirtualhid.Common.{◌≡◌, refl, true, some, [], ◌∷◌, inr, arith}
use plank_libvirtualhid.Protocol.{bus_bluetooth, gamepad_dualsense}
use plank_libvirtualhid.PlayStation.{FeatureRequest, make_playstation_feature_report}
use plank_libvirtualhid.PlayStation.FeatureReports.{dualsense_pairing_report}
use plank_libvirtualhid.PlayStation.Mac.{format, paired_as, make_playstation_feature_report-mac}

abbrev paired_dualsense : FeatureRequest
paired_dualsense = record {
  gamepad_kind = gamepad_dualsense;
  bus_type = bus_bluetooth;
  client_device_id = 7;
  stable_id = format true (0xA4 ∷ 0xAE ∷ 0x11 ∷ 0x02 ∷ 0x30 ∷ 0xFF ∷ []) [];
}

make_playstation_feature_report-mac_example :
    paired_as (make_playstation_feature_report paired_dualsense dualsense_pairing_report)
    ≡ some (0xFF ∷ 0x30 ∷ 0x02 ∷ 0x11 ∷ 0xAE ∷ 0xA4 ∷ [])
make_playstation_feature_report-mac_example =
    make_playstation_feature_report-mac paired_dualsense dualsense_pairing_report true 0xA4 0xAE
      0x11 0x02 0x30 0xFF [] (inr (refl, refl))
      (omega arith, (omega arith, (omega arith, (omega arith, (omega arith, (omega arith, tt))))))
      refl
