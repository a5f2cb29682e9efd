-- ===== src/PidFeatures/Tests.antt =====
-- The handshake's theorems at reports of one game, and a run of it.
use plank_libvirtualhid.Common.{◌≡◌, refl, some, List, [], ◌∷◌, arith}
use plank_libvirtualhid.PidFeatures.{
  new_features, create_effect, allocate, first_free, free_effect, effect_operation, operated,
  on_first, payload, handle_set_feature, handle_output, get_feature_report, ram_pool_available,
  count_true,
}
use plank_libvirtualhid.PidFeatures.Pool.{Loaded, create_effect-Loaded}
use plank_libvirtualhid.PidFeatures.Playing.{
  HostReport, set_feature, output, receive, receive_all, IsPlayable, receive_all-new_features,
}

abbrev game : List HostReport
game =
    set_feature 0x11 (0x11 ∷ 1 ∷ [])
    ∷ set_feature 0x11 (0x11 ∷ 4 ∷ [])
    ∷ output 0x1A (0x1A ∷ 2 ∷ 1 ∷ [])
    ∷ set_feature 0x1B (0x1B ∷ 1 ∷ [])
    ∷ set_feature 0x11 (0x11 ∷ 99 ∷ [])
    ∷ []

state_of_a_game :
    get_feature_report 0x14 (receive_all game new_features) ≡ some (0x14 ∷ 2 ∷ 0x32 ∷ [])
unfolding get_feature_report receive_all receive handle_set_feature handle_output payload
    create_effect allocate first_free effect_operation operated on_first free_effect
state_of_a_game = refl

load_of_a_game :
    get_feature_report 0x12 (receive_all game new_features) ≡ some (0x12 ∷ 0 ∷ 3 ∷ 0xFE ∷ 0xFF ∷ [])
unfolding get_feature_report ram_pool_available count_true receive_all receive handle_set_feature
    handle_output payload create_effect allocate first_free effect_operation operated on_first
    free_effect
load_of_a_game = refl

create_effect-Loaded_example : Loaded new_features (create_effect (3 ∷ []) new_features)
create_effect-Loaded_example =
    create_effect-Loaded (3 ∷ []) new_features refl (omega arith) (omega arith) (omega arith)

receive_all-new_features_example : IsPlayable (receive_all game new_features)
receive_all-new_features_example = receive_all-new_features game
