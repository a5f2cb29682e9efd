-- ===== src/Vhf.antt =====
-- `VhfInputReportQueue` of src/platform/windows/shared/vhf_input_report_queue.hpp: the bounded
-- queue that the Windows driver fills while VHF is not ready to take input reports.
pub mod Bounded
pub mod SameState
pub mod Coalesce
mod Tests
use plank_libvirtualhid.Common.{
  ℕ, ◌+◌, Bool, true, false, not, ◌&&◌, ◌||◌, Option, none, some, List, [], ◌∷◌, ◌++◌, length,
  get_or, tail, last?, set_last, is_empty, all_of, ltb, ◌==◌, ◌!=◌, if◌then◌else◌,
}
use plank_libvirtualhid.Protocol.{
  bus_bluetooth, gamepad_generic, gamepad_xbox_one, gamepad_xbox_series, gamepad_switch_pro,
  gamepad_dualshock4, gamepad_dualsense,
}

abbrev pub Report : Type 0
Report = List ℕ

-- `vhf_max_pending_input_reports`
abbrev pub max_pending : ℕ
max_pending = 32

pub record VhfInputReportQueue : Type 0 where
  pub gamepad_kind : ℕ
  pub bus_type : ℕ
  pub input_report_id : ℕ
  pub protocol_reports : List Report
  pub reports : List Report

pub create : ℕ → ℕ → ℕ → VhfInputReportQueue
create gamepad_kind bus_type input_report_id = record {
  gamepad_kind = gamepad_kind;
  bus_type = bus_type;
  input_report_id = input_report_id;
  protocol_reports = [];
  reports = [];
}

-- `report.front()`; its callers know that the report has a first byte.
abbrev pub front : Report → ℕ
front r = get_or r 0 0

pub size : VhfInputReportQueue → ℕ
size q = length q.protocol_reports + length q.reports

pub empty : VhfInputReportQueue → Bool
empty q = is_empty q.protocol_reports && is_empty q.reports

pub is_protocol_report : VhfInputReportQueue → Report → Bool
is_protocol_report q r = q.input_report_id != 0 && not (is_empty r) && front r != q.input_report_id

make_room : VhfInputReportQueue → VhfInputReportQueue
unfolding size
make_room q =
    if ltb (size q) max_pending
    then q
    else if not (is_empty q.reports)
    then record q { reports = tail q.reports }
    else record q { protocol_reports = tail q.protocol_reports }

equal_at : Report → Report → List ℕ → Bool
equal_at left right = all_of (λ offset.
    ltb offset (length left)
    && ltb offset (length right)
    && get_or left offset 0 == get_or right offset 0)

dualshock4_offsets : ℕ → List ℕ
dualshock4_offsets payload_offset =
    0
    ∷ (payload_offset + 4)
    ∷ (payload_offset + 5)
    ∷ (payload_offset + 6)
    ∷ (payload_offset + 34)
    ∷ (payload_offset + 38)
    ∷ []

dualsense_offsets : ℕ → List ℕ
dualsense_offsets payload_offset =
    0
    ∷ (payload_offset + 7)
    ∷ (payload_offset + 8)
    ∷ (payload_offset + 9)
    ∷ (payload_offset + 32)
    ∷ (payload_offset + 36)
    ∷ []

-- The offsets that `same_discrete_state` compares; `none` for a gamepad kind with no such list.
discrete_offsets : ℕ → ℕ → Option (List ℕ)
unfolding dualshock4_offsets dualsense_offsets
discrete_offsets kind bus =
    if kind == gamepad_generic
    then some (0 ∷ 1 ∷ 2 ∷ [])
    else if kind == gamepad_xbox_one || kind == gamepad_xbox_series
    then some (12 ∷ 13 ∷ 14 ∷ 15 ∷ [])
    else if kind == gamepad_switch_pro
    then some (0 ∷ 3 ∷ 4 ∷ 5 ∷ [])
    else if kind == gamepad_dualshock4
    then some (dualshock4_offsets (if bus == bus_bluetooth then 3 else 1))
    else if kind == gamepad_dualsense
    then some (dualsense_offsets (if bus == bus_bluetooth then 2 else 1))
    else none

equal_at? : Report → Report → Option (List ℕ) → Bool
unfolding equal_at
equal_at? left right none = false
equal_at? left right (some offsets) = equal_at left right offsets

pub same_discrete_state : VhfInputReportQueue → Report → Report → Bool
same_discrete_state q left right =
    if length left != length right
    then false
    else if q.input_report_id != 0
        && (is_empty left || front left != q.input_report_id || front right != q.input_report_id)
    then false
    else equal_at? left right (discrete_offsets q.gamepad_kind q.bus_type)

-- `!reports_.empty() && same_discrete_state(reports_.back(), report)`
supersedes_back : VhfInputReportQueue → Report → Bool
supersedes_back q r = elim (last? q.reports) [
  | none ↦ false
  | some back ↦ same_discrete_state q back r
]

append_protocol : Report → VhfInputReportQueue → VhfInputReportQueue
append_protocol r q = record q { protocol_reports = q.protocol_reports ++ r ∷ [] }

append_report : Report → VhfInputReportQueue → VhfInputReportQueue
append_report r q = record q { reports = q.reports ++ r ∷ [] }

pub push : VhfInputReportQueue → Report → VhfInputReportQueue
push q r =
    if is_protocol_report q r
    then append_protocol r (make_room q)
    else if supersedes_back q r
    then record q { reports = set_last q.reports r }
    else append_report r (make_room q)

pop_report : VhfInputReportQueue → List Report → Option Report × VhfInputReportQueue
pop_report q [] = (none, q)
pop_report q (r ∷ rest) = (some r, record q { reports = rest })

pop_lanes : VhfInputReportQueue → List Report → Option Report × VhfInputReportQueue
unfolding pop_report
pop_lanes q [] = pop_report q q.reports
pop_lanes q (r ∷ rest) = (some r, record q { protocol_reports = rest })

pub pop : VhfInputReportQueue → Option Report × VhfInputReportQueue
unfolding pop_lanes
pop q = pop_lanes q q.protocol_reports

pub clear : VhfInputReportQueue → VhfInputReportQueue
clear q = record q { protocol_reports = []; reports = [] }
