-- ===== src/Lib.antt =====
-- libvirtualhid: a C++ library that creates virtual gamepads, keyboards, mice and touch devices. A
-- client opens a runtime (src/core/runtime.cpp), which chooses a backend for the platform and makes
-- devices of a profile (src/core/profiles.cpp). A gamepad's state is packed into a HID input report
-- and the output reports of a game are parsed into outputs (src/core/report.cpp). On Windows the
-- backend talks to a broker service, the broker to a UMDF driver, and the driver hands the reports
-- to VHF; it queues input reports while VHF is busy (vhf_input_report_queue.hpp) and turns
-- force-feedback reports into one rumble strength (generic_pid_rumble.hpp).
--
-- Files and the code that they model:
--   Common     shared names, Boolean tests, list and word arithmetic; `Float` stands for `float`
--              and `double`, whose operations are a parameter of the definitions that use them.
--   Types      src/include/libvirtualhid/types.hpp and src/core/types.cpp: statuses, profiles,
--              outputs, and `ButtonSet`, a word of 32 bits.
--   Protocol   the numbers of src/platform/windows/shared/lvh_windows_protocol.h.
--   Vhf        src/platform/windows/shared/vhf_input_report_queue.hpp: two lanes of reports, which
--              are lists, and one function per member. `Vhf.Bounded` has the histories of calls
--              and the bound of 32, `Vhf.SameState` the relation of reports that supersede each
--              other, `Vhf.Coalesce` the delivered sequence.
--   PidRumble  src/platform/windows/shared/generic_pid_rumble.hpp. `PidRumble` has the state and
--              the operations on effects, `PidRumble.Reports` the handlers of output reports,
--              `advance` and `next_transition`. Time points are natural numbers of nanoseconds and
--              `now` is an argument; a sum of strengths wraps at 32 bits as in the code.
--   Report     src/core/report.cpp: bytes and words, CRC-32, button words, hats, and the parsers
--              of output reports of PID, Switch, DualShock 4 and DualSense devices. A byte is a
--              natural number; a report that has to consist of bytes is assumed to be `AreBytes`.
--   Runtime    src/core/runtime.cpp and the interface of src/core/backend.hpp. `Runtime.Device` is
--              one device and the common body of the members that submit or close, where an
--              invalid event is answered before the lock, `Runtime.History` calls of one device,
--              `Runtime.Store` the lists of devices, `Runtime.State` the runtime with its six lists,
--              whose backend is a record of functions on a state that is passed along,
--              `Runtime.Calls` histories of calls. A device's mutex makes each call one step.
--   Adapter    src/core/gamepad_adapter.cpp: the support queries of a profile, and in
--              `Adapter.State` the class `GamepadStateAdapter` over one device of `Runtime.Device`;
--              the packing and the normalization of a state are parameters.
--   Broker     src/platform/windows/broker/. `Broker.Strings` is broker_request_validation.hpp, the
--              checks on character arrays of messages; the rest is `BrokerState` of
--              libvirtualhid_broker.cpp. `Broker.Clock` has the clocks of the licence,
--              `Broker.License` the licence and its benefits, `Broker.Session` creation and
--              destruction, `Broker.Cleanup` the clean-up, `Broker.Validation` the licence's
--              operations, `Broker.Status` the status that is reported, `Broker.LicenseText` the
--              state file, and `Broker.History` the broker's life as a step relation: a handler is
--              one step, but the creation of a gamepad is two, before and after the driver's call.
--              Answers of the system, the driver and the licence service are arguments. The reading
--              of the state file has the length of the text as its fuel, as each turn takes a byte,
--              and the writing of a number has 20, the most digits that 64 bits can need.
--   PidFeatures src/platform/windows/shared/generic_pid_protocol.hpp, GenericPidFeatureState: the
--              pool of 40 effect blocks and the state report. `PidFeatures.Playing` has the
--              histories of reports from the host.
--   Driver     src/platform/windows/driver/libvirtualhid_umdf.cpp. `Driver.Inputs` is the
--              submission of input reports: a step for each block under the device's mutex, and the
--              threads that stand between two blocks as counters. `Driver.Outputs` is the matching
--              of read requests and output events, one function per handler; what the framework
--              answers is an argument. A handler counts as one step also where it completes a
--              request after it has let go of the mutex. `Driver.Sessions` is the table of devices
--              beside the VHF devices and I/O targets that exist, with each call that makes or
--              deletes one; an object is known by the id of its device.
--   SwitchPro  src/platform/windows/shared/switch_pro_protocol.hpp: the replies of a virtual Switch
--              Pro controller. A report is a list of 64 bytes.
--   PlayStation src/platform/windows/shared/playstation_feature_protocol.hpp: the feature reports of
--              DualShock 4 and DualSense gamepads, made from the tables of
--              src/shared/playstation_feature_reports.hpp. The request's `stable_id` is its text.
--
-- But for the state file of the broker no fuel is used: a loop of the code runs over a list or an
-- array and is structural recursion here. Natural numbers stand for unsigned machine words, with
-- the wrap-around of a word written out where the code can exceed it; steady-clock time points are
-- taken not to overflow.
--
-- Not modelled: the packing of input reports, HID descriptors, the backends of Linux and macOS, the
-- Windows service, pipe and driver-framework calls, and the control application, which are calls of
-- the operating system or tables for the most part.
pub mod Common
pub mod Types
pub mod Protocol
pub mod Vhf
pub mod PidRumble
pub mod Report
pub mod Runtime
pub mod Adapter
pub mod Broker
pub mod PidFeatures
pub mod Driver
pub mod SwitchPro
pub mod PlayStation
