-- ===== src/Lib.antt =====
-- The Kii thing-if SDK for things, kii_thing_if.c and include/kii_thing_if.h, and its two samples,
-- linux-sample and cc3200-sample.
--
-- A thing is onboarded to Thing Interaction Framework on Kii Cloud, takes the commands that are
-- pushed to it, hands their actions to the application, sends the results back, and reports its
-- state. One kii_thing_if_t holds two instances of the Kii SDK (kii_t): the command handler, which
-- onboards, receives commands and reads and writes the attributes of the thing, and the state
-- updater, a task that reports the state in every period.
--
-- Files and the code that they model:
-- - Flow: how a C function ends (a value, a failed assertion, undefined behaviour, or more rounds of
--   a loop than it was given), and the sequencing of such functions.
-- - Kii: the parts of kii_t, kii_json_field_t and jsmntok_t that the code uses, and the record Sdk
--   of the functions of the Kii SDK and of jsmn. Both are a git submodule (kii) without sources here,
--   so everything holds for any Sdk, and what a theorem needs of it is one of its hypotheses.
-- - Context: the errors of include/kii_thing_if.h, and what a function over a kii_t works on.
-- - Request (Writes, Members, Objects): prv_kii_api_call_start, the prv_append_key_value family,
--   prv_writer, and what they write.
-- - ResourcePath (Bounds): the prv_set_*_resource_path functions and the path constants.
-- - Session (Verdict): prv_kii_thing_if_json_read_object, prv_execute_http_session,
--   prv_thing_if_parse_onboarding_response.
-- - Thing: kii_thing_if_t, the handlers and the resources of include/kii_thing_if.h.
-- - Init (Wiring): prv_init_kii_thing_if, init_kii_thing_if.
-- - Onboard (Authors, Bodies, Failures, Reading, Sends): prv_kii_thing_if_get_anonymous_token, the functions that
--   onboard, prv_set_author, init_kii_thing_if_with_onboarded_thing.
-- - Attributes (Replies, Sends, Answers): get_firmware_version, update_firmware_version, get_thing_type,
--   update_thing_type.
-- - Report (Rounds, Task): prv_send_state, and prv_update_status with its endless loop; Rounds is what
--   one report does.
-- - Command: handle_command, received_callback, test_handle_command; Command.Memory is the message,
--   which the code cuts into C strings in place; Command.Items is get_key_and_value_at_index. The
--   other children prove what one action, one alias and a whole command do.
-- - Lifecycle (States, Success): start, and the public functions as the operations of one instance.
-- - LinuxSample: the handlers of linux-sample/example.c, an air conditioner behind a mutex. Locks is
--   what the mutex does; Actions, States and Task are about its handlers, Reports and Numbers about what
--   they write; Settled is what commands ask for, and Commands composes it with received_callback.
--   Program is main with its four sub-commands over the public functions of Lifecycle, and Options
--   its options; Ready, Started and Help are about the instance that main starts.
-- - LinuxEnvironment (Callbacks, Ledger, Connections, Attempts, Closing, Delays):
--   linux-sample/linux-env/secure_socket_impl.c and task_impl.c, and the callbacks of
--   linux-sample/sys_cb_linux.c over them, with lists of what the system and OpenSSL have handed out.
-- - Cc3200.Sockets: kii_thing_if_environment_cc3200.c of cc3200-sample/freertos_thingsdk_demo.
--   Cc3200.Light and Cc3200.Wlan: its main.c, the handlers of the smart light, and the events of the
--   network with WlanConnect and ConfigureSimpleLinkToDefaultState (Wlan.Driver) and main
--   (Wlan.Program). Wlan.Events, Wlan.Waiting and the children of Wlan.Program are about them.
-- - Tests: a small server and small parsers, and every theorem at a concrete input.
--
-- Conventions. A C string is the list of its bytes, a buffer the list of its contents, a pointer into
-- the message an offset. NULL is `none`. size_t is a natural number below 2^64, with the wrap-around
-- where the code computes with it; an int is the integer that it holds. A write outside an array is
-- a fault. The caller's error is an optional record, `none` for a NULL pointer. What app_context points
-- to is given as the handlers that the code reads from it. The two counters of the loops in
-- handle_command are not wrapped.
--
-- Fuel. The loops of handle_command take a number of rounds; one round for every alias and every
-- action, and one more, are enough. The loop of prv_update_status has no end: it takes a number of
-- rounds too, and is unfinished after them whatever their number. Twenty digits are enough for the %lu of a 64-bit index.
--
-- The events of SimpleLink come in batches, one during each call of the driver and one between two
-- looks of a waiting loop at the status; a wait with no batch left is one that never ends.
--
-- Not modelled: the log (M_KII_LOG, kii_hidden.h) and what only prints; a build with
-- KII_JSON_FIXED_TOKEN_NUM or KII_MQTT_USE_PORT_TCP; of cc3200-sample, vCmdTask, whose calls do not fit
-- the SDK's functions any more, the hooks and handlers that only print or loop, BoardInit and pinmux.c,
-- which set registers; the tests and the build files. The operating systems, OpenSSL, SimpleLink,
-- getopt_long and the macros of SimpleLink's common.h are parameters.
pub mod Prelude
pub mod Flow
pub mod Kii
pub mod Context
pub mod Request
pub mod ResourcePath
pub mod Session
pub mod Thing
pub mod Init
pub mod Onboard
pub mod Attributes
pub mod Report
pub mod Command
pub mod Lifecycle
pub mod LinuxSample
pub mod LinuxEnvironment
pub mod Cc3200
pub mod Tests
