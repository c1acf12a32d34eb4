-- ===== src/Lib.antt =====
-- A verification of pyhems, a client for ECHONET Lite home networks: the frames of the protocol,
-- the client that sends requests and routes what it receives, and the manager that keeps the
-- state of the device objects.
--
-- A received datagram is decoded to a frame (src/pyhems/frame.py, with the object codes of
-- src/pyhems/eoj.py and the service values of src/pyhems/const.py). The client
-- (src/pyhems/runtime.py) gives the frame to the request that waits for it, keeps it while its
-- sender is unknown, or passes it on as an event. A request goes through the queue of its node,
-- which lets one request out at a time. A read of many properties is split into batches, by the
-- policies of src/pyhems/get_batch_policy.py and by what the device could answer before. The
-- device manager (src/pyhems/device_manager.py) sets up each device object from its property maps,
-- caches its values and chooses what is polled.
--
--   Common       Booleans, lists, sets of EPCs, dictionaries, bytes and exceptions.
--   Protocol     const.py, eoj.py and frame.py: Services is `ESV`, Objects is `EOJ`, and Frame is
--                `Frame` with `decode` and `encode`; below it RoundTrip and Faults.
--   BatchPolicy  get_batch_policy.py: `take_first_batch` and its policies; below it Split and Progress.
--   Client       runtime.py and discovery.py: GetBatches is `_run_get_batches`, RequestQueue is
--                `_NodeRequestQueue`, TransactionId is `_next_transaction_id`, Replies is the end of
--                `set_properties` and `request_notifications`, Discovery is
--                `_extract_discovery_info`, and Routing is `_process_frame`; Reads is `get`,
--                `setup_get` and what they share, with the batches of GetBatches; Sending is
--                `_attempt_get_request` and `_send_request`, which joins RequestQueue, TransactionId and the pending requests
--                that Routing answers, and `stop`.
--   Devices      device_manager.py: PropertyMap is `_parse_property_map`, Nodes is `NodeState` with
--                `_setup_device`, `_send_initial_notification`, `_apply_frame` and
--                `_apply_accepted_properties`, Ranges is the recovery of collection ranges,
--                Subscriptions is `subscribe_epcs` with `_effective_epcs`, and Table is `data` with
--                `process_frame_event`, the frames that wait for a setup, and, in Table/Jobs, the
--                jobs of a node; Table/Steps has what happens between two waits.
--   Intervals    poller.py: the settings of `PropertyPoller` and its adaptive intervals.
--   Poller       poller.py: Cycle is `_run_cycle`, and Schedule is `_schedule_polls` with `_fire_poll`.
--   Codecs       codecs.py, definitions.py and installation_location.py: `BinaryCodec`, `EnumCodec`
--                and `InstallationLocationCodec`; below it Numbers has Python's integers and the
--                interface of its floats, Definitions the types of definitions.py, Temporal is
--                `TemporalCodec`, Numeric is `NumericCodec`, `NumericValueCodec` and all codecs as
--                one type, Selection is `get_codec` and `get_codec_for_epc`, Layout has the sizes of
--                structured values, Structured is `decode_property_value`, and Pages is
--                `decode_collection_page`.
--   Examples     Tests, and the theorems at concrete inputs.
--
-- State is passed explicitly: an operation takes the record of its object's attributes and returns
-- the new one, with what it returns or does to the outside. An exception is a value of `Result` or
-- of an outcome type. A bytes value is a list of numbers below 256, a text the list of its codes, a
-- dictionary the list of its items, a frozenset a list that is read by membership alone. What
-- `await` lets happen in between is an argument: the network of a read also says what other calls
-- did to the shared capability, and the request queue and the device table are driven by any
-- sequence of events.
--
-- Loops run on structural recursion, or on fuel: `release` has one round more than there are
-- waiters, `_next_transaction_id` has the 65535 rounds of the source, a read of n EPCs ends
-- within `batch_rounds n` rounds, a number that the theorems on reads name, and a poll cycle has one
-- round more than EPCs. The calls of `get_codec_for_epc` within its own calls are on fuel too, whose
-- end is Python's RecursionError; its theorem asks for a ranking of the coefficients.
--
-- Taken as arguments or as documented behaviour: the network and the socket, what other tasks do
-- while a task waits, the clock, `bidict.forceput`, the generated registry, `heapq`, the states of
-- asyncio futures, and the arithmetic on floats. Not modelled: sockets (src/pyhems/transport.py), the
-- start of the client and its discovery loop, the cancellation of a task that waits for a response,
-- the tasks of the device manager and of the poller, log messages, names for people, and the scripts
-- that generate the registry.
pub mod Common
pub mod Protocol
pub mod BatchPolicy
pub mod Client
pub mod Devices
pub mod Codecs
pub mod Intervals
pub mod Poller
pub mod Examples
