-- ===== src/Lib.antt =====
-- A verification library of node-red-contrib-mavlink-ai, a MAVLink runtime for Node-RED.
--
-- The connection (nodes/mavlink-ai-connection.js) owns one link: the outbound queue that every
-- sender shares, the lock table that keeps identical workflows apart, the state of the link's
-- sequence numbers and signatures, the router that gives a packet its profile, and the transport.
-- The workflows are clients of it: they subscribe, send with retransmissions, and settle one promise.
--
-- Files:
-- - Common, JsMap, StableSort: shared tests, lists and equality; the built-in Map and stable sort.
-- - Connection: what the workflows share of the connection; Connection/Sender, what the tests of a
--   message's addresses let through.
-- - Outbound, lib/runtime/outbound-queue.js (enqueue, _drain, dropCoalesced, clear): enqueue is
--   `enqueue`, the loop of _drain is cut at its await into `drain_next` and `written`.
-- - Locks, lib/runtime/lock-manager.js (acquire, release, isHeld).
-- - Command, lib/command/command-workflow.js (run, _sendCommand, _armTimeout, _onAck, abort).
-- - Workflow, the base that lib/mission/mission-state-machine.js and lib/param/param-workflow.js both
--   have (_send, _armTimeout, _complete, _fail).
-- - Mission, Mission/Upload and Mission/Download, lib/mission/mission-state-machine.js,
--   mission-upload.js and mission-download.js (_start, _onMessage, _resendItem, _requestItem, the timer),
--   and Mission/Clear, mission-clear.js.
-- - Param, lib/param/param-workflow.js (projectParam, ParamWorkflow), with Param/Union for the integer
--   conversions, and Param/Reading, Setting, Listing and SetAuto for the four workflows.
-- - Includes, lib/dialects/xml-include-resolver.js (resolveXmlIncludeGraph).
-- - Routing, lib/routing/route-table.js and packet-router.js (the table, match, route,
--   routeWorkflowTarget).
-- - Signing, lib/protocol/replay-tracker.js and link-state.js (check, nextSeq, nextSignTimestampMs,
--   replayTrackerFor), and Signing/Inbound, verifyInboundPacket of lib/protocol/mavlink-codec.js.
-- - Subscriptions, lib/runtime/subscription-registry.js and lib/util/bounded-map.js (subscribe,
--   unsubscribe, dispatch, normalizeFilter, matches, boundedSet).
-- - Vehicles, lib/swarm/vehicle-registry.js (ingest, _expire, vehicles, sysids).
-- - Fanout, lib/swarm/fanout.js (buildFanout, buildTargetMessage, resolvePosition).
-- - Udp, lib/transport/udp-transport.js (confirmPeer, _targets).
-- Each component's child modules hold its proofs, and one named Examples its runs at concrete inputs.
--
-- State is a record, a method takes it and returns it changed, and a promise, a timer or a callback
-- is an event that a step function consumes; clock readings are arguments. Numbers that the
-- callers validate are natural numbers. Loops are over lists; only the depth of the visit in Includes is
-- on fuel, and one more than the number of files is shown to be enough.
--
-- Not modelled: sockets, serial ports and the Node-RED editor (input and output), the MAVLink codec
-- and dialect compilation (third-party packages and generated tables), texts of errors and status,
-- the rest of the swarm functions, the vehicle state,
-- and most helpers of lib/util.
pub mod Command
pub mod Common
pub mod Connection
pub mod Fanout
pub mod Includes
pub mod JsMap
pub mod Locks
pub mod Mission
pub mod Outbound
pub mod Param
pub mod Routing
pub mod Signing
pub mod StableSort
pub mod Subscriptions
pub mod Udp
pub mod Vehicles
pub mod Workflow
