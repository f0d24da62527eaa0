-- ===== src/Lib.antt =====
-- A model of the playground's own logic: the page and its workers run a YurtOS sandbox, a driver runs
-- commands in it, a snapshot keeps its root store in a zip, a Jupyter client talks to a kernel over
-- ZMTP, packages of a repository are chosen and staged for the guest's `pkg`, and a local agent works
-- through a task in steps.
--
-- The parts. A driver's calls (src/desktop_api.ts, src/agent_api.ts) reach `ExecutionRegistry` in
-- src/executions.ts, which polls the kernel's processes. src/root_store.ts writes a store's export
-- through `StoreLogWriter`, and src/sandbox_snapshot.ts replays it through `StoreLogReader`, both in
-- src/store_log.ts; the reader's target is the fresh store. A snapshot is a zip that
-- src/snapshot_zip.ts writes and reads, and src/snapshot_pin.ts says which one a page takes by the pins
-- of src/pins.ts. src/jupyter.ts opens its sockets by src/jupyter_transport.ts. src/page.ts and the
-- workers install packages by src/packages.ts, the guest's own `pkg` through the relay of
-- src/pkg_relay.ts, and src/installed_list.ts says what is installed. The pane of src/agent_pane.ts
-- runs the local agent of src/agent.ts. Each part is a folder here, and the parts do not call each
-- other: what one takes from another, or from code outside the repository, is a parameter.
--
-- The files, and the code they follow:
--   Base            tests on numbers, texts as UTF-16 code units, lists under the library's names, and
--                   `Outcome`, a call that returns or throws
--   Executions      src/executions.ts. Capture: BoundedCapture, its `push` and `bytes`. Line: quoted and
--                   buildExecLine, with the reading of words that a POSIX shell does (Line/Shell).
--                   Signals: SIGNALS, SIGNAL_NAMES, signalName, signalNumber. Registry: Execution and the
--                   registry's state; Registry/Loop: `#run`, cut at its awaits into what happens to an
--                   execution, with the signals sent to it; Registry/Calls: list, active, spawn, wait, waitRaw, kill and `#expire`;
--                   Calls/Steps: any history of calls and events; Calls/Deadline: of one execution. The
--                   other files hold what is proved.
--   StoreLog        src/store_log.ts. StoreLog: isStoreFileName and class StoreExportOrder (`#begin`,
--                   write, setLength, finish). Record: head, and `#record`'s reading of one record.
--                   Writer: class StoreLogWriter. Reader: class StoreLogReader (push, `#record`,
--                   `#hold`, `#within`, writeMeta, finish).
--   Zmtp            src/jupyter_transport.ts. Zmtp: encodeZmtpMessage, decodeZmtpFrames. Connection:
--                   readExactly, RawZmtpTransport, encodeZmtpGreeting, encodeZmtpReady,
--                   readZmtpCommand, openZmtpTransport.
--   Packages        src/packages.ts. Packages: isPackageName, checkRelative, onlyStaged. Version:
--                   compareVersions, buildNumber, compareReleases. Releases: latestRelease, resolveSet.
--                   Rows: markInstalled. Plan: relayedInstallPlan. Output: planReleases, plannedInstalls,
--                   failure, formatBytes, sizeRefusal.
--   InstalledList   src/installed_list.ts. InstalledList: parseInstalledList, installedNames,
--                   installedReleases, installedReport, installedReporter. Marks: installedMarks.
--   Relay           src/pkg_relay.ts. Relay: parseRequestHead, upstreamUrl. Reply: relayReply, readAll,
--                   streamExactly, replyHead. Sends: readHead, send, serve. Connections: acceptAll, the end
--                   of serve and stop.
--   SnapshotZip     src/snapshot_zip.ts. Crc: crc32. Header: header and the end record. Writer: writeZip,
--                   streamOf, chunkRanges. Reader: class ZipStreamReader, each method.
--   Pins            src/pins.ts. Value: JSON as it is parsed. Pins: parsePins, parsePin, joinPath. Snapshot:
--                   parseSnapshotPin, parseStorePin, parseStoreIdentity. Accepted: of src/snapshot_pin.ts,
--                   the kinds, snapshotIdentity, formatRefusal, storeRefusal. Accepted/Built: buildMismatch,
--                   acceptedSnapshot, pinnedSnapshot, checkPythonSet.
--   Device          src/device.ts: deviceClass, touchDevice, parsePlatform, choosePlatform, chooseEnv.
--   Agent           src/agent.ts. Agent: clip, buildPrompt. Loop: runAgent, as the events that it reports.
--   Jupyter         src/jupyter_protocol.ts: encodeJupyterMessage, decodeJupyterMessage, sign; of
--                   src/jupyter_transport.ts, decodeJupyterChannelMessage.
--   WaitRecord      src/wait_record.ts: decodeWaitRecord, waitRequest.
--   Session         src/session_controller.ts: createSessionController and its three calls.
--
-- State is a record that a call takes and returns. A call that changes the state and may then throw
-- returns both the state and the outcome (the store log); where nothing of the state is read after a
-- throw, only the outcome (a connection's reads). What happens between two awaits is one step, and
-- steps come in any order. A wait is the step past its await, and whether waitRaw saw the exit of a stuck
-- process before it is an argument.
--
-- Parameters: TextEncoder, TextDecoder, toUpperCase and toLowerCase are arguments, with what is relied
-- on as a hypothesis where something is; so are JSON.stringify and JSON.parse, HMAC-SHA-256 and, in the
-- agent's loop, the reading of an action; the compression streams of a zip, with which of the two sides
-- of a decompression throws first; and, of the relay, fetch,
-- `trim`, the resolution of a URL and SHA-256. On ASCII, the encoder and the decoder change nothing.
-- The clock is an argument of each call. A kernel's replies are events of a history. A connection is
-- the bytes that the peer sends and the sizes in which reads return them.
--
-- Loops: a record of the store log has ten bytes at least, a frame two, a read one, so there are no
-- more rounds than bytes, and that many are proved enough where the result depends on it. A fill or a
-- copy of the zip's reader takes a chunk each round; the walk over dependencies goes no deeper than
-- there are packages. A relay's sends end with the kernel's answers. A number is a natural number;
-- those that the source keeps within 2^53 or 2^64 are compared with these bounds as it does, and bytes
-- written as such are taken modulo 256. In a version, a number has any size.
--
-- Not modelled: the pages and their elements, the service worker, the HTTP servers, the sandbox itself
-- (a package of its own), the browser's storage, the reading of JSON and the fetching of a repository,
-- and the files of src/ that are not named above.
pub mod Base
pub mod Executions
pub mod StoreLog
pub mod Zmtp
pub mod Packages
pub mod Agent
pub mod Jupyter
pub mod Session
pub mod WaitRecord
pub mod SnapshotZip
pub mod InstalledList
pub mod Pins
pub mod Relay
pub mod Device
