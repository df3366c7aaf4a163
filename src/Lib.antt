-- ===== src/Lib.antt =====
-- Verification library of pipane, a web front end for the pi coding agent: a local backend runs pi
-- processes for sessions, sends session snapshots to browsers, and is reached from outside through
-- a rendezvous server that decides which device may reach which backend.
--
-- Trust    the rendezvous server's trust store (src/rendezvous/trust-store.ts, with the records of
--          src/shared/trust-protocol.ts). Trust/Challenges has createChallenge, consumeChallenge,
--          prune and persist; Trust/Tickets the tickets; Trust/Pairing confirmPairing;
--          Trust/Devices invites and revocations; Trust/History any sequence of calls; Trust/Keys,
--          Trust/Grants and Trust/Changes say whose signature a ticket or a change needs.
-- Hub      the rendezvous server's connections (src/rendezvous/rendezvous-hub.ts) over its trust store:
--          Hub/Routes has pairings and how routes come and go, Hub/Backends and Hub/Browsers what a
--          socket's messages bring about, Hub/History any events, with the HTTP routes of
--          src/rendezvous/server.ts. A route is an object that two maps share and that changes: the
--          maps hold its place in a store. A socket is a number.
-- Backend  a backend's own trust store (src/server/backend-trust-store.ts, Backend/Store), any sequence
--          of its calls (Backend/History), and the authorisation of a connection, cut at its await
--          (src/server/backend-connection-authorizer.ts, Backend/Authorizer).
-- Session  the owner of one session's runtime state (src/server/session-actor.ts): Session/Phase has
--          the legal transitions, Session/Actor the methods, Session/Events applyProcessEvent,
--          Session/Detach detach, and Session/Mailbox enqueue.
-- Document the document of a session that clients follow (SessionJsonl of src/server/session-jsonl.ts):
--          Document/State has its fields and buildState, Document/Events what changes it,
--          Document/Syncing computeSyncOp, with the operations of Sync.
-- Registry the registry of sessions (src/server/session-registry.ts): Registry/State has its maps and
--          methods, and runs the commands of its actors, whose events it handles. An actor is an
--          object: the maps hold its place in a store.
-- Sync     patches and sync operations (src/shared/jsonl-sync.ts): Sync/Patch and Sync/Op.
-- Pool     the pool of pi processes (src/server/process-pool.ts): Pool/State has the fields and what
--          is read off them, Pool/Operations the methods, Pool/History any sequence of calls, exits
--          and timeouts; Pool/Requests sendRpc, responses and timers of the processes, with the pool
--          they run on. A session's lease is one of the pool's; the session releases it on detach.
-- Framing  chunks of long frames on a data channel (src/shared/data-channel-framing.ts): the encoder
--          in Framing/Encoder, DataChannelFrameDecoder in Framing/Decoder.
-- Queue    the scheduler of outgoing frames (PrioritizedFrameQueue of src/server/frame-connection.ts):
--          its lanes in Queue/Lanes, flush in Queue/Flush, any use of it in Queue/History.
-- Auth     who may use the backend's own HTTP routes and WebSocket (src/server/auth-guard.ts).
-- Base     what these share: tests on numbers, lists, results with an error, and JavaScript's maps.
--
-- A string that is only stored and compared is a number, 0 the empty one; a text that is edited is
-- the list of its UTF-16 units. A `Map` or a `Record` is an association list in insertion order.
-- The clock is read once per operation, and a random value is an argument. Cryptography, SHA-256,
-- UTF-8, JSON, base64, the parsing of a URL, the file system's test for a directory and the actor's
-- view of its document are parameters. A method that throws returns an error beside the
-- state that it leaves.
--
-- Every recursion is structural. The loops of computePatches and encodeDataChannelFrame run on a
-- number of rounds, the bound of the loop's own counter.
--
-- Not modelled: reading and checking the stored files, the arguments and environment of a child
-- process, the browser's user interface, sockets, HTTP and WebRTC.
pub mod Auth
pub mod Backend
pub mod Base
pub mod Document
pub mod Framing
pub mod Hub
pub mod Pool
pub mod Queue
pub mod Registry
pub mod Session
pub mod Sync
pub mod Trust
