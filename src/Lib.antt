-- ===== src/Lib.antt =====
-- Verification of justPostgres: a control plane that runs Postgres projects in containers
-- (apps/control-plane) and a router that brings client connections to them (apps/router).
--
-- The parts that are modelled, with their files:
-- * apps/router/src/protocol.ts, the Postgres wire protocol: Router/Protocol and its children. A
--   buffer is the list of its bytes (Router/Bytes), a string the list of its code points
--   (Router/Text). MessageReader.next, nextStartup and nextTyped are Framing.next, next_startup and
--   next_typed; parseStartupPacket and encodeStartupPacket are in Startup, encodeMessage and what
--   is built on it in Messages. What throws returns `none` or `throws`.
-- * apps/router/src/cancel.ts, the map of cancel keys: Router/Cancel.
-- * apps/router/src/routes.ts, the routing table: Router/Routes. `refresh` takes the query's result
--   as an argument, and the rows are those of the control plane's database.
-- * apps/router/src/resolve.ts, the choice of a project from a host name or a user name:
--   Router/Resolve. resolveRoute is resolve_route, assertRoutable is routable.
-- * apps/router/src/pool.ts, the pool of one project's backend connections: Router/Pool. Each
--   method of ProjectPool is a function on its state that returns the new state and what it does.
--   Router/Pool/Steps runs them as a step relation, with what sessions hold beside the pool.
-- * apps/router/src/transaction.ts, the client of a pool: Router/Session (PooledSession). It reads
--   messages with MessageReader, takes a connection from the pool by `asks`, sends on it, and gives
--   it back by `releases` or `discards`. Router/Session/Runs runs a session over events.
-- * apps/router/src/scram.ts, both sides of SCRAM-SHA-256: Router/Scram. The classes' methods are
--   client_first, server_first_message, client_final, server_final and verify_server_signature.
-- * apps/router/src/framed.ts, messages awaited from a socket: Router/Framed. The calls of its
--   owner and the events of the socket are handled one at a time.
-- * apps/control-plane/src/auth/trusted-proxy.ts, resolveClientIp: ControlPlane/ClientAddress, over
--   the interface TrustedProxies, which parseTrustedProxies (ControlPlane/ProxyList) fills. The
--   signed 32-bit operators of the language stand in Shared/Word.
-- * apps/control-plane/src/storage/disk.ts, DiskMonitor: ControlPlane/Disk, what a sample reports
--   from two measurements, and which work it lets through.
-- * apps/control-plane/src/projects/naming.ts, buildEndpoints: ControlPlane/Naming, the connection
--   strings of a project, which Naming/Endpoints puts together with the router's resolution.
-- * apps/control-plane/src/auth/service.ts, the administrator's account, its sessions and the
--   lockout: ControlPlane/Auth, and Auth/Access. A method that awaits is cut there into two
--   functions, so that calls interleave: login_start and login_finish, claim_start and
--   claim_finish.
-- * apps/control-plane/src/data/identifiers.ts, with skipQuoted of data/sql-text.ts:
--   ControlPlane/Quoting.
-- * apps/control-plane/src/data/sql-text.ts, the splitting of a script and the search for
--   destructive statements: ControlPlane/SqlText. A position is the text from it on.
-- * apps/control-plane/src/projects/ports.ts, allocateHostPort: ControlPlane/Ports, with the known
--   ports, the bind test and the random offset as arguments.
-- * apps/control-plane/src/jobs/queue.ts, the durable job queue over the table `jobs` of
--   apps/control-plane/src/db/schema.ts: ControlPlane/Jobs. Rows has the table and its statements,
--   Queue the methods of JobQueue, Steps the transactions in any order.
-- * apps/control-plane/src/jobs/worker.ts, the worker that runs jobs, and jobs/registry.ts:
--   ControlPlane/Jobs/Worker. A handler is the calls that it makes and the way that it ends.
-- * apps/control-plane/src/projects/reconciler.ts, the comparison of the projects with Docker:
--   ControlPlane/Reconciler. Docker's answers are arguments; the tables are projects and upgrades.
-- How they interact: a connection is resolved (Router/Resolve) to a route of the table
-- (Router/Routes), forRoute gives the pool of the route, and a session feeds it. A worker claims jobs from the
-- queue and reports their ends to it.
--
-- Bounds and fuel: numbers are natural numbers, a 32-bit integer of the wire is a ℤ whose writer
-- checks its range. The loops pump, frame_all, parse_parameters and parse_fields run on fuel above
-- the length of the buffer, and each round takes a byte at least; strip and split on the length of
-- the script, of which each round takes a character at least; a loop of theirs that has not ended
-- is none.
--
-- Arguments of the model: UTF-8 (Router/Text, Utf8), decryptSecret, the rows of the router's
-- database query, the time, new ids and random numbers, scrypt, the
-- hashes and base64, `Number` and `toLowerCase`.
--
-- Not modelled: sockets and TLS, logging, timers but for what they call, the web console,
-- the drivers of Docker and of object storage, toJob and list of the queue, and the rest of
-- the control plane.
pub mod Shared
pub mod Router
pub mod ControlPlane
