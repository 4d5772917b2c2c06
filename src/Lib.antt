-- ===== src/Lib.antt =====
-- Verification of ZoneMTA, an outbound mail relay in JavaScript.
--
-- The program. An SMTP or HTTP interface takes a message; the mail queue (lib/mail-queue.js) stores its
-- body in GridFS and one row for each recipient in a MongoDB collection, in the zone to which
-- lib/sending-zone.js routes it. Sender processes ask the queue server for the next delivery of their
-- zone (lib/queue-server.js) over sockets, which carry frames (lib/transport). The queue then marks a
-- due row as locked in the database, and takes a lock on it in memory (lib/queue-locker.js), which
-- also limits the connections to a domain: a domain at its
-- limit is skipped in the next search. A zone in which nothing was found is remembered for some
-- seconds in a cache (lib/ttl-cache.js). A sender (lib/sender.js) takes a connection from its pool
-- (lib/connection-pool.js) or makes one by mx-connect. After the attempt it releases the delivery, and
-- with its last row the message is deleted, or defers it for later; lib/bounces.js tells what a reply
-- means and whether a bounce is sent. Bodies go through transform
-- streams (lib/line-ends.js, lib/size-limiter.js).
--
-- The files:
--   Prelude       names and Boolean tests; Maps and Sets are the Map and Set of JavaScript
--   TtlCache      lib/ttl-cache.js; Sorted, Expiry, Invariant and Scheduling on its sorted list and
--                 its timer, Reads on what get answers
--   QueueLocker   lib/queue-locker.js; Held and Owners on which keys are held, Timing on the timer,
--                 Skips on the sets of the domains and on skipped ones, Events and Reachable on
--                 sequences of calls, Table on the locker as a table of held keys
--   Delivery      the row of a delivery, and the database as lib/mail-queue.js calls it
--   MailQueue     store (Upload), push, shift, remove, releaseDelivery, deferDelivery, clearGarbage,
--                 count, getInfo, update, setMeta, getMeta, removeMessage and the lock release of
--                 init of lib/mail-queue.js; Memory is a database on which its hypotheses hold,
--                 Sound is on the locks
--   Routing       the routing maps of lib/sending-zone.js
--   DomainConfig, Speedometer, SendingZone
--                 the settings of the domains, the throttling, and the methods of a zone in
--                 lib/sending-zone.js; Pools is on getAddress, Blacklist on blocked addresses
--   QueueServer   lib/queue-server.js: its requests on the queue; Server is its event handlers,
--                 Answers, Locks, Sound and Taken are on what it answers and locks
--   ConnectionPool
--                 lib/connection-pool.js; Events is a run of calls and timers, Invariant, Kept and Adds
--                 are on what holds of every pool, Reuse on what a sender gets
--   Bounces       lib/bounces.js; Texts and Lines are on formatSMTPResponse, First on check
--   Sender        handleResponseError of lib/sender.js; Attempts follows a delivery that fails again and
--                 again, Handled its request to the queue server and the queue; Connect is
--                 getConnection and getConnectionWithCache (Tries, Ends, Policy, Cached, Blocked), Turns
--                 is sendNext
--   SenderService services/sender.js: the requests of a sender process and its senders
--   MailDrop      add of lib/mail-drop.js; Added is on what its answer means
--   PluginHandler addHook and runHooks of lib/plugin-handler.js
--   Frames        lib/transport/frames.js and lib/transport/frame-parser.js
--   Streams       LineEnds and SizeLimiter for lib/line-ends.js and lib/size-limiter.js
-- A child module named Tests holds runs on concrete inputs.
--
-- How the code is read. An object is a record and a method is a function that gives the next record
-- and the result; field and method names are those of the code in snake_case. Time is an
-- argument, a timer the time at which it is due, setImmediate a list of pending tasks or the next
-- step of a loop. A falsy optional value is `none`, an error of a callback a value of `Reply`.
-- Numbers are natural numbers without a bound: the times and sizes of the program are far below
-- 2 ^ 53. MongoDB is a parameter, with its documented behaviour as a named hypothesis where a
-- theorem needs it. A call of the queue runs to its end before the next one; the locker, the
-- cache and the queue server are followed through any sequence of calls and events.
--
-- Fuel. `Frames.run` takes a step for each call of `read`: the bytes and the buffers together and
-- one more are enough. `MailQueue.shift` takes one for each query: one more than the rows that are due
-- are enough, as each run of the loop leaves fewer. `Sender.Connect.Tries.tries` takes one for each try: two
-- for each host and two more are enough.
--
-- Not modelled: the SMTP client and server, TLS, DNS, HTTP and crypto, which are libraries; log
-- lines and metrics; what plugins do, of which the hook queue:route is a parameter of push; the keys
-- that a response may add to a deferred row; the listings of the queue; how a zone makes its address
-- pools; child processes; what a sender sends, its headers and its delivery by HTTP; the parsing of
-- messages and DKIM. The regular expressions of bounces.js and sender.js are functions of texts; those
-- in the file of bounce rules are arguments. Where shift and the queue server copy the keys of the
-- metadata into a delivery, they are kept apart from the keys of its row.
pub mod Prelude
pub mod TtlCache
pub mod QueueLocker
pub mod Frames
pub mod Streams
pub mod Delivery
pub mod MailQueue
pub mod Routing
pub mod Speedometer
pub mod DomainConfig
pub mod SendingZone
pub mod QueueServer
pub mod PluginHandler
pub mod ConnectionPool
pub mod Bounces
pub mod Sender
pub mod SenderService
pub mod MailDrop
