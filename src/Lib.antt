-- ===== src/Lib.antt =====
-- Skrift is a content management system on an async web framework. This library models the parts of
-- it that keep state or decide without a server: the workers over their in-memory backend, sessions
-- and notifications, the hook registry, the rate counters, the guards of routes, and the resolution of
-- a client's address.
--
-- Which file models which part:
--
-- Workers/Job        skrift/workers/models.py: JobEnvelope, its idempotency payload, ClaimedJob
-- Workers/Queue      skrift/workers/memory.py: InMemoryQueue. One function per method, in Claim,
--                    Settle (ack, nack, cancel, wake), Submit and Stats; Steps has a call of any
--                    method as one step, and runs of calls
-- Workers/EventLog   skrift/workers/memory.py: _EventStream and InMemoryEventLog
-- Workers/StateStore skrift/workers/memory.py: InMemoryStateStore
-- Workers/DeadLetter skrift/workers/memory.py: InMemoryDeadLetterStore, with the entries of
--                    skrift/workers/models.py
-- Workers/Runtime    skrift/workers/runtime.py over these backends, with the states, events and policies
--                    of skrift/workers/models.py; Execute has the run of a claimed job, Control
--                    and Replay the calls around it; Ended and Inline, Held, Settled, Refused and
--                    Queued, and Cancelled prove what these leave
-- Hooks              skrift/hooks.py: HookHandler and HookRegistry
-- Session            skrift/auth/session_service.py: Pending (begin, read, update), Complete (promotion
--                    and transition), Idle for skrift/middleware/session_idle.py; RoundTrip, Signed,
--                    Expiry and Active prove what sessions hold
-- Notifications      skrift/notifications.py: SourceRegistry, its Search and the Delivery to listeners;
--                    Service and Sending have NotificationService; Backend and Retention have
--                    InMemoryBackend of skrift/lib/notification_backends.py
-- SlidingWindow      skrift/lib/sliding_window.py: _MultiWindowHistory; SlidingWindow/Counter has
--                    InMemorySlidingWindowCounter
-- TrustedProxy       skrift/lib/trusted_proxy.py: TrustedProxies and resolve_client_ip; Sources has
--                    TrustedProxyManager
-- ClientIp           skrift/middleware/client_ip.py and skrift/lib/client_ip.py
-- Guards             skrift/auth/guards.py: the requirements, the scope of API keys, auth_guard; and
--                    the routing of bearers from skrift/auth/bearer.py
-- Permissions        skrift/auth/permissions.py: definitions, and strictest_clearance
-- PermissionCache    skrift/auth/services.py: get_user_permissions with its cache
-- Prelude            tests on numbers, dictionaries, lists and results that the parts share
--
-- How the code corresponds to the definitions:
--
-- A method takes the state of its object and returns the new state beside its result. An exception
-- is the case `raise` of Result. A lock that is held for a whole method makes the method one step,
-- so that interleavings of tasks are sequences of calls; waiting on a condition is left out.
-- A dictionary is a list of pairs in the order of insertion, as Python keeps it.
--
-- Times are natural numbers of microseconds, and of seconds in Session. Where a method reads the
-- clock several times, `clock n` is its n-th reading; nothing is assumed of the readings unless a
-- theorem says so. Tokens that the code draws at random are arguments. Payloads, events, callbacks
-- and ids are type parameters, with an equality test where the code compares them; the effect of a
-- callback is a function that is given.
--
-- Python's module `ipaddress`, the database queries behind the guards, the check of an API key and
-- the verification of a JWT are parameters, of which nothing is assumed. A set is a list of which
-- only membership is read. Text that the code takes apart is a list of code points, as headers are
-- decoded from latin-1; names that it only compares are strings.
--
-- How the parts interact: a connection's queue hears what is pushed to the sources upstream of its
-- session, and what is stored for these is read back; the worker runtime settles the claims of the
-- queue and writes the state and dead-letter stores; `auth_guard` reads the permissions that
-- PermissionCache serves; limits per address rest on the address that TrustedProxy resolves, and are
-- counted by SlidingWindow.
--
-- Envelopes and events are values here. `submit` under a job_id stores a copy of the envelope;
-- without one it writes to the caller's envelope and stores it, and the queue returns that object
-- itself. Submitting an envelope that an entry already holds is a call of its own, submit_stored of
-- Workers/Queue/Submit, and Workers/Runtime writes the changes that it makes to a claimed envelope
-- back to the entry. Other writes of a caller to a stored envelope are not modelled.
--
-- A handler is awaited, so the runtime may change under it: leases lapse, other tasks submit and
-- claim. `meanwhile` of Workers/Runtime is what is done until it ends, any function on the runtime;
-- a handler ends by returning, asking for a pause, raising an exception or being cancelled. The other
-- awaits of the runtime are calls of its in-memory backends, which do not wait for anything but a lock.
--
-- Two loops run on fuel. The search of the notification sources has one unit more than there are
-- subscriptions, which is proved to be enough. The inline run of a job starts over for each
-- attempt; one unit more than the attempts left is proved to be enough where the handler always
-- returns or raises an exception and nothing else writes the job's state. Every other loop is a
-- recursion on a list.
--
-- Not modelled: everything that is mostly calls of the database, of HTTP, of Redis or of a model
-- provider, the configuration and start-up, templates and assets.
pub mod ClientIp
pub mod Guards
pub mod Hooks
pub mod Notifications
pub mod PermissionCache
pub mod Permissions
pub mod Prelude
pub mod Session
pub mod SlidingWindow
pub mod TrustedProxy
pub mod Workers
