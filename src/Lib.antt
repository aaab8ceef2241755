-- ===== src/Lib.antt =====
-- The codex worker: a service that runs turns of the codex app server in named sessions, keeps
-- their live state, and reports their ends. The Python package
-- skills/subagent-driven-development/scripts/codex_worker is modelled from these parts:
--
-- * Runtime models runtime.py. A `SessionRuntime` is `_SessionRuntime` and a `RuntimeStore` is the
--   class of that name. The app server's notifications (Runtime.Turns and Runtime.Notify,
--   `on_notification` and `detach_all`), the start protocol (Runtime.Starts, `attach`,
--   `reserve_start`, `cancel_start`, `reconcile_start`), a thread that is read again
--   (Runtime.Reconcile, `reconcile_thread`) and the reads (Runtime.Reads, `status`, `wait`, `events`,
--   `agent_messages`) are functions on it. What a method does under a session's condition is one
--   function on the session; the method finds the session, applies it and stores the result. An
--   observer of terminal turns is known by a number, and what it does to the store is the parameter
--   `react`. Runtime.Reachable has the methods as steps.
-- * Models has the values of models.py, with the checks of their constructors and their
--   dictionaries (Models.Wire has those of a session, an event page and a response), and
--   Models.Maintenance those of a maintenance action; Json the values of Python's json module.
-- * Callbacks models callback_store.py and callback_domain.py. The state of Callbacks.Store is the
--   decoded file; each mutation writes the whole file with sorted keys, which is what `write` does.
-- * Gateway models websocket_gateway.py: the gate that holds mutations back while the service is
--   drained, and the bridges between frontends and the app server. A section under a lock is one
--   function on the system; the contexts that a thread has entered and not yet exited or put in a
--   table are kept beside the code's own state. Frames are parsed texts.
-- * Registry models registry.py: the records of the sessions, with the file system and the UUID
--   parser in the parameter `Host`, and the time and a fresh id as arguments.
-- * PathSecurity models path_security.py, over the answers of lstat and stat.
-- * Projection models projection.py and the result views of commands.py: from the items of a turn to
--   its messages, metrics and completion; `json.loads` is the parameter `loads`.
-- * Dispatcher models callback_dispatcher.py. Each section under the condition is one function on
--   the tables (Dispatcher.Claims has those that claim a turn and settle it); Dispatcher.Turns has
--   what the dispatcher is for one turn. The projector and the store are the services of
--   Dispatcher.Processing, which Dispatcher.Events fills with the callback store and the readings of
--   the wall clock.
-- * Transport models websocket_transport.py, the worker's own connection to the app server: Requests
--   has `_call_once`, Calling `call` with its retries, Serving the reader and the approval thread. A
--   send finds the connection open in one section and reaches the socket in another; what the other
--   threads do between the two is the parameter `meanwhile`.
-- * Broker models three parts of broker.py, with the parts above: Broker.Inventory the list of the
--   active threads, page by page, Broker.Maintenance the stop and the restart of the service under a
--   lease of the gate, with the rest of the service in the parameter `MaintenanceHost`, and
--   Broker.Starting the start of a turn, from its model to the answer of the app server.
-- * Base has the Boolean tests, results, lists and dictionaries that the parts share. A Python
--   exception is the `err` of a `Result`.
--
-- The runtime hands the ends of turns to its observers, of which the dispatcher is one; the
-- dispatcher projects each, queues the event in the callback store and sends what is queued. The
-- broker starts turns through the runtime and the transport, and stops the service under a lease of
-- the gateway's maintenance gate.
-- Numbers that count (cursors, attempts, sizes, process ids) are natural numbers, and a number of
-- the JSON of a frame is an integer. The trimming of terminal turns runs on fuel, as many rounds as
-- there are turns: each round but the last removes one. A loop with a deadline (the draining of the
-- dispatcher, the inventory) takes how often it reads the clock before that. Waiting is a sequence
-- of looks at the session.
--
-- Not modelled: locks, threads and sockets themselves, file modes and fsync, which the operating
-- system provides; the other methods of the broker, the migration of old registries, the facade, the
-- RPC server and the command line; the scripts and the prose beside the package.
pub mod Base
pub mod Dispatcher
pub mod Gateway
pub mod Callbacks
pub mod Json
pub mod Models
pub mod PathSecurity
pub mod Projection
pub mod Registry
pub mod Runtime
pub mod Transport
pub mod Broker
