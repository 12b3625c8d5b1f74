-- ===== src/Lib.antt =====
-- nameko: a framework of Python microservices over a message broker.
--
-- A service runs in a ServiceContainer. Entrypoints take requests and have the container spawn a
-- worker for each; dependency providers hook into the worker's life; the worker's context travels
-- in the headers of the messages it sends; results and exceptions travel back as data. The modules:
--   * Base: Booleans, options, lists, strings as lists of code points, dicts as association lists in
--     the order of insertion, and the lemmas on them that the others share.
--   * Values, Exceptions (nameko/exceptions.py): the values of a message body; safe_for_serialization
--     in Exceptions/Safe; serialize, deserialize and the registry in Exceptions/Wire.
--   * Headers (nameko/messaging.py): HeaderEncoder and HeaderDecoder.
--   * Worker (nameko/containers.py): WorkerContext, its call id and its call id stack.
--   * Lifecycle (nameko/containers.py): _run_worker with the hooks of the dependency providers, as a
--     run that logs its calls and ends where one raises.
--   * Eventlet: the interface of eventlet's Event, which eventlet implements, and an instance of it.
--   * Container (nameko/containers.py): start, stop, kill, spawn_worker and the exits of threads, as a
--     system of greenlets that give way at the calls that may block, in any order of turns.
--   * Rpc/Server (nameko/rpc.py, with check_signature of nameko/extensions.py and ack_message and
--     requeue_message of nameko/messaging.py): RpcConsumer, Rpc and Responder, as methods that may
--     raise and that leave effects in order. Rpc/Client: ReplyListener and RpcReply. Rpc/Call:
--     the call of MethodProxy, and what becomes of it. Rpc/Crossing: both ends and the exceptions
--     together.
--   * Websocket (nameko/web/websocket.py): the sockets of WebSocketServer and the subscriptions of
--     WebSocketHub. Websocket/Channels: what each operation does to the two sides of a subscription;
--     Websocket/Linked: that the sides agree; Websocket/Broadcasts: who hears a broadcast;
--     Websocket/Requests: the frames of a socket and their responses; Websocket/Rpc: WebSocketRpc, the
--     entrypoint whose workers give them.
--   * Sockets (nameko/testing/websocket.py): the virtual socket that calls them. Sockets/Valid,
--     Sockets/Received: its calls and the messages that arrive; Sockets/Answered: one call; Sockets/Crossing: from a frame to its answer,
--     through Websocket/Requests and Websocket/Rpc.
--   * Redact (nameko/utils/__init__.py): get_redacted_args on a tree of dicts and lists. Redact/Fields:
--     reading what was assigned; Redact/Paths: what a path leads to; Redact/Hidden: what is redacted;
--     Redact/Indices: list indices before the end of a sensitive argument.
--   * Retry (nameko/utils/retry.py): the loop of retry and its delays, over the list of how the calls
--     end, on which the loop recurs.
--   * Concurrency (nameko/utils/concurrency): fail_fast_imap, its threads and its consumer by turns, and
--     the calls that SpawningProxy makes. Concurrency/Accounts, Concurrency/Prompt, Concurrency/Lost:
--     what becomes of the outcomes, those of a prompt consumer and of a late one.
--   * Runners (nameko/runners.py): ServiceRunner and run_services, over the calls that they make on the
--     containers. Runners/Kept, Runners/Waiting: which containers, and how the wait ends.
--   * Extensions (nameko/extensions.py and nameko/containers.py): bind of a tree of extensions, the
--     extensions of a container, and its start. Extensions/Sharing: one tree; Extensions/Objects: the
--     extensions of a container; Extensions/Started: the calls of its start.
--   * Amqp (nameko/amqp/publish.py): Publisher, its options and how publish ends. Amqp/Headers: which
--     headers and options win. Publish (nameko/messaging.py): the dependency provider that uses it.
--   * Events (nameko/events.py and nameko/standalone/events.py): the exchange of events, EventHandler and
--     the queue that it declares. Events/Queues: which handlers share a queue. Events/Dispatch:
--     EventDispatcher and event_dispatcher, and the queues that their events reach.
--   * Providers (nameko/extensions.py and nameko/messaging.py): ProviderCollector, and the consumers of
--     QueueConsumer. Providers/Collected: the wait for the providers; Providers/Cancelled: on_iteration
--     and unregister_provider; Providers/Thread: the start and stop of its thread.
--   * Rpc/Consumer (nameko/rpc.py): how the providers of RpcConsumer leave it. Rpc/Proxy: the options of
--     a call, through Amqp. Rpc/Routes: where a request and its reply go.
--   * Standalone (nameko/standalone/rpc.py): the polling client, over the list of what each call of
--     drain_events delivers or raises. Standalone/Polled: what one expects of the deliveries;
--     Standalone/Steps: each step; Standalone/Waits: a whole wait; Standalone/Crossing:
--     from a worker to the client.
--   * Web (nameko/web/handlers.py and nameko/web/server.py): the HTTP handler, with the methods of
--     Rpc/Effects and the environment of Rpc/Server. Web/Responses: which response a request gets.
--     Web/Address: parse_address; Web/Address/Ports, Web/Address/Accepted: which texts it accepts.
--     Web/Server: WebServer, by what is done with it; Web/Server/Phases, Web/Server/Served: before,
--     between and after its start and its stop.
--   * EnvVars (nameko/cli/main.py): the environment variables of a configuration, with the regular
--     expressions that find them. EnvVars/Templates: texts as trees of references; EnvVars/Scanned,
--     EnvVars/Expanded: what becomes of these; EnvVars/Endless: texts that are never done.
--   * Serialization (nameko/serialization.py and nameko/utils/__init__.py): setup, import_from_path and
--     sanitize_url. Serialization/Known: which configurations are set up; Serialization/Sanitized: what
--     a URL shows.
--   * Cli (nameko/cli/run.py): import_service in Cli/Imports, and the loop of run in Cli/Loops.
--   * Testing (nameko/testing/waiting.py): wait_for_call.
--   * Consume (nameko/messaging.py): Consumer, the entrypoint that consumes a queue. Consume/Settled: it with
--     the workers of Lifecycle, and what becomes of a message.
--   * Timer (nameko/timer.py): the loop of Timer, over the durations of its workers. Timer/Schedule: the
--     times of its ticks; Timer/Stopped: its end by stop.
--   * Pipeline (nameko/testing/utils.py): ResourcePipeline, by turns of its threads and its users.
--     Pipeline/Accounted: where each resource is; Pipeline/Orderly, Pipeline/Steps: how the threads end;
--     Pipeline/Shutdown and Pipeline/Completed: its shutdown.
--   * Restricting (nameko/testing/services.py): restrict_entrypoints. Restricting/Named: which are left.
--   * Examples: the theorems at concrete inputs.
--
-- Code of other packages is a parameter: kombu's encoders and publishing, the broker's connection and
-- its matching of topics, inspect.getcallargs, the text of Python objects, the import of modules, the
-- uuids, the loading of YAML, the parts of a URL, which characters are digits and spaces. One function
-- runs on fuel, EnvVars.expand, whose loop in the source may not end: the depth of the references is
-- enough fuel for a template of references, and EnvVars/Endless has the texts for which none is. Each
-- other function is a recursion on its data, and what happens from outside, such as the turns of the
-- threads and the deliveries of a connection, is given as a list. Log lines and warnings are left out.
--
-- Not modelled: the parsing of the command line and its commands other than run, the fixtures of the
-- test support that patch live objects, the accepting of sockets and the URL map of the WSGI server,
-- and the connections to the broker: they are I/O or calls of third-party packages.
pub mod Base
pub mod Values
pub mod Exceptions
pub mod Headers
pub mod Worker
pub mod Lifecycle
pub mod Eventlet
pub mod Container
pub mod Rpc
pub mod Websocket
pub mod Redact
pub mod Retry
pub mod EnvVars
pub mod Events
pub mod Providers
pub mod Consume
pub mod Timer
pub mod Concurrency
pub mod Runners
pub mod Amqp
pub mod Publish
pub mod Standalone
pub mod Extensions
pub mod Web
pub mod Testing
pub mod Sockets
pub mod Pipeline
pub mod Restricting
pub mod Serialization
pub mod Cli
mod Examples
