-- ===== src/Lib.antt =====
-- Krossbar bus: a hub to which local services connect, and the library that services use.
--
-- A service registers at the hub under its name, over a Unix socket. The hub checks, by the service
-- file of that name, whether the executable of the process may do so. A registered service may ask to
-- be connected to another: the hub checks the connection by the service file of the target, and hands
-- each of the two one end of a socket pair. If the target is not there and the client wants to wait,
-- the request is queued until the target registers. Over such a connection a service offers methods,
-- signals and states.
--
-- Files and sources:
--   Common       shared tests, lists, texts, maps (`HashMap<String, _>`) and results.
--   Protocol     krossbar-bus-common/src/lib.rs, protocols/hub.rs and the constant of
--                protocols/inspections.rs, and the errors of krossbar_rpc.
--   Rpc          the bodies of requests that the code takes from the crate krossbar_rpc.
--   Names        krossbar-hub/src/service_names.rs: `from_string`, `matches` (its loops are `walk`,
--                `visit_all` and `visit`). Spec, Walk, Moves and Decide compare the search with
--                a relation, Print and Exact are about parsing.
--   Permissions  krossbar-hub/src/permissions.rs: Files has `new` and `parse_service_file_json`, the
--                parent the readers of entries and the checks. Connections, Execs, Entries and Dirs
--                are about them.
--   Hub          krossbar-hub/src/client.rs and hub.rs: Context has the operations on `HubContext`,
--                Sessions/Tasks the task of one client (`authorize`, `client_loop`), Sessions the main
--                loop (`run`) as a function `step` on events, with histories `Runs`. Policies fills
--                the interface `Policy`, by which the hub asks its permissions, from Permissions.
--                Pool and Interleaved have the same tasks between two awaits, with the lock of the
--                context, as a function `turn` with histories `Turns`.
--                Program is krossbar-hub/src/main.rs and the start and end of `run`. The other modules
--                have the proofs.
--   Endpoints    krossbar-bus-lib/src/endpoints: World is the store of clients and values, Signals is
--                signal.rs, States is state.rs, Calls is mod.rs. The other modules have the proofs.
--   Client       krossbar-bus-lib/src/client.rs and event.rs: Events has events, Calls the requests of a
--                `Client`, Handles `ClientHandle` with its `poll`. Retries has the proofs.
--   Service      krossbar-bus-lib/src/service.rs: Register has `hub_connect`, Poll the state, `poll` and
--                `run`, Connect `connect_impl`, Offers what the owner of a service calls. Serves and
--                Told combine it with Endpoints. The other modules have the proofs.
--   Handshake    Service and Hub combined: the registration of a service, and (Meeting) the connection
--                of two services.
--   Tools        krossbar-monitor/src/main.rs (Monitor), krossbar-connect/src/main.rs (Commands, and Texts
--                with helper.rs), how both start as services (Starts), and the printing in
--                krossbar-bus-common/src/protocols/inspections.rs (Inspect). The other modules have the
--                proofs.
--   Demo         krossbar-bus-lib/examples/demo_server.rs: its method `greet`. Tenth has the proofs.
--   Samples      concrete runs.
--
-- How state and effects are modelled. A function that changes shared state takes it and returns it,
-- with the list of what it writes in the order of writing. `none` is a panic, where the code has one.
-- A connection, its writer and its task are one number. In Hub/Sessions a task of the hub runs
-- without interruption until it polls its connection or sleeps: interleavings are those of the events
-- accepted, polled, woken and reaped. In Hub/Interleaved a task is also suspended at each write and
-- before it locks the context, with the lock or without, and other tasks take turns there; what it is
-- about to write is fixed when it handles the message. Any task may get a lock that is free: the order
-- in which tokio hands it over is left open. An `Arc` in the endpoints is an address in the store, so that a signal and
-- its handle share their clients; so are the flags and events that the clients of a service share.
-- A future of a service is a phase, and goes from one await to the next at an event: what its socket,
-- the hub or a channel hands over. A loop that waits takes the list of what happens, and is `none`
-- while it has not ended. All recursion is structural, and no function takes fuel.
--
-- Awaits that are not cut up: each future of `Service::poll` is polled to its end (Service/Dropped has
-- one that its caller drops, at the await of `handle_incoming_call`), and `Handle::add_client` of a state
-- runs without a set at its awaits (Endpoints/Live has one that a set overtakes). A method of a service
-- is one step. A panic in the method of the monitor ends the task that polls its service
-- (`monitor_poll`).
--
-- Parameters, for code outside the repository and for the machine: the file system, `/proc`, the
-- crates json and glob and the iteration order of hash sets (`System` in Permissions/Files; what is
-- assumed of the order is `Visits` in Names/Decide), socket pairs and failing writes (`Attempt`),
-- bson (`Codec` in Hub/Sessions/Tasks, and the functions from_bson and to_bson in Endpoints), and
-- whether a subscriber takes a response (`takes`). A request is polled with its body, so that
-- `take_body().unwrap()` does not fail. The cargo features privileged-services, inspection and monitor
-- are Booleans. The channels of async_channel are a queue with its laws (`Channel` in Client/Events). A
-- connection that is there again keeps the number of its writer, as `on_reconnected` of krossbar_rpc
-- lets the old writers use the new stream. The socket file is `SocketFile` in Hub/Program. The peer,
-- JSON and colours of the tools are `Peer` in Tools/Commands, `Style` in Tools/Monitor and `Bright` in
-- Tools/Inspect.
--
-- Not modelled: logging, the command lines (krossbar-hub/src/args.rs and the `Args` of the tools), the
-- terminal library of the connect tool, the root of the bus library (documentation and re-exports), the
-- other example programs and the tests.
pub mod Common
pub mod Names
pub mod Protocol
pub mod Permissions
pub mod Rpc
pub mod Hub
pub mod Endpoints
pub mod Client
pub mod Service
pub mod Handshake
pub mod Tools
pub mod Demo
pub mod Samples
