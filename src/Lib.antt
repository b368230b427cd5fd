-- ===== src/Lib.antt =====
-- lite-mesh is a small service mesh for Kubernetes. Two custom resources describe it: a `Service`
-- is a workload with a sidecar, a `Configuration` says which pods get which Envoy filters and
-- clusters. Three programs work on them:
--   * the controller (cmd/controller, pkg/controller) watches mesh services and creates a
--     Deployment and a Kubernetes Service for each;
--   * the discovery server (cmd/discovery, pkg/xds) watches configurations and hands a snapshot of
--     listeners and clusters to the sidecar of each selected pod;
--   * the bootstrap program (cmd/envoy-bootstrap) is the entry point of the sidecar: it writes
--     Envoy's configuration file and runs Envoy.
-- They share the API types (pkg/apis/mesh) and a generated client library (pkg/client).
--
-- Base holds the shared vocabulary: Go strings as lists of bytes (Bytes), maps as association lists
-- (Maps) and the orders of one (Orders), `strings.Split` (Split), the verb `%d` (Decimal) and lists
-- (Lists). Kube holds the fields of Kubernetes objects that the program reads or writes, and
-- `Result`, what a call that returns a value and an error does. Then, file by file:
--   * Apis: pkg/apis/mesh/v1alpha1/service_types.go and configuration_types.go; Apis.Ports is about
--     `Ports`.
--   * Apis.Register: register.go in the same directory, and the registration in the schemes of the
--     clients. A scheme is a state, with the calls of apimachinery as a record.
--   * Apis.Memory and Apis.DeepCopy: zz_generated.deepcopy.go in the same directory. A heap is the
--     list of its cells, and a pointer, a slice or a map is an address or nil.
--     Apis.DeepCopy.Reading says what a struct in memory stands for.
--   * Controller.Meta: pkg/controller/meta.go. Controller.Resource: pkg/controller/resource.go,
--     with proofs in Selection (labels and selectors), Orders and Labels (the order of the labels,
--     and maps without it), Ports, PortNames and Containers. A function that writes to the service
--     that it is given returns the service as well.
--   * Controller.Reconcile: `reconcile`, `reconcileDeployment` and `reconcileK8sService` of
--     pkg/controller/controller.go, as functions on a state `W`, the API server with the informers'
--     caches, through the record `Kube` of the calls made on it. Services are values there, on
--     which `DeepCopy` is the identity. Convergence, Success, Keeping and Ordering are about what a
--     reconciliation achieves, what it never undoes and in which order it creates. Phases has the
--     same functions one call at a time, for a state that others change in between; Alone and
--     Interleaving are about a worker without and with such changes, Apart and Together about
--     workers of different services; Standing says what a worker has reached at each phase.
--   * Controller.Worker: `enqueue`, the event handlers, `processNextWorkItem` and `runWorker`, over
--     the record `Workqueue`. `runWorker` loops until shutdown, so it has fuel: one round more than
--     the queue delivers items is enough. Drain and Settling are about a queue that hands out some
--     items and is then shut down, Requeue is about the queue.
--   * Controller.Worker.Run: `Run` with its workers as a step relation, in which a worker handles
--     an item in one step; Exclusion, Pending and Settling are about all of its interleavings.
--   * Controller.Worker.Calls: `Run` call by call, with a phase for each item in the hands of a
--     worker; Exclusion, Apart, Fate and Moving are the lemmas of Settling, on what the workers
--     achieve. Refining compares it with the former.
--   * Client.Listers: pkg/client/listers/mesh/v1alpha1, over a record `Indexer`; Typed has the
--     listers as values of their interfaces.
--   * Client.Informers: pkg/client/informers/externalversions (factory.go and the typed informers).
--     A factory is a record; `Start` also returns the list of informers that were set running.
--     Orders is about the order in which `Start` walks them, Access is the way through the group
--     and its version to an informer.
--   * Client.Generic: generic.go in the same directory; Known is about `ForResource`.
--   * Client.Rest, Client.Services, Client.Configurations: the typed clients of
--     pkg/client/clientset/versioned/typed/mesh/v1alpha1, as the chains of calls that they make on
--     a REST client. Client.Requests reads a chain as a request; Storing and Isolation are about an
--     API server that behaves as documented.
--   * Client.Clientset: clientset.go and mesh_client.go of pkg/client/clientset/versioned, the
--     construction of the clients; Construction says when it succeeds.
--   * Client.Interfaces: the interfaces of the clients and the clientset, as records of their
--     methods. Client.Typed has the typed clients as values of them.
--   * Client.Fake: the fake clients below pkg/client/clientset/versioned, over the recorder of
--     actions; Actions compares them with the typed clients, Listing is about the fake `List`.
--     Client.Fake.Clientset is `NewSimpleClientset` with the getters, over a record `Testing` of
--     the tracker and the reactors of client-go; Tracking is about what it finds.
--   * Xds.Envoy: the Envoy objects that pkg/xds/server.go builds. Xds.Listeners: `buildListeners`,
--     `buildClusters` and `MessageToStruct`, over a record `Jsonpb` for the JSON codec; Routing is
--     about where connections go, Names is about names. Xds.Server: `ID`, `update` and the event
--     handlers, over a record `Backend` of caches and the snapshot cache; Snapshots is about one
--     event, Replay about a run of them, Endpoints about where the connections of a sidecar end.
--     Xds.Start: `Start`.
--   * Bootstrap: cmd/envoy-bootstrap/envoy-bootstrap.go, over a record `Os`; Bootstrap.CommandLine
--     is its flags. GoFlag: `flag.Parse` of Go, for the flags of any program. Sidecar and
--     Connection put the controller, the bootstrap program and the discovery server together.
--   * Signals: pkg/signals, as a state machine on the channel of signals, on both platforms.
--   * Commands: cmd/controller/controller.go and cmd/discovery/discovery.go, over a record of the
--     libraries that they call; Commands.Flags has their flags. Startup says what is so when they
--     serve, Serving when they do.
--   * Tests: the theorems at concrete inputs, with a small cluster, work queue, codec and so on.
--
-- An `int32` is an integer and a `uint32` a natural number; the program does no arithmetic on them,
-- so none can overflow. Loops over slices and maps are recursions over lists, and a map is walked
-- in the order of its list, which is one of the orders that Go may choose. A panic of Go is the
-- result `panic`, or `none`.
--
-- Not modelled: vendored libraries, which are the parameters named above; logging and
-- `utilruntime.HandleError`, which leave no trace in the state; manifests and images.
pub mod Base
pub mod Kube
pub mod Apis
pub mod Client
pub mod Controller
pub mod Xds
pub mod GoFlag
pub mod Bootstrap
pub mod Signals
pub mod Commands
mod Tests
