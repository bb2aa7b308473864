-- ===== src/Lib.antt =====
-- postgreslet: a controller that turns the custom resource `Postgres` of a control plane into a
-- database of the zalando operator in a service cluster, with the services, parameters and
-- replication settings that belong to it.
--
-- Parts of the program and the files that model them:
-- * api/v1/postgres_types.go, the resource and what is derived from it. `Postgres.Model` has the
--   fields (`Postgres`, `PostgresSpec`, `PostgresStatus`) and the predicates (`EnableSharedSVCLB` is
--   `enable_shared_svc_lb`, and so on); `Postgres.Names` the names of the peripheral resources
--   (`generateTeamID`, `generateDatabaseName`, `ToPeripheralResourceNamespace`, `ToDNSName`);
--   `Postgres.Labels` has `sanitizeLabelValue`; `Postgres.Params` the parameters of the database
--   (`enableAuditLogs`, `setDefaultPostgresParams`, `setPostgresParams`, `setSharedBufferSize`);
--   `Postgres.Cpu` has `calculateCPURequests`; `Postgres.Services` has `ToSharedSvcLB` and
--   `ToDedicatedSvcLB`.
-- * pkg/lbmanager/lbmanager.go, the manager of the services of type LoadBalancer: `Balancer.Socket`
--   has `nextFreeSocket`, `Balancer` has `CreateOrUpdateSharedSvcLB`, `CreateOrUpdateDedicatedSvcLB`,
--   `DeleteSharedSvcLB`, `DeleteDedicatedSvcLB` and `ReconcileSvcLBs`.
-- * controllers/postgres_controller.go, of which `Replication` has
--   `checkAndUpdatePatroniReplicationConfig` and what it calls, and `Replication.Settings` the
--   settings that are wanted and their comparison with those that are there.
--   `Credentials` has `ensurePostgresSecrets` of the same file: the secrets that a standby or a clone
--   copies from another database.
--   `Controller` has `Reconcile` for a database that is being deleted (`reconcile_deletion`), with the
--   deletions that it calls, and `Policies` the network policies: `Policies.Firewall` has `ToCWNP`, its
--   standbys (api/v1/postgres_types.go) and `createOrUpdateIngressCWNP`, and `Policies.Pods` has
--   `createOrUpdateNetPol`.
-- * pkg/operatormanager/operatormanager.go, the manager of the operators: `Operator.Install` has
--   `InstallOrUpdateOperator`, `createNewClientObject` and `UpdateAllManagedOperators`,
--   `Operator.Uninstall` has `UninstallOperator` and `IsOperatorDeletable`, and `Operator.Objects` what
--   is made of the documents (`editConfigMap`, `ensureCleanMetadata`).
-- * controllers/status_controller.go, of which `Status` has `Reconcile` step by step,
--   `Status.Sockets` the assignments to the sockets, and `Postgres.Secrets` the secret with the
--   passwords that it writes.
-- * pkg/webhooks/spiloPodMutator.go, of which `Webhook` has `Handle`, with its change of a pod as
--   `mutate`.
-- * Below them, `Text` has the operations on texts (`strings`, `regexp`, `strconv`), `Dict` the maps,
--   `Prelude.Int32` the arithmetic of `int32`, and `Cluster` the client of a Kubernetes cluster.
--
-- State. A cluster is an unknown type `W`; the methods of `Client` read and write it, and what they
-- do is known by the laws of `IsLawful`, of successful calls only. `Cluster.Memory` is a client over
-- a list of objects that meets the laws and runs the tests. A method of the program that may fail is
-- a function `W → Result E A × W`: what was written before an error stays written. The Patroni of a
-- database is the record `Patroni`, with the law `IsPatroni` where it has to keep what it is sent.
-- The status controller sees both clusters through `StatusCluster`, in which `retry.RetryOnConflict`
-- is a method too: the function that it retries works on the state and the variable of the owner.
-- Where one method deals with objects of many kinds, the client is `Objects` and an object is
-- metadata and one of the bodies of `Kube`; `IsObjects` has the laws, with a predicate `Doomed` for an
-- object that is gone or has a deletion timestamp, and `Kube.Memory` meets them. `Cluster.Actions` has
-- `Keeps`, by which a property of the state goes through a chain of calls. The deletion of a database
-- works on a pair of states, of the control cluster and of the service cluster.
--
-- Numbers and bounds. An `int32` is the bit pattern in a natural number below 2^32; an addition wraps
-- and a comparison is of the biased patterns. An `int64` is an integer with `wrap64` written out. The
-- loop over the ports has fuel for one round for each port from the start to the end of the range, in
-- the order of `int32`, and one more; `Balancer.Search` shows that it never runs out. `format_int` has
-- one unit of fuel more than its number, which has fewer digits than that. A text is the list of its
-- code points. Where Go ranges over a map, the model takes the order as given.
--
-- Not modelled: logging and events; the controllers' registration; `Reconcile` of the postgres
-- controller for a database that is not being deleted, and the objects that only it writes (the
-- resource of the operator with its sidecars, certificates, monitors, exporters and jobs); the etcd
-- manager, which installs YAML documents; main.go, which reads flags; generated code. The libraries of
-- Kubernetes are parameters: the client, `resource.Quantity` (`Quantities`), the validation of label
-- values, the retry of an update, `CreateOrUpdate` and the decoding of a request or a document.

pub mod Balancer
pub mod Cluster
pub mod Controller
pub mod Credentials
pub mod Dict
pub mod Kube
pub mod Operator
pub mod Policies
pub mod Postgres
pub mod Prelude
pub mod Replication
pub mod Status
pub mod Tests
pub mod Text
pub mod Webhook
