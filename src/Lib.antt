-- ===== src/Lib.antt =====
-- podplane creates and runs Kubernetes clusters. This library models several of its parts.
--
-- The local secret store, internal/fakevault/store.go, is in FakeVault. `FileStore` (Types) is the
-- store's state with the keyring and the files that it reaches, as association lists. Each method
-- is an action of `Exec` (Base/Exec): a function from the state to a result and the state after it,
-- since what was written before an error stays written. Store has the helpers (vaultKey, readFile,
-- writeFile, writeFileAtomic), Operations the exported methods (SetSecret to Unlock), Paths the
-- cleaning of cluster IDs and paths. `World` holds what the operating system, the keyring and the
-- random source answer during one call, and how each step of an atomic write ends; the temporary
-- files of writes are apart from the others, and one stays where its removal fails. `Codec` stands for
-- JSON, base64 and AES-GCM, with `CodecLaws` as what the store relies on: JSON keeps texts that are
-- valid UTF-8 and numbers of 64 bits (Encodable: every file that is written is such). The methods hold one
-- mutex, so that a history is a sequence of calls. ListSecrets, which only reads, is left out.
--
-- The handler that serves the store over HTTP, internal/fakevault/handler.go, is in FakeVault/Handler:
-- `serve_http` is ServeHTTP up to the function that answers, an `Action`, with the tokens as its
-- state and a time for each reading of the clock; Handler/Login is serveLogin, and Handler/StorePaths
-- has what the store's CleanPath makes of a path that was let through. The functions that
-- answer, which turn requests into calls of the store and results into JSON, are left out, and so
-- is the check of a JWT (internal/fakevault/kubernetes_token.go), which is the `Validator`.
--
-- The cluster configuration, internal/clusterconfig, is in ClusterConfig. Types has the records of
-- types.go, Resolved the defaults of types.go and registry.go, Network the service networks of
-- service_network.go, and Names, Settings, Infrastructure, Networking and Validate the checks of
-- validate.go, from the grammars of names up to Validate. `Checked` (Base/Errors) is an error or
-- nil, with messages kept as formats and arguments. Maps are association lists in the order of
-- iteration, so that a theorem about every list is one about every order. Netip has the address
-- arithmetic of net/netip that the code uses; the parsers of addresses, URLs and e-mail addresses
-- are fields of `Platform`.
--
-- Deleting a cluster, internal/clusterdelete/delete.go, is in ClusterDelete. A `Run` (Runs) takes a
-- `World`, which is the log of the calls so far and the time, to a result and the world after it.
-- What a call answers is a function of the world, so that the answers may depend on all that came
-- before; `Surroundings` has the context and the clock. Shards is zeroShardConfig on documents of
-- Base/Json, Outputs parseOutputs and formatInstances, Waiting the loop of waitForManagedInstances
-- with its `select`, Workflow Delete. Durations are not negative. The context is looked at where the
-- code calls ctx.Err() or selects, and its end is a point in time.
--
-- Putting a cluster to sleep, internal/clustersleep/sleep.go, is in ClusterSleep: Request/`request` is
-- Request. The contexts and names that it uses, internal/kubectl (keys.go, args.go, and Context and
-- ResolveContext of context.go), are in Kubectl. Both act on a log of the calls of kubectl, whose
-- answers are functions of the log.
--
-- Health checks, internal/health, are in Health: Checks/`run_checks` is RunChecks of check.go, over
-- the log of the calls of kubectl, and HelmReleases/`read_helm_release_statuses` is
-- ReadHelmReleaseStatuses of helmrelease.go, and Workloads/`workload_ready` and
-- `ensure_deployment_replicas` are workloadReady and ensureDeploymentReplicas of workload.go.
-- Objects/`read_workload` and `check_config_map_data` are readWorkload and checkConfigMapData of
-- configmap.go, which have their steps in common: `read_object`. The decoding of the answers is a
-- parameter.
--
-- The stand-in for S3, internal/s3fake/s3fake.go, is in S3Fake. Paging has the pages of a listing:
-- `apply_list_bucket_page` is applyListBucketPage, with the lists of gofakes3 as a `Library`; a key
-- limit below zero, which the code takes for no limit, is zero. Multipart has the uploads that are
-- kept on disk: `Storage` is the directory beside the cache with the backend, `Steps` how the
-- operating system answers in one call; UploadPart, AbortMultipartUpload and CompleteMultipartUpload
-- are actions of `Exec`, and part numbers and lengths are not negative. The reader of the parts gives
-- their contents one behind the other. CreateMultipartUpload, the two listings of uploads and parts,
-- the reader's buffers, the HTTP handlers and the decoration of metadata are not modelled.
--
-- The loop of waitForManagedInstances takes its number of rounds as fuel and gives `none` without
-- them; so many rounds that their pauses are longer than the time to wait are enough. Every other
-- function is total by structural recursion. Go's int is the integers, where
-- the code only compares it; the successor of a secret's version wraps at 64 bits, and the address
-- sums wrap at 64 bits per word.
--
-- Base has the shared names: errors, actions, lists, association lists and texts. Tests in each part
-- run the operations on concrete input.
pub mod Base
pub mod ClusterConfig
pub mod ClusterDelete
pub mod ClusterSleep
pub mod FakeVault
pub mod Health
pub mod Kubectl
pub mod S3Fake
