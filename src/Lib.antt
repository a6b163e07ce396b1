-- ===== src/Lib.antt =====
-- kustomize-controller
--
-- The controller reconciles objects of kind Kustomization: it reads the source that an object names,
-- builds a kustomize overlay out of the source's artifact, applies the objects that come out, deletes
-- those that an earlier revision had applied and this one has not, and reports in the status. This
-- library models the reconciler and the packages that it is made of, and proves what it does.
--
-- Parts, with the files of the repository that they are translated from:
--
-- Api (api/v1/kustomization_types.go, reference_types.go, inventory_types.go). Api.Types has the
-- records; Api.Defaults has GetTimeout, GetRetryInterval and the other methods with defaults. A
-- duration is a 64-bit integer whose subtraction wraps around.
--
-- Errors: Go's error values. An error is kept with the errors that it wraps, so that errors.Is and
-- errors.As can be asked of it, and a text is kept as its format and arguments.
--
-- Objects: what is taken from cli-utils, apimachinery and fluxcd/pkg/ssa. Their functions are the
-- fields of ObjectApi, and what the code relies on is in ObjectLaws.
--
-- Inventory (internal/inventory/inventory.go): New, AddChangeSet, Merge, List, ListMetadata, Diff
-- and ReferenceToObjMetadataSet under the names new, add_change_set, merge, list, list_metadata,
-- diff and reference_to_obj_metadata_set. A function that changes an inventory through its pointer
-- returns the new one. Inventory.Tracking says when an inventory tracks an object.
--
-- Controller (internal/controller/kustomization_controller.go, source_predicate.go, utils.go).
-- Controller.Environment is the interface to the API server, the file system and the libraries: a
-- record of functions, Env. A call that may answer differently each time is given the history of the
-- calls before it, so that its answers are not constrained. Controller.Methods is the monad of the
-- reconciler's methods: the state is the Kustomization, which every method mutates through one
-- pointer, and the history of the calls that others can see; what was changed before an error stays.
-- The methods are in Sources (getSource, getOriginRevision, the update predicate), Dependencies
-- (checkDependencies, evalReadyExpr), Builder and Building (generate, build, the choice of the
-- client), Applying (apply, HasChanged, and two predicates of internal/decryptor/decryptor.go),
-- Health (checkHealth), Pruning (prune, pruneSurvivors, deleteObjects,
-- finalizerShouldDeleteResources), Finalizing (finalize), Status (event, patch, finalizeStatus),
-- Reconciliation (reconcile, in stages that follow its text) and Loop (Reconcile and its deferred
-- function).
--
-- Controller.Frames: predicates on the state, by what they do not depend on. A frame does not depend
-- on calls that leave the cluster alone, on the parts of the status other than the inventory, the
-- applied revisions and the conditions, and on changes of the conditions that do not make Ready true;
-- a wide frame does not depend on the calls that change the cluster either. Frames.Calls and
-- Frames.Stages go through the methods, and Frames.Chains splits a chain of methods on the result of
-- the first.
--
-- Sops (internal/sops). Sops.Keyservice is the server of keyservice/server.go with its options: its
-- dispatch over the types of keys, over a state S of the function that obtains Vault tokens, and with
-- a panic as one of the replies. Sops.Azure is azkv/config.go, with the decoding of UTF-16 in
-- Sops.Azure.Utf16; Sops.Aws is awskms/credentials.go, and Sops.Aws.Region matches the expression of
-- awskms/region.go. Sops.MasterKeys has the keys and the credentials that the server fills in.
--
-- Decrypting (internal/decryptor/decryptor.go and options.go, api/v1/vault_types.go). A method is a
-- Task: a function from the decryptor and its session to a result and what it leaves. The session has
-- what the closure of vaultK8sAuth keeps, and the world, of any type, which the calls to the outside
-- are functions on. Types has the decryptor, New and the options; Keys has ImportKeys; Authentication
-- has SetAuthOptions and the loading of the key service; Vault has the token function,
-- loadVaultLoginPaths and vaultLogin, and Vault.Account has serviceAccountFromToken; Trees has
-- SopsDecryptWithFormat with its recovery from panics, and sopsEncryptWithFormat; Resources has
-- DecryptResource; Paths has securePaths and stripRoot, with filepath.Clean and filepath.Join; Files
-- has sopsDecryptFile and the visits of decryptKustomizationSources; Walking has
-- secureLoadKustomizationFile, recurseKustomizationFiles and DecryptSources. Bytes are texts with one
-- character for each byte. A map that the code ranges over is a list in the order of the visit, and
-- every theorem holds for all orders.
--
-- Watching (internal/controller/kustomization_indexers.go and the index functions of
-- kustomization_manager.go): requestsForRevisionChangeOf, requestsForConfigDependency, indexBy and
-- sortAndEnqueue.
--
-- Features (internal/features/features.go): the table of the feature gates, and Disable.
--
-- Examples: concrete libraries with proofs of their laws, and runs of the theorems on them.
--
-- Fuel: recurse_kustomization_files takes a number that bounds the depth of its recursion, and
-- returns nothing if it is used up. A directory that was visited is not entered again, so that one
-- more than the number of the directories that SecureJoin finds under the root is enough. Every
-- other loop goes over a list that is given, and is structural recursion.
--
-- Parameters: the functions of Env and of ObjectApi, and those of MasterKeyApi, KeyApi, TreeApi,
-- FileApi, ResourceApi, AzureApi and WatchApi. Hypotheses: ObjectLaws (what was parsed prints to
-- an id that parses to the same, the metadata of an object are its fields, the difference of two
-- sets has the members that the second lacks, sorting keeps the objects), ConditionLaws (each call
-- changes the conditions that it names, and no others), FinalizerLaws and WatchLaws (the cache
-- lists by the index, and a sort keeps the objects).
--
-- Not modelled: logs, the values of metrics, and times; the registration of indexes, watches and
-- predicates with the manager and main.go, which are wiring; the deprecated
-- versions of the API and generated code. The decryptor is a parameter of the model of build: its
-- answers there are not constrained. Concurrent reconciliations of one object do not
-- happen, since the workqueue hands out an object once at a time; what other actors do in between is
-- in the answers of Env, which depend on the history.
pub mod Prelude
pub mod Errors
pub mod Api
pub mod Objects
pub mod Inventory
pub mod Controller
pub mod Sops
pub mod Decrypting
pub mod Watching
pub mod Features
pub mod Examples
