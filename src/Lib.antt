-- ===== src/Lib.antt =====
-- A verification library of the cluster registry controller, which shares cluster resources and
-- copies Kubernetes objects from cluster to cluster by rules.
--
-- How the parts interact: the registry (`Clusters.Manager`) holds the clusters that are known. A
-- cluster (`Clusters.Cluster`) asks its API server at an interval whether it is alive, starts and
-- stops a manager accordingly, and runs controllers on it. A controller may require features, and
-- waits in the pending map while they are missing. For each sync rule a sync reconciler runs on
-- each cluster: it matches an object (`Api.Rules`), makes the copy (`Controllers.Sync.Mutate`), and
-- writes or deletes it in the local cluster, if the ownership tests over the registry permit that.
-- The cluster reconciler (`Controllers.ClusterReconciler`) keeps the registry in step with the cluster
-- resources, from the secrets that `Util.ReaderSecret` makes; the rule reconciler
-- (`Controllers.RuleReconciler`) gives each registered cluster a controller for each rule, the core
-- rules of `Controllers.CoreSyncers` among them; and on a remote cluster `Controllers.RemoteCluster`
-- keeps the status of the resource. The webhook (`Webhooks`) has its certificates from `Cert`.
--
-- Files and the code they model:
--   Api.Object, Api.Selector    what is used of apimachinery, operator-tools and gjson: parameters
--   Api.Cluster                 api/v1alpha1/cluster_types.go, cluster_metadata.go
--   Api.Rules                   api/v1alpha1/resourcesyncrule_types.go, resourcesyncrule_match.go:
--                               match_object is SyncRuleMatch.Match, match_rule is SyncRule.Match,
--                               match_spec is ResourceSyncRuleSpec.Match, the rest by their names
--   Util.Gvk, Util.Template     pkg/util/resources.go, overlaypatchtemplate.go
--   Clusters.Feature            pkg/clusters/cluster_features.go
--   Clusters.Controller         pkg/clusters/managed_controller.go: new, Start and Stop
--   Clusters.Cluster            pkg/clusters/cluster.go: activate_controller is addController,
--                               cancel_manager is stopManager; the goroutines are the relation Step
--                               of Clusters.Cluster.Steps
--   Clusters.Manager            pkg/clusters/manager.go; a cluster pointer is an index of a heap
--   Controllers.Sync            controllers/sync_reconciler.go: the state, ownership, event filters
--   Controllers.Sync.Mutate     mutateObject
--   Controllers.Sync.PreCheck   PreCheck and writePreCheck
--   Controllers.Sync.Reconcile  reconcile and deleteResource; what the API servers answer is an
--                               argument, and the writes that are asked for are a list of actions
--   Clusters.Reconciler         pkg/clusters/managed_reconciler.go, the interface and the base
--   Clusters.Lifecycle          managed_controller.go in full: a System is a controller with its
--                               goroutines, turn is what one does between two calls that block,
--                               Steps has the steps in any order; start_parts is start
--   Clusters.Cluster.Access     the options and look-ups of pkg/clusters/cluster.go
--   Cert.Certifier.Informer     Start and startWebhookConfigurationInformer of
--                               pkg/cert/webhook_certifier.go, over the events in their order
--                               (run_events); what a check delivers to the API server stands in
--                               Cert.Certifier.Delivery, readiness in Cert.Certifier.Readiness
--   Controllers.Watches.Setup   SetupWithController and SetupWithManager of the other reconcilers
--   Cmd.Config, Cmd.Start       cmd/manager/config.go with internal/config/config.go, and main.go with
--                               pkg/signals/signals.go: the calls before the manager runs, as a list
--   Util.RateLimit              pkg/ratelimit/ratelimit.go
--   Util.Kubeconfig.Token, Util.ReaderSecret.External
--                               GetKubeconfigWithSAToken, and GetExternalAddressOfAPIServer
--   Controllers.Sync.Setup      SetupWithController, Start and initLocalInformer of
--                               controllers/sync_reconciler.go; sync_reconciler is what the
--                               controller calls
--   Controllers.RuleReconciler  controllers/resource_sync_rule_reconciler.go: reconcile_rule is reconcile;
--                               the rule of a controller is kept by the handle of the controller
--   Controllers.ClusterReconciler
--                               controllers/cluster_reconciler.go: Remote has getRemoteCluster, Steps
--                               reconcileLocalCluster and reconcileRemoteCluster, and Run Reconcile,
--                               which returns the accepted status updates in order
--   Cert.Certificate            pkg/cert/certificate.go; a directory is a map from names to contents
--   Cert.Renewer                pkg/cert/renewer.go; an after-check function changes a state, a panic
--                               is none
--   Cert.Certifier              pkg/cert/webhook_certifier.go: after_check is the function of Start
--   Controllers.RemoteCluster   controllers/remote_cluster_reconciler.go: reconcile_status is reconcile,
--                               reconcile_remote is Reconcile; remote_cluster_feature_reconciler.go:
--                               reconcile_feature
--   Controllers.CoreSyncers     controllers/core_syncers.go
--   Controllers.Watches         controllers/cluster_reconciler_watches.go, and the map functions and
--                               predicates of the SetupWith... methods of the reconcilers
--   Util.Provision              pkg/util/provision_local_cluster.go
--   Util.ReaderSecret           pkg/util/cluster_secret.go; the looks at a secret are a sequence
--   Util.Kubeconfig.Overrides   GetKubeconfigOverridesForClusterByNetwork of pkg/util/kubeconfig.go
--   Webhooks                    pkg/webhooks/cluster_validator.go
--   Util.Kubeconfig             GetEndpointForClusterByNetwork of pkg/util/kubeconfig.go
--   Controllers.Conditions      controllers/cluster_conditions.go, the events as a list
--   Controllers.Status          UpdateCluster and UpdateClusterStatus of controllers/common.go; the
--                               accepted requests as a list
--   ClusterMeta                 pkg/clustermeta/provider.go, providers.go; a panic on a nil node is
--                               the error nil_node
--   ClusterMeta.Distributions   pkg/clustermeta/distribution.go, distributions.go
--   ClusterMeta.Metadata        pkg/clustermeta/metadata.go
--   Common                      maps, lists and results that the parts share
--   Examples                    concrete data and the theorems applied to it
--
-- A map is an association list with one entry for each key; the order in which Go goes over a map is
-- the order of the list, and a statement holds for each such order. Times are natural numbers of
-- seconds. The loops of the code run over finite lists, and the endless ones of its goroutines are
-- steps of a relation or go over the list of what wakes them, so that no fuel is needed.
--
-- Not modelled: the parsing of the command line, what caches, clients, informers and the registration
-- of watches do in controller-runtime (what they answer is an argument), generated code, and logging.
pub mod Common
pub mod Api
pub mod Cert
pub mod Util
pub mod ClusterMeta
pub mod Clusters
pub mod Cmd
pub mod Controllers
pub mod Webhooks
mod Examples
