-- ===== src/Rules/Resource.antt =====
-- `kindToResource` of internal/rules/policy.go: the API group and resource of a kind.
use kubedrill.Shared.{String, ◌≡◌, refl, ◌||◌, ◌==◌, if◌then◌else◌, to_lower, ◌⧺◌}

pub record GroupResource : Type 0 where
  pub group : String
  pub resource : String

abbrev gr : String → String → GroupResource
gr g r = record { group = g; resource = r }

unfoldable pub kind_to_resource : String → GroupResource
unfolding to_lower
kind_to_resource kind =
    if kind == "ConfigMap"
    then gr "" "configmaps"
    else if kind == "Service"
    then gr "" "services"
    else if kind == "ServiceAccount"
    then gr "" "serviceaccounts"
    else if kind == "PersistentVolumeClaim"
    then gr "" "persistentvolumeclaims"
    else if kind == "Pod"
    then gr "" "pods"
    else if kind == "Deployment"
    then gr "apps" "deployments"
    else if kind == "StatefulSet"
    then gr "apps" "statefulsets"
    else if kind == "DaemonSet"
    then gr "apps" "daemonsets"
    else if kind == "ReplicaSet"
    then gr "apps" "replicasets"
    else if kind == "Ingress"
    then gr "networking.k8s.io" "ingresses"
    else if kind == "NetworkPolicy"
    then gr "networking.k8s.io" "networkpolicies"
    else if kind == "Role" || kind == "ClusterRole"
    then gr "rbac.authorization.k8s.io" (to_lower kind ⧺ "s")
    else if kind == "RoleBinding" || kind == "ClusterRoleBinding"
    then gr "rbac.authorization.k8s.io" (to_lower kind ⧺ "s")
    else if kind == "Job"
    then gr "batch" "jobs"
    else if kind == "CronJob"
    then gr "batch" "cronjobs"
    else gr "" (to_lower kind ⧺ "s")

cluster_roles : kind_to_resource "ClusterRole" ≡ gr "rbac.authorization.k8s.io" "clusterroles"
unfolding kind_to_resource
cluster_roles = refl
