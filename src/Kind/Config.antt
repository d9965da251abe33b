-- ===== src/Kind/Config.antt =====
-- internal/providers/kind/config.go: the configuration of a cluster.
use kubedrill.Shared.{ℕ, zero, suc, String, not, ◌&&◌, ◌==◌, if◌then◌else◌, ◌⧺◌}
use kubedrill.Shared.Int.{Int64, is_neg, int_lt}
use kubedrill.Rules.Policy.{audit_log_path}

-- The request, with the topology, which the engine leaves at 0.
pub record Request : Type 0 where
  pub session_id : String
  pub session_dir : String
  pub kubernetes_version : String
  pub control_plane : Int64
  pub workers : Int64
  pub audit_policy : String

abbrev pub audit_policy_node_path : String
audit_policy_node_path = "/etc/kubernetes/audit/policy.yaml"

abbrev pub audit_log_dir : String
audit_log_dir = "/var/log/kubernetes/audit"

-- `writeAuditNode`
unfoldable pub audit_node : String → String
audit_node host_policy =
    "    extraMounts:\n" ⧺ "      - hostPath: " ⧺ host_policy ⧺ "\n        containerPath: "
    ⧺ audit_policy_node_path ⧺ "\n        readOnly: true\n" ⧺ "    kubeadmConfigPatches:\n"
    ⧺ "      - |\n" ⧺ "        kind: ClusterConfiguration\n" ⧺ "        apiServer:\n"
    ⧺ "          extraArgs:\n" ⧺ "          - name: audit-policy-file\n            value: "
    ⧺ audit_policy_node_path ⧺ "\n          - name: audit-log-path\n            value: "
    ⧺ audit_log_path ⧺ "\n          - name: audit-log-maxsize\n            value: \"100\"\n"
    ⧺ "          - name: audit-log-maxbackup\n            value: \"1\"\n"
    ⧺ "          extraVolumes:\n" ⧺ "          - name: audit-policy\n            hostPath: "
    ⧺ audit_policy_node_path ⧺ "\n            mountPath: " ⧺ audit_policy_node_path
    ⧺ "\n            readOnly: true\n            pathType: File\n"
    ⧺ "          - name: audit-logs\n            hostPath: " ⧺ audit_log_dir
    ⧺ "\n            mountPath: " ⧺ audit_log_dir
    ⧺ "\n            readOnly: false\n            pathType: DirectoryOrCreate\n"

abbrev repeated : ℕ → String → String
repeated zero s = ""
repeated (suc n) s = s ⧺ repeated n s

-- How often a loop from 0 below `n` runs.
abbrev rounds_below : Int64 → ℕ
rounds_below n = if is_neg n then 0 else n

-- `clusterConfig`
unfoldable pub cluster_config : Request → String → String
unfolding audit_node
cluster_config req host_policy =
    let audited = not (host_policy == "") in
    let cp = if int_lt req.control_plane 1 then 1 else req.control_plane in
    if not audited && (not (int_lt 1 cp) && not (int_lt 0 req.workers))
    then ""
    else "kind: Cluster\napiVersion: kind.x-k8s.io/v1alpha4\nnodes:\n"
      ⧺ repeated (rounds_below cp)
          ("  - role: control-plane\n" ⧺ (if audited then audit_node host_policy else ""))
      ⧺ repeated (rounds_below req.workers) "  - role: worker\n"

-- `nodeImageFor`: no version has an image of its own.
abbrev pub node_image_for : String → String
node_image_for version = ""
