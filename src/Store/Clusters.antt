-- ===== src/Store/Clusters.antt =====
-- internal/store/clusters.go: cluster handles.
pub mod Handles
use databricks_emulator.Base.{ℕ, Bool, true, false, Option, none, some, List, String}
use databricks_emulator.Base.Eq.{string_comparable}
use databricks_emulator.Base.Int64.{ℤ, incr64}
use databricks_emulator.Text.{numbered}
use databricks_emulator.Dict
use databricks_emulator.Dict.{Dict}

pub record Cluster : Type 0 where
  pub id : String
  pub name : String
  pub spark_version : String
  pub node_type_id : String
  pub num_workers : ℤ
  pub state : String
  pub state_message : String
  pub creator : String
  pub policy_id : String

pub record Clusters : Type 0 where
  pub next_id : ℕ
  pub clusters : Dict String Cluster

unfoldable pub new_clusters : Clusters
new_clusters = record { next_id = 0; clusters = Dict.empty }

-- The arguments of Create.
pub record ClusterRequest : Type 0 where
  pub name : String
  pub spark_version : String
  pub node_type : String
  pub workers : ℤ
  pub creator : String
  pub policy_id : String

abbrev pub pending_cluster : ℕ → ClusterRequest → Cluster
pending_cluster n q = record {
  id = numbered "cluster-" n;
  name = q.name;
  spark_version = q.spark_version;
  node_type_id = q.node_type;
  num_workers = q.workers;
  state = "PENDING";
  state_message = "starting a session on the attached Spark engine";
  creator = q.creator;
  policy_id = q.policy_id;
}

unfoldable pub create_cluster : Clusters → ClusterRequest → Clusters × Cluster
create_cluster c q =
    let id = incr64 c.next_id in
    let cl = pending_cluster id q in
    (record { next_id = id; clusters = Dict.put c.clusters (numbered "cluster-" id) cl }, cl)

unfoldable pub get_cluster : Clusters → String → Option Cluster
get_cluster c id = Dict.get c.clusters id

unfoldable pub list_clusters : Clusters → List Cluster
list_clusters c = Dict.values c.clusters

abbrev pub in_state : Cluster → String → String → Cluster
in_state cl state message = record cl { state = state; state_message = message }

state_found : Clusters → String → String → String → Option Cluster → Clusters × Bool
state_found c id state message none = (c, false)
state_found c id state message (some cl) =
    (record c { clusters = Dict.put c.clusters id (in_state cl state message) }, true)

unfoldable pub set_state : Clusters → String → String → String → Clusters × Bool
unfolding state_found
set_state c id state message = state_found c id state message (Dict.get c.clusters id)

delete_found : Clusters → String → Option Cluster → Clusters × Bool
delete_found c id none = (c, false)
delete_found c id (some cl) = (record c { clusters = Dict.remove c.clusters id }, true)

unfoldable pub delete_cluster : Clusters → String → Clusters × Bool
unfolding delete_found
delete_cluster c id = delete_found c id (Dict.get c.clusters id)
