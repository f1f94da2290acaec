-- ===== src/Store/Clusters/Handles.antt =====
-- internal/store/clusters.go: what each operation does to every handle.
use databricks_emulator.Base.{
  ℕ, ◌+◌, ◌^◌, ◌<◌, ◌≡◌, refl, Option, none, some, String, arith, Option-cases, inl, inr,
  if◌then◌else◌,
}
use databricks_emulator.Base.Eq.{◌==◌, string_comparable}
use databricks_emulator.Base.Int64.{incr64_room}
use databricks_emulator.Text.{numbered}
use databricks_emulator.Dict
use databricks_emulator.Dict.{map_option}
use databricks_emulator.Store.Numbered as Numbered
use databricks_emulator.Store.Clusters.{
  Cluster, Clusters, ClusterRequest, create_cluster, get_cluster, set_state, state_found, in_state,
  delete_cluster, delete_found, pending_cluster,
}

-- The operations that change the store.
pub data Op : Type 0 where
  creates : ClusterRequest → Op
  sets : (id state message : String) → Op
  deletes : (id : String) → Op

unfoldable pub apply : Clusters → Op → Clusters
apply c (creates q) = (create_cluster c q).0
apply c (sets id state message) = (set_state c id state message).0
apply c (deletes id) = (delete_cluster c id).0

-- A handle in another state, and the handle of a request under a number, each field written out.
abbrev pub moved : String → String → Cluster → Cluster
moved state message cl = record {
  id = cl.id;
  name = cl.name;
  spark_version = cl.spark_version;
  node_type_id = cl.node_type_id;
  num_workers = cl.num_workers;
  state = state;
  state_message = message;
  creator = cl.creator;
  policy_id = cl.policy_id;
}

abbrev pub requested : ℕ → ClusterRequest → Cluster
requested n q = record {
  id = numbered "cluster-" n;
  name = q.name;
  spark_version = q.spark_version;
  node_type_id = q.node_type;
  num_workers = q.workers;
  state = "PENDING";
  state_message = "starting a session on the attached Spark engine";
  creator = q.creator;
  policy_id = q.policy_id;
}

-- What an operation leaves at a key, said of the store as a partial function.
abbrev pub effect : Clusters → Op → String → Option Cluster → Option Cluster
effect c (creates q) k old =
    if numbered "cluster-" (c.next_id + 1) == k then some (requested (c.next_id + 1) q) else old
effect c (sets id state message) k old =
    if id == k then map_option (moved state message) old else old
effect c (deletes id) k old = if id == k then none else old

-- While the counter has room, the store, seen as a partial function of ids, is changed by each
-- operation as follows: Create adds the PENDING handle of its request, field by field, under the
-- next number; SetState sets the state and the message of the handle that it names, where that
-- exists, and no other field; Delete removes the handle that it names; every other id has what it
-- had.
pub get_cluster-apply :
    (c : Clusters) (o : Op) (k : String)
    → c.next_id + 1 < 2 ^ 63
    → get_cluster (apply c o) k ≡ effect c o k (get_cluster c k)
unfolding get_cluster apply create_cluster set_state delete_cluster
get_cluster-apply c (creates q) k room = rw (incr64_room c.next_id (omega arith)) (
    Dict.get-put c.clusters (numbered "cluster-" (c.next_id + 1))
      (pending_cluster (c.next_id + 1) q) k)
get_cluster-apply c (sets id state message) k room = elim (Option-cases (Dict.get c.clusters id)) [
  | inl e ↦ rw (apply, e, state_found) (ground (arith, string_comparable.equal_iff id k))
  | inr (cl, e) ↦
      rw (apply, e, state_found)
        (ground (
          arith,
          Dict.get-put c.clusters id (in_state cl state message) k,
          string_comparable.equal_iff id k,
        ))
]
get_cluster-apply c (deletes id) k room = elim (Option-cases (Dict.get c.clusters id)) [
  | inl e ↦ rw (apply, e, delete_found) (ground (arith, string_comparable.equal_iff id k))
  | inr (cl, e) ↦ rw (apply, e, delete_found) (Dict.get-remove c.clusters id k)
]

-- The handles stand under ids that the counter handed out.
abbrev pub IsNumbered : Clusters → Type 0
IsNumbered c = Numbered.IsNumbered {V = Cluster} "cluster-" c.next_id c.clusters

-- A new cluster handle is PENDING under an id that no handle had, and the ids stay numbered by the
-- counter, which has room.
pub create_cluster_fresh :
    (c : Clusters) (q : ClusterRequest)
    → c.next_id + 1 < 2 ^ 63
    → IsNumbered c
    → (get_cluster c (create_cluster c q).1.id ≡ none)
      × (get_cluster (create_cluster c q).0 (create_cluster c q).1.id ≡ some (create_cluster c q).1)
      × ((create_cluster c q).1.state ≡ "PENDING")
      × IsNumbered (create_cluster c q).0
unfolding create_cluster get_cluster
create_cluster_fresh c q room n = rw (incr64_room c.next_id (omega arith)) (
  Numbered.IsNumbered-fresh "cluster-" c.next_id c.clusters n room,
  ground (
    arith,
    Dict.get-put c.clusters (numbered "cluster-" (c.next_id + 1))
        (pending_cluster (c.next_id + 1) q) (numbered "cluster-" (c.next_id + 1)),
    string_comparable.equal_iff (numbered "cluster-" (c.next_id + 1))
        (numbered "cluster-" (c.next_id + 1)),
  ),
  refl,
  Numbered.put_next-IsNumbered "cluster-" c.next_id c.clusters (pending_cluster (c.next_id + 1) q)
      n,
)
