-- ===== src/Storage/Postgres/Nodes.antt =====
-- Nodes in PostgresStorage with a database that answers.
use distributed_grpc_task_ma.Prelude.{◌≡◌, refl, ap, ◌∙◌, true, some}
use distributed_grpc_task_ma.Prelude.Effects.{Answers, answers, Answers-follow, ◌>>◌}
use distributed_grpc_task_ma.Types.{NodeInfo}
use distributed_grpc_task_ma.Storage.Redis.Tasks.{written-same}
use distributed_grpc_task_ma.Storage.Postgres.{save_node_info, get_node_info, node_arguments}
use distributed_grpc_task_ma.Storage.Postgres.Sql.{Database, Scanner}
use distributed_grpc_task_ma.Storage.Postgres.Scan.{scan_node}
use distributed_grpc_task_ma.Storage.Postgres.Contract.{IsDatabase, IsScanner}

module _ {D : Type 0} (db : Database D) (s : Scanner) (holds : IsDatabase db)
    (scans : IsScanner s) where
  -- If the database answers and the node's texts fit their columns, SaveNodeInfo and then GetNodeInfo
  -- with the node's id succeed, and give the node with an empty status and the time at which it was seen
  -- last as TIMESTAMP keeps it.
  pub get_node_info-save_node_info :
      (n : NodeInfo) (d : D)
      → holds.node_fits (node_arguments n) ≡ true
      → Answers
          (λ u _. u ≡ some (record n { status = ""; last_seen = holds.rounded n.last_seen }))
          ((save_node_info db s n >> get_node_info db s n.id) d)
  unfolding save_node_info get_node_info scan_node node_arguments
  get_node_info-save_node_info n d fits =
      Answers-follow (holds.insert_node_law (node_arguments n) d fits) λ _ d' (p, _).
        Answers-follow (holds.node_by_id_law n.id d') λ row _ q.
          rw (q.0 ∙ ap (λ f. f n.id) p ∙ written-same n.id _ (holds.nodes d))
            (simp (scans.string_law, scans.time_law, scans.bool_law) (answers refl))
