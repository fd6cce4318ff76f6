-- ===== src/Storage/Postgres/Setup.antt =====
-- NewPostgresStorage and createTables of internal/storage/postgres_storage.go, and NewHybridStorage of
-- internal/storage/hybrid_storage.go. What sql.Open returns is an argument.
use Prim.Native.String.{◌++◌}
use distributed_grpc_task_ma.Prelude.{String, List, [], ◌∷◌}
use distributed_grpc_task_ma.Prelude.Effects.{Result, M, pure, wrapped, lift, ◌>>◌}
use distributed_grpc_task_ma.Storage.Postgres.Sql
use distributed_grpc_task_ma.Storage.Postgres.Sql.{Database}

abbrev pub tasks_table : String
tasks_table =
    "CREATE TABLE IF NOT EXISTS tasks (\n"
    ++ ("\t\t\tid VARCHAR(255) PRIMARY KEY,\n"
        ++ ("\t\t\tpriority VARCHAR(50) NOT NULL,\n"
            ++ ("\t\t\tpayload JSONB NOT NULL,\n"
                ++ ("\t\t\tstatus VARCHAR(50) NOT NULL,\n"
                    ++ ("\t\t\tcreated_at TIMESTAMP NOT NULL,\n"
                        ++ ("\t\t\tstarted_at TIMESTAMP,\n"
                            ++ ("\t\t\tcompleted_at TIMESTAMP,\n"
                                ++ ("\t\t\tworker_id VARCHAR(255),\n"
                                    ++ ("\t\t\terror TEXT\n" ++ ("\t\t)"))))))))))

abbrev pub nodes_table : String
nodes_table =
    "CREATE TABLE IF NOT EXISTS nodes (\n"
    ++ ("\t\t\tid VARCHAR(255) PRIMARY KEY,\n"
        ++ ("\t\t\taddress VARCHAR(255) NOT NULL,\n"
            ++ ("\t\t\tlast_seen TIMESTAMP NOT NULL,\n"
                ++ ("\t\t\tis_leader BOOLEAN DEFAULT FALSE\n" ++ ("\t\t)")))))

abbrev pub queue_tasks_table : String
queue_tasks_table =
    "CREATE TABLE IF NOT EXISTS queue_tasks (\n"
    ++ ("\t\t\tid VARCHAR(255) PRIMARY KEY,\n"
        ++ ("\t\t\ttask_id VARCHAR(255) NOT NULL,\n"
            ++ ("\t\t\tpriority VARCHAR(50) NOT NULL,\n"
                ++ ("\t\t\tcreated_at TIMESTAMP NOT NULL,\n"
                    ++ ("\t\t\tFOREIGN KEY (task_id) REFERENCES tasks(id) ON DELETE CASCADE\n"
                        ++ ("\t\t)"))))))

abbrev pub status_index : String
status_index = "CREATE INDEX IF NOT EXISTS idx_tasks_status ON tasks(status)"

abbrev pub priority_index : String
priority_index = "CREATE INDEX IF NOT EXISTS idx_tasks_priority ON tasks(priority)"

abbrev pub queue_index : String
queue_index =
    "CREATE INDEX IF NOT EXISTS idx_queue_priority_created ON queue_tasks(priority, created_at)"

abbrev pub queries : List String
queries =
    tasks_table ∷ nodes_table ∷ queue_tasks_table ∷ status_index ∷ priority_index ∷ queue_index ∷ []

module _ {D : Type 0} (db : Database D) where
  -- the loop of createTables
  unfoldable pub create_each : List String → M D (Unit {0})
  create_each [] = pure tt
  create_each (q ∷ qs) =
      wrapped ("failed to execute query " ++ q) (db.exec (Sql.create q)) >> create_each qs

  unfoldable pub create_tables : M D (Unit {0})
  unfolding create_each
  create_tables = create_each queries

  unfoldable pub new_postgres_storage : Result (Unit {0}) → M D (Unit {0})
  unfolding create_tables
  new_postgres_storage opened =
      wrapped "failed to connect to PostgreSQL" (lift opened)
      >> (wrapped "failed to ping PostgreSQL" db.ping
          >> wrapped "failed to create tables" create_tables)

  unfoldable pub new_hybrid_storage : Result (Unit {0}) → M D (Unit {0})
  unfolding new_postgres_storage
  new_hybrid_storage opened =
      wrapped "failed to create PostgreSQL storage" (new_postgres_storage opened)
