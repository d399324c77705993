-- ===== src/Connectors/Tests.antt =====
-- Synchronisations and a disconnection of a user's connections.
use omni_ai_v.Prelude.{ℕ, ◌≡◌, refl, String, none, some, [], ◌∷◌, nat_comparable}
use omni_ai_v.Rows
use omni_ai_v.Connectors.{
  ConnectorConnection, Db, answered, ok, get_connection, sync_connector, connector_types,
  run_outcome,
}

abbrev connection : ℕ → ℕ → String → ConnectorConnection
connection id user_id connector_type = record {
  id = id;
  user_id = user_id;
  connector_type = connector_type;
  display_name = none;
  credentials_encrypted = "gAAAA";
  status = "connected";
  last_sync_at = none;
  document_count = 2;
}

abbrev db : Db
db = record {
  connections = connection 1 7 "github" ∷ connection 2 7 "notion" ∷ connection 3 8 "notion" ∷ [];
  runs = [];
  next_run = 1;
}

sync_run : (sync_connector 50 7 "notion" (answered none (some 4) none) db).0 ≡ ok 1
unfolding sync_connector get_connection run_outcome connector_types Rows.find_first
sync_run = refl
