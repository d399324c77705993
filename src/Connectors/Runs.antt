-- ===== src/Connectors/Runs.antt =====
-- The runs of sync_connector of backend/app/connectors/sync_engine.py.
use omni_ai_v.Prelude.{ℕ, ◌<◌, ◌≡◌, none, some, [], ◌∷◌, ◌++◌, ◌==◌, nat_comparable, take_text, All}
use omni_ai_v.Rows.{update_where}
use omni_ai_v.Connectors.{
  ConnectorConnection, running, complete, failed, ConnectorSyncRun, Db, Synced, answered, raised,
  unsaved, synced_now, Result, ok, error, or_zero,
}

-- The keys of the runs are below the next one.
abbrev pub KeysBelow : Db → Type 0
KeysBelow db = All (λ r. r.id < db.next_run) db.runs

-- The row of a run, the connection and the exception, by what the connector did.
abbrev pub IsOutcome :
    ℕ → ConnectorConnection → Synced → ConnectorSyncRun → Db → Result ℕ × Db → Type 0
IsOutcome now c (answered files indexed documents) r before (answer, after) =
    (r.status ≡ complete)
    × (r.files_synced ≡ or_zero files (or_zero indexed 0))
    × (r.error_message ≡ none)
    × (answer ≡ ok r.id)
    × (after.connections
        ≡ update_where (λ x. x.id == c.id) (synced_now now documents) before.connections)
IsOutcome now c (raised message) r before (answer, after) =
    (r.status ≡ failed)
    × (r.error_message ≡ some (take_text 2000 message))
    × (answer ≡ error message)
    × (after.connections ≡ before.connections)
IsOutcome now c (unsaved message) r before (answer, after) =
    (r.status ≡ running) × (answer ≡ error message) × (after.connections ≡ before.connections)

-- The rows are those before with one new run of the connection, as the connector's part asks.
abbrev pub OneMore : ℕ → Db → ℕ → ConnectorConnection → Synced → Result ℕ × Db → Type 0
OneMore now db user_id c synced outcome =
    (r : ConnectorSyncRun) × (outcome.1.runs ≡ db.runs ++ r ∷ [])
    × (r.connection_id ≡ c.id)
    × (r.user_id ≡ user_id)
    × IsOutcome now c synced r db outcome
