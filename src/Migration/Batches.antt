-- ===== src/Migration/Batches.antt =====
-- The operations of a tracker on its batches.
use omnimemory.Prelude.{
  ℕ, Bool, true, false, Option, none, some, List, [], ◌∷◌, ◌++◌, String, if◌then◌else◌,
}
use omnimemory.Prelude.Equality.{eq_String}
use omnimemory.Migration.{BatchProcessingMetrics, MigrationProgressTracker}

unfoldable pub start_batch : MigrationProgressTracker → String → ℕ → ℕ → MigrationProgressTracker
start_batch t batch size now = record t {
  metrics = record (t.metrics) {
    batch_metrics =
        t.metrics.batch_metrics
        ++ record { batch_id = batch; batch_size = size; start_time = some now; end_time = none }
          ∷ [];
    current_batch = some batch;
  };
  updated_at = now;
}

-- The end of the first batch with the id, and whether there is one.
unfoldable pub end_batch :
    String → ℕ → List BatchProcessingMetrics → List BatchProcessingMetrics × Bool
end_batch batch now [] = ([], false)
end_batch batch now (b ∷ bs) =
    let (rest, found) = end_batch batch now bs in
    if eq_String.equal b.batch_id batch
    then (record b { end_time = some now } ∷ bs, true)
    else (b ∷ rest, found)

-- `if self.metrics.current_batch == batch_id: self.metrics.current_batch = None`
abbrev pub left_batch : Option String → String → Option String
left_batch none batch = none
left_batch (some b) batch = if eq_String.equal b batch then none else some b

unfoldable pub complete_batch : MigrationProgressTracker → String → ℕ → MigrationProgressTracker
unfolding end_batch
complete_batch t batch now =
    let (batches, found) = end_batch batch now t.metrics.batch_metrics in
    if found
    then record t {
      metrics = record (t.metrics) {
        batch_metrics = batches;
        current_batch = left_batch t.metrics.current_batch batch;
      };
      updated_at = now;
    }
    else t
