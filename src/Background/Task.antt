-- ===== src/Background/Task.antt =====
-- The headless task of client/src/background/BackgroundSyncTask.ts. What it gives to
-- react-native-background-fetch is a list; a cycle that throws is `none`.
use tor_e2ee_messenger.Common.{
  Bool, true, false, Option, none, some, List, [], ◌∷◌, Text, if◌then◌else◌,
}
use tor_e2ee_messenger.Background.Sync.{
  BackgroundFetchResult, new_data, no_data, failed, skipped_no_identity, BackgroundSyncResult,
}

pub data FetchResult : Type 0 where
  fetch_result_new_data fetch_result_no_data fetch_result_failed : FetchResult

-- `BackgroundFetch.finish`, with the result where there is one.
pub record Finish : Type 0 where
  pub task_id : Text
  pub result : Option FetchResult

unfoldable pub fetch_result : BackgroundFetchResult → FetchResult
fetch_result new_data = fetch_result_new_data
fetch_result failed = fetch_result_failed
fetch_result no_data = fetch_result_no_data
fetch_result skipped_no_identity = fetch_result_no_data

abbrev finish : Bool → Text → Option FetchResult → List Finish
finish installed task_id result =
    if installed then record { task_id = task_id; result = result } ∷ [] else []

unfoldable pub background_fetch_headless_task :
    Bool → Text → Bool → Option BackgroundSyncResult → List Finish
unfolding fetch_result
background_fetch_headless_task installed task_id true outcome = finish installed task_id none
background_fetch_headless_task installed task_id false none =
    finish installed task_id (some fetch_result_failed)
background_fetch_headless_task installed task_id false (some result) =
    finish installed task_id (some (fetch_result result.status))
