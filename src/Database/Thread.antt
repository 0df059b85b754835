-- ===== src/Database/Thread.antt =====
-- `Thread` in Database/db_thread.h and db_thread.cpp: the queue of tasks that its threads share. A
-- task is known by a number; what a task does is seen in `process_query`.
mod Order
mod Examples
use helpz.Prelude.{ℕ, Bool, true, false, List, [], ◌∷◌, ◌++◌, Option, none, some, if◌then◌else◌}
use helpz.Database.Text.{Text, is_empty}

-- `started` are the tasks that threads have taken, the first one first.
pub record Thread : Type 0 where
  pub break_flag : Bool
  pub data_queue : List ℕ
  pub started : List ℕ

abbrev pub thread : Thread
thread = record { break_flag = false; data_queue = []; started = [] }

unfoldable pub add_task : ℕ → Thread → Thread
add_task task t = record t { data_queue = t.data_queue ++ (task ∷ []) }

-- `add_pending_query`: an empty query is not added.
unfoldable pub add_pending_query : Text → ℕ → Thread → Thread
unfolding add_task
add_pending_query sql task t = if is_empty sql then t else add_task task t

unfoldable pub stop : Thread → Thread
stop t = record t { break_flag = true }

abbrev take_front : List ℕ → Thread → Thread
take_front [] t = t
take_front (task ∷ rest) t = record t { data_queue = rest; started = t.started ++ (task ∷ []) }

-- One round of `run` in one of the threads: it waits if there is no task, and ends on `break_flag_`.
unfoldable pub run_round : Thread → Thread
run_round t = if t.break_flag then t else take_front t.data_queue t

module _ {ℓ} {W V R : Type ℓ} (exec : Text → List V → W → R × W)
    (callback : R → List V → W → W) where
  unfoldable process_values : Text → List (List V) → W → W
  process_values sql [] w = w
  process_values sql (values ∷ rest) w =
      let (query, w1) = exec sql values w in process_values sql rest (callback query values w1)

  -- `process_query`: without values the query is executed once. No callback is one that does
  -- nothing.
  unfoldable pub process_query : Text → List (List V) → W → W
  unfolding process_values
  process_query sql [] w = let (query, w1) = exec sql [] w in callback query [] w1
  process_query sql (values ∷ rest) w = process_values sql (values ∷ rest) w
