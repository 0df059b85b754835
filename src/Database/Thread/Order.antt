-- ===== src/Database/Thread/Order.antt =====
-- The order in which the threads take the tasks. See Database/db_thread.cpp.
use helpz.Prelude.{
  ℕ, ◌≡◌, refl, sym, ap, ◌∙◌, Bool, true, false, List, [], ◌∷◌, ◌++◌, append-nil, append_assoc,
  if◌then◌else◌,
}
use helpz.Database.Thread.{Thread, add_task, stop, take_front, run_round}

-- What the program and the threads do, in any order: the calls and the rounds exclude each other.
pub data Move : Type 0 where
  add : ℕ → Move
  ask_stop : Move
  turn : Move

unfoldable pub make_move : Move → Thread → Thread
make_move (add task) t = add_task task t
make_move ask_stop t = stop t
make_move turn t = run_round t

unfoldable pub make_moves : List Move → Thread → Thread
unfolding make_move
make_moves [] t = t
make_moves (m ∷ ms) t = make_moves ms (make_move m t)

unfoldable pub added : List Move → List ℕ
added [] = []
added (add task ∷ ms) = task ∷ added ms
added (ask_stop ∷ ms) = added ms
added (turn ∷ ms) = added ms

all_tasks : Thread → List ℕ
all_tasks t = t.started ++ t.data_queue

take_front-all_tasks :
    (q : List ℕ) (t : Thread) → t.data_queue ≡ q → all_tasks (take_front q t) ≡ t.started ++ q
unfolding all_tasks
take_front-all_tasks [] t e = ap (λ z. t.started ++ z) e
take_front-all_tasks (task ∷ rest) t e = append_assoc t.started (task ∷ []) rest

run_round-all_tasks : (t : Thread) → all_tasks (run_round t) ≡ all_tasks t
unfolding run_round all_tasks
run_round-all_tasks t = either t.break_flag
  where
    either : (b : Bool) → all_tasks (if b then t else take_front t.data_queue t) ≡ all_tasks t
    either true = refl
    either false = take_front-all_tasks t.data_queue t refl

-- Every task that was added has been started or waits, and this in the order of the calls of
-- `add_task`: no task is lost, started twice or before one that was added earlier, however the
-- rounds of the threads and the calls follow each other.
pub tasks_in_order :
    (moves : List Move) (t : Thread)
    → (make_moves moves t).started ++ (make_moves moves t).data_queue
      ≡ (t.started ++ t.data_queue) ++ added moves
unfolding make_moves make_move added add_task stop all_tasks
tasks_in_order [] t = sym (append-nil _)
tasks_in_order (add task ∷ ms) t =
    tasks_in_order ms (add_task task t)
    ∙ (ap (λ z. z ++ added ms) (sym (append_assoc t.started t.data_queue (task ∷ [])))
        ∙ append_assoc (t.started ++ t.data_queue) (task ∷ []) (added ms))
tasks_in_order (ask_stop ∷ ms) t = tasks_in_order ms (stop t)
tasks_in_order (turn ∷ ms) t =
    tasks_in_order ms (run_round t) ∙ ap (λ z. z ++ added ms) (run_round-all_tasks t)

-- After `stop` no task is started any more, whatever is added.
pub nothing_after_stop :
    (moves : List Move) (t : Thread)
    → t.break_flag ≡ true
    → (make_moves moves t).started ≡ t.started
unfolding make_moves make_move add_task stop run_round
nothing_after_stop [] t h = refl
nothing_after_stop (add task ∷ ms) t h = nothing_after_stop ms (add_task task t) h
nothing_after_stop (ask_stop ∷ ms) t h = nothing_after_stop ms (stop t) refl
nothing_after_stop (turn ∷ ms) t h =
    let same : run_round t ≡ t = rw (run_round, h) refl in
    ap (λ z. (make_moves ms z).started) same ∙ nothing_after_stop ms t h
