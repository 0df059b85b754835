-- ===== src/Database/Thread/Examples.antt =====
-- Two tasks, one of them started. See Database/db_thread.cpp.
use helpz.Prelude.{◌≡◌, List, [], ◌∷◌, ◌++◌}
use helpz.Database.Thread.{thread}
use helpz.Database.Thread.Order.{Move, add, ask_stop, turn, make_moves, added, tasks_in_order}

abbrev moves : List Move
moves = add 4 ∷ turn ∷ add 5 ∷ ask_stop ∷ turn ∷ []

tasks_in_order_example :
    (make_moves moves thread).started ++ (make_moves moves thread).data_queue ≡ 4 ∷ 5 ∷ []
unfolding added
tasks_in_order_example = tasks_in_order moves thread
