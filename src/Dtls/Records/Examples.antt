-- ===== src/Dtls/Records/Examples.antt =====
-- Records of two nodes, and two threads. See DTLS/dtls_server_controller.cpp.
use mathlib.Core.List.{Perm}
use helpz.Prelude.{ℕ, ◌≡◌, refl, true, false, List, [], ◌∷◌, ◌++◌}
use helpz.Dtls.Records.{RecordItem, records, tls_record_received}
use helpz.Dtls.Records.Order.{
  Move, receive, break_all, pop, process, make_moves, received, dropped, all_records,
  records_conserved,
}
use helpz.Dtls.Records.Order.Threads.{idle, overtaking, overtaken}

abbrev of_node : ℕ → ℕ → RecordItem
of_node node byte = record { node = node; buffer = byte ∷ [] }

waits : (tls_record_received 3 (7 ∷ []) records).records_queue ≡ of_node 3 7 ∷ []
unfolding tls_record_received
waits = refl

abbrev two_threads : List Move
two_threads =
    receive (of_node 1 10)
    ∷ receive (of_node 2 20)
    ∷ pop 0
    ∷ pop 1
    ∷ pop 0
    ∷ process true 1
    ∷ process false 0
    ∷ receive (of_node 1 11)
    ∷ break_all
    ∷ pop 1
    ∷ []

records_conserved_example :
    Perm
      (all_records (make_moves two_threads records) ++ dropped two_threads records)
      (all_records records ++ received two_threads)
records_conserved_example = records_conserved two_threads records

overtaken_example :
    (make_moves (overtaking 0 1 (of_node 1 10) (of_node 1 11)) (idle [])).calls
    ≡ of_node 1 11 ∷ of_node 1 10 ∷ []
overtaken_example = overtaken 0 1 (of_node 1 10) (of_node 1 11) [] refl
