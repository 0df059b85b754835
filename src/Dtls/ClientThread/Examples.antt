-- ===== src/Dtls/ClientThread/Examples.antt =====
-- A thread of two connections. See DTLS/dtls_client_thread.cpp.
use helpz.Prelude.{◌≡◌, refl, true, false, List, [], ◌∷◌}
use helpz.Dtls.ClientThread.{made, ran, client_closed, Round, run, client_thread}
use helpz.Dtls.ClientThread.Stops.{is_made, is_closed, run_lem, run-closes}

-- The first connection cannot be started, the second is stopped, and a third is not tried.
abbrev three_rounds : List Round
three_rounds =
    record { stops_before = false; start_throws = true; stops_then = false }
    ∷ (record { stops_before = false; start_throws = false; stops_then = true }
        ∷ (record { stops_before = false; start_throws = false; stops_then = false } ∷ []))

done :
    (run false three_rounds client_thread).1.log
    ≡ made 0 ∷ (client_closed 0 ∷ (made 1 ∷ (ran 1 ∷ (client_closed 1 ∷ (client_closed 1 ∷ [])))))
unfolding run client_thread
done = refl

stopped_in_second_round :
    ((run false three_rounds client_thread).0 ≡ true)
    × ((run false three_rounds client_thread).1.made_clients ≡ 2)
stopped_in_second_round = run_lem three_rounds

ended : (run false three_rounds client_thread).0 ≡ true
unfolding run client_thread
ended = refl

second_made : is_made 1 (run false three_rounds client_thread).1.log ≡ true
unfolding run client_thread
second_made = refl

second_client_closed : is_closed 1 (run false three_rounds client_thread).1.log ≡ true
second_client_closed = run-closes false three_rounds 1 ended second_made
