-- ===== src/Dtls/ClientThread/Stops.antt =====
-- How the loop of DTLS/dtls_client_thread.cpp ends, and what becomes of its clients.
use helpz.Prelude.{
  ℕ, suc, ◌+◌, ◌≡◌, refl, ap, sym, ◌∙◌, subst, Bool, true, false, not, ◌&&◌, ◌||◌, Option, none,
  some, List, [], ◌∷◌, ◌++◌, ◌==◌, if◌then◌else◌, arith, inl, inr, Bool-cases, if_pos, if_neg,
}
use helpz.Dtls.ClientThread.{
  Event, made, ran, client_closed, ClientThread, Round, close_client, stop, stop_if, make_client,
  start, run_client, round, rounds, finish, run, client_thread,
}

-- Whether there is a call of `stop` in the rounds, and how many clients are made up to it.
abbrev pub has_stop : List Round → Bool
has_stop [] = false
has_stop (r ∷ rs) = r.stops_before || (r.stops_then || has_stop rs)

abbrev pub made_until_stop : List Round → ℕ
made_until_stop [] = 0
made_until_stop (r ∷ rs) =
    if r.stops_before then 0 else suc (if r.stops_then then 0 else made_until_stop rs)

stop_if_lem :
    (b : Bool) (t : ClientThread)
    → ((stop_if b t).stop_flag ≡ (b || t.stop_flag)) × ((stop_if b t).made_clients ≡ t.made_clients)
unfolding stop
stop_if_lem true t = (refl, refl)
stop_if_lem false t = (refl, refl)

start_lem :
    (throws : Bool) (t : ClientThread)
    → ((run_client (start throws t)).stop_flag ≡ t.stop_flag)
      × ((run_client (start throws t)).made_clients
          ≡ (if t.stop_flag then t.made_clients else suc t.made_clients))
unfolding start run_client make_client
start_lem throws t = ground arith

round_lem :
    (is_first_connect : Bool) (r : Round) (t : ClientThread)
    → t.stop_flag ≡ false
    → ((round is_first_connect r t).stop_flag ≡ (r.stops_before || r.stops_then))
      × ((round is_first_connect r t).made_clients
          ≡ (if r.stops_before then t.made_clients else suc t.made_clients))
unfolding round
round_lem is_first_connect r t h =
    let slept = record t { sleeps = if is_first_connect then t.sleeps else suc t.sleeps } in
    let before = stop_if r.stops_before slept in
    let ready = run_client (start r.start_throws before) in
    ground (
      arith,
      h,
      stop_if_lem r.stops_before slept,
      start_lem r.start_throws before,
      stop_if_lem r.stops_then ready,
    )

rounds_stopped :
    (is_first_connect : Bool) (rs : List Round) (t : ClientThread)
    → t.stop_flag ≡ true
    → rounds is_first_connect rs t ≡ (true, t)
unfolding rounds
rounds_stopped is_first_connect [] t h = ap (λ b. (b, t)) h
rounds_stopped is_first_connect (r ∷ rs) t h = ground (arith, h)

rounds_step :
    (is_first_connect : Bool) (r : Round) (rs : List Round) (t : ClientThread)
    → t.stop_flag ≡ false
    → rounds is_first_connect (r ∷ rs) t ≡ rounds false rs (round is_first_connect r t)
unfolding rounds
rounds_step is_first_connect r rs t h = ground (arith, h)

rounds_lem :
    (is_first_connect : Bool) (rs : List Round) (t : ClientThread)
    → t.stop_flag ≡ false
    → ((rounds is_first_connect rs t).0 ≡ has_stop rs)
      × ((rounds is_first_connect rs t).1.made_clients ≡ t.made_clients + made_until_stop rs)
unfolding rounds
rounds_lem is_first_connect [] t h = (h, omega arith)
rounds_lem is_first_connect (r ∷ rs) t h =
    let next = round is_first_connect r t in
    let step = rounds_step is_first_connect r rs t h in
    let (flag, made_) = round_lem is_first_connect r t h in
    elim (Bool-cases next.stop_flag) [
      | inl stopped ↦
          let same = step ∙ rounds_stopped false rs next stopped in
          ground (arith, ap (λ x. x.0) same, ap (λ x. x.1.made_clients) same, flag, made_, stopped)
      | inr going ↦ ground (
        arith,
        ap (λ x. x.0) step,
        ap (λ x. x.1.made_clients) step,
        flag,
        made_,
        going,
        rounds_lem false rs next going,
      )
    ]

-- Whether the client was made, and whether it was closed.
abbrev pub is_made : ℕ → List Event → Bool
is_made c [] = false
is_made c (made d ∷ log) = (d == c) || is_made c log
is_made c (e ∷ log) = is_made c log

abbrev pub is_closed : ℕ → List Event → Bool
is_closed c [] = false
is_closed c (client_closed d ∷ log) = (d == c) || is_closed c log
is_closed c (e ∷ log) = is_closed c log

abbrev holds : ℕ → Option ℕ → Bool
holds c none = false
holds c (some d) = d == c

is_made-append :
    (c : ℕ) (xs ys : List Event) → is_made c (xs ++ ys) ≡ (is_made c xs || is_made c ys)
is_made-append c [] ys = refl
is_made-append c (made d ∷ xs) ys = ground (arith, is_made-append c xs ys)
is_made-append c (ran d ∷ xs) ys = is_made-append c xs ys
is_made-append c (client_closed d ∷ xs) ys = is_made-append c xs ys

is_closed-append :
    (c : ℕ) (xs ys : List Event) → is_closed c (xs ++ ys) ≡ (is_closed c xs || is_closed c ys)
is_closed-append c [] ys = refl
is_closed-append c (made d ∷ xs) ys = is_closed-append c xs ys
is_closed-append c (ran d ∷ xs) ys = is_closed-append c xs ys
is_closed-append c (client_closed d ∷ xs) ys = ground (arith, is_closed-append c xs ys)

-- A client that was made is closed, or it is the client of a thread that is not stopped.
abbrev IsTidy : ℕ → ClientThread → Type 0
IsTidy c t =
    is_made c t.log ≡ true → (is_closed c t.log || (not t.stop_flag && holds c t.client)) ≡ true

stop-closes :
    (c : ℕ) (t : ClientThread)
    → IsTidy c t
    → is_made c (stop t).log ≡ true
    → is_closed c (stop t).log ≡ true
unfolding stop close_client
stop-closes c t h m = ground (
  arith,
  is_made-append c t.log (close_client t.client),
  is_closed-append c t.log (close_client t.client),
)

stop_if-IsTidy : (b : Bool) (c : ℕ) (t : ClientThread) → IsTidy c t → IsTidy c (stop_if b t)
stop_if-IsTidy true c t h = λ m. rw (stop-closes c t h m) refl
stop_if-IsTidy false c t h = h

make_client-IsTidy :
    (c : ℕ) (t : ClientThread) → t.stop_flag ≡ false → IsTidy c t → IsTidy c (make_client t)
unfolding make_client close_client
make_client-IsTidy c t going h = λ m.
    let behind = close_client t.client ++ (made t.made_clients ∷ []) in
    ground (arith, m, going, is_made-append c t.log behind, is_closed-append c t.log behind)

run_client-IsTidy :
    (c : ℕ) (b : Bool) (t : ClientThread) → IsTidy c t → IsTidy c (run_client (b, t))
unfolding run_client
run_client-IsTidy c false t h = h
run_client-IsTidy c true t h = λ m.
    let behind : List Event = elim t.client [ none ↦ [] | some d ↦ ran d ∷ [] ] in
    ground (arith, m, is_made-append c t.log behind, is_closed-append c t.log behind)

start-IsTidy :
    (c : ℕ) (throws : Bool) (t : ClientThread) → IsTidy c t → IsTidy c (run_client (start throws t))
unfolding start run_client
start-IsTidy c throws t h = elim (Bool-cases t.stop_flag) [
  | inl stopped ↦ subst (λ r. IsTidy c (run_client r)) (sym (if_pos t.stop_flag _ _ stopped)) h
  | inr going ↦
      subst (λ r. IsTidy c (run_client r)) (sym (if_neg t.stop_flag _ _ going))
        (run_client-IsTidy c (not throws) (make_client t) (make_client-IsTidy c t going h))
]

rounds-IsTidy :
    (c : ℕ) (is_first_connect : Bool) (rs : List Round) (t : ClientThread)
    → IsTidy c t
    → IsTidy c (rounds is_first_connect rs t).1
unfolding rounds round
rounds-IsTidy c is_first_connect [] t h = h
rounds-IsTidy c is_first_connect (r ∷ rs) t h = elim (Bool-cases t.stop_flag) [
  | inl stopped ↦
      subst (λ x. IsTidy c x.1) (sym (rounds_stopped is_first_connect (r ∷ rs) t stopped)) h
  | inr going ↦
      let slept = record t { sleeps = if is_first_connect then t.sleeps else suc t.sleeps } in
      let before = stop_if r.stops_before slept in
      subst (λ x. IsTidy c x.1) (sym (rounds_step is_first_connect r rs t going))
        (rounds-IsTidy c false rs (round is_first_connect r t) (
          stop_if-IsTidy r.stops_then c (run_client (start r.start_throws before))
            (start-IsTidy c r.start_throws before (stop_if-IsTidy r.stops_before c slept h))))
]

-- The thread ends exactly if `stop` is called in one of the rounds, and then with that round: up
-- to it a client is made in each round, and none behind the call; whatever the rounds throw. The tools
-- can be made.
pub run_lem :
    (rs : List Round)
    → ((run false rs client_thread).0 ≡ has_stop rs)
      × ((run false rs client_thread).1.made_clients ≡ made_until_stop rs)
unfolding run finish stop client_thread
run_lem rs =
    let (ended, made_) = rounds_lem true rs client_thread refl in ground (arith, ended, made_)

-- When the thread has ended, each client that was made in it has been closed, whatever the rounds
-- and whether the tools could be made or not.
pub run-closes :
    (tools_throw : Bool) (rs : List Round) (c : ℕ)
    → (run tools_throw rs client_thread).0 ≡ true
    → is_made c (run tools_throw rs client_thread).1.log ≡ true
    → is_closed c (run tools_throw rs client_thread).1.log ≡ true
unfolding run finish stop close_client client_thread
run-closes true rs c ended m = absurd (cc)
run-closes false rs c ended m =
    let t = (rounds true rs client_thread).1 in
    let tidy : IsTidy c client_thread = λ k. absurd (cc) in
    subst
      (λ b.
        is_made c (if b then finish t else t).log ≡ true
        → is_closed c (if b then finish t else t).log ≡ true)
      (sym ended) (stop-closes c t (rounds-IsTidy c true rs client_thread tidy)) m
