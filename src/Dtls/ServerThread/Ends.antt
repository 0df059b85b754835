-- ===== src/Dtls/ServerThread/Ends.antt =====
-- The promise of a thread and the end of its server. See DTLS/dtls_server_thread.cpp.
use helpz.Prelude.{
  ℕ, zero, suc, ◌-◌, ◌≡◌, refl, ap, ap₂, append-nil, append_assoc, Bool-cases, inl, inr, ◌>>=◌, ◌∙◌,
  Bool, true, false, not, ◌||◌, none, some, List, [], ◌∷◌, ◌++◌, if◌then◌else◌, arith,
}
use helpz.Dtls.ServerThread.{
  Event, context_made, server_made, server_stored, value_set, promises_deleted, receive_started,
  thread_started, own_context_ran, server_destroyed, context_stopped, thread_joined,
  context_deleted, Setup, start_threads, join_threads, try_body, run,
}

-- The values that the promise gets, in order.
abbrev pub values : List Event → List Bool
values [] = []
values (value_set b ∷ events) = b ∷ values events
values (e ∷ events) = values events

values-append : (xs ys : List Event) → values (xs ++ ys) ≡ values xs ++ values ys
values-append [] ys = refl
values-append (context_made ∷ xs) ys = values-append xs ys
values-append (server_made ∷ xs) ys = values-append xs ys
values-append (server_stored ∷ xs) ys = values-append xs ys
values-append (value_set b ∷ xs) ys = ap (◌∷◌ b) (values-append xs ys)
values-append (promises_deleted ∷ xs) ys = values-append xs ys
values-append (receive_started ∷ xs) ys = values-append xs ys
values-append (thread_started n ∷ xs) ys = values-append xs ys
values-append (own_context_ran ∷ xs) ys = values-append xs ys
values-append (server_destroyed ∷ xs) ys = values-append xs ys
values-append (context_stopped ∷ xs) ys = values-append xs ys
values-append (thread_joined n ∷ xs) ys = values-append xs ys
values-append (context_deleted ∷ xs) ys = values-append xs ys

values-start_threads : (n i : ℕ) → values (start_threads n i) ≡ []
unfolding start_threads
values-start_threads zero i = refl
values-start_threads (suc n) i = values-start_threads n (suc i)

values-join_threads :
    (n i : ℕ) (rest : List Event) → values (join_threads n i ++ rest) ≡ values rest
unfolding join_threads
values-join_threads zero i rest = refl
values-join_threads (suc n) i rest = values-join_threads n (suc i) rest

-- Behind the `try`.
values_behind :
    (is_set is_stopped : Bool) (n : ℕ)
    → values (
        (if is_set then [] else value_set false ∷ (promises_deleted ∷ []))
        ++ ((if is_stopped then [] else context_stopped ∷ [])
            ++ (join_threads n 1 ++ (context_deleted ∷ []))))
      ≡ (if is_set then [] else false ∷ [])
values_behind true true n = values-join_threads n 1 (context_deleted ∷ [])
values_behind true false n = values-join_threads n 1 (context_deleted ∷ [])
values_behind false true n = ap (◌∷◌ false) (values-join_threads n 1 (context_deleted ∷ []))
values_behind false false n = ap (◌∷◌ false) (values-join_threads n 1 (context_deleted ∷ []))

values-try_body :
    (s : Setup)
    → s.context_throws ≡ false
    → (values (try_body s).0 ≡ (if (try_body s).1 then true ∷ [] else []))
      × ((try_body s).1 ≡ not (s.tools_throw || s.server_throws))
unfolding try_body
values-try_body s h =
    let rest = own_context_ran ∷ (server_destroyed ∷ []) in
    ground (
      arith,
      h,
      values-append (start_threads (s.receive_thread_count - 1) 1) rest,
      values-start_threads (s.receive_thread_count - 1) 1,
    )

values_all :
    (s : Setup)
    → s.context_throws ≡ false
    → values (
        (try_body s).0
        ++ ((if (try_body s).1 then [] else value_set false ∷ (promises_deleted ∷ []))
            ++ ((if s.is_stopped then [] else context_stopped ∷ [])
                ++ (join_threads (try_body s).2 1 ++ (context_deleted ∷ [])))))
      ≡ not (s.tools_throw || s.server_throws) ∷ []
values_all s h =
    let (before, set) = values-try_body s h in
    values-append (try_body s).0 _
    ∙ (ap₂ ◌++◌ before (values_behind (try_body s).1 s.is_stopped (try_body s).2)
        ∙ (one_value (try_body s).1 ∙ ap (λ b. b ∷ []) set))
  where
    one_value :
        (b : Bool) → (if b then true ∷ [] else []) ++ (if b then [] else false ∷ []) ≡ b ∷ []
    one_value true = refl
    one_value false = refl

-- The promise of the thread gets just one value, so that `server()` does not wait for ever: it is
-- true exactly if the tools and the server could be made, whatever else throws. The thread faults
-- exactly if its context cannot be made.
pub run_lem :
    (s : Setup)
    → (run s >>= λ events. some (values events))
      ≡ (if s.context_throws then none else some (not (s.tools_throw || s.server_throws) ∷ []))
unfolding run
run_lem s = elim (Bool-cases s.context_throws) [
  | inl throws ↦ ground (arith, throws)
  | inr returns ↦ ground (arith, returns, values_all s returns)
]

-- The numbers of the threads that are started, and of those that are joined.
abbrev pub started : List Event → List ℕ
started [] = []
started (thread_started i ∷ events) = i ∷ started events
started (e ∷ events) = started events

abbrev pub joined : List Event → List ℕ
joined [] = []
joined (thread_joined i ∷ events) = i ∷ joined events
joined (e ∷ events) = joined events

-- The numbers of the additional threads.
abbrev pub numbers : ℕ → ℕ → List ℕ
numbers zero i = []
numbers (suc n) i = i ∷ numbers n (suc i)

started_lem :
    (n i : ℕ) (rest : List Event)
    → started (start_threads n i ++ rest) ≡ numbers n i ++ started rest
unfolding start_threads
started_lem zero i rest = refl
started_lem (suc n) i rest = ap (◌∷◌ i) (started_lem n (suc i) rest)

joined-start_threads :
    (n i : ℕ) (rest : List Event) → joined (start_threads n i ++ rest) ≡ joined rest
unfolding start_threads
joined-start_threads zero i rest = refl
joined-start_threads (suc n) i rest = joined-start_threads n (suc i) rest

joined_lem :
    (n i : ℕ) (rest : List Event) → joined (join_threads n i ++ rest) ≡ numbers n i ++ joined rest
unfolding join_threads
joined_lem zero i rest = refl
joined_lem (suc n) i rest = ap (◌∷◌ i) (joined_lem n (suc i) rest)

joined_behind :
    (is_stopped : Bool) (n : ℕ)
    → joined (
        (if is_stopped then [] else context_stopped ∷ [])
        ++ (join_threads n 1 ++ (context_deleted ∷ [])))
      ≡ numbers n 1
joined_behind true n = joined_lem n 1 (context_deleted ∷ []) ∙ append-nil (numbers n 1)
joined_behind false n = joined_lem n 1 (context_deleted ∷ []) ∙ append-nil (numbers n 1)

-- When nothing throws, the server is destroyed before any additional
-- thread is joined: all of them were started before, and all of them are joined behind it.
pub server_destroyed_early :
    (s : Setup)
    → s.context_throws ≡ false
    → s.tools_throw ≡ false
    → s.server_throws ≡ false
    → s.receive_throws ≡ false
    → (before behind : List Event) × (run s ≡ some (before ++ (server_destroyed ∷ behind)))
      × (started before ≡ numbers (s.receive_thread_count - 1) 1)
      × (joined before ≡ [])
      × (joined behind ≡ numbers (s.receive_thread_count - 1) 1)
unfolding run try_body
server_destroyed_early s h1 h2 h3 h4 =
    let n = s.receive_thread_count - 1 in
    let front : List Event =
      context_made
      ∷ (server_made
          ∷ (server_stored ∷ (value_set true ∷ (promises_deleted ∷ (receive_started ∷ []))))) in
    let behind : List Event =
      (if s.is_stopped then [] else context_stopped ∷ [])
      ++ (join_threads n 1 ++ (context_deleted ∷ [])) in
    (
      front ++ (start_threads n 1 ++ (own_context_ran ∷ [])),
      behind,
      ground (
        arith,
        h1,
        h2,
        h3,
        h4,
        append_assoc (start_threads n 1) (own_context_ran ∷ (server_destroyed ∷ [])) behind,
        append_assoc (start_threads n 1) (own_context_ran ∷ []) (server_destroyed ∷ behind),
      ),
      started_lem n 1 (own_context_ran ∷ []) ∙ append-nil (numbers n 1),
      joined-start_threads n 1 (own_context_ran ∷ []),
      joined_behind s.is_stopped n,
    )
