-- ===== src/Dtls/Records/Order/Threads.antt =====
-- How many threads take records. See `records_thread_run` in DTLS/dtls_server_controller.cpp.
use helpz.Prelude.{
  ℕ, ◌≡◌, refl, sym, ap, ◌∙◌, inl, inr, Bool-cases, ◌⊎◌, true, false, List, [], ◌∷◌, ◌++◌, none,
  some, append-nil, append_assoc, ◌==◌, ==_refl, lookup, erase, has_key,
}
use helpz.Dtls.Records.{
  RecordItem, Records, add_received_record, break_records, take_record, pop_record, hand_on,
}
use helpz.Dtls.Records.Order.{
  Move, receive, break_all, pop, process, make_move, make_moves, received, all_records,
  add-all_records, pop-all_records, received-append,
}

-- The moves are those of one thread, and of the socket.
abbrev pub IsThread : ℕ → Move → Type 0
IsThread thread (receive item) = Unit
IsThread thread break_all = Unit
IsThread thread (pop t) = t ≡ thread
IsThread thread (process has_protocol t) = (has_protocol ≡ true) × (t ≡ thread)

abbrev pub MovesOf : ℕ → List Move → Type 0
MovesOf thread [] = Unit
MovesOf thread (m ∷ ms) = IsThread thread m × MovesOf thread ms

-- The thread holds a record at most, and no other thread holds one.
abbrev pub OneHeld : ℕ → Records → Type 0
OneHeld thread s = (s.held ≡ []) ⊎ ((item : RecordItem) × (s.held ≡ (thread, item) ∷ []))

take-OneHeld :
    (thread : ℕ) (queue : List RecordItem) (s : Records)
    → s.held ≡ []
    → OneHeld thread (take_record thread queue s)
take-OneHeld thread [] s e = inl e
take-OneHeld thread (item ∷ rest) s e = inr (item, ap (λ t. t ++ ((thread, item) ∷ [])) e)

-- What a thread does that holds nothing, and what one does that holds a record.
pop_free :
    (thread : ℕ) (s : Records)
    → s.break_flag ≡ false
    → has_key thread s.held ≡ false
    → pop_record thread s ≡ take_record thread s.records_queue s
unfolding pop_record
pop_free thread s up h = rw (up, h) refl

pop_ended : (thread : ℕ) (s : Records) → s.break_flag ≡ true → pop_record thread s ≡ s
unfolding pop_record
pop_ended thread s up = rw up refl

pop_held : (thread : ℕ) (s : Records) → has_key thread s.held ≡ true → pop_record thread s ≡ s
unfolding pop_record
pop_held thread s h = elim (Bool-cases s.break_flag) [
  | inl up ↦ pop_ended thread s up
  | inr down ↦ rw (pop_record, down, h) refl
]

hand_free : (thread : ℕ) (s : Records) → lookup thread s.held ≡ none → hand_on true thread s ≡ s
unfolding hand_on
hand_free thread s h = rw (hand_on, h) refl

hand_held :
    (thread : ℕ) (item : RecordItem) (s : Records)
    → lookup thread s.held ≡ some item
    → hand_on true thread s
      ≡ (record s { held = erase thread s.held; calls = s.calls ++ (item ∷ []) })
unfolding hand_on
hand_held thread item s h = rw (hand_on, h) refl

module _ (thread : ℕ) where
  holds_none : (held : List (ℕ × RecordItem)) → held ≡ [] → lookup thread held ≡ none
  holds_none held e = rw e refl

  holds_one :
      (item : RecordItem) (held : List (ℕ × RecordItem))
      → held ≡ (thread, item) ∷ []
      → (lookup thread held ≡ some item) × ((has_key thread held ≡ true) × (erase thread held ≡ []))
  holds_one item held e = rw (e, ==_refl thread) (refl, (refl, refl))

  pop-OneHeld : (s : Records) → OneHeld thread s → OneHeld thread (pop_record thread s)
  pop-OneHeld s (inl e) = elim (Bool-cases s.break_flag) [
    | inl up ↦ rw (pop_ended thread s up) (inl e)
    | inr down ↦
        rw (pop_free thread s down (ap (has_key thread) e))
          (take-OneHeld thread s.records_queue s e)
  ]
  pop-OneHeld s (inr (item, e)) =
      rw (pop_held thread s (holds_one item s.held e).1.0) (inr (item, e))

  hand-OneHeld : (s : Records) → OneHeld thread s → OneHeld thread (hand_on true thread s)
  hand-OneHeld s (inl e) = rw (hand_free thread s (holds_none s.held e)) (inl e)
  hand-OneHeld s (inr (item, e)) =
      rw (hand_held thread item s (holds_one item s.held e).0) (inl (holds_one item s.held e).1.1)

  -- The record that is handed on was the only one that is held.
  hand_first :
      (item : RecordItem) (others : List (ℕ × RecordItem)) (s : Records)
      → others ≡ []
      → s.held ≡ (thread, item) ∷ []
      → all_records (record s { held = others; calls = s.calls ++ (item ∷ []) }) ≡ all_records s
  unfolding all_records
  hand_first item others s gone e = rw (gone, e) (append_assoc s.calls (item ∷ []) s.records_queue)

  hand_one-all_records :
      (s : Records) → OneHeld thread s → all_records (hand_on true thread s) ≡ all_records s
  hand_one-all_records s (inl e) = ap all_records (hand_free thread s (holds_none s.held e))
  hand_one-all_records s (inr (item, e)) =
      ap all_records (hand_held thread item s (holds_one item s.held e).0)
      ∙ hand_first item (erase thread s.held) s (holds_one item s.held e).1.1 e

move-OneHeld :
    (thread : ℕ) (m : Move) (s : Records)
    → IsThread thread m
    → OneHeld thread s
    → OneHeld thread (make_move m s)
unfolding make_move add_received_record break_records
move-OneHeld thread (receive item) s here h = h
move-OneHeld thread break_all s here h = h
move-OneHeld thread (pop t) s here h = rw here (pop-OneHeld thread s h)
move-OneHeld thread (process has_protocol t) s here h =
    rw (here.0, here.1) (hand-OneHeld thread s h)

move_one-all_records :
    (thread : ℕ) (m : Move) (s : Records)
    → IsThread thread m
    → OneHeld thread s
    → all_records (make_move m s) ≡ all_records s ++ received (m ∷ [])
unfolding make_move received break_records all_records
move_one-all_records thread (receive item) s here h = add-all_records item s
move_one-all_records thread break_all s here h = sym (append-nil (all_records s))
move_one-all_records thread (pop t) s here h =
    pop-all_records t s ∙ sym (append-nil (all_records s))
move_one-all_records thread (process has_protocol t) s here h =
    rw (here.0, here.1) (hand_one-all_records thread s h) ∙ sym (append-nil (all_records s))

-- With one thread, records reach the protocols in the order in which they were received: the ones that
-- were handed on, the one that the thread holds and the ones that wait are those of the beginning and
-- then those that were received since, in this order. At the beginning no other thread holds a record,
-- and the nodes have their protocols.
pub one_thread_in_order :
    (thread : ℕ) (ms : List Move) (s : Records)
    → MovesOf thread ms
    → OneHeld thread s
    → all_records (make_moves ms s) ≡ all_records s ++ received ms
unfolding make_moves received
one_thread_in_order thread [] s here h = sym (append-nil (all_records s))
one_thread_in_order thread (m ∷ ms) s here h =
    one_thread_in_order thread ms (make_move m s) here.1 (move-OneHeld thread m s here.0 h)
    ∙ ap (λ t. t ++ received ms) (move_one-all_records thread m s here.0 h)
    ∙ append_assoc (all_records s) (received (m ∷ [])) (received ms)
    ∙ ap (λ t. all_records s ++ t) (sym (received-append m ms))

abbrev pub overtaking : ℕ → ℕ → RecordItem → RecordItem → List Move
overtaking first second a b =
    receive a ∷ receive b ∷ pop first ∷ pop second ∷ process true second ∷ process true first ∷ []

abbrev pub idle : List RecordItem → Records
idle calls = record { break_flag = false; records_queue = []; held = []; calls = calls }

-- Both threads hold a record.
abbrev both_taken : ℕ → ℕ → RecordItem → RecordItem → List RecordItem → Records
both_taken first second a b calls = record (idle calls) { held = (first, a) ∷ (second, b) ∷ [] }

pop-both_taken :
    (first second : ℕ) (a b : RecordItem) (calls : List RecordItem)
    → (first == second) ≡ false
    → make_moves (receive a ∷ receive b ∷ pop first ∷ pop second ∷ []) (idle calls)
      ≡ both_taken first second a b calls
unfolding make_moves make_move add_received_record pop_record
pop-both_taken first second a b calls differ = rw differ refl

hand-both_taken :
    (first second : ℕ) (a b : RecordItem) (calls : List RecordItem)
    → (first == second) ≡ false
    → (hand_on true first (hand_on true second (both_taken first second a b calls))).calls
      ≡ calls ++ (b ∷ a ∷ [])
hand-both_taken first second a b calls differ =
    rw (hand_held second b (both_taken first second a b calls) (rw (differ, ==_refl second) refl)) (
      ap (λ s. s.calls)
        (hand_held first a
          (record (idle (calls ++ (b ∷ []))) {
            held = erase second ((first, a) ∷ (second, b) ∷ []);
          })
          (rw (differ, ==_refl second, ==_refl first) refl))
      ∙ append_assoc calls (b ∷ []) (a ∷ []))

-- A second thread can overtake the first: two records `a` and `b` of one node come in, one thread takes
-- `a` and another one `b`, and the second hands its record on first. Then the protocol of the node gets
-- `b` before `a`, since the lock of the node is taken only after the record was. At the beginning the
-- queue is empty, no thread holds a record and the flag is down.
pub overtaken :
    (first second : ℕ) (a b : RecordItem) (calls : List RecordItem)
    → (first == second) ≡ false
    → (make_moves (overtaking first second a b) (idle calls)).calls ≡ calls ++ (b ∷ a ∷ [])
unfolding make_moves make_move
overtaken first second a b calls differ =
    ap (λ s. (hand_on true first (hand_on true second s)).calls)
      (pop-both_taken first second a b calls differ)
    ∙ hand-both_taken first second a b calls differ
