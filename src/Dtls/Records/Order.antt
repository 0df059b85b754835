-- ===== src/Dtls/Records/Order.antt =====
-- The order in which records reach the protocols. See DTLS/dtls_server_controller.cpp.
pub mod Threads
use mathlib.Core.List.{Perm, perm_append_comm}
use mathlib.Core.List.Perm
use helpz.Prelude.{
  ℕ, zero, suc, ◌+◌, ◌≡◌, refl, sym, ap, ◌∙◌, inl, inr, Bool, true, false, ◌||◌, List, [], ◌∷◌,
  ◌++◌, map, Option, none, some, append-nil, append_assoc, arith, ◌==◌, if◌then◌else◌, Option-cases,
  Bool-cases, lookup, erase, has_key, Bytes, ==_refl,
}
use helpz.Dtls.Records.{
  RecordItem, Records, records, add_received_record, break_records, take_record, pop_record,
  hand_on,
}

-- What the socket and the threads do, in any order. When a thread is done with the record that it holds,
-- the node of the record has its protocol then or not.
pub data Move : Type 0 where
  receive : RecordItem → Move
  break_all : Move
  pop : ℕ → Move
  process : Bool → ℕ → Move

unfoldable pub make_move : Move → Records → Records
make_move (receive item) s = add_received_record item s
make_move break_all s = break_records s
make_move (pop thread) s = pop_record thread s
make_move (process has_protocol thread) s = hand_on has_protocol thread s

unfoldable pub make_moves : List Move → Records → Records
unfolding make_move
make_moves [] s = s
make_moves (m ∷ ms) s = make_moves ms (make_move m s)

unfoldable pub received : List Move → List RecordItem
received [] = []
received (receive item ∷ ms) = item ∷ received ms
received (break_all ∷ ms) = received ms
received (pop thread ∷ ms) = received ms
received (process has_protocol thread ∷ ms) = received ms

-- The record that a thread drops in a move, since the node has no protocol, and those of all moves.
unfoldable pub dropped_by : Move → Records → List RecordItem
dropped_by (receive item) s = []
dropped_by break_all s = []
dropped_by (pop thread) s = []
dropped_by (process true thread) s = []
dropped_by (process false thread) s = elim (lookup thread s.held) [
  | none ↦ []
  | some item ↦ item ∷ []
]

unfoldable pub dropped : List Move → Records → List RecordItem
unfolding dropped_by make_move
dropped [] s = []
dropped (m ∷ ms) s = dropped_by m s ++ dropped ms (make_move m s)

abbrev pub held_items : List (ℕ × RecordItem) → List RecordItem
held_items held = map (λ e. e.1) held

-- What was handed on, what the threads hold and what waits, in this order.
unfoldable pub all_records : Records → List RecordItem
all_records s = s.calls ++ (held_items s.held ++ s.records_queue)

held_items-append :
    (xs ys : List (ℕ × RecordItem)) → held_items (xs ++ ys) ≡ held_items xs ++ held_items ys
held_items-append [] ys = refl
held_items-append (x ∷ xs) ys = ap (λ t. x.1 ∷ t) (held_items-append xs ys)

add-all_records :
    (item : RecordItem) (s : Records)
    → all_records (add_received_record item s) ≡ all_records s ++ (item ∷ [])
unfolding all_records add_received_record
add-all_records item s = sym (
    append_assoc s.calls (held_items s.held ++ s.records_queue) (item ∷ [])
    ∙ ap (λ t. s.calls ++ t) (append_assoc (held_items s.held) s.records_queue (item ∷ [])))

take-all_records :
    (thread : ℕ) (queue : List RecordItem) (s : Records)
    → s.records_queue ≡ queue
    → all_records (take_record thread queue s) ≡ s.calls ++ (held_items s.held ++ queue)
unfolding all_records
take-all_records thread [] s e = ap (λ t. s.calls ++ (held_items s.held ++ t)) e
take-all_records thread (item ∷ rest) s e =
    ap (λ t. s.calls ++ t)
      (ap (λ t. t ++ rest) (held_items-append s.held ((thread, item) ∷ []))
        ∙ append_assoc (held_items s.held) (item ∷ []) rest)

pop-all_records : (thread : ℕ) (s : Records) → all_records (pop_record thread s) ≡ all_records s
unfolding pop_record all_records
pop-all_records thread s = either (s.break_flag || has_key thread s.held)
  where
    either :
        (b : Bool)
        → all_records (if b then s else take_record thread s.records_queue s) ≡ all_records s
    either true = refl
    either false = take-all_records thread s.records_queue s refl

-- The records that are held are the one that is handed on and the others.
erase-Perm :
    (thread : ℕ) (item : RecordItem) (held : List (ℕ × RecordItem))
    → lookup thread held ≡ some item
    → Perm (held_items held) (item ∷ held_items (erase thread held))
erase-Perm thread item [] h = cc h
erase-Perm thread item ((t, other) ∷ rest) h = elim (Bool-cases (t == thread)) [
  | inl same ↦ let e : other ≡ item = cc (rw same at h) in rw (same, e) (Perm.refl _)
  | inr differs ↦ rw differs (
      Perm.trans (Perm.cons other (erase-Perm thread item rest (rw differs at h)))
        (Perm.swap item other _))
]

hand-all_records :
    (thread : ℕ) (s : Records) → Perm (all_records (hand_on true thread s)) (all_records s)
unfolding hand_on all_records
hand-all_records thread s = elim (Option-cases (lookup thread s.held)) [
  | inl h ↦ rw (hand_on, h) (Perm.refl _)
  | inr (item, h) ↦
      rw
        (
          hand_on,
          h,
          append_assoc s.calls (item ∷ []) (held_items (erase thread s.held) ++ s.records_queue),
        )
        (Perm.append_left s.calls
          (Perm.append_right s.records_queue (Perm.symm (erase-Perm thread item s.held h))))
]

-- A record that is dropped was held.
drop-all_records :
    (thread : ℕ) (s : Records)
    → Perm
        (all_records (hand_on false thread s) ++ dropped_by (process false thread) s)
        (all_records s)
unfolding hand_on all_records dropped_by
drop-all_records thread s = elim (Option-cases (lookup thread s.held)) [
  | inl h ↦ rw (hand_on, dropped_by, h, append-nil (all_records s)) (Perm.refl _)
  | inr (item, h) ↦
      let left = held_items (erase thread s.held) in
      rw (hand_on, dropped_by, h, append_assoc s.calls (left ++ s.records_queue) (item ∷ []))
        (Perm.append_left s.calls (
          Perm.trans (perm_append_comm (left ++ s.records_queue) (item ∷ []))
            (Perm.append_right s.records_queue (Perm.symm (erase-Perm thread item s.held h)))))
]

move-all_records :
    (m : Move) (s : Records)
    → Perm (all_records (make_move m s) ++ dropped_by m s) (all_records s ++ received (m ∷ []))
unfolding make_move received break_records all_records dropped_by
move-all_records (receive item) s =
    rw (append-nil (all_records (add_received_record item s)), add-all_records item s) (Perm.refl _)
move-all_records break_all s = Perm.refl _
move-all_records (pop thread) s = rw (pop-all_records thread s) (Perm.refl _)
move-all_records (process true thread) s =
    rw (append-nil (all_records (hand_on true thread s)), append-nil (all_records s))
      (hand-all_records thread s)
move-all_records (process false thread) s =
    rw (append-nil (all_records s)) (drop-all_records thread s)

received-append : (m : Move) (ms : List Move) → received (m ∷ ms) ≡ received (m ∷ []) ++ received ms
unfolding received
received-append (receive item) ms = refl
received-append break_all ms = refl
received-append (pop thread) ms = refl
received-append (process has_protocol thread) ms = refl

-- Whatever the socket and the threads do, in any order, with any number of threads, a record is lost only
-- where a thread finds no protocol at its node, and none is there twice: the ones that were handed on, the
-- ones that a thread holds, the ones that wait and the ones that were dropped for want of a protocol are
-- those of the beginning and those that were received since, up to their order.
pub records_conserved :
    (ms : List Move) (s : Records)
    → Perm (all_records (make_moves ms s) ++ dropped ms s) (all_records s ++ received ms)
unfolding make_moves received dropped
records_conserved [] s = Perm.refl _
records_conserved (m ∷ ms) s =
    let next = make_move m s in
    let last = all_records (make_moves ms next) in
    let gone = dropped_by m s in
    let step : Perm (last ++ (gone ++ dropped ms next)) ((last ++ dropped ms next) ++ gone) =
      rw (append_assoc last (dropped ms next) gone)
        (Perm.append_left last (perm_append_comm gone (dropped ms next))) in
    let later : Perm ((last ++ dropped ms next) ++ gone)
        ((all_records next ++ received ms) ++ gone) =
      Perm.append_right gone (records_conserved ms next) in
    let swapped : Perm ((all_records next ++ received ms) ++ gone)
        ((all_records next ++ gone) ++ received ms) =
      rw
        (
          append_assoc (all_records next) (received ms) gone,
          append_assoc (all_records next) gone (received ms),
        )
        (Perm.append_left (all_records next) (perm_append_comm (received ms) gone)) in
    let here : Perm ((all_records next ++ gone) ++ received ms)
        (all_records s ++ received (m ∷ ms)) =
      rw
        (received-append m ms, sym (append_assoc (all_records s) (received (m ∷ [])) (received ms)))
        (Perm.append_right (received ms) (move-all_records m s)) in
    Perm.trans step (Perm.trans later (Perm.trans swapped here))
