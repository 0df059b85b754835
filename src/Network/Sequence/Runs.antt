-- ===== src/Network/Sequence/Runs.antt =====
-- Messages one after another: those that come in order, and one that was lost and is repeated. See
-- `internal_process_message` in Network/net_protocol.cpp.
use helpz.Prelude.{
  ℕ, zero, suc, ◌+◌, ◌%◌, ◌≤◌, ◌<◌, ◌≡◌, ◌≢◌, ◌⊎◌, inl, inr, refl, sym, ap, ◌∙◌, Bool, true, false,
  ◌&&◌, none, some, some-injective, List, [], ◌∷◌, arith, ltb, ◌==◌, Bool-cases, Option-cases, All,
  length, lookup, emplace, erase, KeysFrom, emplace-KeysFrom, lookup-emplace, emplace_taken,
  has_flag,
}
use helpz.Network.Protocol.{Protocol, repeated_flag, emit, lost_msg_detected}
use helpz.Network.Sequence.{
  drop_if_outdated, drop_outdated, mark_lost, gap_start, fill_lost_msg, advance, is_lost_message,
  accept_id,
}
use helpz.Network.Sequence.Gap.{
  IsSequence, in_gap, gap_step, gap_start_lem, gap_start_u8, mark_lost_lem,
  drop_outdated-IsSequence, accept_id-IsSequence, accept_id_ahead,
}
use helpz.Network.Sequence.Repeats.{accept_id_repeated, accept_id_repeated_twice}

-- Messages with their times, ids and flags: whether each of them is gone on with, and the state.
unfoldable pub accept_all : List (ℕ × (ℕ × ℕ)) → Protocol → Bool × Protocol
unfolding accept_id
accept_all [] p = (true, p)
accept_all ((now, (msg_id, flags)) ∷ messages) p =
    let (goes_on, q) = accept_id now msg_id flags p in
    let (rest, last) = accept_all messages q in (goes_on && rest, last)

-- The messages get the ids from a number on, of which 8 bits are sent.
unfoldable pub numbered : ℕ → List (ℕ × ℕ) → List (ℕ × (ℕ × ℕ))
numbered n [] = []
numbered n ((now, flags) ∷ messages) = (now, (n % 256, flags)) ∷ numbered (suc n) messages

accept_next :
    (now n flags : ℕ) (p : Protocol)
    → p.next_rx_msg_id ≡ n % 256
    → has_flag repeated_flag flags ≡ false
    → accept_id now (n % 256) flags p ≡ (true, record p { next_rx_msg_id = suc n % 256 })
unfolding accept_id advance is_lost_message
accept_next now n flags p e fresh =
    let wrapped : (n % 256 + 1) % 256 ≡ suc n % 256 = omega arith in
    ground (arith, e, fresh, wrapped)

-- Any number of messages that come in order, also around the circle of ids, at any times and without the
-- flag REPEATED: each one is gone on with, none is marked as lost or told as lost, and at the end the id
-- behind the last one is expected. The first id is the one that is expected at the beginning.
pub accept_all_in_order :
    (n : ℕ) (messages : List (ℕ × ℕ)) (p : Protocol)
    → p.next_rx_msg_id ≡ n % 256
    → All (λ (m : ℕ × ℕ). has_flag repeated_flag m.1 ≡ false) messages
    → accept_all (numbered n messages) p
      ≡ (true, record p { next_rx_msg_id = (n + length messages) % 256 })
unfolding accept_all numbered
accept_all_in_order n [] p e fresh =
    ap (λ (k : ℕ). (true, record p { next_rx_msg_id = k }))
      (let same : p.next_rx_msg_id ≡ (n + 0) % 256 = omega (arith, e) in same)
accept_all_in_order n ((now, flags) ∷ messages) p e fresh =
    let next = record p { next_rx_msg_id = suc n % 256 } in
    let rest = accept_all_in_order (suc n) messages next refl fresh.1 in
    ap
      (λ (x : Bool × Protocol). (
        x.0 && (accept_all (numbered (suc n) messages) x.1).0,
        (accept_all (numbered (suc n) messages) x.1).1,
      ))
      (accept_next now n flags p e fresh.0)
    ∙ (rest
        ∙ ap (λ (k : ℕ). (true, record p { next_rx_msg_id = k }))
            (let same : (suc n + length messages) % 256 ≡ (n + suc (length messages)) % 256 =
                omega arith in
              same))

-- The id is marked with the time, or it is not and is still to come in the loop.
abbrev WillMark : ℕ → ℕ → ℕ → ℕ → List (ℕ × ℕ) → Type 0
WillMark now msg_id next id lost =
    (lookup id lost ≡ some now) ⊎ ((lookup id lost ≡ none) × (in_gap next msg_id id ≡ true))

mark_step :
    (now msg_id next id : ℕ) (lost : List (ℕ × ℕ))
    → KeysFrom 0 lost
    → next < 256
    → msg_id < 256
    → id < 256
    → next ≢ msg_id
    → WillMark now msg_id next id lost
    → WillMark now msg_id ((next + 1) % 256) id (emplace next now lost)
mark_step now msg_id next id lost sorted a b c ne will = elim (Option-cases (lookup next lost)) [
  | inl free ↦
      let added = lookup-emplace 0 next id now lost sorted free in
      elim will [
        | inl marked ↦ elim (Bool-cases (next == id)) [
          | inl same ↦ inl (added ∙ rw same refl)
          | inr differs ↦ inl (added ∙ rw differs marked)
        ]
        | inr (absent, gap) ↦ elim (Bool-cases (next == id)) [
          | inl same ↦ inl (added ∙ rw same refl)
          | inr differs ↦ inr (
            added ∙ rw differs absent,
            ground (arith, gap_step next msg_id id a b c ne, gap, differs),
          )
        ]
      ]
  | inr (old, taken) ↦ rw (emplace_taken 0 next now old lost sorted taken) (elim will [
    | inl marked ↦ inl marked
    | inr (absent, gap) ↦ elim (Bool-cases (next == id)) [
      | inl same ↦ absurd (let e : next ≡ id = ground (arith, same) in cc)
      | inr differs ↦ inr (absent, ground (arith, gap_step next msg_id id a b c ne, gap, differs))
    ]
  ])
]

mark_lost-lookup :
    (fuel now msg_id next id : ℕ) (lost marked : List (ℕ × ℕ))
    → KeysFrom 0 lost
    → next < 256
    → msg_id < 256
    → id < 256
    → mark_lost fuel now msg_id next lost ≡ some marked
    → WillMark now msg_id next id lost
    → lookup id marked ≡ some now
unfolding mark_lost
mark_lost-lookup zero now msg_id next id lost marked sorted a b c e will = cc e
mark_lost-lookup (suc fuel) now msg_id next id lost marked sorted a b c e will =
    elim (Bool-cases (msg_id == next)) [
      | inl there ↦
          let same : lost ≡ marked = some-injective _ _ (rw there at e) in
          elim will [
            | inl has ↦ ap (lookup id) (sym same) ∙ has
            | inr (absent, gap) ↦ absurd (ground (arith, there, gap))
          ]
      | inr before ↦
          mark_lost-lookup fuel now msg_id ((next + 1) % 256) id (emplace next now lost) marked
            (emplace-KeysFrom 0 next now lost (omega arith) sorted) (omega arith) b c
            (rw before at e)
            (mark_step now msg_id next id lost sorted a b c (ground (arith, before)) will)
    ]

erase-none :
    {V : Type 0} (id k : ℕ) (m : List (ℕ × V)) → lookup id m ≡ none → lookup id (erase k m) ≡ none
erase-none id k [] h = refl
erase-none id k ((j, v) ∷ m) h = ground (arith, h, erase-none id k m)

drop_outdated-none :
    (now msg_id id : ℕ) (lost : List (ℕ × ℕ)) (p : Protocol)
    → lookup id p.lost_msg_list ≡ none
    → lookup id (drop_outdated now msg_id lost p).lost_msg_list ≡ none
unfolding drop_outdated drop_if_outdated
drop_outdated-none now msg_id id [] p h = h
drop_outdated-none now msg_id id ((k, tp) ∷ rest) p h =
    drop_outdated-none now msg_id id rest (drop_if_outdated now msg_id k tp p)
      (ground (arith, h, erase-none id k p.lost_msg_list h))

-- An id of the gap is marked with the time.
fill_lost_msg-lookup :
    (now msg_id id : ℕ) (p : Protocol)
    → msg_id < 256
    → IsSequence p
    → p.next_rx_msg_id ≤ id
    → id < msg_id
    → msg_id ≤ id + 100
    → lookup id p.lost_msg_list ≡ none
    → lookup id (fill_lost_msg now msg_id p).lost_msg_list ≡ some now
unfolding fill_lost_msg
fill_lost_msg-lookup now msg_id id p b s from before near absent =
    let q = drop_outdated now msg_id p.lost_msg_list p in
    let kept = drop_outdated-IsSequence now msg_id p.lost_msg_list p s in
    let start = gap_start msg_id q.next_rx_msg_id in
    let start_lem = gap_start_lem msg_id q.next_rx_msg_id b in
    let small = gap_start_u8 msg_id q.next_rx_msg_id kept.0.next_u8 in
    let (marked, eq, keys, sorted) =
      mark_lost_lem 256 now msg_id start q.lost_msg_list small b (omega arith) in
    let gap : in_gap start msg_id id ≡ true =
      ground (arith, start_lem, kept.1, from, before, near, b, small) in
    rw (eq, fill_lost_msg)
      (mark_lost-lookup 256 now msg_id start id q.lost_msg_list marked kept.0.sorted small b
        (omega (arith, before, b)) eq
        (inr (drop_outdated-none now msg_id id p.lost_msg_list p absent, gap)))

advance_list : (msg_id : ℕ) (p : Protocol) → (advance msg_id p).lost_msg_list ≡ p.lost_msg_list
unfolding advance
advance_list msg_id p = ground arith

accept_id-lookup :
    (now msg_id flags id : ℕ) (p : Protocol)
    → msg_id < 256
    → IsSequence p
    → has_flag repeated_flag flags ≡ false
    → p.next_rx_msg_id ≤ id
    → id < msg_id
    → msg_id ≤ id + 100
    → lookup id p.lost_msg_list ≡ none
    → lookup id (accept_id now msg_id flags p).1.lost_msg_list ≡ some now
unfolding accept_id emit
accept_id-lookup now msg_id flags id p b s fresh from before near absent =
    let q = emit (lost_msg_detected msg_id p.next_rx_msg_id) p in
    let ahead : ltb p.next_rx_msg_id msg_id ≡ true = ground (arith, from, before) in
    let not_late : ltb msg_id p.next_rx_msg_id ≡ false = ground (arith, from, before) in
    let filled =
      fill_lost_msg-lookup now msg_id id q b (record { next_u8 = s.next_u8; sorted = s.sorted })
        from before near absent in
    rw (accept_id, fresh, not_late, ahead)
      (ap (lookup id) (advance_list msg_id (fill_lost_msg now msg_id q)) ∙ filled)

-- A message is lost and repeated: an id between the one that is expected and one that comes, at most 100
-- before the latter, is not marked as lost; the message that comes is no repetition. The lost message, which
-- comes with the flag REPEATED less than 10 s later, is gone on with, and if it comes once more with that
-- flag, at any time, it is not; the id behind the one that came first stays the expected one. The ids are
-- bytes and the list of lost ids is a map.
pub lost_once :
    (now later again msg_id lost flags repeated : ℕ) (p : Protocol)
    → msg_id < 256
    → IsSequence p
    → has_flag repeated_flag flags ≡ false
    → has_flag repeated_flag repeated ≡ true
    → p.next_rx_msg_id ≤ lost
    → lost < msg_id
    → msg_id ≤ lost + 100
    → lookup lost p.lost_msg_list ≡ none
    → later < now + 10000000000
    → let q = (accept_id now msg_id flags p).1 in
      let (goes_on, r) = accept_id later lost repeated q in
      (goes_on ≡ true)
      × ((accept_id again lost repeated r).0 ≡ false)
      × (r.next_rx_msg_id ≡ (msg_id + 1) % 256)
lost_once now later again msg_id lost flags repeated p b s fresh rep from before near absent soon =
    let q = (accept_id now msg_id flags p).1 in
    let marked = accept_id-lookup now msg_id flags lost p b s fresh from before near absent in
    let s1 = accept_id-IsSequence now msg_id flags p b s in
    let back = accept_id_repeated later lost repeated q rep in
    (
      back.0.1 (now, marked, soon),
      accept_id_repeated_twice later again lost repeated q s1 rep,
      ap (λ (r : Protocol). r.next_rx_msg_id) back.1
          ∙ (accept_id_ahead now msg_id flags p b s fresh (omega (arith, from, before))).1,
    )
