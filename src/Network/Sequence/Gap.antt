-- ===== src/Network/Sequence/Gap.antt =====
-- The ids that `fill_lost_msg` marks, on the circle of 256 ids.
use helpz.Prelude.{
  if◌then◌else◌, ℕ, zero, suc, ◌+◌, ◌-◌, ◌%◌, ◌≤◌, ◌<◌, ◌≡◌, refl, ap, ◌∙◌, ◌≢◌, inl, inr, Bool,
  true, false, ◌||◌, some, List, [], ◌∷◌, arith, ltb, ◌==◌, Bool-cases, emplace, KeysFrom, has_key,
  has_key-emplace, emplace-KeysFrom, erase-KeysFrom, has_flag,
}
use helpz.Network.Protocol.{Protocol, repeated_flag, emit, lost_msg_detected}
use helpz.Network.Sequence.{
  is_outdated, drop_if_outdated, drop_outdated, mark_lost, gap_start, fill_lost_msg, advance,
  is_lost_message, accept_id,
}

-- How far `id` is ahead of `next`.
abbrev pub ahead : ℕ → ℕ → ℕ
ahead next id = (id + 256 - next) % 256

-- From `next` up to `msg_id`, without it.
abbrev pub in_gap : ℕ → ℕ → ℕ → Bool
in_gap next msg_id id = ltb (ahead next id) (ahead next msg_id)

pub gap_step :
    (next msg_id id : ℕ)
    → next < 256
    → msg_id < 256
    → id < 256
    → next ≢ msg_id
    → in_gap next msg_id id ≡ ((next == id) || in_gap ((next + 1) % 256) msg_id id)
gap_step next msg_id id a b c ne = ground arith

-- The loop ends within its fuel, and marks just the ids in the gap.
pub mark_lost_lem :
    (fuel now msg_id next : ℕ) (lost : List (ℕ × ℕ))
    → next < 256
    → msg_id < 256
    → ahead next msg_id < fuel
    → (marked : List (ℕ × ℕ)) × (mark_lost fuel now msg_id next lost ≡ some marked)
      × ((id : ℕ) → id < 256 → has_key id marked ≡ (has_key id lost || in_gap next msg_id id))
      × (KeysFrom 0 lost → KeysFrom 0 marked)
unfolding mark_lost
mark_lost_lem zero now msg_id next lost a b h = absurd (omega arith)
mark_lost_lem (suc fuel) now msg_id next lost a b h = elim (Bool-cases (msg_id == next)) [
  | inl e ↦ (lost, rw e, (λ id c. ground (arith, e)), (λ k. k))
  | inr e ↦
      let (marked, eq, keys, sorted) =
        mark_lost_lem fuel now msg_id ((next + 1) % 256) (emplace next now lost) (omega arith) b
          (ground (arith, e)) in
      (
        marked,
        rw e eq,
        (λ id c.
            ground (
              arith,
              keys id c,
              has_key-emplace next id now lost,
              gap_step next msg_id id a b c,
              e,
            )),
        (λ k. sorted (emplace-KeysFrom 0 next now lost (omega arith) k)),
      )
]

-- What is needed of the state: the expected id is a `uint8_t`, and the list is a map.
pub record IsSequence (p : Protocol) : Type 0 where
  pub next_u8 : p.next_rx_msg_id < 256
  pub sorted : KeysFrom 0 p.lost_msg_list

drop_if_outdated-IsSequence :
    (now msg_id id tp : ℕ) (p : Protocol)
    → IsSequence p
    → IsSequence (drop_if_outdated now msg_id id tp p)
      × ((drop_if_outdated now msg_id id tp p).next_rx_msg_id ≡ p.next_rx_msg_id)
unfolding drop_if_outdated
drop_if_outdated-IsSequence now msg_id id tp p s =
    elim (Bool-cases (is_outdated now msg_id id tp)) [
      | inl e ↦ rw e (
        record { next_u8 = s.next_u8; sorted = erase-KeysFrom 0 id p.lost_msg_list s.sorted },
        refl,
      )
      | inr e ↦ rw e (s, refl)
    ]

pub drop_outdated-IsSequence :
    (now msg_id : ℕ) (lost : List (ℕ × ℕ)) (p : Protocol)
    → IsSequence p
    → IsSequence (drop_outdated now msg_id lost p)
      × ((drop_outdated now msg_id lost p).next_rx_msg_id ≡ p.next_rx_msg_id)
unfolding drop_outdated
drop_outdated-IsSequence now msg_id [] p s = (s, refl)
drop_outdated-IsSequence now msg_id ((id, tp) ∷ rest) p s =
    let once = drop_if_outdated-IsSequence now msg_id id tp p s in
    let others =
      drop_outdated-IsSequence now msg_id rest (drop_if_outdated now msg_id id tp p) once.0 in
    (others.0, others.1 ∙ once.1)

pub gap_start_u8 : (msg_id next : ℕ) → next < 256 → gap_start msg_id next < 256
unfolding gap_start
gap_start_u8 msg_id next h = ground arith

-- The start of the gap without the wrap-around: an id more than 100 ahead is above 100.
pub gap_start_lem :
    (msg_id next : ℕ)
    → msg_id < 256
    → gap_start msg_id next ≡ (if ltb (next + 100) msg_id then msg_id - 100 else next)
unfolding gap_start
gap_start_lem msg_id next b = ground arith

-- After `fill_lost_msg` the expected id is the one that came, and the ids that are lost are those that
-- the first loop left, and those of the gap: from the expected id, or from 100 before the one that
-- came if that is more than 100 ahead. The expected id stays a byte and the list a map, as they were.
pub fill_lost_msg_lem :
    (now msg_id id : ℕ) (p : Protocol)
    → IsSequence p
    → msg_id < 256
    → id < 256
    → (IsSequence (fill_lost_msg now msg_id p))
      × ((fill_lost_msg now msg_id p).next_rx_msg_id ≡ msg_id)
      × (has_key id (fill_lost_msg now msg_id p).lost_msg_list ≡ (
          has_key id (drop_outdated now msg_id p.lost_msg_list p).lost_msg_list
          || in_gap
              (if ltb (p.next_rx_msg_id + 100) msg_id then msg_id - 100 else p.next_rx_msg_id)
              msg_id
              id))
unfolding fill_lost_msg
fill_lost_msg_lem now msg_id id p s b c =
    let q = drop_outdated now msg_id p.lost_msg_list p in
    let kept = drop_outdated-IsSequence now msg_id p.lost_msg_list p s in
    let (marked, eq, keys, sorted) =
      mark_lost_lem 256 now msg_id (gap_start msg_id q.next_rx_msg_id) q.lost_msg_list
        (gap_start_u8 msg_id q.next_rx_msg_id kept.0.next_u8) b (omega arith) in
    (
      rw (eq, fill_lost_msg) (record { next_u8 = b; sorted = sorted kept.0.sorted }),
      rw (eq, fill_lost_msg),
      rw (eq, fill_lost_msg)
          (keys id c
            ∙ (ap (λ n. has_key id q.lost_msg_list || in_gap (gap_start msg_id n) msg_id id) kept.1
                ∙ ap (λ n. has_key id q.lost_msg_list || in_gap n msg_id id)
                    (gap_start_lem msg_id p.next_rx_msg_id b))),
    )

advance-IsSequence : (msg_id : ℕ) (p : Protocol) → IsSequence p → IsSequence (advance msg_id p)
unfolding advance
advance-IsSequence msg_id p s = ground arith

-- The first part of `internal_process_message`, for an id that is a byte and whatever the flags, keeps
-- the expected id a byte and the list of lost ids a map.
pub accept_id-IsSequence :
    (now msg_id flags : ℕ) (p : Protocol)
    → msg_id < 256
    → IsSequence p
    → IsSequence (accept_id now msg_id flags p).1
unfolding accept_id is_lost_message emit
accept_id-IsSequence now msg_id flags p b s =
    let q = emit (lost_msg_detected msg_id p.next_rx_msg_id) p in
    let filled =
      fill_lost_msg_lem now msg_id 0 q (record { next_u8 = s.next_u8; sorted = s.sorted }) b
        (omega arith) in
    ground (
      arith,
      advance-IsSequence msg_id p s,
      advance-IsSequence msg_id (fill_lost_msg now msg_id q) filled.0,
      erase-KeysFrom 0 msg_id p.lost_msg_list s.sorted,
    )

-- A message that is not a repetition and whose id is the expected one or greater is gone on with, and
-- the successor of its id is expected then. The ids are bytes and the list of lost ids is a map.
pub accept_id_ahead :
    (now msg_id flags : ℕ) (p : Protocol)
    → msg_id < 256
    → IsSequence p
    → has_flag repeated_flag flags ≡ false
    → p.next_rx_msg_id ≤ msg_id
    → ((accept_id now msg_id flags p).0 ≡ true)
      × ((accept_id now msg_id flags p).1.next_rx_msg_id ≡ (msg_id + 1) % 256)
unfolding accept_id emit advance
accept_id_ahead now msg_id flags p b s fresh h =
    let q = emit (lost_msg_detected msg_id p.next_rx_msg_id) p in
    let filled =
      fill_lost_msg_lem now msg_id 0 q (record { next_u8 = s.next_u8; sorted = s.sorted }) b
        (omega arith) in
    ground (arith, filled.1)
