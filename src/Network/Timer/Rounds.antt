-- ===== src/Network/Timer/Rounds.antt =====
-- When the timer calls.
use helpz.Prelude.{
  ℕ, ◌+◌, ◌≤◌, ◌<◌, ◌≡◌, refl, sym, ap, ◌∙◌, inl, inr, false, not, ◌&&◌, ◌||◌, append-nil,
  append_assoc, List, [], ◌∷◌, ◌++◌, map, arith, leb, leb→le, Bool-cases, All, KeysFrom, suc,
}
use helpz.Network.Message.{ms}
use helpz.Network.Timer.{Timer, Item, is_awake, wake, expired_items, later_items}

later-All :
    (limit time : ℕ) (items : List (ℕ × Item))
    → KeysFrom (suc time) items
    → limit < time
    → All (λ (e : ℕ × Item). limit < e.0) items
later-All limit time [] k h = tt
later-All limit time ((t, i) ∷ rest) k h = (omega arith, later-All limit t rest k.1 (omega arith))

-- The map up to the limit, and behind it.
pub split_expired :
    (limit lo : ℕ) (items : List (ℕ × Item))
    → KeysFrom lo items
    → (gone : List (ℕ × Item)) × (items ≡ gone ++ later_items limit items)
      × (map (λ (e : ℕ × Item). e.1) gone ≡ expired_items limit items)
      × All (λ e. e.0 ≤ limit) gone
      × All (λ e. limit < e.0) (later_items limit items)
unfolding expired_items later_items
split_expired limit lo [] k = ([], refl, refl, tt, tt)
split_expired limit lo ((time, item) ∷ rest) k = elim (Bool-cases (leb time limit)) [
  | inl e ↦
      let (gone, whole, calls, due, later) = split_expired limit (suc time) rest k.1 in
      rw e (
        (time, item) ∷ gone,
        ap (◌∷◌ (time, item)) whole,
        ap (◌∷◌ item) calls,
        (leb→le time limit e, due),
        later,
      )
  | inr e ↦
      let h : limit < time = ground (arith, e) in
      rw e ([], refl, refl, tt, (h, later-All limit time rest k.1 h))
]

wake_timeout :
    (now first : ℕ) (item : Item) (rest : List (ℕ × Item)) (t : Timer)
    → t.items ≡ (first, item) ∷ rest
    → first ≤ now
    → t.break_flag ≡ false
    → t.new_timeout_flag ≡ false
    → wake now t ≡ record t {
      items = later_items (now + ms 10) t.items;
      calls = t.calls ++ expired_items (now + ms 10) t.items;
    }
unfolding wake
wake_timeout now first item rest t e le break_off flag_off = ground (arith, break_off, flag_off)

-- With no flag set, and the first time point come, the thread calls for the items whose time points
-- come within 10 ms, all of them and no other, in the order of their time points, and they leave the
-- map; the map is in the order of time.
pub wake_due :
    (now lo first : ℕ) (item : Item) (rest : List (ℕ × Item)) (t : Timer)
    → KeysFrom lo t.items
    → t.items ≡ (first, item) ∷ rest
    → first ≤ now
    → t.break_flag ≡ false
    → t.new_timeout_flag ≡ false
    → (gone : List (ℕ × Item)) × (t.items ≡ gone ++ (wake now t).items)
      × ((wake now t).calls ≡ t.calls ++ map (λ (e : ℕ × Item). e.1) gone)
      × All (λ e. e.0 ≤ now + ms 10) gone
      × All (λ e. now + ms 10 < e.0) (wake now t).items
unfolding wake
wake_due now lo first item rest t k e le break_off flag_off =
    let (gone, whole, calls, due, later) = split_expired (now + ms 10) lo t.items k in
    rw (wake_timeout now first item rest t e le break_off flag_off)
      (gone, whole, ap (◌++◌ t.calls) (sym calls), due, later)

-- No call is taken back.
pub wake_appends :
    (now : ℕ) (t : Timer) → (more : List Item) × ((wake now t).calls ≡ t.calls ++ more)
unfolding wake
wake_appends now t =
    elim (Bool-cases (is_awake now t && not (t.break_flag || t.new_timeout_flag))) [
      | inl fires ↦ (expired_items (now + ms 10) t.items, ground (arith, fires))
      | inr rests ↦ ([], ground (arith, rests, append-nil t.calls))
    ]

-- The first item of the map is called for by the second round at the latest that the thread makes once
-- its time point has come, whether or not the flag for a new item is set, if no stop comes between.
pub wake_twice :
    (now later first : ℕ) (item : Item) (rest : List (ℕ × Item)) (t : Timer)
    → t.items ≡ (first, item) ∷ rest
    → first ≤ now
    → now ≤ later
    → t.break_flag ≡ false
    → (others : List Item) × ((wake later (wake now t)).calls ≡ t.calls ++ item ∷ others)
unfolding wake expired_items later_items
wake_twice now later first item rest t e le le' break_off = elim (Bool-cases t.new_timeout_flag) [
  | inl set ↦ (expired_items (later + ms 10) rest, ground (arith, set, e, break_off))
  | inr unset ↦
      let (more, grown) = wake_appends later (wake now t) in
      (
        expired_items (now + ms 10) rest ++ more,
        grown
            ∙ (ap (λ (u : Timer). u.calls ++ more)
                  (wake_timeout now first item rest t e le break_off unset)
                ∙ (append_assoc t.calls (expired_items (now + ms 10) t.items) more
                    ∙ ap (λ l. t.calls ++ (l ++ more)) due)),
      )
]
  where
    due : expired_items (now + ms 10) t.items ≡ item ∷ expired_items (now + ms 10) rest
    due = ground (arith, e)
