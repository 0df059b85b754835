-- ===== src/Network/Timer.antt =====
-- `Protocol_Timer` in Network/net_protocol_timer.cpp: a thread that calls `on_protocol_timeout` at the
-- time points of a map. The mutex makes `add`, `stop` and a round of the thread one step each; the
-- thread waits until its predicate holds or the first time point has come. An endpoint is a number.
pub mod Rounds
pub mod Conservation
mod Examples
use helpz.Prelude.{
  ℕ, ◌+◌, Bool, true, false, ◌||◌, none, some, List, [], ◌∷◌, ◌++◌, leb, if◌then◌else◌, lookup,
  emplace,
}
use helpz.Network.Message.{ms}

-- `Protocol_Timer::Item`.
pub record Item : Type 0 where
  pub endpoint : ℕ
  pub data_ptr : ℕ

-- The flags and the map, and the calls of the emitter so far.
pub record Timer : Type 0 where
  pub break_flag : Bool
  pub new_timeout_flag : Bool
  pub items : List (ℕ × Item)
  pub calls : List Item

-- The constructor.
unfoldable pub timer : Timer
timer = record { break_flag = false; new_timeout_flag = false; items = []; calls = [] }

unfoldable pub stop : Timer → Timer
stop t = record t { break_flag = true }

-- `items_.emplace`: at a time point that is taken nothing is added.
unfoldable pub add : ℕ → Item → Timer → Timer
add time_point item t = record t {
  items = emplace time_point item t.items;
  new_timeout_flag = true;
}

-- The wait is over: by the predicate, or since the first time point has come.
unfoldable pub is_awake : ℕ → Timer → Bool
is_awake now t =
    t.break_flag
    || (t.new_timeout_flag
        || elim t.items [ [] ↦ false | (time_point, _) ∷ _ ↦ leb time_point now ])

-- The loop over the items: those up to `expires_close` go to the clients.
unfoldable pub expired_items : ℕ → List (ℕ × Item) → List Item
expired_items expires_close [] = []
expired_items expires_close ((time_point, item) ∷ rest) =
    if leb time_point expires_close then item ∷ expired_items expires_close rest else []

unfoldable pub later_items : ℕ → List (ℕ × Item) → List (ℕ × Item)
later_items expires_close [] = []
later_items expires_close ((time_point, item) ∷ rest) =
    if leb time_point expires_close
    then later_items expires_close rest
    else (time_point, item) ∷ rest

-- A round of `run` behind the wait. A wait that ended by the predicate is no timeout.
unfoldable pub round : ℕ → Timer → Timer
unfolding expired_items later_items
round now t =
    if t.break_flag
    then t
    else if t.new_timeout_flag
    then record t { new_timeout_flag = false }
    else record t {
      items = later_items (now + ms 10) t.items;
      calls = t.calls ++ expired_items (now + ms 10) t.items;
    }

-- The thread at a time of the clock: it waits on, or makes a round.
unfoldable pub wake : ℕ → Timer → Timer
unfolding is_awake round
wake now t = if is_awake now t then round now t else t

-- What happens to a timer.
pub data Action : Type 0 where
  stops : Action
  adds : ℕ → Item → Action
  wakes : ℕ → Action

unfoldable pub act : Action → Timer → Timer
unfolding stop add wake
act stops t = stop t
act (adds time_point item) t = add time_point item t
act (wakes now) t = wake now t

unfoldable pub act_all : List Action → Timer → Timer
unfolding act
act_all [] t = t
act_all (a ∷ rest) t = act_all rest (act a t)
