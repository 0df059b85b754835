-- ===== src/Database/Connection/Attempts.antt =====
-- `exec` in Database/db_base.cpp: three attempts, and the connection closed behind each that failed.
use helpz.Prelude.{
  ℕ, zero, suc, ◌+◌, ◌≤◌, ◌≡◌, refl, ap, ◌∙◌, inl, inr, Bool, true, false, List, Option, none, some,
  Bool-cases, arith,
}
use helpz.Database.Text.{Text, is_empty}
use helpz.Database.Connection.{
  SqlDriver, is_some, after_run, after_connect, create_connection, connect, exec_attempts, exec,
}

-- What the driver documents of its connection, and a count of the queries it has run.
pub record IsSqlDriver {ℓ} {W V R : Type ℓ} (driver : SqlDriver W V R) : Type ℓ where
  pub close_lem : (w : W) → driver.is_open (driver.close w) ≡ false
  pub open_lem : (w : W) → driver.is_open (driver.open_database w).1 ≡ (driver.open_database w).0
  pub run_lem :
      (sql : Text) (values : List V) (w : W)
      → driver.is_open w ≡ true
      → is_some (driver.run sql values w).0 ≡ true
      → driver.is_open (driver.run sql values w).1 ≡ true
  pub runs : W → ℕ
  pub close-runs : (w : W) → runs (driver.close w) ≡ runs w
  pub open-runs : (w : W) → runs (driver.open_database w).1 ≡ runs w
  pub run-runs :
      (sql : Text) (values : List V) (w : W) → runs (driver.run sql values w).1 ≡ suc (runs w)

module _ {ℓ} {W V R : Type ℓ} (driver : SqlDriver W V R) (is_sql_driver : IsSqlDriver driver) where
  open driver use {is_open, open_database, close, run}
  open is_sql_driver use {close_lem, open_lem, run_lem, runs, close-runs, open-runs, run-runs}

  connect_lem : (w : W) → is_open (connect driver w).1 ≡ (connect driver w).0
  unfolding connect create_connection
  connect_lem w = elim (Bool-cases (is_open w)) [ inl e ↦ rw e e | inr e ↦ rw e (open_lem _) ]

  connect-runs : (w : W) → runs (connect driver w).1 ≡ runs w
  unfolding connect create_connection
  connect-runs w = elim (Bool-cases (is_open w)) [
    | inl e ↦ rw e refl
    | inr e ↦ rw e (open-runs _ ∙ ap runs (rw e refl))
  ]

  -- The connection is open exactly if there is a result.
  abbrev IsSettled : Option R × W → Type 0
  IsSettled r = is_open r.1 ≡ is_some r.0

  after_run-IsSettled :
      (r : Option R × W) (again : W → Option R × W)
      → (is_some r.0 ≡ true → is_open r.1 ≡ true)
      → ((w : W) → is_open w ≡ false → IsSettled (again w))
      → IsSettled (after_run driver r again)
  after_run-IsSettled (some a, w) again h settled = h refl
  after_run-IsSettled (none, w) again h settled = settled (close w) (close_lem w)

  after_connect-IsSettled :
      (sql : Text) (values : List V) (c : Bool × W) (again : W → Option R × W)
      → is_open c.1 ≡ c.0
      → ((w : W) → is_open w ≡ false → IsSettled (again w))
      → IsSettled (after_connect driver sql values c again)
  after_connect-IsSettled sql values (false, w) again e settled = settled w e
  after_connect-IsSettled sql values (true, w) again e settled =
      after_run-IsSettled (run sql values w) again (run_lem sql values w e) settled

  exec_attempts-IsSettled :
      (n : ℕ) (sql : Text) (values : List V) (w : W)
      → is_open w ≡ false
      → IsSettled (exec_attempts driver n sql values w)
  unfolding exec_attempts
  exec_attempts-IsSettled zero sql values w e = e
  exec_attempts-IsSettled (suc n) sql values w e =
      after_connect-IsSettled sql values (connect driver w) (exec_attempts driver n sql values)
        (connect_lem w) (exec_attempts-IsSettled n sql values)

  -- After a call of `exec` with a query, whatever the state before it, the connection is open
  -- exactly if the call gives a result. The driver behaves as it documents.
  pub exec-IsOpen :
      (sql : Text) (values : List V) (w : W)
      → is_empty sql ≡ false
      → is_open (exec driver sql values w).1 ≡ is_some (exec driver sql values w).0
  unfolding exec exec_attempts
  exec-IsOpen sql values w e = rw e (
      after_connect-IsSettled sql values (connect driver w) (exec_attempts driver 2 sql values)
        (connect_lem w) (exec_attempts-IsSettled 2 sql values))

  after_run_runs :
      (n k : ℕ) (r : Option R × W) (again : W → Option R × W)
      → runs r.1 ≡ suc k
      → ((w : W) → runs (again w).1 ≤ n + runs w)
      → runs (after_run driver r again).1 ≤ suc n + k
  after_run_runs n k (some a, w) again h bound = omega arith
  after_run_runs n k (none, w) again h bound = omega (arith, bound (close w), close-runs w)

  exec_attempts_runs :
      (n : ℕ) (sql : Text) (values : List V) (w : W)
      → runs (exec_attempts driver n sql values w).1 ≤ n + runs w
  unfolding exec_attempts
  exec_attempts_runs zero sql values w = omega arith
  exec_attempts_runs (suc n) sql values w =
      step (connect driver w) (connect-runs w) (exec_attempts_runs n sql values)
    where
      step :
          (c : Bool × W)
          → runs c.1 ≡ runs w
          → ((w1 : W) → runs (exec_attempts driver n sql values w1).1 ≤ n + runs w1)
          → runs (after_connect driver sql values c (exec_attempts driver n sql values)).1
            ≤ suc n + runs w
      step (false, w1) e bound = omega (arith, e, bound w1)
      step (true, w1) e bound =
          after_run_runs n (runs w) (run sql values w1) _ (run-runs sql values w1 ∙ ap suc e) bound

  -- A call of `exec` runs its query at most three times, with a driver that behaves as it documents.
  pub exec-runs :
      (sql : Text) (values : List V) (w : W) → runs (exec driver sql values w).1 ≤ 3 + runs w
  unfolding exec
  exec-runs sql values w = elim (Bool-cases (is_empty sql)) [
    | inl e ↦ rw e (omega arith)
    | inr e ↦ rw e (exec_attempts_runs 3 sql values w)
  ]
