-- ===== src/Database/Connection/Examples.antt =====
-- A driver whose first query fails. See Database/db_base.cpp.
use helpz.Prelude.{ℕ, suc, ◌≡◌, refl, Bool, true, false, [], none, some, ◌==◌, if◌then◌else◌}
use helpz.Database.Text.{codes}
use helpz.Database.Connection.{SqlDriver, is_some, exec}
use helpz.Database.Connection.Attempts.{IsSqlDriver, exec-IsOpen}

-- Whether the connection is open, and the queries so far.
abbrev driver : SqlDriver (Bool × ℕ) ℕ ℕ
driver = record {
  is_open = λ w. w.0;
  open_database = λ w. (true, (true, w.1));
  close = λ w. (false, w.1);
  run = λ sql values w. (if w.1 == 0 then none else some w.1, (w.0, suc w.1));
}

abbrev driver_laws : IsSqlDriver driver
driver_laws = record {
  close_lem = λ w. refl;
  open_lem = λ w. refl;
  run_lem = λ sql values w e ok. e;
  runs = λ w. w.1;
  close-runs = λ w. refl;
  open-runs = λ w. refl;
  run-runs = λ sql values w. refl;
}

second_attempt : exec driver (codes "SELECT 1") [] (false, 0) ≡ (some 1, (true, 2))
unfolding exec
second_attempt = refl

exec-IsOpen_example :
    (exec driver (codes "SELECT 1") [] (false, 0)).1.0
    ≡ is_some (exec driver (codes "SELECT 1") [] (false, 0)).0
exec-IsOpen_example = exec-IsOpen driver driver_laws (codes "SELECT 1") [] (false, 0) refl
