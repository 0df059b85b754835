-- ===== src/Database/Info.antt =====
-- `Connection_Info` in Database/db_connection_info.h and db_connection_info.cpp, and the prefix that the
-- tables of DBMeta/db_table.cpp share. `QSqlDatabase` is a parameter with the behaviour that is documented
-- for its properties.
mod Roundtrip
mod Examples
use helpz.Prelude.{ℕ, List, [], ◌≡◌, Bool, false, if◌then◌else◌, ltb}
use helpz.Database.Text.{Text, is_empty}

-- An `int`: `negative n` is -(n + 1).
pub data Port : Type 0 where
  number : ℕ → Port
  negative : ℕ → Port

pub record ConnectionInfo : Type 0 where
  pub port : Port
  pub driver_name : Text
  pub connect_options : Text
  pub host : Text
  pub db_name : Text
  pub login : Text
  pub password : Text
  pub prefix : Text

-- The constructor without arguments.
abbrev pub no_info : ConnectionInfo
no_info = record {
  port = negative 0;
  driver_name = [];
  connect_options = [];
  host = [];
  db_name = [];
  login = [];
  password = [];
  prefix = [];
}

-- The properties of a `QSqlDatabase`.
pub record Settings : Type 0 where
  pub port : Port
  pub driver_name : Text
  pub connect_options : Text
  pub host_name : Text
  pub database_name : Text
  pub user_name : Text
  pub password : Text

-- `QSqlDatabase`: a setter sets its property and no other. A connection that is added has its driver and
-- no options; its port is not documented.
pub record SqlDatabase (D : Type 0) : Type 0 where
  pub add_database : Text → Text → D
  pub set_connect_options : Text → D → D
  pub set_port : Port → D → D
  pub set_host_name : Text → D → D
  pub set_user_name : Text → D → D
  pub set_password : Text → D → D
  pub set_database_name : Text → D → D
  pub settings : D → Settings
  pub added_driver :
      (driver name : Text) → (settings (add_database driver name)).driver_name ≡ driver
  pub added_options :
      (driver name : Text) → (settings (add_database driver name)).connect_options ≡ []
  pub set_connect_options_lem :
      (v : Text) (d : D)
      → settings (set_connect_options v d) ≡ record (settings d) { connect_options = v }
  pub set_port_lem : (v : Port) (d : D) → settings (set_port v d) ≡ record (settings d) { port = v }
  pub set_host_name_lem :
      (v : Text) (d : D) → settings (set_host_name v d) ≡ record (settings d) { host_name = v }
  pub set_user_name_lem :
      (v : Text) (d : D) → settings (set_user_name v d) ≡ record (settings d) { user_name = v }
  pub set_password_lem :
      (v : Text) (d : D) → settings (set_password v d) ≡ record (settings d) { password = v }
  pub set_database_name_lem :
      (v : Text) (d : D)
      → settings (set_database_name v d) ≡ record (settings d) { database_name = v }

-- `port_ > 0`.
abbrev pub is_positive : Port → Bool
is_positive (number n) = ltb 0 n
is_positive (negative n) = false

-- What all connections and tables share: `common_` and `Table::common_prefix_`.
pub record Shared : Type 0 where
  pub common : ConnectionInfo
  pub common_prefix : Text

unfoldable pub set_common : ConnectionInfo → Shared → Shared
set_common info shared = record { common = info; common_prefix = info.prefix }

abbrev pub info_of : Settings → Text → ConnectionInfo
info_of settings prefix = record {
  port = settings.port;
  driver_name = settings.driver_name;
  connect_options = settings.connect_options;
  host = settings.host_name;
  db_name = settings.database_name;
  login = settings.user_name;
  password = settings.password;
  prefix = prefix;
}

module _ {D : Type 0} (qt : SqlDatabase D) where
  open qt use {
    add_database, set_connect_options, set_port, set_host_name, set_user_name, set_password,
    set_database_name, settings,
  }

  -- The constructor of a database and a prefix.
  unfoldable pub from_db : D → Text → ConnectionInfo
  from_db db prefix = info_of (settings db) prefix

  unfoldable pub to_db : ConnectionInfo → Text → D
  to_db info connection_name =
      let added = add_database info.driver_name connection_name in
      let with_options =
        if is_empty info.connect_options
        then added
        else set_connect_options info.connect_options added in
      let with_port =
        if is_positive info.port then set_port info.port with_options else with_options in
      set_database_name info.db_name
        (set_password info.password (set_user_name info.login (set_host_name info.host with_port)))
