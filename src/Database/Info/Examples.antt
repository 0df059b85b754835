-- ===== src/Database/Info/Examples.antt =====
-- A database that is its settings, and the information that it keeps. See
-- Database/db_connection_info.cpp.
use helpz.Prelude.{[], ◌≡◌, refl}
use helpz.Database.Text.{codes}
use helpz.Database.Info.{number, negative, ConnectionInfo, Settings, SqlDatabase, from_db, to_db}
use helpz.Database.Info.Roundtrip.{from_db-to_db}

abbrev plain : SqlDatabase Settings
plain = record {
  add_database = λ driver name. record {
    port = negative 0;
    driver_name = driver;
    connect_options = [];
    host_name = [];
    database_name = [];
    user_name = [];
    password = [];
  };
  set_connect_options = λ v d. record d { connect_options = v };
  set_port = λ v d. record d { port = v };
  set_host_name = λ v d. record d { host_name = v };
  set_user_name = λ v d. record d { user_name = v };
  set_password = λ v d. record d { password = v };
  set_database_name = λ v d. record d { database_name = v };
  settings = λ d. d;
  added_driver = λ driver name. refl;
  added_options = λ driver name. refl;
  set_connect_options_lem = λ v d. refl;
  set_port_lem = λ v d. refl;
  set_host_name_lem = λ v d. refl;
  set_user_name_lem = λ v d. refl;
  set_password_lem = λ v d. refl;
  set_database_name_lem = λ v d. refl;
}

abbrev info : ConnectionInfo
info = record {
  port = number 0;
  driver_name = codes "QMYSQL";
  connect_options = codes "MYSQL_OPT_RECONNECT=1";
  host = codes "localhost";
  db_name = codes "das";
  login = codes "user";
  password = codes "secret";
  prefix = codes "das_";
}

-- A port that is 0 gives way to the one of the database.
port_gives_way :
    from_db plain (to_db plain info (codes "main")) (codes "das_")
    ≡ record info { port = negative 0 }
port_gives_way = from_db-to_db plain info (codes "main")
