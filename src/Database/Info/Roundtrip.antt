-- ===== src/Database/Info/Roundtrip.antt =====
-- The settings of Database/db_connection_info.cpp that a database keeps.
use helpz.Prelude.{[], ◌∷◌, ◌≡◌, refl, ap, ◌∙◌, Bool, true, false, if◌then◌else◌}
use helpz.Database.Text.{Text, is_empty}
use helpz.Database.Info.{
  Port, ConnectionInfo, Settings, SqlDatabase, is_positive, info_of, from_db, to_db,
}

module _ {D : Type 0} (qt : SqlDatabase D) where
  -- The port that a database has when it is added.
  abbrev pub added_port : ConnectionInfo → Text → Port
  added_port info connection_name =
      (qt.settings (qt.add_database info.driver_name connection_name)).port

  with_options_lem :
      (options driver name : Text)
      → qt.settings (
          if is_empty options
          then qt.add_database driver name
          else qt.set_connect_options options (qt.add_database driver name))
        ≡ record (qt.settings (qt.add_database driver name)) { connect_options = options }
  with_options_lem [] driver name =
      ap {B = Settings}
        (λ o. record (qt.settings (qt.add_database driver name)) { connect_options = o })
        (qt.added_options driver name)
  with_options_lem (c ∷ options) driver name = qt.set_connect_options_lem (c ∷ options) _

  with_port_lem :
      (positive : Bool) (port : Port) (d : D)
      → qt.settings (if positive then qt.set_port port d else d)
        ≡ record (qt.settings d) { port = if positive then port else (qt.settings d).port }
  with_port_lem true port d = qt.set_port_lem port d
  with_port_lem false port d = refl

  -- What `to_db` sets.
  settings-to_db :
      (info : ConnectionInfo) (connection_name : Text)
      → qt.settings (to_db qt info connection_name) ≡ record {
        port = if is_positive info.port then info.port else added_port info connection_name;
        driver_name = info.driver_name;
        connect_options = info.connect_options;
        host_name = info.host;
        database_name = info.db_name;
        user_name = info.login;
        password = info.password;
      }
  unfolding to_db
  settings-to_db info connection_name =
      qt.set_database_name_lem info.db_name _
      ∙ ap (λ (s : Settings). record s { database_name = info.db_name })
          (qt.set_password_lem info.password _
            ∙ ap (λ (s : Settings). record s { password = info.password })
                (qt.set_user_name_lem info.login _
                  ∙ ap (λ (s : Settings). record s { user_name = info.login })
                      (qt.set_host_name_lem info.host _
                        ∙ ap (λ (s : Settings). record s { host_name = info.host })
                            (with_port_lem (is_positive info.port) info.port _
                              ∙ ap
                                  (λ (s : Settings). record s {
                                    port = if is_positive info.port then info.port else s.port;
                                  })
                                  (with_options_lem info.connect_options info.driver_name
                                      connection_name
                                    ∙ ap {B = Settings}
                                        (λ driver.
                                          record (qt.settings
                                            (qt.add_database info.driver_name connection_name)) {
                                              driver_name = driver;
                                              connect_options = info.connect_options;
                                            })
                                        (qt.added_driver info.driver_name connection_name))))))

  -- The information that is read back from the database that `to_db` makes, with the same prefix,
  -- is the same, but for the port if it is not positive: then it is that of a database that was just
  -- added.
  pub from_db-to_db :
      (info : ConnectionInfo) (connection_name : Text)
      → from_db qt (to_db qt info connection_name) info.prefix ≡ record info {
        port = if is_positive info.port then info.port else added_port info connection_name;
      }
  unfolding from_db
  from_db-to_db info connection_name =
      ap (λ s. info_of s info.prefix) (settings-to_db info connection_name)
