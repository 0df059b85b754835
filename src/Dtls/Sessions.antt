-- ===== src/Dtls/Sessions.antt =====
-- `Session_Manager_SQL` in DTLS/dtls_session_manager_sql.cpp, in the thread of its database. The table
-- `tls_sessions` and the encryption of a session are parameters.
pub mod Store
pub mod Saved
mod Examples
use helpz.Prelude.{
  ℕ, ◌+◌, ◌-◌, ◌%◌, ◌^◌, Bool, not, ◌&&◌, List, [], ◌∷◌, Option, none, some, ltb, leb,
  if◌then◌else◌, Bytes,
}
use helpz.Dtls.Sessions.Store.{SessionRow, SessionStore}

-- What the manager reads of a `Botan::TLS::Session`: the id and the hostname by numbers, and the start
-- in seconds.
pub record SessionInfo : Type 0 where
  pub session_id : ℕ
  pub start_time : ℕ
  pub hostname : ℕ
  pub port : ℕ

-- `load_session_slot` after its query: the first row that can be decrypted. `none` stands for the
-- exception, and for `false`.
abbrev pub first_decrypted : {S : Type 0} → (Bytes → Option S) → List Bytes → Option S
first_decrypted decrypt [] = none
first_decrypted decrypt (blob ∷ blobs) =
    let rest = first_decrypted decrypt blobs in
    elim (decrypt blob) [ none ↦ rest | some session ↦ some session ]

-- `static_cast<int>` keeps the low 32 bits of the start.
abbrev pub session_values : {S : Type 0} → (S → SessionInfo) → (S → Bytes) → S → SessionRow
session_values info encrypt session = record {
  session_id = (info session).session_id;
  session_start = (info session).start_time % 2 ^ 32;
  hostname = (info session).hostname;
  hostport = (info session).port;
  blob = encrypt session;
}

module _ {D : Type 0} (store : SessionStore D) where
  open store use {
    select_id, select_server, replace, delete_started, delete_some, delete_id, delete_all,
    row_count,
  }

  -- `now` and `lifetime` in seconds. A number of rows over the maximum goes through `uint32_t`.
  unfoldable pub prune_session_cache : ℕ → ℕ → ℕ → D → D
  prune_session_cache max_sessions lifetime now d =
      let fresh = delete_started now lifetime d in
      let sessions = row_count fresh in
      if ltb 0 max_sessions && ltb max_sessions sessions
      then delete_some ((sessions - max_sessions) % 2 ^ 32) fresh
      else fresh

  unfoldable pub save_slot : ℕ → ℕ → ℕ → SessionRow → D → D
  unfolding prune_session_cache
  save_slot max_sessions lifetime now values d =
      prune_session_cache max_sessions lifetime now (replace values d)

  unfoldable pub save : {S : Type 0} → (S → SessionInfo) → (S → Bytes) → ℕ → ℕ → ℕ → S → D → D
  unfolding save_slot
  save info encrypt max_sessions lifetime now session d =
      save_slot max_sessions lifetime now (session_values info encrypt session) d

  unfoldable pub load_from_session_id : {S : Type 0} → (Bytes → Option S) → ℕ → D → Option S
  load_from_session_id decrypt id d = first_decrypted decrypt (select_id id d)

  -- The query of the server asks for the newest session first.
  unfoldable pub load_from_server_info : {S : Type 0} → (Bytes → Option S) → ℕ → ℕ → D → Option S
  load_from_server_info decrypt hostname port d =
      first_decrypted decrypt (select_server hostname port d)

  unfoldable pub remove_entry : ℕ → D → D
  remove_entry id d = delete_id id d

  unfoldable pub remove_all : D → ℕ × D
  remove_all d = (row_count d, delete_all d)
