-- ===== src/Dtls/Sessions/Store.antt =====
-- The table `tls_sessions`, which DTLS/dtls_session_manager_sql.cpp reads and changes by SQL statements.
use helpz.Prelude.{
  ℕ, ◌+◌, ◌-◌, ◌^◌, ◌≤◌, ◌≡◌, ◌⊎◌, Bool, List, [], ◌∷◌, Option, none, some, ltb, leb, ◌==◌,
  if◌then◌else◌, Bytes,
}

-- A row. `session_start` is the word of 32 bits of a signed number.
pub record SessionRow : Type 0 where
  pub session_id : ℕ
  pub session_start : ℕ
  pub hostname : ℕ
  pub hostport : ℕ
  pub blob : Bytes

-- "session_start <= (now - lifetime)" on signed numbers: a word from 2 ^ 31 on is less by 2 ^ 32.
unfoldable pub is_expired : ℕ → ℕ → SessionRow → Bool
is_expired now lifetime row =
    leb (row.session_start + lifetime)
      (if ltb row.session_start (2 ^ 31) then now else now + 2 ^ 32)

abbrev pub keep_fresh : ℕ → ℕ → Option SessionRow → Option SessionRow
keep_fresh now lifetime none = none
keep_fresh now lifetime (some row) = if is_expired now lifetime row then none else some row

abbrev pub blobs : Option SessionRow → List Bytes
blobs none = []
blobs (some row) = row.blob ∷ []

-- The statements on a database `D`, and what SQL says of them. `row_of` is the row of a primary key.
pub record SessionStore (D : Type 0) : Type 1 where
  pub row_of : ℕ → D → Option SessionRow
  pub row_count : D → ℕ
  -- "where session_id = ..." and "where hostname = ... and hostport = ... order by session_start desc".
  pub select_id : ℕ → D → List Bytes
  pub select_server : ℕ → ℕ → D → List Bytes
  pub replace : SessionRow → D → D
  -- "session_start <= ...".
  pub delete_started : ℕ → ℕ → D → D
  -- "session_id in (select session_id from tls_sessions limit ...)".
  pub delete_some : ℕ → D → D
  pub delete_id : ℕ → D → D
  pub delete_all : D → D
  pub select_id_lem : (id : ℕ) (d : D) → select_id id d ≡ blobs (row_of id d)
  pub replace_row :
      (row : SessionRow) (id : ℕ) (d : D)
      → row_of id (replace row d) ≡ (if row.session_id == id then some row else row_of id d)
  pub replace_count : (row : SessionRow) (d : D) → row_count (replace row d) ≤ row_count d + 1
  pub delete_started_row :
      (now lifetime id : ℕ) (d : D)
      → row_of id (delete_started now lifetime d) ≡ keep_fresh now lifetime (row_of id d)
  pub delete_started_count :
      (now lifetime : ℕ) (d : D) → row_count (delete_started now lifetime d) ≤ row_count d
  pub delete_some_row :
      (n id : ℕ) (d : D)
      → (row_of id (delete_some n d) ≡ none) ⊎ (row_of id (delete_some n d) ≡ row_of id d)
  pub delete_some_count : (n : ℕ) (d : D) → row_count (delete_some n d) ≡ row_count d - n
  pub delete_id_row :
      (removed id : ℕ) (d : D)
      → row_of id (delete_id removed d) ≡ (if removed == id then none else row_of id d)
  pub delete_all_row : (id : ℕ) (d : D) → row_of id (delete_all d) ≡ none
