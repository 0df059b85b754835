-- ===== src/Dtls/Sessions/Saved.antt =====
-- What `save` leaves in the table, and what is loaded after it. See DTLS/dtls_session_manager_sql.cpp.
use helpz.Prelude.{
  ℕ, ◌+◌, ◌-◌, ◌%◌, ◌^◌, ◌≤◌, ◌<◌, ◌≡◌, refl, sym, ap, ◌∙◌, inl, inr, ◌⊎◌, Bool, true, false, ◌&&◌,
  Option, none, some, arith, ltb, ◌==◌, ==_refl, if◌then◌else◌, Bool-cases, Option-cases, Bytes,
}
use helpz.Dtls.Sessions.Store.{SessionRow, SessionStore, is_expired, keep_fresh, blobs}
use helpz.Dtls.Sessions.{
  SessionInfo, first_decrypted, session_values, prune_session_cache, save_slot, save,
  load_from_session_id, remove_entry,
}

keep_fresh_kept :
    (now lifetime : ℕ) (old : Option SessionRow) (row : SessionRow)
    → keep_fresh now lifetime old ≡ some row
    → is_expired now lifetime row ≡ false
keep_fresh_kept now lifetime none row h = cc h
keep_fresh_kept now lifetime (some old) row h = elim (Bool-cases (is_expired now lifetime old)) [
  | inl e ↦ cc (rw e at h)
  | inr e ↦ cc (e, rw e at h)
]

-- The word of a start: it keeps a start below 2 ^ 31, and is negative from there on.
early_start :
    (now lifetime start : ℕ) (row : SessionRow)
    → row.session_start ≡ start % 2 ^ 32
    → start < 2 ^ 31
    → now < start + lifetime
    → is_expired now lifetime row ≡ false
unfolding is_expired
early_start now lifetime start row e early fresh = ground arith

late_start :
    (now lifetime : ℕ) (row : SessionRow)
    → 2 ^ 31 ≤ row.session_start
    → row.session_start < 2 ^ 32
    → lifetime ≤ now
    → is_expired now lifetime row ≡ true
unfolding is_expired
late_start now lifetime row late word h = ground arith

module _ {D : Type 0} (store : SessionStore D) where
  open store use {
    row_of, row_count, replace, delete_started, delete_some, replace_row, replace_count,
    delete_started_row, delete_started_count, delete_some_row, delete_some_count,
  }

  -- The rows after the cache is pruned were there before, and are not expired.
  prune_row :
      (max_sessions lifetime now id : ℕ) (row : SessionRow) (d : D)
      → row_of id (prune_session_cache store max_sessions lifetime now d) ≡ some row
      → keep_fresh now lifetime (row_of id d) ≡ some row
  unfolding prune_session_cache
  prune_row max_sessions lifetime now id row d =
      let fresh = delete_started now lifetime d in
      either (ltb 0 max_sessions && ltb max_sessions (row_count fresh))
        ((row_count fresh - max_sessions) % 2 ^ 32)
    where
      either :
          (b : Bool) (n : ℕ)
          → row_of id (
              if b
              then delete_some n (delete_started now lifetime d)
              else delete_started now lifetime d)
            ≡ some row
          → keep_fresh now lifetime (row_of id d) ≡ some row
      either false n h = sym (delete_started_row now lifetime id d) ∙ h
      either true n h = elim (delete_some_row n id (delete_started now lifetime d)) [
        | inl gone ↦ cc (gone, h)
        | inr same ↦ sym (delete_started_row now lifetime id d) ∙ (sym same ∙ h)
      ]

  prune_count :
      (max_sessions lifetime now : ℕ) (d : D)
      → 0 < max_sessions
      → row_count d < 2 ^ 32
      → row_count (prune_session_cache store max_sessions lifetime now d) ≤ max_sessions
  unfolding prune_session_cache
  prune_count max_sessions lifetime now d positive few =
      let fresh = delete_started now lifetime d in
      let left = delete_some_count ((row_count fresh - max_sessions) % 2 ^ 32) fresh in
      ground (arith, left, delete_started_count now lifetime d, positive, few)

  -- With a maximum that is not reached, or none, only expired rows go.
  prune_free :
      (max_sessions lifetime now : ℕ) (d : D)
      → (max_sessions ≡ 0) ⊎ (row_count d ≤ max_sessions)
      → prune_session_cache store max_sessions lifetime now d ≡ delete_started now lifetime d
  unfolding prune_session_cache
  prune_free max_sessions lifetime now d (inl e) = rw e refl
  prune_free max_sessions lifetime now d (inr h) =
      ground (arith, h, delete_started_count now lifetime d)

module _ {D S : Type 0} (store : SessionStore D) (info : S → SessionInfo) (encrypt : S → Bytes)
    (max_sessions lifetime now : ℕ) where
  open store use {
    row_of, row_count, replace, select_id, select_id_lem, replace_row, replace_count,
    delete_started_row,
  }

  -- The table after a session was saved: with a maximum, and fewer than 2 ^ 32 - 1 rows before, there are
  -- at most so many rows, and no row that is there is expired.
  pub save_limits :
      (session : S) (d : D)
      → 0 < max_sessions
      → row_count d + 1 < 2 ^ 32
      → (row_count (save store info encrypt max_sessions lifetime now session d) ≤ max_sessions)
        × ((id : ℕ) (row : SessionRow)
            → row_of id (save store info encrypt max_sessions lifetime now session d) ≡ some row
            → is_expired now lifetime row ≡ false)
  unfolding save save_slot
  save_limits session d positive few =
      let values = session_values info encrypt session in
      let counted = replace_count values d in
      (
        prune_count store max_sessions lifetime now (replace values d) positive
            (omega (arith, counted, few)),
        λ id row h.
            keep_fresh_kept now lifetime (row_of id (replace values d)) row
              (prune_row store max_sessions lifetime now id row (replace values d) h),
      )

  saved_row :
      (session : S) (d : D)
      → row_of (info session).session_id (replace (session_values info encrypt session) d)
        ≡ some (session_values info encrypt session)
  saved_row session d =
      replace_row (session_values info encrypt session) (info session).session_id d
      ∙ rw (==_refl (info session).session_id) refl

  load_blobs :
      (decrypt : Bytes → Option S) (id : ℕ) (row : Option SessionRow) (d : D)
      → row_of id d ≡ row
      → load_from_session_id store decrypt id d ≡ first_decrypted decrypt (blobs row)
  unfolding load_from_session_id
  load_blobs decrypt id row d e = ap (first_decrypted decrypt) (select_id_lem id d ∙ ap blobs e)

  -- A session that was saved is loaded by its id, as it was: it started before 2 ^ 31 s, it is not
  -- expired, its text can be decrypted, and there is no maximum or it was not reached.
  pub load-save :
      (decrypt : Bytes → Option S) (session : S) (d : D)
      → decrypt (encrypt session) ≡ some session
      → (info session).start_time < 2 ^ 31
      → now < (info session).start_time + lifetime
      → (max_sessions ≡ 0) ⊎ (row_count d < max_sessions)
      → load_from_session_id store decrypt
          (info session).session_id
          (save store info encrypt max_sessions lifetime now session d)
        ≡ some session
  unfolding save save_slot
  load-save decrypt session d decrypts early fresh room =
      load_blobs decrypt (info session).session_id (some values) _ (
        ap (row_of (info session).session_id)
          (prune_free store max_sessions lifetime now (replace values d) room_after)
        ∙ (delete_started_row now lifetime (info session).session_id (replace values d)
            ∙ (ap (keep_fresh now lifetime) (saved_row session d) ∙ kept)))
      ∙ rw decrypts refl
    where
      values : SessionRow
      values = session_values info encrypt session

      room_after : (max_sessions ≡ 0) ⊎ (row_count (replace values d) ≤ max_sessions)
      room_after = elim room [
        | inl e ↦ inl e
        | inr h ↦ inr (omega (arith, h, replace_count values d))
      ]

      kept : keep_fresh now lifetime (some values) ≡ some values
      kept = rw (early_start now lifetime (info session).start_time values refl early fresh) refl

  -- A session whose start has its bit of 2 ^ 31 set is gone when it was saved: `static_cast<int>` makes its
  -- start negative, and so it is expired in the same call. The lifetime is not over the time.
  pub late_session_lost :
      (decrypt : Bytes → Option S) (session : S) (d : D)
      → 2 ^ 31 ≤ (info session).start_time % 2 ^ 32
      → lifetime ≤ now
      → load_from_session_id store decrypt
          (info session).session_id
          (save store info encrypt max_sessions lifetime now session d)
        ≡ none
  unfolding save save_slot
  late_session_lost decrypt session d late old =
      load_blobs decrypt (info session).session_id none _ gone
    where
      values : SessionRow
      values = session_values info encrypt session

      gone :
          row_of
            (info session).session_id
            (prune_session_cache store max_sessions lifetime now (replace values d))
          ≡ none
      gone =
          elim (Option-cases (
            row_of (info session).session_id
              (prune_session_cache store max_sessions lifetime now (replace values d)))) [
                | inl h ↦ h
                | inr (row, h) ↦
                    let expired : is_expired now lifetime values ≡ true =
                      late_start now lifetime values late (omega arith) old in
                    let kept : keep_fresh now lifetime (some values) ≡ some row =
                      sym (ap (keep_fresh now lifetime) (saved_row session d))
                      ∙ prune_row store max_sessions lifetime now (info session).session_id row
                          (replace values d) h in
                    cc (rw expired at kept)
              ]

module _ {D S : Type 0} (store : SessionStore D) (decrypt : Bytes → Option S) where
  open store use {row_of, select_id, select_id_lem, delete_id_row}

  -- A session that was removed is not loaded by its id, and the others are loaded as before.
  pub load-remove_entry :
      (removed id : ℕ) (d : D)
      → load_from_session_id store decrypt id (remove_entry store removed d)
        ≡ (if removed == id then none else load_from_session_id store decrypt id d)
  unfolding load_from_session_id remove_entry
  load-remove_entry removed id d =
      rw
        (
          select_id_lem id (store.delete_id removed d),
          select_id_lem id d,
          delete_id_row removed id d,
        )
        (either (removed == id))
    where
      either :
          (b : Bool)
          → first_decrypted decrypt (blobs (if b then none else row_of id d))
            ≡ (if b then none else first_decrypted decrypt (blobs (row_of id d)))
      either true = refl
      either false = refl
