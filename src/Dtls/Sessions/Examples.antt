-- ===== src/Dtls/Sessions/Examples.antt =====
-- A table with a place for each id, and sessions of two numbers. See DTLS/dtls_session_manager_sql.cpp.
use helpz.Prelude.{
  ℕ, zero, suc, ◌+◌, ◌-◌, ◌≤◌, ◌≡◌, refl, inl, inr, ◌⊎◌, Bool, true, false, ◌&&◌, List, [], ◌∷◌,
  Option, none, some, arith, ◌==◌, if◌then◌else◌, Bytes,
}
use helpz.Dtls.Sessions.Store.{SessionRow, SessionStore, is_expired, keep_fresh, blobs}
use helpz.Dtls.Sessions.{
  SessionInfo, session_values, save, load_from_session_id, load_from_server_info, remove_all,
}
use helpz.Dtls.Sessions.Saved.{save_limits, load-save, late_session_lost}

abbrev Slots : Type 0
Slots = List (Option SessionRow)

abbrev slot : ℕ → Slots → Option SessionRow
slot i [] = none
slot zero (x ∷ xs) = x
slot (suc i) (x ∷ xs) = slot i xs

abbrev used : Slots → ℕ
used [] = 0
used (none ∷ xs) = used xs
used (some row ∷ xs) = suc (used xs)

abbrev put : ℕ → Option SessionRow → Slots → Slots
put zero x [] = x ∷ []
put (suc i) x [] = none ∷ put i x []
put zero x (y ∷ ys) = x ∷ ys
put (suc i) x (y ∷ ys) = y ∷ put i x ys

abbrev drop_old : ℕ → ℕ → Slots → Slots
drop_old now lifetime [] = []
drop_old now lifetime (x ∷ xs) = keep_fresh now lifetime x ∷ drop_old now lifetime xs

abbrev drop_some : ℕ → Slots → Slots
drop_some n [] = []
drop_some n (none ∷ xs) = none ∷ drop_some n xs
drop_some zero (some row ∷ xs) = some row ∷ xs
drop_some (suc n) (some row ∷ xs) = none ∷ drop_some n xs

-- All rows of a server, in the order of the places.
abbrev of_server : ℕ → ℕ → Slots → List Bytes
of_server hostname port [] = []
of_server hostname port (none ∷ xs) = of_server hostname port xs
of_server hostname port (some row ∷ xs) =
    let rest = of_server hostname port xs in
    if (row.hostname == hostname) && (row.hostport == port) then row.blob ∷ rest else rest

slot-put :
    (i j : ℕ) (x : Option SessionRow) (xs : Slots)
    → slot j (put i x xs) ≡ (if i == j then x else slot j xs)
slot-put zero zero x [] = ground arith
slot-put zero (suc j) x [] = ground arith
slot-put (suc i) zero x [] = ground arith
slot-put (suc i) (suc j) x [] = ground (arith, slot-put i j x [])
slot-put zero zero x (y ∷ ys) = ground arith
slot-put zero (suc j) x (y ∷ ys) = ground arith
slot-put (suc i) zero x (y ∷ ys) = ground arith
slot-put (suc i) (suc j) x (y ∷ ys) = ground (arith, slot-put i j x ys)

used-put : (i : ℕ) (row : SessionRow) (xs : Slots) → used (put i (some row) xs) ≤ used xs + 1
used-put zero row [] = omega arith
used-put (suc i) row [] = omega (arith, used-put i row [])
used-put zero row (none ∷ ys) = omega arith
used-put zero row (some old ∷ ys) = omega arith
used-put (suc i) row (none ∷ ys) = omega (arith, used-put i row ys)
used-put (suc i) row (some old ∷ ys) = omega (arith, used-put i row ys)

slot-drop_old :
    (now lifetime i : ℕ) (xs : Slots)
    → slot i (drop_old now lifetime xs) ≡ keep_fresh now lifetime (slot i xs)
slot-drop_old now lifetime i [] = refl
slot-drop_old now lifetime zero (x ∷ xs) = refl
slot-drop_old now lifetime (suc i) (x ∷ xs) = slot-drop_old now lifetime i xs

used_kept :
    (b : Bool) (row : SessionRow) (xs ys : Slots)
    → used xs ≤ used ys
    → used ((if b then none else some row) ∷ xs) ≤ suc (used ys)
used_kept true row xs ys h = omega (arith, h)
used_kept false row xs ys h = omega (arith, h)

used-drop_old : (now lifetime : ℕ) (xs : Slots) → used (drop_old now lifetime xs) ≤ used xs
used-drop_old now lifetime [] = omega arith
used-drop_old now lifetime (none ∷ xs) = used-drop_old now lifetime xs
used-drop_old now lifetime (some row ∷ xs) =
    used_kept (is_expired now lifetime row) row (drop_old now lifetime xs) xs
      (used-drop_old now lifetime xs)

slot-drop_some :
    (n i : ℕ) (xs : Slots)
    → (slot i (drop_some n xs) ≡ none) ⊎ (slot i (drop_some n xs) ≡ slot i xs)
slot-drop_some n i [] = inl refl
slot-drop_some n zero (none ∷ xs) = inl refl
slot-drop_some n (suc i) (none ∷ xs) = slot-drop_some n i xs
slot-drop_some zero i (some row ∷ xs) = inr refl
slot-drop_some (suc n) zero (some row ∷ xs) = inl refl
slot-drop_some (suc n) (suc i) (some row ∷ xs) = slot-drop_some n i xs

used-drop_some : (n : ℕ) (xs : Slots) → used (drop_some n xs) ≡ used xs - n
used-drop_some n [] = omega arith
used-drop_some n (none ∷ xs) = used-drop_some n xs
used-drop_some zero (some row ∷ xs) = omega arith
used-drop_some (suc n) (some row ∷ xs) = omega (arith, used-drop_some n xs)

abbrev slots : SessionStore Slots
slots = record {
  row_of = slot;
  row_count = used;
  select_id = λ i xs. blobs (slot i xs);
  select_server = of_server;
  replace = λ row. put row.session_id (some row);
  delete_started = drop_old;
  delete_some = drop_some;
  delete_id = λ i. put i none;
  delete_all = λ xs. [];
  select_id_lem = λ id d. refl;
  replace_row = λ row id d. slot-put row.session_id id (some row) d;
  replace_count = λ row d. used-put row.session_id row d;
  delete_started_row = slot-drop_old;
  delete_started_count = used-drop_old;
  delete_some_row = slot-drop_some;
  delete_some_count = used-drop_some;
  delete_id_row = λ removed id d. slot-put removed id none d;
  delete_all_row = λ id d. refl;
}

-- A session is its id and its start; its text is both with a byte before.
abbrev Session : Type 0
Session = ℕ × ℕ

abbrev info : Session → SessionInfo
info s = record { session_id = s.0; start_time = s.1; hostname = 0; port = 25588 }

abbrev encrypt : Session → Bytes
encrypt s = 9 ∷ s.0 ∷ s.1 ∷ []

abbrev decrypt : Bytes → Option Session
decrypt (first ∷ id ∷ start ∷ []) = if first == 9 then some (id, start) else none
decrypt text = none

abbrev table : Slots
table =
    none
    ∷ some (session_values info encrypt (1, 50))
    ∷ some (session_values info encrypt (2, 90))
    ∷ []

-- The older of the two rows goes, since the maximum is two.
save_limits_example :
    (used (save slots info encrypt 2 100 120 (3, 110) table) ≤ 2)
    × ((id : ℕ) (row : SessionRow)
        → slot id (save slots info encrypt 2 100 120 (3, 110) table) ≡ some row
        → is_expired 120 100 row ≡ false)
save_limits_example =
    save_limits slots info encrypt 2 100 120 (3, 110) table (omega arith) (omega arith)

load-save_example :
    load_from_session_id slots decrypt 3 (save slots info encrypt 1000 100 120 (3, 110) table)
    ≡ some (3, 110)
load-save_example =
    load-save slots info encrypt 1000 100 120 decrypt (3, 110) table refl (omega arith)
      (omega arith) (inr (omega arith))

-- 3000000000 s is in the year 2065.
late_session_lost_example :
    load_from_session_id slots decrypt 3
      (save slots info encrypt 1000 7200 3000000000 (3, 3000000000) table)
    ≡ none
late_session_lost_example =
    late_session_lost slots info encrypt 1000 7200 3000000000 decrypt (3, 3000000000) table
      (omega arith) (omega arith)

removed : remove_all slots table ≡ (2, [])
unfolding remove_all
removed = refl

of_host : load_from_server_info slots decrypt 0 25588 table ≡ some (1, 50)
unfolding load_from_server_info
of_host = refl
