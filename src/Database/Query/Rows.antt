-- ===== src/Database/Query/Rows.antt =====
-- `get_q_array` in Database/db_base.cpp.
use helpz.Prelude.{
  ℕ, zero, suc, ◌+◌, ◌*◌, ◌-◌, ◌<◌, ◌≡◌, refl, sym, ap, ◌∙◌, true, false, List, [], ◌∷◌, ◌++◌,
  append-nil, append_assoc, arith, leb, ◌==◌, if◌then◌else◌, take, drop,
}
use helpz.Database.Text.{Text, codes, join}
use helpz.Database.Query.{question_marks}

-- A ')' at the end of a row, and what follows if there are cells left: a write behind the last
-- cell is dropped.
unfoldable end_row : Text → Text → Text
end_row [] rest = b')' ∷ []
end_row (c ∷ []) rest = b')' ∷ b',' ∷ []
end_row (c ∷ (d ∷ cells)) rest = b')' ∷ b',' ∷ b'(' ∷ (take 1 cells ++ rest)

-- The loop: `cells` are those from `data` to `data_end`.
unfoldable fill_cells : ℕ → ℕ → ℕ → Text → Text
unfolding end_row
fill_cells zero fields_count curr_row cells = cells
fill_cells (suc fuel) fields_count curr_row [] = []
fill_cells (suc fuel) fields_count curr_row (c ∷ cells) =
    let is_full = leb fields_count curr_row in
    let rest =
      fill_cells fuel fields_count (if is_full then 1 else suc curr_row)
        (drop (if is_full then 3 else 1) cells) in
    if is_full
    then end_row cells rest
    else (if curr_row == 0 then b'(' else b',') ∷ (take 1 cells ++ rest)

unfoldable pub get_q_array : ℕ → ℕ → Text
unfolding fill_cells
get_q_array fields_count row_count =
    let size = (fields_count * 2 + 2) * row_count - 1 in
    fill_cells size fields_count 0 (question_marks size)

-- `n` times the same text.
abbrev pub repeat : ℕ → Text → List Text
repeat zero x = []
repeat (suc n) x = x ∷ repeat n x

-- A row of place holders in its brackets.
abbrev pub value_row : ℕ → Text
value_row fields_count = codes "(" ++ (join (repeat fields_count (codes "?")) ++ codes ")")

abbrev commas : ℕ → Text
commas zero = []
commas (suc k) = b',' ∷ b'?' ∷ commas k

join-repeat : (k : ℕ) → join (repeat (suc k) (codes "?")) ≡ b'?' ∷ commas k
unfolding join
join-repeat zero = refl
join-repeat (suc k) = ap (λ t. b'?' ∷ b',' ∷ t) (join-repeat k)

-- The cells of a row from its second field on.
fill-fields :
    (fields_count : ℕ) (k curr_row fuel m steps size : ℕ)
    → 0 < curr_row
    → curr_row + k ≡ fields_count
    → steps ≡ k + fuel
    → size ≡ k + k + m
    → fill_cells steps fields_count curr_row (question_marks size)
      ≡ commas k ++ fill_cells fuel fields_count fields_count (question_marks m)
unfolding fill_cells question_marks
fill-fields fields_count zero curr_row fuel m steps size hp he hs hc =
    let same : curr_row ≡ fields_count = omega arith in
    let all_steps : steps ≡ fuel = omega arith in
    let all_size : size ≡ m = omega arith in rw (same, all_steps, all_size) refl
fill-fields fields_count (suc k) curr_row fuel m steps size hp he hs hc =
    let rest =
      fill-fields fields_count k (suc curr_row) fuel m (k + fuel) (k + k + m) (omega arith)
        (omega arith) refl refl in
    let all_steps : steps ≡ suc (k + fuel) = omega arith in
    let all_size : size ≡ suc (suc (k + k + m)) = omega arith in
    rw (all_steps, all_size)
      (let full : leb fields_count curr_row ≡ false = ground arith in
        let first : (curr_row == 0) ≡ false = ground arith in
        rw (full, first) (ap (λ t. b',' ∷ b'?' ∷ t) rest))

fill-last : (k fuel : ℕ) → fill_cells (suc fuel) (suc k) (suc k) (question_marks 1) ≡ codes ")"
unfolding fill_cells question_marks end_row
fill-last k fuel = let full : leb (suc k) (suc k) ≡ true = ground arith in rw full refl

fill-next :
    (k fuel m size : ℕ)
    → size ≡ suc (suc (suc (suc m)))
    → fill_cells (suc fuel) (suc k) (suc k) (question_marks size)
      ≡ codes "),(?" ++ fill_cells fuel (suc k) 1 (question_marks m)
unfolding fill_cells question_marks end_row
fill-next k fuel m size h =
    rw h (let full : leb (suc k) (suc k) ≡ true = ground arith in rw full refl)

value_row_lem :
    (k : ℕ) (t : Text) → value_row (suc k) ++ t ≡ codes "(?" ++ (commas k ++ (codes ")" ++ t))
value_row_lem k t =
    ap (λ z. b'(' ∷ z)
      (ap (λ z. (z ++ codes ")") ++ t) (join-repeat k)
        ∙ ap (λ z. b'?' ∷ z) (append_assoc (commas k) (codes ")") t))

-- The cells of `r` more rows after the first field of a row.
fill-rows :
    (k r more steps size : ℕ)
    → size ≡ k + k + suc (r * (k + k + 4))
    → steps ≡ size + more
    → codes "(?" ++ fill_cells steps (suc k) 1 (question_marks size)
      ≡ join (repeat (suc r) (value_row (suc k)))
unfolding join
fill-rows k zero more steps size hc hs =
    ap (λ t. codes "(?" ++ t)
      (fill-fields (suc k) k 1 (suc (k + more)) 1 steps size (omega arith) (omega arith)
          (omega arith) (omega arith)
        ∙ ap (λ t. commas k ++ t) (fill-last k (k + more)))
    ∙ (sym (value_row_lem k []) ∙ append-nil (value_row (suc k)))
fill-rows k (suc r) more steps size hc hs =
    let w : ℕ = r * (k + k + 4) in
    let left : ℕ = k + k + suc w in
    ap (λ t. codes "(?" ++ t)
      (fill-fields (suc k) k 1 (suc (left + (k + 3 + more))) (suc (suc (suc (suc left)))) steps size
          (omega arith) (omega arith) (omega arith) (omega arith)
        ∙ ap (λ t. commas k ++ t) (fill-next k (left + (k + 3 + more)) left _ refl))
    ∙ (sym (
          value_row_lem k (
            b','
            ∷ (codes "(?" ++ fill_cells (left + (k + 3 + more)) (suc k) 1 (question_marks left))))
        ∙ ap (λ t. value_row (suc k) ++ (b',' ∷ t)) (fill-rows k r (k + 3 + more) _ left refl refl))

fill-first :
    (k fuel m : ℕ)
    → fill_cells (suc fuel) (suc k) 0 (question_marks (suc (suc m)))
      ≡ codes "(?" ++ fill_cells fuel (suc k) 1 (question_marks m)
unfolding fill_cells question_marks
fill-first k fuel m = let empty : leb (suc k) 0 ≡ false = ground arith in rw empty refl

-- The text for `row_count` rows of `fields_count` values, neither of them zero: the rows in
-- brackets, each with its place holders, with commas between them.
pub get_q_array_lem :
    (fields_count row_count : ℕ)
    → 0 < fields_count
    → 0 < row_count
    → get_q_array fields_count row_count ≡ join (repeat row_count (value_row fields_count))
unfolding get_q_array
get_q_array_lem zero row_count hf hr = absurd (omega arith)
get_q_array_lem (suc k) zero hf hr = absurd (omega arith)
get_q_array_lem (suc k) (suc r) hf hr =
    let left : ℕ = k + k + suc (r * (k + k + 4)) in
    let size_lem : (suc k * 2 + 2) * suc r - 1 ≡ suc (suc left) = omega arith in
    rw size_lem (fill-first k (suc left) left ∙ fill-rows k r 1 (suc left) left refl (omega arith))
