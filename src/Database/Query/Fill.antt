-- ===== src/Database/Query/Fill.antt =====
-- What `QString::arg` makes of the texts in Database/db_base.cpp, and their place holders.
use helpz.Prelude.{
  ℕ, zero, suc, ◌+◌, ◌-◌, ◌≡◌, refl, sym, ap, ◌∙◌, true, false, List, [], ◌∷◌, ◌++◌, append_assoc,
  arith, All,
}
use helpz.Database.Text.{
  Text, Format, count, join, has_char, starts_with_digit, marker, markers_above, has_char-append,
}
use helpz.Database.Query.{question_marks, put_commas}

-- A text without a place marker and a place holder.
abbrev pub IsPlain : Text → Type 0
IsPlain x = (has_char b'%' x ≡ false) × (has_char b'?' x ≡ false)

pub count-no_char : (c : ℕ) (x : Text) → has_char c x ≡ false → count c x ≡ 0
unfolding count has_char
count-no_char c [] h = refl
count-no_char c (x ∷ xs) h = ground (arith, h, count-no_char c xs)

pub IsPlain-append : (x y : Text) → IsPlain x → IsPlain y → IsPlain (x ++ y)
IsPlain-append x y (p, q) (r, s) = (has_char-append b'%' x y p r, has_char-append b'?' x y q s)

pub join-IsPlain : (xs : List Text) → All IsPlain xs → IsPlain (join xs)
unfolding join has_char
join-IsPlain [] h = (refl, refl)
join-IsPlain (x ∷ []) (h, hs) = h
join-IsPlain (x ∷ (y ∷ rest)) (h, hs) =
    IsPlain-append x (b',' ∷ join (y ∷ rest)) h (join-IsPlain (y ∷ rest) hs)

count_row : (n : ℕ) → count b'?' (put_commas (question_marks (suc (n + n)))) ≡ suc n
unfolding put_commas question_marks count
count_row zero = refl
count_row (suc n) =
    rw (let e : suc n + suc n ≡ suc (suc (n + n)) = omega arith in e) (omega (arith, count_row n))

pub count-put_commas : (n : ℕ) → count b'?' (put_commas (question_marks (n + (n - 1)))) ≡ n
unfolding put_commas question_marks count
count-put_commas zero = refl
count-put_commas (suc n) =
    rw (let e : suc n + (suc n - 1) ≡ suc (n + n) = omega arith in e) (count_row n)

module _ (format : Format) where
  open format use {arg, arg_lem}

  -- Two and three arguments, each in its place.
  pub fill_two :
      (pre mid post a b : Text)
      → has_char b'%' pre ≡ false
      → has_char b'%' mid ≡ false
      → has_char b'%' a ≡ false
      → starts_with_digit (mid ++ (marker 2 ++ post)) ≡ false
      → markers_above 1 (mid ++ (marker 2 ++ post)) ≡ true
      → starts_with_digit post ≡ false
      → markers_above 2 post ≡ true
      → arg (arg (pre ++ (marker 1 ++ (mid ++ (marker 2 ++ post)))) a) b
        ≡ pre ++ (a ++ (mid ++ (b ++ post)))
  fill_two pre mid post a b hp hm ha h1 h2 h3 h4 =
      ap (λ t. arg t b) (arg_lem 1 pre (mid ++ (marker 2 ++ post)) a (omega arith) hp h1 h2)
      ∙ (ap (λ t. arg t b) (regroup (marker 2 ++ post))
          ∙ (arg_lem 2 (pre ++ (a ++ mid)) post b (omega arith) plain h3 h4
              ∙ sym (regroup (b ++ post))))
    where
      regroup : (t : Text) → pre ++ (a ++ (mid ++ t)) ≡ (pre ++ (a ++ mid)) ++ t
      regroup t =
          ap (λ z. pre ++ z) (sym (append_assoc a mid t)) ∙ sym (append_assoc pre (a ++ mid) t)

      plain : has_char b'%' (pre ++ (a ++ mid)) ≡ false
      plain = has_char-append b'%' pre (a ++ mid) hp (has_char-append b'%' a mid ha hm)

  pub fill_three :
      (pre mid end post a b d : Text)
      → has_char b'%' pre ≡ false
      → has_char b'%' mid ≡ false
      → has_char b'%' end ≡ false
      → has_char b'%' a ≡ false
      → has_char b'%' b ≡ false
      → starts_with_digit (mid ++ (marker 2 ++ (end ++ (marker 3 ++ post)))) ≡ false
      → markers_above 1 (mid ++ (marker 2 ++ (end ++ (marker 3 ++ post)))) ≡ true
      → starts_with_digit (end ++ (marker 3 ++ post)) ≡ false
      → markers_above 2 (end ++ (marker 3 ++ post)) ≡ true
      → starts_with_digit post ≡ false
      → markers_above 3 post ≡ true
      → arg
          (arg (arg (pre ++ (marker 1 ++ (mid ++ (marker 2 ++ (end ++ (marker 3 ++ post)))))) a) b)
          d
        ≡ pre ++ (a ++ (mid ++ (b ++ (end ++ (d ++ post)))))
  fill_three pre mid end post a b d hp hm he ha hb h1 h2 h3 h4 h5 h6 =
      ap (λ t. arg t d)
        (fill_two pre mid (end ++ (marker 3 ++ post)) a b hp hm ha h1 h2 h3 h4
          ∙ regroup (marker 3 ++ post))
      ∙ (arg_lem 3 front post d (omega arith) plain h5 h6 ∙ sym (regroup (d ++ post)))
    where
      front : Text
      front = pre ++ (a ++ (mid ++ (b ++ end)))

      regroup :
          (t : Text)
          → pre ++ (a ++ (mid ++ (b ++ (end ++ t)))) ≡ (pre ++ (a ++ (mid ++ (b ++ end)))) ++ t
      regroup t = simp append_assoc

      plain : has_char b'%' (pre ++ (a ++ (mid ++ (b ++ end)))) ≡ false
      plain = has_char-append b'%' pre _ hp (
          has_char-append b'%' a _ ha
            (has_char-append b'%' mid _ hm (has_char-append b'%' b end hb he)))
