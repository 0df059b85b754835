-- ===== src/Base/Trim.antt =====
-- `String::ltrim`, `rtrim` and `trim` in Base/zstring.cpp. `std::isspace` is a parameter.
use mathlib.Core.List.{reverse, reverse-append, reverse-reverse}
use helpz.Prelude.{
  ℕ, ◌≡◌, refl, sym, ap, ◌∙◌, Bool, true, false, [], ◌∷◌, ◌++◌, arith, if◌then◌else◌, All, Bytes,
}

module _ (is_space : ℕ → Bool) where
  -- `erase` from the begin up to the first character that is no space.
  unfoldable pub ltrim : Bytes → Bytes
  ltrim [] = []
  ltrim (c ∷ s) = let rest = ltrim s in if is_space c then rest else c ∷ s

  -- The same with the reverse iterators, from the end.
  unfoldable pub rtrim : Bytes → Bytes
  unfolding ltrim
  rtrim s = reverse (ltrim (reverse s))

  unfoldable pub trim : Bytes → Bytes
  unfolding rtrim
  trim s = rtrim (ltrim s)

  abbrev pub starts_with_space : Bytes → Bool
  starts_with_space [] = false
  starts_with_space (c ∷ s) = is_space c

  abbrev pub IsSpaces : Bytes → Type 0
  IsSpaces s = All (λ c. is_space c ≡ true) s

  -- The text without the spaces at its two ends.
  pub record IsTrimmed (s m : Bytes) : Type 0 where
    pub before : Bytes
    pub behind : Bytes
    pub parts : s ≡ before ++ (m ++ behind)
    pub spaces_before : IsSpaces before
    pub spaces_behind : IsSpaces behind
    pub no_space_first : starts_with_space m ≡ false
    pub no_space_last : starts_with_space (reverse m) ≡ false

  spaces : Bytes → Bytes
  spaces [] = []
  spaces (c ∷ s) = let rest = spaces s in if is_space c then c ∷ rest else []

  ltrim_parts : (s : Bytes) → s ≡ spaces s ++ ltrim s
  unfolding spaces ltrim
  ltrim_parts [] = refl
  ltrim_parts (c ∷ s) = ground (arith, ltrim_parts s)

  spaces-IsSpaces : (s : Bytes) → IsSpaces (spaces s)
  unfolding spaces
  spaces-IsSpaces [] = tt
  spaces-IsSpaces (c ∷ s) = ground (arith, spaces-IsSpaces s)

  ltrim_first : (s : Bytes) → starts_with_space (ltrim s) ≡ false
  unfolding ltrim
  ltrim_first [] = refl
  ltrim_first (c ∷ s) = ground (arith, ltrim_first s)

  IsSpaces-append : (s t : Bytes) → IsSpaces s → IsSpaces t → IsSpaces (s ++ t)
  IsSpaces-append [] t p q = q
  IsSpaces-append (c ∷ s) t p q = (p.0, IsSpaces-append s t p.1 q)

  reverse-IsSpaces : (s : Bytes) → IsSpaces s → IsSpaces (reverse s)
  reverse-IsSpaces [] p = tt
  reverse-IsSpaces (c ∷ s) p =
      rw (reverse-append (c ∷ []) s)
        (IsSpaces-append (reverse s) (c ∷ []) (reverse-IsSpaces s p.1) (p.0, tt))

  rtrim_parts : (s : Bytes) → s ≡ rtrim s ++ reverse (spaces (reverse s))
  unfolding rtrim
  rtrim_parts s =
      sym (reverse-reverse s)
      ∙ (ap reverse (ltrim_parts (reverse s))
          ∙ reverse-append (spaces (reverse s)) (ltrim (reverse s)))

  first_kept : (m t : Bytes) → starts_with_space (m ++ t) ≡ false → starts_with_space m ≡ false
  first_kept [] t h = refl
  first_kept (c ∷ m) t h = h

  -- `trim` takes spaces away at the two ends, and all of them: what is left neither starts nor ends
  -- with one.
  pub trim_lem : (s : Bytes) → IsTrimmed s (trim s)
  unfolding trim
  trim_lem s = record {
    before = spaces s;
    behind = reverse (spaces (reverse (ltrim s)));
    parts = ltrim_parts s ∙ ap (λ t. spaces s ++ t) (rtrim_parts (ltrim s));
    spaces_before = spaces-IsSpaces s;
    spaces_behind =
        reverse-IsSpaces (spaces (reverse (ltrim s))) (spaces-IsSpaces (reverse (ltrim s)));
    no_space_first =
        first_kept (rtrim (ltrim s)) _
          (ap starts_with_space (sym (rtrim_parts (ltrim s))) ∙ ltrim_first s);
    no_space_last =
        unfold rtrim in
        ap starts_with_space (reverse-reverse (ltrim (reverse (ltrim s))))
        ∙ ltrim_first (reverse (ltrim s));
  }
