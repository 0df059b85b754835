-- ===== src/Base/File/Content.antt =====
-- What `rewrite` leaves in a file and `read_all` gives of it. See Base/zfile.cpp.
use helpz.Prelude.{
  ℕ, zero, suc, ◌+◌, ◌≤◌, ◌≡◌, refl, ap, ap₂, length-append, ◌∙◌, Bool, true, false, Option, none,
  some, List, [], ◌∷◌, ◌++◌, ◌==◌, if◌then◌else◌, length, take, drop, arith, take_all,
  take-append_length, ==_iff,
}
use helpz.Database.Text.{Text, is_empty}
use helpz.Base.File.{
  Posix, File, zeros, resized, read_sized, read_all, write, truncate, seek, rewrite, and_then,
}

-- A regular file behind a descriptor, whose content can be read: the position is moved where it is
-- told to; the end is where the content ends; what is read is what the content has from the position
-- on, as many bytes as are asked for if there are so many; written bytes stand where the position was,
-- as many as were written; a cut that succeeds leaves the front.
pub record RegularFile {S : Type 0} (posix : Posix S) (fd : ℕ) : Type 0 where
  pub content : S → List ℕ
  pub position : S → ℕ
  pub seek_set_content : (pos : ℕ) (s : S) → content (posix.seek_set fd pos s).1 ≡ content s
  pub seek_set_position :
      (pos : ℕ) (s : S)
      → (posix.seek_set fd pos s).0 ≡ true
      → position (posix.seek_set fd pos s).1 ≡ pos
  pub seek_start : (s : S) → (posix.seek_set fd 0 s).0 ≡ true
  pub seek_end_lem :
      (s : S)
      → ((posix.seek_end fd s).0 ≡ some (length (content s)))
        × (content (posix.seek_end fd s).1 ≡ content s)
  pub read_lem :
      (n : ℕ) (s : S)
      → ((posix.read fd n s).0 ≡ some (take n (drop (position s) (content s))))
        × (content (posix.read fd n s).1 ≡ content s)
  pub write_lem :
      (bytes : List ℕ) (k : ℕ) (s : S)
      → (posix.write fd bytes s).0 ≡ some k
      → content (posix.write fd bytes s).1
        ≡ take (position s) (content s) ++ (take k bytes ++ drop (position s + k) (content s))
  pub ftruncate_lem :
      (n : ℕ) (s : S)
      → (posix.ftruncate fd n s).0 ≡ true
      → n ≤ length (content s)
      → content (posix.ftruncate fd n s).1 ≡ take n (content s)

and_then-true :
    {S : Type 0} (r : Bool × S) (f : S → Bool × S)
    → (and_then r f).0 ≡ true
    → (r.0 ≡ true) × ((f r.1).0 ≡ true) × (and_then r f ≡ f r.1)
and_then-true (true, s) f h = (refl, h, refl)
and_then-true (false, s) f h = absurd (cc)

-- A write that returns true has written all bytes.
counted :
    (count : Option ℕ) (n : ℕ)
    → elim count [ none ↦ false | some k ↦ k == n ] ≡ true
    → count ≡ some n
counted none n h = absurd (cc)
counted (some k) n h = ap some ((==_iff k n).0 h)

resized-take :
    (n : ℕ) (bytes : List ℕ)
    → resized n (some (take n bytes)) ≡ some (if is_empty bytes then zeros n else take n bytes)
unfolding resized zeros
resized-take zero [] = refl
resized-take (suc n) [] = refl
resized-take zero (b ∷ bytes) = refl
resized-take (suc n) (b ∷ bytes) = refl

module _ {S : Type 0} (posix : Posix S) (fd : ℕ) (regular : RegularFile posix fd)
    (name : Text) where
  open regular use {content, position}

  abbrev opened : File
  opened = record { fd = some fd; name = name }

  -- `read_all` of so many bytes gives the front of the content, as many bytes if there are so
  -- many; but of an empty file it gives that many zeros. The content stays.
  pub read_all_lem :
      (n : ℕ) (s : S)
      → ((read_all posix (some n) opened s).0
          ≡ some (if is_empty (content s) then zeros n else take n (content s)))
        × (content (read_all posix (some n) opened s).1 ≡ content s)
  unfolding read_all read_sized
  read_all_lem n s =
      let s1 = (posix.seek_set fd 0 s).1 in
      let front : drop (position s1) (content s1) ≡ content s =
        ap₂ drop (regular.seek_set_position 0 s (regular.seek_start s))
          (regular.seek_set_content 0 s) in
      (
        ap (resized n) ((regular.read_lem n s1).0 ∙ ap (λ c. some (take n c)) front)
            ∙ resized-take n (content s),
        (regular.read_lem n s1).1 ∙ regular.seek_set_content 0 s,
      )

  -- Without a size all of the content is read.
  read_whole : (s : S) → (read_all posix none opened s).0 ≡ some (content s)
  unfolding read_all
  read_whole s =
      let s1 = (posix.seek_end fd s).1 in
      let (end, same) = regular.seek_end_lem s in
      ap
        (λ e.
          (elim e as (λ x. Option (List ℕ) × S) [
            | none ↦ (some [], s1)
            | some n ↦ read_sized posix fd n s1
          ]).0)
        end
      ∙ ((read_all_lem (length (content s)) s1).0
          ∙ (ap
                (λ c.
                  some (
                    if is_empty c then zeros (length (content s)) else take (length (content s)) c))
                same
              ∙ ap some (whole (content s))))
    where
      whole : (c : List ℕ) → (if is_empty c then zeros (length c) else take (length c) c) ≡ c
      whole [] = unfold zeros in refl
      whole (b ∷ c) = take_all (length (b ∷ c)) (b ∷ c) (omega arith)

  -- What is written at the start, as long as it is and cut behind it.
  written :
      (bytes : List ℕ) (k : ℕ) (s : S)
      → position s ≡ 0
      → (posix.write fd bytes s).0 ≡ some k
      → k ≡ length bytes
      → content (posix.write fd bytes s).1 ≡ bytes ++ drop k (content s)
  written bytes k s start wrote whole =
      regular.write_lem bytes k s wrote
      ∙ (ap (λ p. take p (content s) ++ (take k bytes ++ drop (p + k) (content s))) start
          ∙ ap₂ (λ front i. front ++ drop i (content s)) (take_all k bytes (omega (arith, whole)))
              (let e : 0 + k ≡ k = omega arith in e))

  cut :
      (bytes rest : List ℕ) (s : S)
      → content s ≡ bytes ++ rest
      → (posix.ftruncate fd (length bytes) s).0 ≡ true
      → content (posix.ftruncate fd (length bytes) s).1 ≡ bytes
  cut bytes rest s whole done =
      regular.ftruncate_lem (length bytes) s done
        (rw whole (omega (arith, length-append bytes rest)))
      ∙ (ap (take (length bytes)) whole ∙ take-append_length bytes rest)

  content-rewrite :
      (bytes : List ℕ) (s : S)
      → (rewrite posix bytes opened s).0 ≡ true
      → content (rewrite posix bytes opened s).1 ≡ bytes
  unfolding rewrite seek write truncate
  content-rewrite bytes s done =
      let (wrote, cuts, behind) =
        and_then-true (and_then (seek posix 0 opened s) (write posix bytes opened))
          (truncate posix (length bytes) opened) done in
      let (seeks, writes, then_) =
        and_then-true (seek posix 0 opened s) (write posix bytes opened) wrote in
      let s1 = (posix.seek_set fd 0 s).1 in
      let whole : content (posix.write fd bytes s1).1 ≡ bytes ++ drop (length bytes) (content s1) =
        written bytes (length bytes) s1 (regular.seek_set_position 0 s seeks)
          (counted _ (length bytes) writes) refl in
      ap (λ r. content r.1) behind
      ∙ cut bytes (drop (length bytes) (content s1)) _ (ap (λ r. content r.1) then_ ∙ whole) cuts

  -- The content of a file that was rewritten with success, whatever it was, is what was written,
  -- and `read_all` without a size gives it.
  pub read_all-rewrite :
      (bytes : List ℕ) (s : S)
      → (rewrite posix bytes opened s).0 ≡ true
      → (content (rewrite posix bytes opened s).1 ≡ bytes)
        × ((read_all posix none opened (rewrite posix bytes opened s).1).0 ≡ some bytes)
  read_all-rewrite bytes s done = (
    content-rewrite bytes s done,
    read_whole (rewrite posix bytes opened s).1 ∙ ap some (content-rewrite bytes s done),
  )
