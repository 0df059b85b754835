-- ===== src/Base/File/Examples.antt =====
-- A system with one file, and the theorems on Base/zfile.cpp there.
use helpz.Prelude.{
  ℕ, ◌+◌, ◌≡◌, refl, ap, sym, ◌∙◌, true, none, some, List, [], ◌∷◌, ◌++◌, if◌then◌else◌, length,
  take, drop, arith, take_all, some-injective,
}
use helpz.Database.Text.{codes, is_empty}
use helpz.Base.File.{Posix, File, zeros, read_all, rewrite}
use helpz.Base.File.Content.{RegularFile, read_all_lem, read_all-rewrite}

record Disk : Type 0 where
  content : List ℕ
  position : ℕ

abbrev disk : Posix Disk
disk = record {
  open_fd = λ name mode permissions s. (some 3, s);
  close_fd = λ fd s. s;
  seek_end = λ fd s. (some (length s.content), record s { position = length s.content });
  seek_set = λ fd pos s. (true, record s { position = pos });
  read = λ fd n s. (some (take n (drop s.position s.content)), s);
  write = λ fd bytes s. (
    some (length bytes),
    record {
      content = take s.position s.content ++ (bytes ++ drop (s.position + length bytes) s.content);
      position = s.position + length bytes;
    },
  );
  ftruncate = λ fd n s. (true, record s { content = take n s.content });
}

disk-write :
    (bytes : List ℕ) (k : ℕ) (s : Disk)
    → some (length bytes) ≡ some k
    → take s.position s.content ++ (bytes ++ drop (s.position + length bytes) s.content)
      ≡ take s.position s.content ++ (take k bytes ++ drop (s.position + k) s.content)
disk-write bytes k s h =
    let e : length bytes ≡ k = some-injective _ _ h in
    ap (λ n. take s.position s.content ++ (bytes ++ drop (s.position + n) s.content)) e
    ∙ ap (λ b. take s.position s.content ++ (b ++ drop (s.position + k) s.content))
        (sym (take_all k bytes (omega (arith, e))))

disk-RegularFile : RegularFile disk 3
disk-RegularFile = record {
  content = λ s. s.content;
  position = λ s. s.position;
  seek_set_content = λ pos s. refl;
  seek_set_position = λ pos s h. refl;
  seek_start = λ s. refl;
  seek_end_lem = λ s. (refl, refl);
  read_lem = λ n s. (refl, refl);
  write_lem = disk-write;
  ftruncate_lem = λ n s h k. refl;
}

abbrev three_bytes : Disk
three_bytes = record { content = 7 ∷ (8 ∷ (9 ∷ [])); position = 2 }

abbrev empty_disk : Disk
empty_disk = record { content = []; position = 0 }

abbrev log_file : File
log_file = record { fd = some 3; name = codes "log" }

empty_file :
    ((read_all disk (some 2) log_file empty_disk).0
      ≡ some (if is_empty empty_disk.content then zeros 2 else take 2 empty_disk.content))
    × ((read_all disk (some 2) log_file empty_disk).1.content ≡ [])
unfolding zeros disk-RegularFile read_all
empty_file = read_all_lem disk 3 disk-RegularFile (codes "log") 2 empty_disk

rewrites : (rewrite disk (5 ∷ []) log_file three_bytes).0 ≡ true
unfolding rewrite
rewrites = refl

read_all-rewrite_example :
    ((rewrite disk (5 ∷ []) log_file three_bytes).1.content ≡ 5 ∷ [])
    × ((read_all disk none log_file (rewrite disk (5 ∷ []) log_file three_bytes).1).0
        ≡ some (5 ∷ []))
unfolding rewrite disk-RegularFile
read_all-rewrite_example =
    read_all-rewrite disk 3 disk-RegularFile (codes "log") (5 ∷ []) three_bytes rewrites

zeros_of_nothing : (read_all disk (some 2) log_file empty_disk).0 ≡ some (0 ∷ (0 ∷ []))
unfolding read_all
zeros_of_nothing = refl
