-- ===== src/Base/File.antt =====
-- `File` in Base/zfile.h and zfile.cpp. What the system does with files is a parameter.
mod Content
mod Examples
use helpz.Prelude.{
  ℕ, zero, suc, ◌+◌, ◌≤◌, ◌≡◌, Bool, true, false, ◌&&◌, Option, none, some, List, [], ◌∷◌, ◌++◌,
  ◌==◌, if◌then◌else◌, length, take, drop,
}
use helpz.Database.Text.{Text}

-- open, close, lseek with SEEK_END and SEEK_SET, read, write and ftruncate on a state of the system;
-- `none` and `false` are a result of -1.
pub record Posix (S : Type 0) : Type 0 where
  pub open_fd : Text → ℕ → ℕ → S → Option ℕ × S
  pub close_fd : ℕ → S → S
  pub seek_end : ℕ → S → Option ℕ × S
  pub seek_set : ℕ → ℕ → S → Bool × S
  pub read : ℕ → ℕ → S → Option (List ℕ) × S
  pub write : ℕ → List ℕ → S → Option ℕ × S
  pub ftruncate : ℕ → ℕ → S → Bool × S

pub record File : Type 0 where
  pub fd : Option ℕ
  pub name : Text

-- READ_ONLY of `Open_Mode` and DEFAULT_CREATE_PERM of `File_Permissions`.
abbrev pub read_only : ℕ
read_only = 0

abbrev pub default_create_perm : ℕ
default_create_perm = 438

-- `std::string(n, char())`.
unfoldable pub zeros : ℕ → List ℕ
zeros zero = []
zeros (suc n) = 0 ∷ zeros n

-- What `read_all` makes of the result of `read` into a text of `size` zeros: a result of -1 is a great
-- size, for which `resize` throws, which is `none`; for 0 the text is left alone.
unfoldable pub resized : ℕ → Option (List ℕ) → Option (List ℕ)
unfolding zeros
resized size none = none
resized size (some []) = some (zeros size)
resized size (some (b ∷ bytes)) = some (b ∷ bytes)

unfoldable pub is_opened : File → Bool
is_opened file = elim file.fd [ none ↦ false | some fd ↦ true ]

-- What is done behind `&&`.
abbrev pub and_then : {S : Type 0} → Bool × S → (S → Bool × S) → Bool × S
and_then (true, s) f = f s
and_then (false, s) f = (false, s)

module _ {S : Type 0} (posix : Posix S) where
  unfoldable pub close : File → S → File × S
  close file s = elim file.fd [
    | none ↦ (file, s)
    | some fd ↦ (record file { fd = none }, posix.close_fd fd s)
  ]

  unfoldable pub open_file : ℕ → ℕ → File → S → Bool × File × S
  unfolding close is_opened
  open_file open_mode permissions file s =
      let (closed, s1) = close file s in
      let (fd, s2) = posix.open_fd closed.name open_mode permissions s1 in
      let opened = record closed { fd = fd } in (is_opened opened, opened, s2)

  -- `read_all` of so many bytes, behind the search for the size.
  unfoldable pub read_sized : ℕ → ℕ → S → Option (List ℕ) × S
  unfolding resized
  read_sized fd size s =
      let (_, s1) = posix.seek_set fd 0 s in
      let (bytes, s2) = posix.read fd size s1 in (resized size bytes, s2)

  -- `read_all`; a size of `none` is -1.
  unfoldable pub read_all : Option ℕ → File → S → Option (List ℕ) × S
  unfolding read_sized
  read_all size file s = elim file.fd [
    | none ↦ (some [], s)
    | some fd ↦ elim size [
      | some n ↦ read_sized fd n s
      | none ↦
          let (end, s1) = posix.seek_end fd s in
          elim end [ none ↦ (some [], s1) | some n ↦ read_sized fd n s1 ]
    ]
  ]

  unfoldable pub write : List ℕ → File → S → Bool × S
  write bytes file s = elim file.fd [
    | none ↦ (false, s)
    | some fd ↦
        let (count, s1) = posix.write fd bytes s in
        (elim count [ none ↦ false | some n ↦ n == length bytes ], s1)
  ]

  -- `truncate` and `seek`: with no file the system knows of no such descriptor.
  unfoldable pub truncate : ℕ → File → S → Bool × S
  truncate size file s = elim file.fd [ none ↦ (false, s) | some fd ↦ posix.ftruncate fd size s ]

  unfoldable pub seek : ℕ → File → S → Bool × S
  seek pos file s = elim file.fd [ none ↦ (false, s) | some fd ↦ posix.seek_set fd pos s ]

  unfoldable pub rewrite : List ℕ → File → S → Bool × S
  unfolding seek write truncate
  rewrite bytes file s =
      and_then (and_then (seek 0 file s) (write bytes file)) (truncate (length bytes) file)

  -- The functions that open a file by its name; the destructor closes it.
  unfoldable pub read_file : Text → Option ℕ → S → Option (List ℕ) × S
  unfolding open_file read_all close
  read_file name size s =
      let (_, file, s1) =
        open_file read_only default_create_perm (record { fd = none; name = name }) s in
      let (text, s2) = read_all size file s1 in (text, (close file s2).1)

  unfoldable pub write_file : Text → List ℕ → ℕ → ℕ → S → Bool × S
  unfolding open_file write close
  write_file name bytes open_mode permissions s =
      let (_, file, s1) = open_file open_mode permissions (record { fd = none; name = name }) s in
      let (done, s2) = write bytes file s1 in (done, (close file s2).1)
