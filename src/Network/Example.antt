-- ===== src/Network/Example.antt =====
-- A Qt in which the tests run: a device as a list, big-endian numbers, a sum as checksum, and a
-- compression that changes nothing.
use helpz.Prelude.{
  ℕ, zero, suc, ◌+◌, ◌*◌, ◌/◌, ◌%◌, ◌^◌, ◌≤◌, ◌<◌, max, ◌≡◌, refl, ap, ◌∙◌, ◌⊎◌, inl, inr, false,
  Option, none, some, [], ◌∷◌, ◌++◌, arith, length, get_elem?, drop, Bytes,
}
use helpz.Network.Qt.{Device, DataStream, Packing, Qt}
use helpz.Network.Receive.{App}

unfoldable pub overlay : Bytes → Bytes → Bytes
overlay d [] = d
overlay [] (b ∷ bs) = b ∷ bs
overlay (x ∷ d) (b ∷ bs) = b ∷ overlay d bs

unfoldable pub list_write : Bytes → ℕ → Bytes → Bytes
unfolding overlay
list_write d zero bs = overlay d bs
list_write [] (suc p) bs = 0 ∷ list_write [] p bs
list_write (x ∷ d) (suc p) bs = x ∷ list_write d p bs

overlay_written :
    (d bs : Bytes) (i : ℕ) → i < length bs → get_elem? (overlay d bs) i ≡ get_elem? bs i
unfolding overlay
overlay_written d [] i h = absurd (omega arith)
overlay_written [] (b ∷ bs) i h = refl
overlay_written (x ∷ d) (b ∷ bs) zero h = refl
overlay_written (x ∷ d) (b ∷ bs) (suc i) h = overlay_written d bs i (omega arith)

overlay_kept :
    (d bs : Bytes) (i : ℕ)
    → i < length d
    → length bs ≤ i
    → get_elem? (overlay d bs) i ≡ get_elem? d i
unfolding overlay
overlay_kept d [] i h k = refl
overlay_kept [] (b ∷ bs) i h k = absurd (omega arith)
overlay_kept (x ∷ d) (b ∷ bs) zero h k = absurd (omega arith)
overlay_kept (x ∷ d) (b ∷ bs) (suc i) h k = overlay_kept d bs i (omega arith) (omega arith)

length-overlay : (d bs : Bytes) → length (overlay d bs) ≡ max (length d) (length bs)
unfolding overlay
length-overlay d [] = omega arith
length-overlay [] (b ∷ bs) = omega arith
length-overlay (x ∷ d) (b ∷ bs) = omega (arith, length-overlay d bs)

suc_plus : (p i : ℕ) → suc p + i ≡ suc (p + i)
suc_plus p i = omega arith

pub list_written :
    (d : Bytes) (p : ℕ) (bs : Bytes) (i : ℕ)
    → i < length bs
    → get_elem? (list_write d p bs) (p + i) ≡ get_elem? bs i
unfolding list_write
list_written d zero bs i h = ap (get_elem? (overlay d bs)) (omega arith) ∙ overlay_written d bs i h
list_written [] (suc p) bs i h =
    ap (get_elem? (list_write [] (suc p) bs)) (suc_plus p i) ∙ list_written [] p bs i h
list_written (x ∷ d) (suc p) bs i h =
    ap (get_elem? (list_write (x ∷ d) (suc p) bs)) (suc_plus p i) ∙ list_written d p bs i h

pub list_kept :
    (d : Bytes) (p : ℕ) (bs : Bytes) (i : ℕ)
    → i < length d
    → (i < p) ⊎ (p + length bs ≤ i)
    → get_elem? (list_write d p bs) i ≡ get_elem? d i
unfolding list_write
list_kept d zero bs i h (inl k) = absurd (omega arith)
list_kept d zero bs i h (inr k) = overlay_kept d bs i h (omega arith)
list_kept [] (suc p) bs i h k = absurd (omega arith)
list_kept (x ∷ d) (suc p) bs zero h k = refl
list_kept (x ∷ d) (suc p) bs (suc i) h k = list_kept d p bs i (omega arith) (omega arith)

pub length-list_write :
    (d : Bytes) (p : ℕ) (bs : Bytes)
    → 0 < length bs
    → length (list_write d p bs) ≡ max (length d) (p + length bs)
unfolding list_write
length-list_write d zero bs h = omega (arith, length-overlay d bs)
length-list_write [] (suc p) bs h = omega (arith, length-list_write [] p bs h)
length-list_write (x ∷ d) (suc p) bs h = omega (arith, length-list_write d p bs h)

abbrev pub list_device : Device
list_device = record {
  write_at = list_write;
  written = list_written;
  kept = list_kept;
  size = length-list_write;
}

abbrev pub u8 : ℕ → Bytes
u8 v = (v % 256) ∷ []

abbrev pub u16 : ℕ → Bytes
u16 v = (v / 256 % 256) ∷ (v % 256) ∷ []

abbrev pub u32 : ℕ → Bytes
u32 v = (v / 2 ^ 24 % 256) ∷ (v / 2 ^ 16 % 256) ∷ (v / 2 ^ 8 % 256) ∷ (v % 256) ∷ []

abbrev pub from_u8 : Bytes → Option (ℕ × Bytes)
from_u8 [] = none
from_u8 (a ∷ rest) = some (a % 256, rest)

abbrev pub from_u16 : Bytes → Option (ℕ × Bytes)
from_u16 (a ∷ b ∷ rest) = some (a % 256 * 256 + b % 256, rest)
from_u16 _ = none

abbrev pub from_u32 : Bytes → Option (ℕ × Bytes)
from_u32 (a ∷ b ∷ c ∷ d ∷ rest) =
    some (a % 256 * 2 ^ 24 + b % 256 * 2 ^ 16 + c % 256 * 2 ^ 8 + d % 256, rest)
from_u32 _ = none

pub read_u8 : (b : Bytes) → 1 ≤ length b → (v : ℕ) × (v < 2 ^ 8) × (from_u8 b ≡ some (v, drop 1 b))
read_u8 [] h = absurd (omega arith)
read_u8 (a ∷ rest) h = (a % 256, omega arith, refl)

pub read_u16 :
    (b : Bytes) → 2 ≤ length b → (v : ℕ) × (v < 2 ^ 16) × (from_u16 b ≡ some (v, drop 2 b))
read_u16 [] h = absurd (omega arith)
read_u16 (a ∷ []) h = absurd (omega arith)
read_u16 (a ∷ b ∷ rest) h = (a % 256 * 256 + b % 256, omega arith, refl)

pub read_u32 :
    (b : Bytes) → 4 ≤ length b → (v : ℕ) × (v < 2 ^ 32) × (from_u32 b ≡ some (v, drop 4 b))
read_u32 [] h = absurd (omega arith)
read_u32 (a ∷ []) h = absurd (omega arith)
read_u32 (a ∷ b ∷ []) h = absurd (omega arith)
read_u32 (a ∷ b ∷ c ∷ []) h = absurd (omega arith)
read_u32 (a ∷ b ∷ c ∷ d ∷ rest) h =
    (a % 256 * 2 ^ 24 + b % 256 * 2 ^ 16 + c % 256 * 2 ^ 8 + d % 256, omega arith, refl)

pub short_u8 : (b : Bytes) → length b < 1 → from_u8 b ≡ none
short_u8 [] h = refl
short_u8 (a ∷ b) h = absurd (omega arith)

pub short_u32 : (b : Bytes) → length b < 4 → from_u32 b ≡ none
short_u32 [] h = refl
short_u32 (a ∷ []) h = refl
short_u32 (a ∷ b ∷ []) h = refl
short_u32 (a ∷ b ∷ c ∷ []) h = refl
short_u32 (a ∷ b ∷ c ∷ d ∷ rest) h = absurd (omega arith)

pub get-u8 : (v : ℕ) (rest : Bytes) → v < 2 ^ 8 → from_u8 (u8 v ++ rest) ≡ some (v, rest)
get-u8 v rest h = ap (λ n. some (n, rest)) (omega arith)

pub get-u16 : (v : ℕ) (rest : Bytes) → v < 2 ^ 16 → from_u16 (u16 v ++ rest) ≡ some (v, rest)
get-u16 v rest h = ap (λ n. some (n, rest)) (omega arith)

pub get-u32 : (v : ℕ) (rest : Bytes) → v < 2 ^ 32 → from_u32 (u32 v ++ rest) ≡ some (v, rest)
get-u32 v rest h = ap (λ n. some (n, rest)) (omega arith)

abbrev pub big_endian : DataStream
big_endian = record {
  put_u8 = u8;
  put_u16 = u16;
  put_u32 = u32;
  put_bytes = λ d. u32 (length d) ++ d;
  get_u8 = from_u8;
  get_u16 = from_u16;
  get_u32 = from_u32;
  length-u8 = λ v. refl;
  length-u16 = λ v. refl;
  length-u32 = λ v. refl;
  bytes_lem = λ d. inl refl;
  get-u8 = get-u8;
  get-u16 = get-u16;
  get-u32 = get-u32;
  read_u8 = read_u8;
  read_u16 = read_u16;
  read_u32 = read_u32;
  short_u8 = short_u8;
  short_u32 = short_u32;
}

abbrev pub byte_sum : Bytes → ℕ
byte_sum [] = 0
byte_sum (b ∷ bs) = (b + byte_sum bs) % 2 ^ 16

pub byte_sum_u16 : (b : Bytes) → byte_sum b < 2 ^ 16
byte_sum_u16 [] = omega arith
byte_sum_u16 (b ∷ bs) = omega arith

abbrev pub plain : Packing
plain = record {
  checksum = byte_sum;
  compress = λ b. b;
  uncompress = λ b. b;
  checksum_u16 = byte_sum_u16;
  uncompress-compress = λ b. refl;
  compress_filled = λ b h. h;
}

abbrev pub test_qt : Qt
test_qt = record { device = list_device; stream = big_endian; packing = plain }

-- A program that throws nowhere.
abbrev pub test_app : App
test_app = record { throws = λ e. false; open_fails = λ m. false }
