-- ===== src/Mmu/Memory.antt =====
-- Bytes of the physical memory: what a read or write of a T through a T* does on a little-endian
-- machine.
use native.Mathlib.Nat.{add-mul-mod_self_left, mod-eq_of_lt, pow-succ', one-le-pow}
use risc_v_simulator.Base.{
  ℕ, zero, suc, ◌+◌, ◌*◌, ◌/◌, ◌%◌, ◌^◌, ◌≤◌, ◌<◌, ◌≡◌, ◌⊎◌, refl, arith, ◌==◌, if◌then◌else◌, ◌∙◌,
  sym,
}

-- The byte at each address.
abbrev pub Bytes : Type 0
Bytes = ℕ → ℕ

abbrev update : Bytes → ℕ → ℕ → Bytes
update mem a v i = if i == a then v else mem i

unfoldable pub read_bytes : ℕ → ℕ → Bytes → ℕ
read_bytes zero a mem = 0
read_bytes (suc n) a mem = mem a + 2 ^ 8 * read_bytes n (a + 1) mem

unfoldable pub write_bytes : ℕ → ℕ → ℕ → Bytes → Bytes
write_bytes zero a v mem = mem
write_bytes (suc n) a v mem = write_bytes n (a + 1) (v / 2 ^ 8) (update mem a (v % 2 ^ 8))

-- A write changes the bytes of its range and no other.
pub write_bytes_outside :
    (n a v i : ℕ) (mem : Bytes) → (i < a) ⊎ (a + n ≤ i) → write_bytes n a v mem i ≡ mem i
unfolding write_bytes
write_bytes_outside zero a v i mem h = refl
write_bytes_outside (suc n) a v i mem h =
    ground
      (arith, write_bytes_outside n (a + 1) (v / 2 ^ 8) i (update mem a (v % 2 ^ 8)) (omega arith))

-- A read depends on the bytes of its range alone.
pub read_bytes_ext :
    (n a : ℕ) (mem mem' : Bytes)
    → ((i : ℕ) → a ≤ i → i < a + n → mem i ≡ mem' i)
    → read_bytes n a mem ≡ read_bytes n a mem'
unfolding read_bytes
read_bytes_ext zero a mem mem' h = refl
read_bytes_ext (suc n) a mem mem' h = omega (
  arith,
  h a (omega arith) (omega arith),
  read_bytes_ext n (a + 1) mem mem' (λ i p q. h i (omega arith) (omega arith)),
)

abbrev pub IsByte : Bytes → Type 0
IsByte mem = (i : ℕ) → mem i < 2 ^ 8

pub write_bytes-IsByte : (n a v : ℕ) (mem : Bytes) → IsByte mem → IsByte (write_bytes n a v mem)
unfolding write_bytes
write_bytes-IsByte zero a v mem h = h
write_bytes-IsByte (suc n) a v mem h =
    write_bytes-IsByte n (a + 1) (v / 2 ^ 8) (update mem a (v % 2 ^ 8)) (λ i. ground (arith, h i))

update_self : (mem : Bytes) (a v : ℕ) → update mem a v a ≡ v
update_self mem a v = ground arith

mod_of_sum : (m q r v : ℕ) → r < m → v ≡ r + m * q → v % m ≡ r
mod_of_sum m q r v h e = rw e (add-mul-mod_self_left r m q ∙ mod-eq_of_lt h)

-- The low byte, and the rest.
mod-256 : (w v : ℕ) → 0 < w → v % (256 * w) ≡ v % 256 + 256 * (v / 256 % w)
mod-256 w v pos =
    mod_of_sum (256 * w) (v / 256 / w) (v % 256 + 256 * (v / 256 % w)) v (omega arith) (grind arith)

-- Reading back what was written gives the value at the width of the access.
pub read_bytes-write_bytes :
    (n a v : ℕ) (mem : Bytes) → read_bytes n a (write_bytes n a v mem) ≡ v % 256 ^ n
unfolding read_bytes write_bytes
read_bytes-write_bytes zero a v mem = omega arith
read_bytes-write_bytes (suc n) a v mem =
    let mem' = update mem a (v % 2 ^ 8) in
    rw
      (
        write_bytes_outside n (a + 1) (v / 2 ^ 8) a mem' (omega arith),
        update_self mem a (v % 2 ^ 8),
        read_bytes-write_bytes n (a + 1) (v / 2 ^ 8) mem',
        pow-succ' 256 n,
      )
      (sym (mod-256 (256 ^ n) v (one-le-pow n 256 (omega arith))))

pub read_bytes-lt : (n a : ℕ) (mem : Bytes) → IsByte mem → read_bytes n a mem < 256 ^ n
unfolding read_bytes
read_bytes-lt zero a mem h = omega arith
read_bytes-lt (suc n) a mem h = omega (arith, h a, read_bytes-lt n (a + 1) mem h, pow-succ' 256 n)
