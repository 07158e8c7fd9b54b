-- ===== src/Net/Poller/Kqueue/Hashes.antt =====
-- Socket/Poller/Helpers.hpp: the hash of the table of clients.
use mux.Prelude.{
  ℕ, ◌+◌, ◌-◌, ◌*◌, ◌/◌, ◌%◌, ◌^◌, ◌<◌, ◌≡◌, sym, ap, ◌≢◌, ◌↔◌, arith, nat_eq, bytes_eq,
}
use mux.Prelude.Int.{ℤ, pos, negsuc, int_eq}

-- `static_cast<std::size_t>(key)` of an `int`
to_size : ℤ → ℕ
to_size (pos n) = n
to_size (negsuc n) = 2 ^ 64 - 1 - n

-- `std::rotl(value, 5)` on 64 bits
rotate_left_5 : ℕ → ℕ
rotate_left_5 value = (value * 2 ^ 5) % 2 ^ 64 + value / 2 ^ 59

-- IntHash::operator()
pub int_hash : ℤ → ℕ
unfolding to_size
int_hash key = to_size key

-- IntHashBitRotate::operator()
pub int_hash_bit_rotate : ℤ → ℕ
unfolding to_size rotate_left_5
int_hash_bit_rotate key = rotate_left_5 (to_size key)

-- The values of an `int`.
unfoldable pub IsInt : ℤ → Type 0
IsInt (pos n) = n < 2 ^ 31
IsInt (negsuc n) = n < 2 ^ 31

to_size-bound : (key : ℤ) → IsInt key → to_size key < 2 ^ 64
unfolding to_size IsInt
to_size-bound (pos n) h = omega (arith, h)
to_size-bound (negsuc n) h = omega (arith, h)

apart : (n m : ℕ) → n < 2 ^ 31 → m < 2 ^ 31 → n ≢ 2 ^ 64 - 1 - m
apart n m h k = omega (arith, h, k)

to_size-injective : (a b : ℤ) → IsInt a → IsInt b → to_size a ≡ to_size b → a ≡ b
unfolding to_size IsInt
to_size-injective (pos n) (pos m) h k e = ap pos e
to_size-injective (pos n) (negsuc m) h k e = elim (apart n m h k e) [ ]
to_size-injective (negsuc n) (pos m) h k e = elim (apart m n k h (sym e)) [ ]
to_size-injective (negsuc n) (negsuc m) h k e = ap negsuc (omega (arith, h, k, e))

rotate_left_5-injective :
    (a b : ℕ) → a < 2 ^ 64 → b < 2 ^ 64 → rotate_left_5 a ≡ rotate_left_5 b → a ≡ b
unfolding rotate_left_5
rotate_left_5-injective a b h k e = omega (arith, h, k, e)

rotate_left_5-bound : (a : ℕ) → a < 2 ^ 64 → rotate_left_5 a < 2 ^ 64
unfolding rotate_left_5
rotate_left_5-bound a h = omega (arith, h)

-- On the values of `int`, both hashes fit into 64 bits, and two keys have the same hash only if
-- they are the same.
pub int_hash_bit_rotate_iff :
    (a b : ℤ)
    → IsInt a
    → IsInt b
    → (int_hash_bit_rotate a < 2 ^ 64)
      × (int_hash a < 2 ^ 64)
      × ((int_hash_bit_rotate a ≡ int_hash_bit_rotate b) ↔ (a ≡ b))
      × ((int_hash a ≡ int_hash b) ↔ (a ≡ b))
unfolding int_hash int_hash_bit_rotate
int_hash_bit_rotate_iff a b h k =
    let small = to_size-bound a h in
    let rotated = rotate_left_5-injective (to_size a) (to_size b) small (to_size-bound b k) in
    (
      rotate_left_5-bound (to_size a) small,
      small,
      ((λ e. to_size-injective a b h k (rotated e)), (λ e. ap int_hash_bit_rotate e)),
      (to_size-injective a b h k, (λ e. ap int_hash e)),
    )
