-- ===== src/Web/Hash/Laws.antt =====
-- sum64 and getTargets of web/api/v1/api.go: the hash as a number, and the shares of the targets.
use Prim.Native.Nat.{bit_or}
use promeproxy.Common.{
  string_eq, ℕ, zero, suc, ◌+◌, ◌-◌, ◌*◌, ◌%◌, ◌^◌, ◌<◌, ◌≡◌, List, [], ◌∷◌, arith, length, All,
}
use promeproxy.Common.Bits.{bit_or-disjoint}
use promeproxy.Web.Hash.{sum64_loop, sum64}

-- the number with these digits in base 256, the first the highest, from a number on
abbrev pub base_256 : ℕ → List ℕ → ℕ
base_256 m [] = m
base_256 m (b ∷ bs) = base_256 (m * 256 + b) bs

or_apart : (n a x y : ℕ) → x ≡ a * 2 ^ n → y < 2 ^ n → bit_or x y ≡ x + y
or_apart n a x y e h = rw (e) (bit_or-disjoint n a y h)

or_byte :
    (k m b : ℕ)
    → k < 16
    → b < 256
    → bit_or (m * 2 ^ (suc k * 8) % 2 ^ 64) (b * 2 ^ (k * 8) % 2 ^ 64)
      ≡ (m * 256 + b) * 2 ^ (k * 8) % 2 ^ 64
or_byte zero m b h l = omega (
  arith,
  or_apart 8 (m % 2 ^ 56) (m * 2 ^ 8 % 2 ^ 64) (b * 2 ^ 0 % 2 ^ 64) (omega arith) (omega arith),
)
or_byte (suc zero) m b h l = omega (
  arith,
  or_apart 16 (m % 2 ^ 48) (m * 2 ^ 16 % 2 ^ 64) (b * 2 ^ 8 % 2 ^ 64) (omega arith) (omega arith),
)
or_byte (suc (suc zero)) m b h l = omega (
  arith,
  or_apart 24 (m % 2 ^ 40) (m * 2 ^ 24 % 2 ^ 64) (b * 2 ^ 16 % 2 ^ 64) (omega arith) (omega arith),
)
or_byte (suc (suc (suc zero))) m b h l = omega (
  arith,
  or_apart 32 (m % 2 ^ 32) (m * 2 ^ 32 % 2 ^ 64) (b * 2 ^ 24 % 2 ^ 64) (omega arith) (omega arith),
)
or_byte (suc (suc (suc (suc zero)))) m b h l = omega (
  arith,
  or_apart 40 (m % 2 ^ 24) (m * 2 ^ 40 % 2 ^ 64) (b * 2 ^ 32 % 2 ^ 64) (omega arith) (omega arith),
)
or_byte (suc (suc (suc (suc (suc zero))))) m b h l = omega (
  arith,
  or_apart 48 (m % 2 ^ 16) (m * 2 ^ 48 % 2 ^ 64) (b * 2 ^ 40 % 2 ^ 64) (omega arith) (omega arith),
)
or_byte (suc (suc (suc (suc (suc (suc zero)))))) m b h l = omega (
  arith,
  or_apart 56 (m % 2 ^ 8) (m * 2 ^ 56 % 2 ^ 64) (b * 2 ^ 48 % 2 ^ 64) (omega arith) (omega arith),
)
or_byte (suc (suc (suc (suc (suc (suc (suc zero))))))) m b h l =
    omega
      (arith, or_apart 64 0 (m * 2 ^ 64 % 2 ^ 64) (b * 2 ^ 56 % 2 ^ 64) (omega arith) (omega arith))
or_byte (suc (suc (suc (suc (suc (suc (suc (suc zero)))))))) m b h l =
    omega
      (arith, or_apart 64 0 (m * 2 ^ 72 % 2 ^ 64) (b * 2 ^ 64 % 2 ^ 64) (omega arith) (omega arith))
or_byte (suc (suc (suc (suc (suc (suc (suc (suc (suc zero))))))))) m b h l =
    omega
      (arith, or_apart 64 0 (m * 2 ^ 80 % 2 ^ 64) (b * 2 ^ 72 % 2 ^ 64) (omega arith) (omega arith))
or_byte (suc (suc (suc (suc (suc (suc (suc (suc (suc (suc zero)))))))))) m b h l =
    omega
      (arith, or_apart 64 0 (m * 2 ^ 88 % 2 ^ 64) (b * 2 ^ 80 % 2 ^ 64) (omega arith) (omega arith))
or_byte (suc (suc (suc (suc (suc (suc (suc (suc (suc (suc (suc zero))))))))))) m b h l =
    omega
      (arith, or_apart 64 0 (m * 2 ^ 96 % 2 ^ 64) (b * 2 ^ 88 % 2 ^ 64) (omega arith) (omega arith))
or_byte (suc (suc (suc (suc (suc (suc (suc (suc (suc (suc (suc (suc zero)))))))))))) m b h l =
    omega (
      arith,
      or_apart 64 0 (m * 2 ^ 104 % 2 ^ 64) (b * 2 ^ 96 % 2 ^ 64) (omega arith) (omega arith),
    )
or_byte (suc (suc (suc (suc (suc (suc (suc (suc (suc (suc (suc (suc (suc zero))))))))))))) m b h l =
    omega (
      arith,
      or_apart 64 0 (m * 2 ^ 112 % 2 ^ 64) (b * 2 ^ 104 % 2 ^ 64) (omega arith) (omega arith),
    )
or_byte (suc (suc (suc (suc (suc (suc (suc (suc (suc (suc (suc (suc (suc (suc zero)))))))))))))) m b
      h l =
    omega (
      arith,
      or_apart 64 0 (m * 2 ^ 120 % 2 ^ 64) (b * 2 ^ 112 % 2 ^ 64) (omega arith) (omega arith),
    )
or_byte
      (suc (suc (suc (suc (suc (suc (suc (suc (suc (suc (suc (suc (suc (suc (suc zero)))))))))))))))
      m b h l =
    omega (
      arith,
      or_apart 64 0 (m * 2 ^ 128 % 2 ^ 64) (b * 2 ^ 120 % 2 ^ 64) (omega arith) (omega arith),
    )
or_byte
      (suc
        (suc (suc (suc (suc (suc (suc (suc (suc (suc (suc (suc (suc (suc (suc (suc k))))))))))))))))
      m b h l =
    absurd (omega arith)

-- the loop with the value so far, shifted to where the bytes that are left begin
sum64_loop-base_256 :
    (i m s : ℕ) (bs : List ℕ)
    → i + length bs ≡ 16
    → All (λ b. b < 256) bs
    → s ≡ m * 2 ^ (length bs * 8) % 2 ^ 64
    → sum64_loop i s bs ≡ base_256 m bs % 2 ^ 64
unfolding sum64_loop
sum64_loop-base_256 i m s [] l h e = omega arith
sum64_loop-base_256 i m s (b ∷ bs) l h e =
    let k : 16 - i - 1 ≡ length bs = omega arith in
    sum64_loop-base_256 (i + 1) (m * 256 + b) (bit_or s (b * 2 ^ ((16 - i - 1) * 8) % 2 ^ 64)) bs
      (omega arith) h.1 (rw (k, e) (or_byte (length bs) m b (omega arith) h.0))

-- sum64 of the 16 bytes of a hash is the number in base 256 that they write, the first byte highest, cut to
-- 64 bits: the last 8 bytes, the others having been shifted out.
pub sum64-base_256 :
    (hash : List ℕ)
    → length hash ≡ 16
    → All (λ b. b < 256) hash
    → sum64 hash ≡ base_256 0 hash % 2 ^ 64
unfolding sum64
sum64-base_256 hash l h = sum64_loop-base_256 0 0 0 hash (omega arith) h (omega arith)
