-- ===== src/ClusterConfig/Network/Arithmetic.antt =====
-- The reserved DNS address as arithmetic: the two additions with carry and the IPv4-mapped form.
use native.Mathlib.Nat.{
  pow-suc, add-zero, one-le-pow, mul-add-div, div-eq_of_lt, mul-le-mul_left, lt_of_mul-lt-mul_left,
  mul-suc, div-add-mod,
}
use podplane.Base.{
  ℕ, zero, suc, ◌+◌, ◌-◌, ◌*◌, ◌/◌, ◌%◌, ◌^◌, ◌≤◌, ◌<◌, ◌≡◌, ◌∙◌, sym, ap, arith, false, true, ltb,
}
use podplane.ClusterConfig.Netip.{Addr, invalid, v4, v6, word, v4_size, unmap}
use podplane.ClusterConfig.Network.{core_dns_addr, add_offset}

pow_split : (h k : ℕ) → 2 ^ (h + k) ≡ 2 ^ h * 2 ^ k
pow_split h zero = rw add-zero (omega arith)
pow_split h (suc k) =
    let e : h + suc k ≡ suc (h + k) = omega arith in
    rw (e, pow-suc, pow-suc) (omega (arith, ap (λ (t : ℕ). t * 2) (pow_split h k)))

pub four-le-pow : (h : ℕ) → 2 ≤ h → 4 ≤ 2 ^ h
four-le-pow h big =
    let e : h ≡ 2 + (h - 2) = omega arith in
    rw e (rw pow_split (omega (arith, one-le-pow (h - 2) 2 (omega arith))))

below_multiple : (q m k : ℕ) → m * q < m * k → m * q + m ≤ m * k
below_multiple q m k h = omega (arith, mul-le-mul_left m (lt_of_mul-lt-mul_left m h), mul-suc m q)

-- A canonical IPv4 network lies below 2 ^ 32 as a whole.
pub block_fits : (a h : ℕ) → a < v4_size → h ≤ 32 → a % 2 ^ h ≡ 0 → a + 2 ^ h ≤ v4_size
block_fits a h small short aligned =
    let whole : 2 ^ h * 2 ^ (32 - h) ≡ v4_size =
      sym (pow_split h (32 - h)) ∙ ap (λ (t : ℕ). 2 ^ t) {y = 32} (omega arith) in
    let parts : 2 ^ h * (a / 2 ^ h) ≡ a = omega (arith, div-add-mod a (2 ^ h)) in
    omega (arith, below_multiple (a / 2 ^ h) (2 ^ h) (2 ^ (32 - h)) (omega arith), whole, parts)

unmap-add_offset :
    (a offset : ℕ) → a + offset < v4_size → unmap (add_offset (v4 a) offset) ≡ v4 (a + offset)
unmap-add_offset a offset fits = ground arith

-- In a canonical IPv4 network with a prefix of at most 30 bits the DNS address, computed in
-- 128 bits with a carry and unmapped, is the last address but one.
pub core_dns_addr-v4 :
    (a bits : ℕ)
    → a < v4_size
    → bits ≤ 30
    → a % 2 ^ (32 - bits) ≡ 0
    → core_dns_addr (record { addr = v4 a; bits = bits }) ≡ v4 (a + (2 ^ (32 - bits) - 2))
unfolding core_dns_addr
core_dns_addr-v4 a bits small short aligned =
    let fits = block_fits a (32 - bits) small (omega arith) aligned in
    let four = four-le-pow (32 - bits) (omega arith) in
    let rest = unmap-add_offset a (2 ^ (32 - bits) - 2) (omega arith) in
    let room : ltb (32 - bits) 2 ≡ false = ground arith in rw room rest

-- A network of one or two addresses has none.
pub core_dns_addr-short :
    (a bits : ℕ) → 31 ≤ bits → core_dns_addr (record { addr = v4 a; bits = bits }) ≡ invalid
unfolding core_dns_addr
core_dns_addr-short a bits short =
    let none_left : ltb (32 - bits) 2 ≡ true = ground arith in rw none_left

-- It lies in the same block of 2 ^ h addresses.
pub same_block :
    (a h offset : ℕ) → a % 2 ^ h ≡ 0 → offset < 2 ^ h → (a + offset) / 2 ^ h ≡ a / 2 ^ h
same_block a h offset aligned small =
    let parts : 2 ^ h * (a / 2 ^ h) ≡ a = omega (arith, div-add-mod a (2 ^ h)) in
    let pos : 0 < 2 ^ h = one-le-pow h 2 (omega arith) in
    let whole : (2 ^ h * (a / 2 ^ h) + offset) / 2 ^ h ≡ a / 2 ^ h + offset / 2 ^ h =
      mul-add-div pos (a / 2 ^ h) offset in
    let nothing : offset / 2 ^ h ≡ 0 = div-eq_of_lt small in
    let moved : (a + offset) / 2 ^ h ≡ (2 ^ h * (a / 2 ^ h) + offset) / 2 ^ h =
      ap (λ (t : ℕ). (t + offset) / 2 ^ h) (sym parts) in
    omega arith

-- The DNS address of an IPv6 network is the 128-bit sum.
abbrev pub number : Addr → ℕ
number (v6 hi lo) = hi * word + lo
number (v4 a) = a
number invalid = 0

-- The DNS address of an IPv6 network, computed in two 64-bit words with a carry, is the
-- network's address plus 65535 modulo the 128-bit range, if its low word is in range.
pub core_dns_addr-v6 :
    (hi lo bits : ℕ)
    → lo < word
    → number (core_dns_addr (record { addr = v6 hi lo; bits = bits }))
      ≡ (hi * word + lo + 65535) % (word * word)
unfolding core_dns_addr
core_dns_addr-v6 hi lo bits small = omega arith
