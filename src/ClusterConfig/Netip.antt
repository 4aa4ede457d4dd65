-- ===== src/ClusterConfig/Netip.antt =====
-- What internal/clusterconfig uses of Go's package net/netip: addresses as numbers, with the 128-bit
-- form in two 64-bit words. Parsing and printing are left to `Platform`.
use podplane.Base.{
  ℕ, ◌+◌, ◌-◌, ◌*◌, ◌/◌, ◌%◌, ◌^◌, ◌≤◌, ◌<◌, Bool, true, false, ◌&&◌, ◌||◌, leb, ltb, ◌==◌,
  if◌then◌else◌,
}

abbrev pub word : ℕ
word = 2 ^ 64

abbrev pub v4_size : ℕ
v4_size = 2 ^ 32

-- `invalid` is the zero netip.Addr; `v6` has the high and the low word.
pub data Addr : Type 0 where
  invalid : Addr
  v4 : ℕ → Addr
  v6 : ℕ → ℕ → Addr

pub record Prefix : Type 0 where
  pub addr : Addr
  pub bits : ℕ

-- Addr.Is4
abbrev pub is4 : Addr → Bool
is4 (v4 _) = true
is4 _ = false

-- The number below `n` with the last `k` bits cleared.
abbrev pub clear_low : ℕ → ℕ → ℕ
clear_low n k = n - n % 2 ^ k

abbrev mask_v6 : ℕ → ℕ → ℕ → Addr
mask_v6 hi lo bits =
    if leb bits 64 then v6 (clear_low hi (64 - bits)) 0 else v6 hi (clear_low lo (128 - bits))

abbrev mask_addr : Addr → ℕ → Addr
mask_addr invalid bits = invalid
mask_addr (v4 a) bits = v4 (clear_low a (32 - bits))
mask_addr (v6 hi lo) bits = mask_v6 hi lo bits

-- Prefix.Masked
abbrev pub masked : Prefix → Prefix
masked p = record { addr = mask_addr p.addr p.bits; bits = p.bits }

-- Addr.==
abbrev pub addr_eq : Addr → Addr → Bool
addr_eq invalid invalid = true
addr_eq (v4 a) (v4 b) = a == b
addr_eq (v6 h l) (v6 h' l') = (h == h') && (l == l')
addr_eq _ _ = false

-- Prefix.==
abbrev pub prefix_eq : Prefix → Prefix → Bool
prefix_eq p q = addr_eq p.addr q.addr && (p.bits == q.bits)

-- Addr.Next; the last address of a family has none.
abbrev pub next : Addr → Addr
next invalid = invalid
next (v4 a) = if a + 1 == v4_size then invalid else v4 (a + 1)
next (v6 hi lo) =
    if ltb (lo + 1) word
    then v6 hi (lo + 1)
    else if ltb (hi + 1) word
    then v6 (hi + 1) 0
    else invalid

-- Addr.Compare(b) > 0 with the arguments swapped: a is below b. Families are ordered by their length.
abbrev pub below : Addr → Addr → Bool
below invalid invalid = false
below invalid _ = true
below (v4 a) (v4 b) = ltb a b
below (v4 a) (v6 _ _) = true
below (v6 h l) (v6 h' l') = ltb h h' || ((h == h') && ltb l l')
below _ _ = false

abbrev contains_v6 : ℕ → ℕ → ℕ → ℕ → ℕ → Bool
contains_v6 hi lo hi' lo' bits =
    if leb bits 64
    then hi / 2 ^ (64 - bits) == hi' / 2 ^ (64 - bits)
    else (hi == hi') && (lo / 2 ^ (128 - bits) == lo' / 2 ^ (128 - bits))

abbrev contains_addr : Addr → Addr → ℕ → Bool
contains_addr (v4 a) (v4 b) bits = a / 2 ^ (32 - bits) == b / 2 ^ (32 - bits)
contains_addr (v6 hi lo) (v6 hi' lo') bits = contains_v6 hi lo hi' lo' bits
contains_addr _ _ bits = false

-- Prefix.Contains
abbrev pub prefix_contains : Prefix → Addr → Bool
prefix_contains p a = contains_addr p.addr a p.bits

abbrev mapped : ℕ
mapped = 0xffff * 2 ^ 32

-- Addr.As16, as the two words that binary.BigEndian reads.
abbrev pub high_word : Addr → ℕ
high_word (v6 hi _) = hi
high_word _ = 0

abbrev pub low_word : Addr → ℕ
low_word invalid = 0
low_word (v4 a) = mapped + a
low_word (v6 _ lo) = lo

-- Addr.Unmap: an IPv4-mapped address becomes an IPv4 address.
abbrev pub unmap : Addr → Addr
unmap (v6 hi lo) = if (hi == 0) && (lo / 2 ^ 32 == 0xffff) then v4 (lo % 2 ^ 32) else v6 hi lo
unmap a = a

-- What netip.ParsePrefix returns: the words in range, and no more bits than the family has.
abbrev AddrInRange : Addr → ℕ → Type 0
AddrInRange invalid bits = ⊥
AddrInRange (v4 a) bits = (a < v4_size) × (bits ≤ 32)
AddrInRange (v6 hi lo) bits = (hi < word) × (lo < word) × (bits ≤ 128)

abbrev pub InRange : Prefix → Type 0
InRange p = AddrInRange p.addr p.bits
