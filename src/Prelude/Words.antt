-- ===== src/Prelude/Words.antt =====
-- `uint32_t` arithmetic, and bytes in network order: what `htonl`, `htons` and their inverses of the
-- C library do to the bytes in memory.
use Prim.Native.Nat.{ℕ, ◌+◌, ◌-◌, ◌*◌, ◌/◌, ◌%◌, ◌^◌, ◌<◌}
use mathlib.Core.Path.{◌≡◌}
use mathlib.Core.List.{List, [], ◌∷◌}
use mathlib.Core.Bool.{Bool, true, false}
use native.Mathlib.Omega.{arith}
use nodescan.Prelude.Tests.{◌==◌, if◌then◌else◌}

abbrev pub u32_mod : ℕ
u32_mod = 2 ^ 32

-- `a + b`, `a - b` and `a * b` on `uint32_t`.
abbrev pub add32 : ℕ → ℕ → ℕ
add32 a b = (a + b) % u32_mod

abbrev pub sub32 : ℕ → ℕ → ℕ
sub32 a b = (a + u32_mod - b) % u32_mod

abbrev pub mul32 : ℕ → ℕ → ℕ
mul32 a b = (a * b) % u32_mod

-- The bytes of `htonl(n)` and `htons(n)`, the first byte first.
abbrev pub htonl : ℕ → List ℕ
htonl n = (n / 2 ^ 24 % 256) ∷ (n / 2 ^ 16 % 256) ∷ (n / 2 ^ 8 % 256) ∷ (n % 256) ∷ []

abbrev pub htons : ℕ → List ℕ
htons n = (n / 2 ^ 8 % 256) ∷ (n % 256) ∷ []

-- `ntohl` and `ntohs` of the bytes at a pointer; more bytes may follow.
abbrev pub ntohl : List ℕ → ℕ
ntohl (a ∷ b ∷ c ∷ d ∷ xs) = a * 2 ^ 24 + b * 2 ^ 16 + c * 2 ^ 8 + d
ntohl xs = 0

abbrev pub ntohs : List ℕ → ℕ
ntohs (a ∷ b ∷ xs) = a * 2 ^ 8 + b
ntohs xs = 0

-- `memcmp(a, b, n) == 0` on the first n bytes of b: whether a, of length n, is the beginning of b.
abbrev pub starts_with : List ℕ → List ℕ → Bool
starts_with [] xs = true
starts_with (p ∷ ps) [] = false
starts_with (p ∷ ps) (x ∷ xs) = if p == x then starts_with ps xs else false

pub ntohl-htonl : (n : ℕ) → n < 2 ^ 32 → ntohl (htonl n) ≡ n
ntohl-htonl n h = omega arith

pub ntohs-htons : (n : ℕ) → n < 2 ^ 16 → ntohs (htons n) ≡ n
ntohs-htons n h = omega arith
