-- ===== src/EchoRaw/Host.antt =====
-- How the host stores numbers: its byte order, the bytes of 16- and 32-bit numbers in memory, and
-- `htons` and `ntohs` of <arpa/inet.h>, which swap the bytes on a little-endian host.
use eltex_systems.Base.{ℕ, ◌+◌, ◌*◌, ◌/◌, ◌%◌, ◌<◌, ◌≡◌, refl, List, [], ◌∷◌, arith, All}

pub data Endian : Type 0 where
  little big : Endian

unfoldable pub swap16 : ℕ → ℕ
swap16 v = v % 256 * 256 + v / 256 % 256

unfoldable pub htons : Endian → ℕ → ℕ
unfolding swap16
htons little v = swap16 v
htons big v = v

-- `ntohs` is the same operation.
unfoldable pub ntohs : Endian → ℕ → ℕ
unfolding swap16
ntohs little v = swap16 v
ntohs big v = v

unfoldable pub bytes16 : Endian → ℕ → List ℕ
bytes16 little v = v % 256 ∷ v / 256 % 256 ∷ []
bytes16 big v = v / 256 % 256 ∷ v % 256 ∷ []

unfoldable pub bytes32 : Endian → ℕ → List ℕ
bytes32 little v = v % 256 ∷ v / 256 % 256 ∷ v / 65536 % 256 ∷ v / 16777216 % 256 ∷ []
bytes32 big v = v / 16777216 % 256 ∷ v / 65536 % 256 ∷ v / 256 % 256 ∷ v % 256 ∷ []

-- The number that two, or four, bytes of memory are read as.
unfoldable pub load16 : Endian → ℕ → ℕ → ℕ
load16 little a b = b * 256 + a
load16 big a b = a * 256 + b

unfoldable pub load32 : Endian → ℕ → ℕ → ℕ → ℕ → ℕ
load32 little a b c d = ((d * 256 + c) * 256 + b) * 256 + a
load32 big a b c d = ((a * 256 + b) * 256 + c) * 256 + d

-- A number converted by `htons` stands in memory high byte first on every host.
pub bytes16-htons :
    (host : Endian) (v : ℕ) → bytes16 host (htons host v) ≡ v / 256 % 256 ∷ v % 256 ∷ []
unfolding bytes16 htons swap16
bytes16-htons little v = ground arith
bytes16-htons big v = refl

pub ntohs-load16 :
    (host : Endian) (a b : ℕ) → a < 256 → b < 256 → ntohs host (load16 host a b) ≡ a * 256 + b
unfolding ntohs load16 swap16
ntohs-load16 little a b p q = omega arith
ntohs-load16 big a b p q = refl

pub load32-bytes32 :
    (host : Endian) (v a b c d : ℕ)
    → v < 4294967296
    → bytes32 host v ≡ a ∷ b ∷ c ∷ d ∷ []
    → load32 host a b c d ≡ v
unfolding load32 bytes32
load32-bytes32 little v a b c d h e = ground arith
load32-bytes32 big v a b c d h e = ground arith

pub bytes32-All : (host : Endian) (v : ℕ) → All (λ b. b < 256) (bytes32 host v)
unfolding bytes32
bytes32-All little v = ground arith
bytes32-All big v = ground arith
