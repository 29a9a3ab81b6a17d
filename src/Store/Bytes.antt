-- ===== src/Store/Bytes.antt =====
-- Keys and values of crates/miot-store/src/lib.rs as bytes: `u64::to_be_bytes` and its inverse.
use akuma_miot.Prelude.{
  ℕ, zero, suc, ◌+◌, ◌*◌, ◌/◌, ◌%◌, ◌<◌, ◌≡◌, refl, Option, none, some, List, [], ◌∷◌, ◌++◌, arith,
  ◌==◌, if◌then◌else◌, length, length-append,
}
use akuma_miot.Mesh.Maps.{text_eq, text_eq_iff}

abbrev pub Bytes : Type 0
Bytes = List ℕ

-- The `k` low bytes of a number, the highest first.
unfoldable pub be_bytes : ℕ → ℕ → Bytes
be_bytes zero n = []
be_bytes (suc k) n = be_bytes k (n / 256) ++ n % 256 ∷ []

-- `u64::to_be_bytes`
unfoldable pub to_be_bytes : ℕ → Bytes
unfolding be_bytes
to_be_bytes n = be_bytes 8 n

unfoldable pub from_be : ℕ → Bytes → ℕ
from_be acc [] = acc
from_be acc (b ∷ bs) = from_be (acc * 256 + b) bs

-- `be`: a value of 8 bytes is a number.
unfoldable pub be : Bytes → Option ℕ
unfolding from_be
be v = if length v == 8 then some (from_be 0 v) else none

unfoldable pub key : ℕ → Bytes
unfolding to_be_bytes
key n = to_be_bytes n

-- "aux:" and the name.
abbrev pub aux_key : Bytes → Bytes
aux_key name = (97 ∷ 117 ∷ 120 ∷ 58 ∷ []) ++ name

-- "head"
abbrev pub key_head : Bytes
key_head = 104 ∷ 101 ∷ 97 ∷ 100 ∷ []

-- "last_checkpoint"
abbrev pub key_last_cp : Bytes
key_last_cp =
    108 ∷ 97 ∷ 115 ∷ 116 ∷ 95 ∷ 99 ∷ 104 ∷ 101 ∷ 99 ∷ 107 ∷ 112 ∷ 111 ∷ 105 ∷ 110 ∷ 116 ∷ []

-- How many numbers `k` bytes hold.
unfoldable pub capacity : ℕ → ℕ
capacity zero = 1
capacity (suc k) = 256 * capacity k

abbrev pub u64_count : ℕ
u64_count = 18446744073709551616

length-be_bytes : (k n : ℕ) → length (be_bytes k n) ≡ k
unfolding be_bytes
length-be_bytes zero n = refl
length-be_bytes (suc k) n =
    omega (arith, length-append (be_bytes k (n / 256)) (n % 256 ∷ []), length-be_bytes k (n / 256))

from_be-append : (acc : ℕ) (xs ys : Bytes) → from_be acc (xs ++ ys) ≡ from_be (from_be acc xs) ys
unfolding from_be
from_be-append acc [] ys = refl
from_be-append acc (x ∷ xs) ys = from_be-append (acc * 256 + x) xs ys

from_be-be_bytes : (k n : ℕ) → n < capacity k → from_be 0 (be_bytes k n) ≡ n
unfolding from_be be_bytes capacity
from_be-be_bytes zero n h = omega arith
from_be-be_bytes (suc k) n h = omega (
  arith,
  from_be-append 0 (be_bytes k (n / 256)) (n % 256 ∷ []),
  from_be-be_bytes k (n / 256) (omega arith),
)

be-some : (v : Bytes) (n : ℕ) → length v ≡ 8 → from_be 0 v ≡ n → be v ≡ some n
unfolding be
be-some v n l h = ground arith

-- A number of 64 bits is read back from its bytes.
pub be-to_be_bytes : (n : ℕ) → n < u64_count → be (to_be_bytes n) ≡ some n
unfolding to_be_bytes capacity
be-to_be_bytes n h = be-some (be_bytes 8 n) n (length-be_bytes 8 n) (from_be-be_bytes 8 n h)

-- Keys of different heights differ.
pub key-same : (a b : ℕ) → a < u64_count → b < u64_count → text_eq (key a) (key b) ≡ (a == b)
unfolding key
key-same a b ha hb =
    grind (arith, text_eq_iff (key a) (key b), be-to_be_bytes a ha, be-to_be_bytes b hb)
