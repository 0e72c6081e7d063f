-- ===== src/Base/BigEndian.antt =====
-- Numbers as bytes, the most significant first: `htonl` and `ntohl` at four bytes.
use distributed_file_storage.Base.{
  ℕ, zero, suc, ◌+◌, ◌*◌, ◌/◌, ◌%◌, ◌^◌, ◌≡◌, refl, [], ◌∷◌, ◌++◌, arith, Bytes, length,
  length-append,
}

-- The `n` low bytes of a number.
unfoldable pub be_bytes : ℕ → ℕ → Bytes
be_bytes zero v = []
be_bytes (suc n) v = be_bytes n (v / 2 ^ 8) ++ (v % 2 ^ 8) ∷ []

abbrev pub be_value : ℕ → Bytes → ℕ
be_value v [] = v
be_value v (b ∷ bytes) = be_value (v * 2 ^ 8 + b) bytes

pub length-be_bytes : (n v : ℕ) → length (be_bytes n v) ≡ n
unfolding be_bytes
length-be_bytes zero v = refl
length-be_bytes (suc n) v = omega (
  arith,
  length-append (be_bytes n (v / 2 ^ 8)) ((v % 2 ^ 8) ∷ []),
  length-be_bytes n (v / 2 ^ 8),
)

-- Four bytes hold a number up to its remainder by 2 ^ 32.
pub be_value-be_bytes : (v : ℕ) → be_value 0 (be_bytes 4 v) ≡ v % 2 ^ 32
unfolding be_bytes
be_value-be_bytes v = omega arith
