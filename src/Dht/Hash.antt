-- ===== src/Dht/Hash.antt =====
-- `ConsistentHash::hashKey`. The `int` is kept as its 32-bit pattern while the loop runs: g++ wraps
-- the signed products of the source around in two's complement.
use distributed_file_storage.Base.{ℕ, ◌+◌, ◌*◌, ◌%◌, ◌^◌, ◌<◌, ◌≡◌, refl, ap, [], ◌∷◌, arith, Bytes}
use distributed_file_storage.Base.Int.{ℤ, signed32, IsInt32, signed32-IsInt32}

unfoldable pub hash_loop : Bytes → ℕ → ℕ
hash_loop [] h = h
hash_loop (c ∷ key) h = hash_loop key ((31 * h + c) % 2 ^ 32)

unfoldable pub hash_key : Bytes → ℤ
unfolding hash_loop
hash_key key = signed32 (hash_loop key 0)

-- The polynomial that the loop evaluates, with no bound on its size.
abbrev pub polynomial : Bytes → ℕ → ℕ
polynomial [] h = h
polynomial (c ∷ key) h = polynomial key (31 * h + c)

hash_loop-mod :
    (key : Bytes) (h g : ℕ)
    → h % 2 ^ 32 ≡ g % 2 ^ 32
    → hash_loop key h % 2 ^ 32 ≡ polynomial key g % 2 ^ 32
unfolding hash_loop
hash_loop-mod [] h g e = e
hash_loop-mod (c ∷ key) h g e = hash_loop-mod key ((31 * h + c) % 2 ^ 32) (31 * g + c) (omega arith)

hash_loop-lt : (key : Bytes) (h : ℕ) → h < 2 ^ 32 → hash_loop key h < 2 ^ 32
unfolding hash_loop
hash_loop-lt [] h lt = lt
hash_loop-lt (c ∷ key) h lt = hash_loop-lt key ((31 * h + c) % 2 ^ 32) (omega arith)

-- The hash of a text is the int whose bit pattern is its base-31 polynomial modulo 2 ^ 32.
pub hash_key-eq-polynomial : (key : Bytes) → hash_key key ≡ signed32 (polynomial key 0 % 2 ^ 32)
unfolding hash_key
hash_key-eq-polynomial key =
    ap signed32 (omega (arith, hash_loop-mod key 0 0 refl, hash_loop-lt key 0 (omega arith)))

pub hash_key-IsInt32 : (key : Bytes) → IsInt32 (hash_key key)
unfolding hash_key
hash_key-IsInt32 key = signed32-IsInt32 (hash_loop key 0) (hash_loop-lt key 0 (omega arith))
