-- ===== src/Dht/Balance.antt =====
-- How `hashKey` spreads addresses that differ in their last byte only.
use native.Mathlib.Nat.{add_assoc}
use mathlib.Core.Path.{subst₂}
use distributed_file_storage.Base.{
  sym, ◌∙◌, ◌≤◌, ℕ, ◌+◌, ◌*◌, ◌%◌, ◌^◌, ◌<◌, ◌≡◌, refl, ap, ◌⊎◌, inl, inr, Bool-cases, ltb, some,
  [], ◌∷◌, ◌++◌, arith, Bytes,
}
use distributed_file_storage.Base.Int.{ℤ, signed32, eq_of_parts, IsInt32}
use distributed_file_storage.Dht.Hash.{hash_key, hash_loop, hash_key-IsInt32}
use distributed_file_storage.Dht.Ring.{Ring, at, get_node_for_key}
use distributed_file_storage.Dht.Lookup.{IsRing, at-IsPlaced}
use distributed_file_storage.Dht.Owner.{clockwise, get_node_for_key-IsOwner}

hash_loop-concat :
    (prefix : Bytes) (c h : ℕ)
    → hash_loop (prefix ++ c ∷ []) h ≡ (31 * hash_loop prefix h + c) % 2 ^ 32
unfolding hash_loop
hash_loop-concat [] c h = refl
hash_loop-concat (b ∷ prefix) c h = hash_loop-concat prefix c ((31 * h + b) % 2 ^ 32)

le_lt_absurd : (a b : ℕ) → a ≤ b → b < a → ⊥
le_lt_absurd a b h k = omega arith

-- One step further round the circle is one step further from `p`, but for the step onto `p`.
next_clockwise :
    (p : ℤ) (x : ℕ)
    → IsInt32 p
    → (clockwise p (signed32 (x % 2 ^ 32)) < clockwise p (signed32 ((x + 1) % 2 ^ 32)))
      ⊎ (p ≡ signed32 ((x + 1) % 2 ^ 32))
next_clockwise p x h =
    elim (Bool-cases
      (ltb (clockwise p (signed32 (x % 2 ^ 32))) (clockwise p (signed32 ((x + 1) % 2 ^ 32))))) [
        | inl before ↦ inl (ground arith)
        | inr after ↦ inr (eq_of_parts _ _ (ground arith))
      ]

hash_key-concat :
    (prefix : Bytes) (c : ℕ)
    → hash_key (prefix ++ c ∷ []) ≡ signed32 ((31 * hash_loop prefix 0 + c) % 2 ^ 32)
unfolding hash_key
hash_key-concat prefix c = ap signed32 (hash_loop-concat prefix c 0)

hash_key-concat_next :
    (prefix : Bytes) (c : ℕ)
    → hash_key (prefix ++ (c + 1) ∷ []) ≡ signed32 ((31 * hash_loop prefix 0 + c + 1) % 2 ^ 32)
hash_key-concat_next prefix c = rw (hash_key-concat, add_assoc (31 * hash_loop prefix 0) c 1)

nearer :
    (p k j : ℤ) (x : ℕ)
    → IsInt32 p
    → j ≡ signed32 (x % 2 ^ 32)
    → k ≡ signed32 ((x + 1) % 2 ^ 32)
    → clockwise p k ≤ clockwise p j
    → p ≡ k
nearer p k j x hp ej ek le = elim (next_clockwise p x hp) [
  | inl lt ↦ absurd (
      le_lt_absurd _ _ le
        (subst₂ (λ (a b : ℤ). clockwise p a < clockwise p b) (sym ej) (sym ek) lt))
  | inr here ↦ here ∙ sym ek
]

-- Let a well-formed ring hold an address, and let a key belong to the address that differs from it
-- in the last byte only, and there is one more, as "127.0.0.1:8002" after "127.0.0.1:8001". Then
-- the key has the hash of its address.
pub get_node_for_key_next_address :
    (key prefix : Bytes) (c : ℕ) (ring : Ring)
    → IsRing ring
    → at (hash_key (prefix ++ c ∷ [])) ring ≡ some (prefix ++ c ∷ [])
    → get_node_for_key key ring ≡ prefix ++ (c + 1) ∷ []
    → hash_key key ≡ hash_key (prefix ++ (c + 1) ∷ [])
get_node_for_key_next_address key prefix c [] h present owned = unfold at in cc present
get_node_for_key_next_address key prefix c (e ∷ ring) h present owned =
    let (k, own) = get_node_for_key-IsOwner key (e ∷ ring) h (cc) in
    let at_b = at-IsPlaced k _ (e ∷ ring) h.placed own.present ∙ ap hash_key owned in
    nearer (hash_key key) k (hash_key (prefix ++ c ∷ [])) (31 * hash_loop prefix 0 + c)
      (hash_key-IsInt32 key) (hash_key-concat prefix c) (at_b ∙ hash_key-concat_next prefix c)
      (own.nearest _ _ present)
    ∙ at_b
