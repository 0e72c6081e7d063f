-- ===== src/Dht/Changes.antt =====
-- What `addNode` and `removeNode` change: the membership of the ring, and the owners of the keys.
use distributed_file_storage.Base.{
  ◌≡◌, ◌≢◌, sym, ◌∙◌, ◌⊎◌, inl, inr, true, false, ◌&&◌, Bool-cases, some, [], ◌∷◌, arith, Bytes,
}
use mathlib.Core.Bool.{not}
use mathlib.Core.Option.{some-injective}
use distributed_file_storage.Base.Int.{ℤ, eqb_ℤ, eqb_ℤ_ne}
use distributed_file_storage.Dht.Hash.{hash_key}
use distributed_file_storage.Dht.Ring.{
  Ring, at, insert, add_node, remove_node, has_node, get_node_for_key,
}
use distributed_file_storage.Dht.Lookup.{
  IsRing, at-insert, at-erase, at-IsPlaced, add_node-IsRing, remove_node-IsRing,
}
use distributed_file_storage.Dht.Owner.{IsOwner, get_node_for_key-IsOwner, get_node_for_key_unique}

-- On a well-formed ring, after `removeNode b`, `hasNode` is true of the addresses of which it was
-- before, but for those with the hash of `b`.
pub has_node-remove_node :
    (a b : Bytes) (ring : Ring)
    → IsRing ring
    → has_node a (remove_node b ring) ≡ (not (eqb_ℤ (hash_key b) (hash_key a)) && has_node a ring)
unfolding has_node remove_node
has_node-remove_node a b ring h = ground (arith, at-erase (hash_key a) (hash_key b) ring h.sorted)

-- Let two addresses have one hash and the ring be well-formed: adding the second after the first
-- leaves the second at that position, and removing the first then leaves neither.
pub add_node_collision :
    (a b : Bytes) (ring : Ring)
    → IsRing ring
    → hash_key a ≡ hash_key b
    → (at (hash_key a) (add_node b (add_node a ring)) ≡ some b)
      × (has_node b (remove_node a (add_node b (add_node a ring))) ≡ false)
add_node_collision a b ring h same =
    let first = add_node-IsRing a ring h in
    let both = add_node-IsRing b (add_node a ring) first in
    (
      unfold add_node in ground (arith, at-insert (hash_key a) (hash_key b) b (add_node a ring)),
      rw (has_node-remove_node b a (add_node b (add_node a ring)) both) (ground arith),
    )

add_node-ne-nil : (a : Bytes) (ring : Ring) → add_node a ring ≢ []
unfolding add_node insert
add_node-ne-nil a [] = λ e. cc
add_node-ne-nil a ((k, v) ∷ ring) = λ e. ground arith

module _ (key : Bytes) (ring : Ring) (h : IsRing ring) where
  remove_node-IsOwner :
      (p k : ℤ) (gone node : Bytes)
      → eqb_ℤ (hash_key gone) k ≡ false
      → IsOwner p ring k node
      → IsOwner p (remove_node gone ring) k node
  unfolding remove_node
  remove_node-IsOwner p k gone node apart own = record {
    present = rw (at-erase k (hash_key gone) ring h.sorted, apart) own.present;
    nearest = λ j w e. own.nearest j w (ground (arith, at-erase j (hash_key gone) ring h.sorted));
  }

  add_node-IsOwner :
      (p k : ℤ) (new node : Bytes)
      → eqb_ℤ (hash_key new) k ≡ false
      → IsOwner p (add_node new ring) k node
      → IsOwner p ring k node
  unfolding add_node
  add_node-IsOwner p k new node apart own = record {
    present = rw (at-insert k (hash_key new) new ring, apart) at own.present;
    nearest = λ j w e. elim (Bool-cases (eqb_ℤ (hash_key new) j)) [
      | inl same ↦ own.nearest j new (rw (at-insert j (hash_key new) new ring, same))
      | inr other ↦ own.nearest j w (rw (at-insert j (hash_key new) new ring, other) e)
    ];
  }

  moved :
      (new : Bytes) (k : ℤ) (node : Bytes)
      → eqb_ℤ (hash_key new) k ≡ true
      → IsOwner (hash_key key) (add_node new ring) k node
      → node ≡ new
  unfolding add_node
  moved new k node same own =
      some-injective node new (sym own.present ∙ rw (at-insert k (hash_key new) new ring, same))

  -- On a well-formed ring that is not empty, removing an address whose hash is not that of the
  -- key's node leaves the key with its node.
  pub get_node_for_key-remove_node :
      (gone : Bytes)
      → hash_key gone ≢ hash_key (get_node_for_key key ring)
      → ring ≢ []
      → get_node_for_key key (remove_node gone ring) ≡ get_node_for_key key ring
  get_node_for_key-remove_node gone apart some_node =
      let (k, own) = get_node_for_key-IsOwner key ring h some_node in
      let apart' = eqb_ℤ_ne (hash_key gone) k (λ same.
        apart (same ∙ at-IsPlaced k (get_node_for_key key ring) ring h.placed own.present)) in
      get_node_for_key_unique key (remove_node gone ring) (remove_node-IsRing gone ring h)
        (remove_node-IsOwner (hash_key key) k gone _ apart' own)

  -- On a well-formed ring, adding a node leaves a key with its node, or moves it to the new one.
  pub get_node_for_key-add_node :
      (new : Bytes)
      → (get_node_for_key key (add_node new ring) ≡ new)
        ⊎ (get_node_for_key key (add_node new ring) ≡ get_node_for_key key ring)
  get_node_for_key-add_node new =
      let (k, own) =
        get_node_for_key-IsOwner key (add_node new ring) (add_node-IsRing new ring h)
          (add_node-ne-nil new ring) in
      elim (Bool-cases (eqb_ℤ (hash_key new) k)) [
        | inl same ↦ inl (moved new k _ same own)
        | inr other ↦ inr (
            sym (
              get_node_for_key_unique key ring h
                (add_node-IsOwner (hash_key key) k new _ other own)))
      ]
