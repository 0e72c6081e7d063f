-- ===== src/Tests/Dht.antt =====
-- Rings of one, two and no nodes.
use mathlib.Core.List.{Mem, eq-or-mem_of_mem-cons, not-mem-nil}
use mathlib.Core.List.Perm
use mathlib.Core.Logic.Or
use distributed_file_storage.Base.{
  sym, ◌∙◌, ◌+◌, ◌%◌, ◌^◌, ◌≡◌, ◌≢◌, refl, false, some, [], ◌∷◌, ◌++◌, Bytes, codes, take,
}
use distributed_file_storage.Base.Int.{ℤ, pos, eqb_ℤ, eqb_ℤ_refl, signed32}
use distributed_file_storage.Base.Equality.{bytes_eq}
use distributed_file_storage.Dht.Hash.{hash_key, polynomial, hash_key-eq-polynomial}
use distributed_file_storage.Dht.Ring.{
  Ring, at, add_node, remove_node, get_node_for_key, has_node, get_nodes_for_key,
}
use distributed_file_storage.Dht.Lookup.{IsRing, add_node-IsRing, remove_node-IsRing}
use distributed_file_storage.Dht.Owner.{IsOwner, get_node_for_key-IsOwner}
use distributed_file_storage.Dht.Changes.{add_node_collision}
use distributed_file_storage.Dht.Successors.{walk, get_nodes_for_key-eq-take}
use distributed_file_storage.Client.Upload.{new_client}
use distributed_file_storage.Dht.Order.{NoClash, new_client-perm}
use distributed_file_storage.Dht.Balance.{get_node_for_key_next_address}

abbrev first_node : Bytes
first_node = codes "127.0.0.1:8001"

abbrev second_node : Bytes
second_node = codes "127.0.0.1:8002"

abbrev far_node : Bytes
far_node = codes "10.0.0.7:9000"

abbrev two_nodes : Ring
two_nodes = add_node second_node (add_node first_node [])

no_nodes-IsRing : IsRing []
no_nodes-IsRing = record { sorted = tt; placed = tt }

two_nodes-IsRing : IsRing two_nodes
two_nodes-IsRing =
    add_node-IsRing second_node (add_node first_node [])
      (add_node-IsRing first_node [] no_nodes-IsRing)

two_nodes-ne-nil : two_nodes ≢ []
unfolding add_node
two_nodes-ne-nil = λ e. cc

hash_first_node : hash_key first_node ≡ ℤ.negsuc 35736873
unfolding hash_key
hash_first_node = refl

hash_far_node : eqb_ℤ (hash_key far_node) (hash_key first_node) ≡ false
unfolding hash_key
hash_far_node = refl

owner_far_node : get_node_for_key (codes "a") two_nodes ≡ first_node
unfolding get_node_for_key add_node
owner_far_node = refl

replicas_of_a :
    get_nodes_for_key (codes "a") (pos 5) two_nodes ≡ some (first_node ∷ second_node ∷ [])
unfolding get_nodes_for_key add_node bytes_eq
replicas_of_a = refl

first_node_present :
    at (hash_key (codes "127.0.0.1:800" ++ b'1' ∷ [])) two_nodes
    ≡ some (codes "127.0.0.1:800" ++ b'1' ∷ [])
unfolding at add_node
first_node_present = refl

second_node_owned :
    get_node_for_key second_node two_nodes ≡ codes "127.0.0.1:800" ++ (b'1' + 1) ∷ []
unfolding get_node_for_key add_node
second_node_owned = refl

eqb_ℤ_differ : (a b : ℤ) → eqb_ℤ a b ≡ false → a ≢ b
eqb_ℤ_differ a b apart same = cc (rw same at apart, eqb_ℤ_refl b)

far_node_apart : hash_key far_node ≢ hash_key (get_node_for_key (codes "a") two_nodes)
unfolding hash_key get_node_for_key add_node
far_node_apart = λ e. eqb_ℤ_differ _ _ refl e

same_hash : hash_key (codes "Aa") ≡ hash_key (codes "BB")
unfolding hash_key
same_hash = refl

hash_key-eq-polynomial_example :
    hash_key (codes "ring") ≡ signed32 (polynomial (codes "ring") 0 % 2 ^ 32)
hash_key-eq-polynomial_example = hash_key-eq-polynomial (codes "ring")

add_node-IsRing_example : IsRing (add_node far_node two_nodes)
add_node-IsRing_example = add_node-IsRing far_node two_nodes two_nodes-IsRing

remove_node-IsRing_example : IsRing (remove_node first_node two_nodes)
remove_node-IsRing_example = remove_node-IsRing first_node two_nodes two_nodes-IsRing

get_node_for_key-IsOwner_example :
    (k : ℤ) × IsOwner (hash_key (codes "a")) two_nodes k (get_node_for_key (codes "a") two_nodes)
get_node_for_key-IsOwner_example =
    get_node_for_key-IsOwner (codes "a") two_nodes two_nodes-IsRing two_nodes-ne-nil

add_node_collision_example :
    (at (hash_key (codes "Aa")) (add_node (codes "BB") (add_node (codes "Aa") two_nodes))
      ≡ some (codes "BB"))
    × (has_node
          (codes "BB")
          (remove_node (codes "Aa") (add_node (codes "BB") (add_node (codes "Aa") two_nodes)))
        ≡ false)
add_node_collision_example =
    add_node_collision (codes "Aa") (codes "BB") two_nodes two_nodes-IsRing same_hash

get_nodes_for_key-eq-take_example :
    get_nodes_for_key (codes "a") (pos 1) two_nodes ≡ some (take 1 (walk (codes "a") two_nodes))
get_nodes_for_key-eq-take_example =
    get_nodes_for_key-eq-take (codes "a") (pos 1) two_nodes two_nodes-IsRing

get_node_for_key_next_address_example :
    hash_key second_node ≡ hash_key (codes "127.0.0.1:800" ++ (b'1' + 1) ∷ [])
get_node_for_key_next_address_example =
    get_node_for_key_next_address second_node (codes "127.0.0.1:800") b'1' two_nodes
      two_nodes-IsRing first_node_present second_node_owned

set_of_bytes : IsSet Bytes
set_of_bytes = hlevel

Bytes_only : (a x : Bytes) → Mem x (a ∷ []) → x ≡ a
Bytes_only a x m =
    Or.elim (set_of_bytes x a) (eq-or-mem_of_mem-cons m) (λ e. e) (λ n. absurd (not-mem-nil n))

-- Of two nodes with different hashes none is taken for the other.
two_apart : (a b : Bytes) → hash_key a ≢ hash_key b → NoClash (a ∷ b ∷ [])
two_apart a b apart x y mx my same =
    Or.elim (set_of_bytes x y) (eq-or-mem_of_mem-cons mx)
      (λ xa.
        Or.elim (set_of_bytes x y) (eq-or-mem_of_mem-cons my) (λ ya. xa ∙ sym ya)
          (λ ny. absurd (apart (cc (xa, Bytes_only b y ny, same)))))
      (λ nx.
        Or.elim (set_of_bytes x y) (eq-or-mem_of_mem-cons my)
          (λ ya. absurd (apart (cc (ya, Bytes_only b x nx, same))))
          (λ ny. Bytes_only b x nx ∙ sym (Bytes_only b y ny)))

far_ne_first : hash_key far_node ≢ hash_key first_node
far_ne_first = eqb_ℤ_differ _ _ hash_far_node

new_client-perm_example :
    new_client (far_node ∷ first_node ∷ []) [] ≡ new_client (first_node ∷ far_node ∷ []) []
new_client-perm_example =
    new_client-perm (far_node ∷ first_node ∷ []) (first_node ∷ far_node ∷ []) []
      (Perm.swap first_node far_node []) (two_apart far_node first_node far_ne_first)
