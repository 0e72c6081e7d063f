-- ===== src/Network/Server/Descriptors.antt =====
-- The descriptors of a server: what it opens it closes, once.
use distributed_file_storage.Base.{
  ℕ, ◌+◌, ◌≡◌, refl, sym, ap, ◌∙◌, Bool-cases, inl, inr, none, some, List, [], ◌∷◌, ◌++◌, arith,
  if◌then◌else◌,
}
use distributed_file_storage.Base.Assoc.{Assoc, lookup, insert, erase, lookup-insert, lookup-erase}
use distributed_file_storage.Base.Equality.{ℕ_eq, ◌==◌}
use distributed_file_storage.Base.Int.{ℤ, eqb_ℤ}
use distributed_file_storage.Network.Server.{SocketContext, descriptor_of, sockets_of}

abbrev pub count : ℤ → List ℤ → ℕ
count d [] = 0
count d (e ∷ l) = (if eqb_ℤ d e then 1 else 0) + count d l

pub count-append : (d : ℤ) (l more : List ℤ) → count d (l ++ more) ≡ count d l + count d more
count-append d [] more = omega arith
count-append d (e ∷ l) more = omega (arith, count-append d l more)

abbrev pub Clients : Type 0
Clients = Assoc ℕ SocketContext

-- No id is in the table twice.
abbrev pub AreUnique : Clients → Type 0
AreUnique [] = Unit
AreUnique ((id, context) ∷ clients) = (lookup id clients ≡ none) × AreUnique clients

erase_absent : (id : ℕ) (clients : Clients) → lookup id clients ≡ none → erase id clients ≡ clients
unfolding lookup erase
erase_absent id [] h = refl
erase_absent id ((other, context) ∷ clients) h = elim (Bool-cases (other == id)) [
  | inl same ↦ cc (rw same at h)
  | inr apart ↦ rw apart (ap (λ l. (other, context) ∷ l) (erase_absent id clients (rw apart at h)))
]

sockets_of_step :
    (id : ℕ) (context : SocketContext) (clients : Clients)
    → sockets_of ((id, context) ∷ clients) ≡ descriptor_of context ++ sockets_of clients
unfolding sockets_of
sockets_of_step id context clients = refl

-- The socket of an entry that is erased is all that goes.
pub count-erase :
    (d : ℤ) (id : ℕ) (context : SocketContext) (clients : Clients)
    → AreUnique clients
    → lookup id clients ≡ some context
    → count d (sockets_of clients)
      ≡ count d (descriptor_of context) + count d (sockets_of (erase id clients))
unfolding lookup erase
count-erase d id context [] unique h = cc
count-erase d id context ((other, first) ∷ clients) (absent, unique) h =
    let whole =
      ap (count d) (sockets_of_step other first clients)
      ∙ count-append d (descriptor_of first) (sockets_of clients) in
    elim (Bool-cases (other == id)) [
      | inl same ↦
          let found : some first ≡ some context = rw same at h in
          let here : first ≡ context = cc found in
          let gone =
            erase_absent id clients
              (ap (λ k. lookup k clients) (sym ((ℕ_eq.equal_iff other id).0 same)) ∙ absent) in
          rw (same, gone)
            (whole ∙ ap (λ c. count d (descriptor_of c) + count d (sockets_of clients)) here)
      | inr apart ↦
          let later = count-erase d id context clients unique (rw apart at h) in
          let kept =
            ap (count d) (sockets_of_step other first (erase id clients))
            ∙ count-append d (descriptor_of first) (sockets_of (erase id clients)) in
          rw apart (omega (arith, whole, later, kept))
    ]

pub erase-AreUnique :
    (id : ℕ) (clients : Clients) → AreUnique clients → AreUnique (erase id clients)
unfolding erase
erase-AreUnique id [] unique = tt
erase-AreUnique id ((other, first) ∷ clients) (absent, unique) = elim (Bool-cases (other == id)) [
  | inl same ↦ rw same (erase-AreUnique id clients unique)
  | inr apart ↦
      rw apart
        (ground (arith, lookup-erase id other clients, absent), erase-AreUnique id clients unique)
]

-- A new entry adds its socket.
pub count-insert :
    (d : ℤ) (id : ℕ) (context : SocketContext) (clients : Clients)
    → lookup id clients ≡ none
    → count d (sockets_of (insert id context clients))
      ≡ count d (descriptor_of context) + count d (sockets_of clients)
unfolding lookup insert sockets_of
count-insert d id context [] h = count-append d (descriptor_of context) []
count-insert d id context ((other, first) ∷ clients) h = elim (Bool-cases (other == id)) [
  | inl same ↦ cc (rw same at h)
  | inr apart ↦
      let later = count-insert d id context clients (rw apart at h) in
      rw apart (
        omega (
          arith,
          later,
          count-append d (descriptor_of first) (sockets_of clients),
          count-append d (descriptor_of first) (sockets_of (insert id context clients)),
        ))
]

pub insert-AreUnique :
    (id : ℕ) (context : SocketContext) (clients : Clients)
    → lookup id clients ≡ none
    → AreUnique clients
    → AreUnique (insert id context clients)
unfolding lookup insert
insert-AreUnique id context [] h unique = (refl, tt)
insert-AreUnique id context ((other, first) ∷ clients) h (absent, unique) =
    elim (Bool-cases (other == id)) [
      | inl same ↦ cc (rw same at h)
      | inr apart ↦ rw apart (
        ground (
          arith,
          ℕ_eq.equal_iff other id,
          ℕ_eq.equal_iff id other,
          lookup-insert id other context clients,
          absent,
        ),
        insert-AreUnique id context clients (rw apart at h) unique,
      )
    ]
