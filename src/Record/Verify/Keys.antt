-- ===== src/Record/Verify/Keys.antt =====
-- The address book of src/record/verify.rs has one entry for each name.
use hiero_streams_rs.Prelude.{
  ◌≢◌, ap, inl, inr, Option, none, some, List, [], ◌∷◌, map, ◌==◌, if◌then◌else◌, length,
  Bool-cases, All, bytes_eq, bytes_eq→eq, bytes_eq_refl,
}
use hiero_streams_rs.Text.{Text}
use hiero_streams_rs.Hapi
use hiero_streams_rs.Hapi.{or_decode_error, value}
use hiero_streams_rs.Proto.{NodeAddress}
use hiero_streams_rs.Transaction.{dotted}
use hiero_streams_rs.Record.Verify.{AddressBook, insert, add_node, add_nodes}
use hiero_streams_rs.Record.Verify.Attested.{NoDup}

abbrev pub keys : AddressBook → List Text
keys = map λ e. e.0

insert-apart :
    (x k v : Text) (book : AddressBook)
    → x ≢ k
    → All (λ y. x ≢ y) (keys book)
    → All (λ y. x ≢ y) (keys (insert k v book))
unfolding insert
insert-apart x k v [] n a = (n, tt)
insert-apart x k v ((k', v') ∷ book) n (m, a) = elim (Bool-cases (bytes_eq k k')) [
  | inl same ↦ rw (same, insert) (n, a)
  | inr other ↦ rw (other, insert) (m, insert-apart x k v book n a)
]

insert-NoDup :
    (k v : Text) (book : AddressBook) → NoDup (keys book) → NoDup (keys (insert k v book))
unfolding insert
insert-NoDup k v [] h = (tt, tt)
insert-NoDup k v ((k', v') ∷ book) (a, h) = elim (Bool-cases (bytes_eq k k')) [
  | inl same ↦ let e = bytes_eq→eq k k' same in rw (same, insert) (rw e a, h)
  | inr other ↦
      let apart : k' ≢ k = λ e. absurd (cc (ap (λ t. bytes_eq k t) e, bytes_eq_refl k)) in
      rw (other, insert) (insert-apart k' k v book apart a, insert-NoDup k v book h)
]

add_node-NoDup :
    (book : AddressBook) (node : NodeAddress)
    → NoDup (keys book)
    → NoDup (keys (add_node book node))
unfolding add_node
add_node-NoDup book node h = with_id node.node_account_id
  where
    with_account :
        (id : Hapi.AccountId) (a : Option Hapi.Account)
        → NoDup (
            keys (elim a as (λ _. AddressBook) [
              | some (Hapi.Account.account_num n) ↦
                  insert (dotted id.shard_num id.realm_num n) node.rsa_pub_key book
              | _ ↦ book
            ]))
    with_account id none = h
    with_account id (some (Hapi.Account.account_num n)) = insert-NoDup _ _ book h
    with_account id (some (Hapi.Account.alias b)) = h

    with_id :
        (o : Option Hapi.AccountId)
        → NoDup (
            keys (elim o as (λ _. AddressBook) [
              | none ↦ book
              | some id ↦
                  if length node.rsa_pub_key == 0
                  then book
                  else elim id.account as (λ _. AddressBook) [
                    | some (Hapi.Account.account_num n) ↦
                        insert (dotted id.shard_num id.realm_num n) node.rsa_pub_key book
                    | _ ↦ book
                  ]
            ]))
    with_id none = h
    with_id (some id) = elim (Bool-cases (length node.rsa_pub_key == 0)) [
      | inl empty ↦ rw empty h
      | inr key ↦ rw key (with_account id id.account)
    ]

pub add_nodes-NoDup :
    (nodes : List NodeAddress) (book : AddressBook)
    → NoDup (keys book)
    → NoDup (keys (add_nodes book nodes))
unfolding add_nodes
add_nodes-NoDup [] book h = h
add_nodes-NoDup (node ∷ nodes) book h =
    add_nodes-NoDup nodes (add_node book node) (add_node-NoDup book node h)
