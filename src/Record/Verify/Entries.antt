-- ===== src/Record/Verify/Entries.antt =====
-- What one node adds to the address book of src/record/verify.rs.
use hiero_streams_rs.Prelude.{
  ◌≡◌, ◌<◌, ◌⊎◌, refl, sym, ◌∙◌, false, ◌++◌, arith, ==_iff, ap, inl, inr, Option, none, some, List,
  ◌∷◌, ◌==◌, if◌then◌else◌, length, Bool-cases, All,
}
use hiero_streams_rs.Prelude.Int.{ℤ}
use hiero_streams_rs.Text.{Text, show_ℤ}
use hiero_streams_rs.Hapi
use hiero_streams_rs.Hapi.{or_decode_error, value}
use hiero_streams_rs.Proto.{NodeAddress}
use hiero_streams_rs.Transaction.{dotted}
use hiero_streams_rs.Record.Verify.{AddressBook, insert, add_node}

-- `key` is the RSA key that an entry of the book gives for the node "shard.realm.num" of its account.
pub record Gives (node : NodeAddress) (name key : Text) : Type 0 where
  pub id : Hapi.AccountId
  pub num : ℤ
  pub identified : node.node_account_id ≡ some id
  pub numbered : id.account ≡ some (Hapi.Account.account_num num)
  pub named : name ≡ show_ℤ id.shard_num ++ (b'.' ∷ (show_ℤ id.realm_num ++ (b'.' ∷ show_ℤ num)))
  pub keyed : key ≡ node.rsa_pub_key
  pub not_empty : 0 < length key

pub Gives-unique :
    (node : NodeAddress) (name key name' key' : Text)
    → Gives node name key
    → Gives node name' key'
    → (name ≡ name') × (key ≡ key')
Gives-unique node name key name' key' g g' =
    let same_id : g.id ≡ g'.id = cc (g.identified, g'.identified) in
    let same_num : g.num ≡ g'.num = cc (g.numbered, g'.numbered, same_id) in
    (cc (g.named, g'.named, same_id, same_num), g.keyed ∙ sym g'.keyed)

-- The node has no key in the rest of the book.
abbrev pub NoKey : Text → List NodeAddress → Type 0
NoKey name nodes = All (λ node. (key : Text) → ¬ Gives node name key) nodes

-- `key` is what the last entry that gives the node a key gives.
pub data LastKey (name key : Text) : List NodeAddress → Type 0 where
  last :
      {node : NodeAddress} {nodes : List NodeAddress}
      → Gives node name key
      → NoKey name nodes
      → LastKey name key (node ∷ nodes)
  later :
      {node : NodeAddress} {nodes : List NodeAddress}
      → LastKey name key nodes
      → LastKey name key (node ∷ nodes)

pub add_node-cases :
    (book : AddressBook) (node : NodeAddress)
    → ((name : Text) × (key : Text) × Gives node name key
        × (add_node book node ≡ insert name key book))
      ⊎ (((name key : Text) → ¬ Gives node name key) × (add_node book node ≡ book))
unfolding add_node dotted
add_node-cases book node = with_id node.node_account_id refl
  where
    Cases : AddressBook → Type 0
    Cases result =
        ((name : Text) × (key : Text) × Gives node name key × (result ≡ insert name key book))
        ⊎ (((name key : Text) → ¬ Gives node name key) × (result ≡ book))

    other_id :
        {name key : Text} (id : Hapi.AccountId)
        → node.node_account_id ≡ some id
        → (g : Gives node name key) → ¬ (id.account ≡ some (Hapi.Account.account_num g.num))
        → ⊥
    other_id id e g h = let same : id ≡ g.id = cc (e, g.identified) in h (cc (same, g.numbered))

    with_account :
        (id : Hapi.AccountId)
        → node.node_account_id ≡ some id
        → (length node.rsa_pub_key == 0) ≡ false
        → (a : Option Hapi.Account) → id.account ≡ a
        → Cases (elim a as (λ _. AddressBook) [
          | some (Hapi.Account.account_num n) ↦
              insert (dotted id.shard_num id.realm_num n) node.rsa_pub_key book
          | _ ↦ book
        ])
    with_account id e key none ea = inr (λ name k g. other_id id e g (λ h. cc (h, ea)), refl)
    with_account id e key (some (Hapi.Account.account_num n)) ea = inl (
      dotted id.shard_num id.realm_num n,
      node.rsa_pub_key,
      record {
        id = id;
        num = n;
        identified = e;
        numbered = ea;
        named = refl;
        keyed = refl;
        not_empty = ground (arith, key);
      },
      refl,
    )
    with_account id e key (some (Hapi.Account.alias b)) ea =
        inr (λ name k g. other_id id e g (λ h. cc (h, ea)), refl)

    with_id :
        (o : Option Hapi.AccountId)
        → node.node_account_id ≡ o
        → Cases (elim o as (λ _. AddressBook) [
          | none ↦ book
          | some id ↦
              if length node.rsa_pub_key == 0 then book else elim id.account as (λ _. AddressBook) [
                | some (Hapi.Account.account_num n) ↦
                    insert (dotted id.shard_num id.realm_num n) node.rsa_pub_key book
                | _ ↦ book
              ]
        ])
    with_id none e = inr (λ name k g. absurd (cc (e, g.identified)), refl)
    with_id (some id) e = elim (Bool-cases (length node.rsa_pub_key == 0)) [
      | inl empty ↦ rw empty (
          inr (
            λ name k g.
                absurd (omega (arith, g.not_empty, ap length g.keyed, (==_iff _ _).0 empty)),
            refl,
          ))
      | inr key ↦ rw key (with_account id e key id.account refl)
    ]
