-- ===== src/Record/Verify/Book.antt =====
-- The address book of src/record/verify.rs: the entry of each node.
use hiero_streams_rs.Prelude.{
  ◌≡◌, ◌≢◌, ◌⊎◌, ◌↔◌, refl, sym, ◌∙◌, false, ap, inl, inr, some, List, [], ◌∷◌, if◌then◌else◌,
  Bytes, Bool-cases, bytes_eq, bytes_eq→eq, bytes_eq_refl,
}
use hiero_streams_rs.Result.{ok}
use hiero_streams_rs.Text.{Text}
use hiero_streams_rs.Hapi.{value}
use hiero_streams_rs.Proto
use hiero_streams_rs.Proto.{NodeAddress}
use hiero_streams_rs.Record.Verify.{
  AddressBook, get, insert, add_node, add_nodes, parse_address_book,
}
use hiero_streams_rs.Record.Verify.Attested.{NoDup}
use hiero_streams_rs.Record.Verify.Keys.{keys, add_nodes-NoDup}
use hiero_streams_rs.Record.Verify.Entries.{
  Gives, Gives-unique, NoKey, LastKey, last, later, add_node-cases,
}

get-insert : (k v : Text) (book : AddressBook) → get k (insert k v book) ≡ some v
unfolding insert get
get-insert k v [] = rw (bytes_eq_refl k) refl
get-insert k v ((k', v') ∷ book) = elim (Bool-cases (bytes_eq k k')) [
  | inl same ↦ rw (same, get, bytes_eq_refl k) refl
  | inr other ↦ rw (other, get, other) (get-insert k v book)
]

bytes_eq_apart : (x y : Text) → x ≢ y → bytes_eq x y ≡ false
bytes_eq_apart x y n = elim (Bool-cases (bytes_eq x y)) [
  | inl same ↦ absurd (n (bytes_eq→eq x y same))
  | inr other ↦ other
]

get-insert_other :
    (x k v : Text) (book : AddressBook) → x ≢ k → get x (insert k v book) ≡ get x book
unfolding insert get
get-insert_other x k v [] n = rw (bytes_eq_apart x k n) refl
get-insert_other x k v ((k', v') ∷ book) n = elim (Bool-cases (bytes_eq k k')) [
  | inl same ↦
      let apart : bytes_eq x k' ≡ false =
        bytes_eq_apart x k' (λ h. n (h ∙ sym (bytes_eq→eq k k' same))) in
      rw (same, get, bytes_eq_apart x k n, apart) refl
  | inr other ↦
      rw (other, get)
        (ap (λ t. if bytes_eq x k' then some v' else t) (get-insert_other x k v book n))
]

get-add_node :
    (book : AddressBook) (node : NodeAddress) (name key : Text)
    → (get name (add_node book node) ≡ some key)
      ↔ (Gives node name key ⊎ (((k : Text) → ¬ Gives node name k) × (get name book ≡ some key)))
get-add_node book node name key = elim (add_node-cases book node) [
  | inl (name', key', gives, added) ↦ elim (Bool-cases (bytes_eq name name')) [
    | inl same ↦
        let e : name' ≡ name = sym (bytes_eq→eq name name' same) in
        let gives_name : Gives node name key' = rw e at gives in
        let found : get name (add_node book node) ≡ some key' =
          rw (added, e) (get-insert name key' book) in
        (
          λ h. let same_key : key' ≡ key = cc (found, h) in inl (rw same_key at gives_name),
          λ c. elim c [
            | inl g ↦ found ∙ ap some (Gives-unique node name key' name key gives_name g).1
            | inr (silent, h) ↦ absurd (silent key' gives_name)
          ],
        )
    | inr other ↦
        let apart : name ≢ name' =
          λ h. absurd (cc (ap (λ t. bytes_eq name t) h, bytes_eq_refl name, other)) in
        let kept : get name (add_node book node) ≡ get name book =
          rw added (get-insert_other name name' key' book apart) in
        (
          λ h. inr (λ k g. apart (Gives-unique node name k name' key' g gives).0, sym kept ∙ h),
          λ c. elim c [
            | inl g ↦ absurd (apart (Gives-unique node name key name' key' g gives).0)
            | inr (_, h) ↦ kept ∙ h
          ],
        )
  ]
  | inr (silent, kept) ↦
      let same : get name (add_node book node) ≡ get name book = ap (get name) kept in
      (
        λ h. inr (λ k. silent name k, sym same ∙ h),
        λ c. elim c [ inl g ↦ absurd (silent name key g) | inr (_, h) ↦ same ∙ h ],
      )
]

-- The key of a node after the rest of the nodes has been added.
add_nodes-get :
    (nodes : List NodeAddress) (book : AddressBook) (name key : Text)
    → (get name (add_nodes book nodes) ≡ some key)
      ↔ (LastKey name key nodes ⊎ (NoKey name nodes × (get name book ≡ some key)))
unfolding add_nodes
add_nodes-get [] book name key =
    (λ h. inr (tt, h), λ c. elim c [ inl k ↦ elim k [ ] | inr (_, h) ↦ h ])
add_nodes-get (node ∷ nodes) book name key =
    let (forth, back) = add_nodes-get nodes (add_node book node) name key in
    let (into, from) = get-add_node book node name key in
    (
      λ h. elim (forth h) [
        | inl k ↦ inl (later k)
        | inr (silent, g) ↦ elim (into g) [
          | inl gives ↦ inl (last gives silent)
          | inr (quiet, old) ↦ inr ((quiet, silent), old)
        ]
      ],
      λ c. elim c [
        | inl (last gives silent) ↦ back (inr (silent, from (inl gives)))
        | inl (later k) ↦ back (inl k)
        | inr ((quiet, silent), old) ↦ back (inr (silent, from (inr (quiet, old))))
      ],
    )

module _ ⦃pr : Proto.Proto⦄ where
  -- On every address book that decodes, `parse_address_book` returns a map. It has one entry for each
  -- name, and its entry for a name is the key of the last node that gives one: a node whose account is
  -- "shard.realm.num" in that name, is no alias, and has a key that is not empty.
  pub parse_address_book-get :
      (bytes : Bytes) (message : Proto.NodeAddressBook)
      → pr.decode_node_address_book bytes ≡ value message
      → (book : AddressBook) × (parse_address_book bytes ≡ ok book)
        × NoDup (keys book)
        × ((name key : Text) → (get name book ≡ some key) ↔ LastKey name key message.node_address)
  unfolding parse_address_book get
  parse_address_book-get bytes message e = (
    add_nodes [] message.node_address,
    rw e refl,
    add_nodes-NoDup message.node_address [] tt,
    λ name key.
        let (forth, back) = add_nodes-get message.node_address [] name key in
        (λ h. elim (forth h) [ inl k ↦ k | inr (_, n) ↦ absurd (cc n) ], λ k. back (inl k)),
  )
