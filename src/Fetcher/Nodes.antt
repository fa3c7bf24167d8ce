-- ===== src/Fetcher/Nodes.antt =====
-- What `ParseNodeList` makes of the entries of a node list.
use libonionrequests.Common.{
  ℕ, ◌≡◌, refl, ap, ◌∙◌, false, List, [], ◌∷◌, Bytes, codes, length, lookup, bytes_eq, bytes_eq→eq,
  insert_or_assign, subst, When, >>=-When, lookup-insert_or_assign, Option, none, some, Result,
  Result-cases, Error, err, undefined, ◌⊎◌, ok, Bool-cases, inl, inr, All, arith, if◌then◌else◌,
}
use libonionrequests.Libs.{Libs}
use libonionrequests.Node.{SnodeInfo, from_json}
use libonionrequests.Fetcher.{Nodes, add_entries, parse_node_list}

-- Every node stands under its own identity, and no identity stands twice.
abbrev pub IsKeyed : Nodes → Type 0
IsKeyed [] = Unit {0}
IsKeyed ((k, node) ∷ nodes) =
    (k ≡ node.identity) × All (λ e. bytes_eq k e.0 ≡ false) nodes × IsKeyed nodes

-- The nodes that are read of entries, in their order.
abbrev pub Reads : (l : Libs) → (ℕ → Bytes × Bytes) → List l.json.Value → List SnodeInfo → Type 0
Reads l raw [] [] = Unit {0}
Reads l raw [] (node ∷ nodes) = ⊥
Reads l raw (entry ∷ entries) [] = ⊥
Reads l raw (entry ∷ entries) (node ∷ nodes) =
    (from_json l (raw (length entries)).0 (raw (length entries)).1 entry ≡ ok node)
    × Reads l raw entries nodes

-- The first entry that is not read as a node is read with this outcome.
abbrev pub StopsWith :
    (l : Libs) → (ℕ → Bytes × Bytes) → List l.json.Value → Result SnodeInfo → Type 0
StopsWith l raw [] outcome = ⊥
StopsWith l raw (entry ∷ entries) outcome =
    (from_json l (raw (length entries)).0 (raw (length entries)).1 entry ≡ outcome)
    ⊎ ((node : SnodeInfo) × (from_json l (raw (length entries)).0 (raw (length entries)).1 entry
          ≡ ok node)
        × StopsWith l raw entries outcome)

-- The last node of an identity, or else `before`.
abbrev pub last_of : Bytes → List SnodeInfo → Option SnodeInfo → Option SnodeInfo
last_of k [] before = before
last_of k (node ∷ nodes) before =
    last_of k nodes (if bytes_eq node.identity k then some node else before)

insert-All :
    (k : Bytes) (node : SnodeInfo) (j : Bytes) (nodes : Nodes)
    → bytes_eq j k ≡ false
    → All (λ e. bytes_eq j e.0 ≡ false) nodes
    → All (λ e. bytes_eq j e.0 ≡ false) (insert_or_assign k node nodes)
unfolding insert_or_assign
insert-All k node j [] h a = (h, tt)
insert-All k node j ((i, other) ∷ nodes) h a = ground (arith, insert-All k node j nodes h a.1)

insert_or_assign-IsKeyed :
    (node : SnodeInfo) (nodes : Nodes)
    → IsKeyed nodes
    → IsKeyed (insert_or_assign node.identity node nodes)
unfolding insert_or_assign
insert_or_assign-IsKeyed node [] h = (refl, tt, tt)
insert_or_assign-IsKeyed node ((k, other) ∷ nodes) h =
    elim (Bool-cases (bytes_eq k node.identity)) [
      | inl e ↦ rw e (bytes_eq→eq k node.identity e, h.1, h.2)
      | inr e ↦ rw e (
        h.0,
        insert-All node.identity node k nodes e h.1,
        insert_or_assign-IsKeyed node nodes h.2,
      )
    ]

module _ (l : Libs) (raw : ℕ → Bytes × Bytes) where
  add_entries-IsKeyed :
      (entries : List l.json.Value) (list : Nodes)
      → IsKeyed list
      → When IsKeyed (add_entries l raw entries list)
  unfolding add_entries
  add_entries-IsKeyed [] list h = h
  add_entries-IsKeyed (entry ∷ entries) list h =
      >>=-When IsKeyed (from_json l (raw (length entries)).0 (raw (length entries)).1 entry)
        (λ info. add_entries l raw entries (insert_or_assign info.identity info list))
        (λ info p.
          add_entries-IsKeyed entries (insert_or_assign info.identity info list)
            (insert_or_assign-IsKeyed info list h))

  add_entries_lem :
      (entries : List l.json.Value) (read : List SnodeInfo) (list : Nodes)
      → Reads l raw entries read
      → (nodes : Nodes) × (add_entries l raw entries list ≡ ok nodes)
        × ((k : Bytes) → lookup k nodes ≡ last_of k read (lookup k list))
  unfolding add_entries
  add_entries_lem [] [] list h = (list, refl, λ k. refl)
  add_entries_lem [] (node ∷ read) list h = absurd h
  add_entries_lem (entry ∷ entries) [] list h = absurd h
  add_entries_lem (entry ∷ entries) (node ∷ read) list h =
      let (nodes, e, f) =
        add_entries_lem entries read (insert_or_assign node.identity node list) h.1 in
      (
        nodes,
        rw (h.0) e,
        λ k. f k ∙ ap (last_of k read) (lookup-insert_or_assign k node.identity node list),
      )

  -- All entries are read, or one of them throws or is undefined.
  pub entries-cases :
      (entries : List l.json.Value)
      → ((read : List SnodeInfo) × Reads l raw entries read)
        ⊎ ((e : Error) × StopsWith l raw entries (err e))
        ⊎ StopsWith l raw entries undefined
  entries-cases [] = inl ([], tt)
  entries-cases (entry ∷ entries) =
      elim (Result-cases (from_json l (raw (length entries)).0 (raw (length entries)).1 entry)) [
        | inr (inl (x, e)) ↦ inr (inl (x, inl e))
        | inr (inr e) ↦ inr (inr (inl e))
        | inl (node, e) ↦ elim (entries-cases entries) [
          | inl (read, h) ↦ inl (node ∷ read, (e, h))
          | inr (inl (x, h)) ↦ inr (inl (x, inr (node, e, h)))
          | inr (inr h) ↦ inr (inr (inr (node, e, h)))
        ]
      ]

  pub add_entries_thrown :
      (entries : List l.json.Value) (list : Nodes) (x : Error)
      → StopsWith l raw entries (err x)
      → add_entries l raw entries list ≡ err x
  unfolding add_entries
  add_entries_thrown [] list x h = absurd h
  add_entries_thrown (entry ∷ entries) list x (inl e) = rw e refl
  add_entries_thrown (entry ∷ entries) list x (inr (node, e, h)) =
      rw e (add_entries_thrown entries (insert_or_assign node.identity node list) x h)

  pub add_entries_undefined :
      (entries : List l.json.Value) (list : Nodes)
      → StopsWith l raw entries undefined
      → add_entries l raw entries list ≡ undefined
  unfolding add_entries
  add_entries_undefined [] list h = absurd h
  add_entries_undefined (entry ∷ entries) list (inl e) = rw e refl
  add_entries_undefined (entry ∷ entries) list (inr (node, e, h)) =
      rw e (add_entries_undefined entries (insert_or_assign node.identity node list) h)

  -- If every entry can be read, `ParseNodeList` succeeds: each node stands under its own identity, once,
  -- and what stands under an identity is the last node of that identity in the list.
  pub parse_node_list_last :
      (data_text : Bytes) (val states : l.json.Value) (read : List SnodeInfo)
      → l.json.parse data_text ≡ some val
      → l.json.find val (codes "service_node_states") ≡ some states
      → Reads l raw (l.json.elements states) read
      → (nodes : Nodes) × (parse_node_list l raw data_text ≡ ok nodes)
        × IsKeyed nodes
        × ((k : Bytes) → lookup k nodes ≡ last_of k read none)
  unfolding parse_node_list
  parse_node_list_last data_text val states read p e h =
      let (nodes, done, last) = add_entries_lem (l.json.elements states) read [] h in
      (
        nodes,
        rw (p, e) done,
        subst (When IsKeyed) done (add_entries-IsKeyed (l.json.elements states) [] tt),
        last,
      )
