-- ===== src/Fetcher/Requested.antt =====
-- What `RPCBody` asks for, and what is read of the reply.
use libonionrequests.Common.{
  ℕ, ◌≡◌, refl, List, [], ◌∷◌, Bytes, codes, length, All, some, Result-cases, inl, inr,
  insert_or_assign,
}
use libonionrequests.Libs.{Libs}
use libonionrequests.Node.{at_string, at_uint16, from_json}
use libonionrequests.Fetcher.{Nodes, requested_fields, add_entries, parse_node_list}

-- Two lists of nodes of which the fields that are requested agree.
abbrev pub Agree : (l : Libs) → List l.json.Value → List l.json.Value → Type 0
Agree l [] [] = Unit {0}
Agree l [] (b ∷ ys) = ⊥
Agree l (a ∷ xs) [] = ⊥
Agree l (a ∷ xs) (b ∷ ys) =
    All (λ field. l.json.at a field ≡ l.json.at b field) requested_fields × Agree l xs ys

module _ (l : Libs) where
  from_json_requested :
      (raw_identity raw_onion : Bytes) (a b : l.json.Value)
      → All (λ field. l.json.at a field ≡ l.json.at b field) requested_fields
      → from_json l raw_identity raw_onion a ≡ from_json l raw_identity raw_onion b
  unfolding from_json at_string at_uint16
  from_json_requested raw_identity raw_onion a b h =
      rw (h.0, h.1.0, h.1.1.0, h.1.1.1.0, h.1.1.1.1.0) refl

  length-Agree : (xs ys : List l.json.Value) → Agree l xs ys → length xs ≡ length ys
  length-Agree [] [] h = refl
  length-Agree [] (b ∷ ys) h = absurd h
  length-Agree (a ∷ xs) [] h = absurd h
  length-Agree (a ∷ xs) (b ∷ ys) h = cc (length-Agree xs ys h.1)

  module _ (raw : ℕ → Bytes × Bytes) where
    add_entries_requested :
        (xs ys : List l.json.Value) (list : Nodes)
        → Agree l xs ys
        → add_entries l raw xs list ≡ add_entries l raw ys list
    unfolding add_entries
    add_entries_requested [] [] list h = refl
    add_entries_requested [] (b ∷ ys) list h = absurd h
    add_entries_requested (a ∷ xs) [] list h = absurd h
    add_entries_requested (a ∷ xs) (b ∷ ys) list h =
        let m = raw (length ys) in
        rw (length-Agree xs ys h.1, from_json_requested m.0 m.1 a b h.0)
          (elim (Result-cases (from_json l m.0 m.1 b)) [
            | inl (node, e) ↦
                rw e (add_entries_requested xs ys (insert_or_assign node.identity node list) h.1)
            | inr (inl (x, e)) ↦ rw e refl
            | inr (inr e) ↦ rw e refl
          ])

    -- Of two replies whose nodes agree in the fields that `RPCBody` asks for, `ParseNodeList` makes
    -- the same: the same nodes, the same exception, or undefined behaviour. Nothing that is not asked
    -- for is read.
    pub parse_node_list_requested :
        (data_text other_text : Bytes) (val other states other_states : l.json.Value)
        → l.json.parse data_text ≡ some val
        → l.json.parse other_text ≡ some other
        → l.json.find val (codes "service_node_states") ≡ some states
        → l.json.find other (codes "service_node_states") ≡ some other_states
        → Agree l (l.json.elements states) (l.json.elements other_states)
        → parse_node_list l raw data_text ≡ parse_node_list l raw other_text
    unfolding parse_node_list
    parse_node_list_requested data_text other_text val other states other_states p p' f f' h =
        rw (p, p', f, f')
          (add_entries_requested (l.json.elements states) (l.json.elements other_states) [] h)
