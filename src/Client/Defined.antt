-- ===== src/Client/Defined.antt =====
-- The client program does nothing undefined, whatever comes back.
use libonionrequests.Common.{
  Bool-cases, ◌==◌, ℕ, suc, ◌+◌, ◌*◌, ◌≤◌, ◌<◌, ◌^◌, ◌≡◌, ◌≢◌, refl, subst, [], ◌∷◌, List-cases,
  inl, inr, Bytes, length, All, Option, some, none, Option-cases, Result, ok, undefined, or_throw,
  library_error, >>=-Defined, or_throw-Defined, When, >>=-When, arith, codes,
}
use libonionrequests.Libs.{Libs}
use libonionrequests.Libs.Omq.{Omq}
use libonionrequests.Libs.Curl.{Curl}
use libonionrequests.Libs.Oxenc.{DecodeLaws}
use libonionrequests.Node.{SnodeInfo, https_direct}
use libonionrequests.Onion.{
  OnionPath, OnionPayload, RemoteResource, snode, control_data, edge, first_of_hops, make_decrypter,
}
use libonionrequests.Channel.{ChannelEncryption, encrypt}
use libonionrequests.Channel.EncType.{EncryptType, xchacha20}
use libonionrequests.Junk.Envelope.{Laws}
use libonionrequests.Maker.{
  make_onion, make_layers, wrap, envelope, client, entry_fields, decrypt_response,
}
use libonionrequests.Maker.Bounds.{HasKey, make_onion_undefined_iff}
use libonionrequests.Maker.Response.{decrypt_response-Answered}
use libonionrequests.Random.{Draw}
use libonionrequests.Random.Sampling.{InRange, pick_random_first}
use libonionrequests.Paths.{Selector, Visit, store_node_list, create_path_selector}
use libonionrequests.Paths.Select.{VisitLaws, Holds, Holds-Permᴰ}
use libonionrequests.Paths.Origin.{maybe_select_hops_to-All}
use libonionrequests.Fetcher.{Nodes, Fetcher, fetch_all, create_node_fetcher}
use libonionrequests.Client.{
  send_payload, handler, request_json, request_along, send_onion, remote_of, got_nodes, seed, main,
}
use mathlib.Core.List.{reverse}
use mathlib.Core.List.Permᴰ

module _ (l : Libs) where
  -- The payload decrypts its response with `decrypt_response`, under some keys.
  abbrev Decrypts : EncryptType → OnionPayload × ℕ → Type 0
  Decrypts t (onion, r) =
      (d : ChannelEncryption) × (key : Bytes) × (onion.maybe_decrypt_response
        ≡ decrypt_response l t d key)

  make_onion-Decrypts :
      (t : EncryptType) (payload : Bytes) (path : OnionPath) (r : ℕ)
      → When (Decrypts t) (make_onion l t payload path r)
  unfolding make_onion make_layers
  make_onion-Decrypts t payload path r =
      >>=-When (Decrypts t) (or_throw (l.json.dump (control_data l path.remote)) library_error) _
        λ control e. elim (List-cases (reverse path.hops)) [
          | inl none_left ↦ rw none_left tt
          | inr (last, others, f) ↦
              let (public, secret) = l.sodium.box_keypair r in
              rw f (
                >>=-When (Decrypts t) (encrypt l (client secret public) t _ last.onion (suc r)) _
                  λ (sealed, r₁) g.
                    >>=-When (Decrypts t) (wrap l t last public sealed others r₁) _
                      λ ((key, blob), r₂) h.
                        >>=-When (Decrypts t) (envelope l t blob (entry_fields l t key)) _
                          λ text k. (client secret public, last.onion, refl))
        ]

  handler-Defined : (maybe : Option Bytes) → handler l maybe ≢ undefined
  unfolding handler
  handler-Defined none = λ p. cc
  handler-Defined (some text) = or_throw-Defined (l.json.parse text) library_error _ λ json e.
      elim (Option-cases (l.json.find json (codes "body"))) [
        | inl none_found ↦ rw none_found (λ p. cc)
        | inr (body, found) ↦ rw found (
            or_throw-Defined (l.json.get_string body) library_error _ λ inner_text f.
              or_throw-Defined (l.json.parse inner_text) library_error _
                λ inner g. or_throw-Defined (l.json.dump inner) library_error _ λ printed h p. cc)
      ]

  -- Nothing that comes back is longer than an `int` counts.
  abbrev pub IsSmall : Curl → Type 0
  IsSmall curl = (n : ℕ) (url blob : Bytes) → length (curl.post n url blob).1 < 2 ^ 31

  abbrev IsShort : Option Bytes → Type 0
  IsShort none = Unit {0}
  IsShort (some body) = length body < 2 ^ 31

  send_payload-small :
      (curl : Curl) (onion : OnionPayload) (r : ℕ)
      → IsSmall curl
      → onion.path.hops ≢ []
      → (response : Option Bytes) × (send_payload curl onion r ≡ ok response) × IsShort response
  unfolding send_payload edge first_of_hops
  send_payload-small curl onion r small some_hops = elim (List-cases onion.path.hops) [
    | inl e ↦ absurd (some_hops e)
    | inr (first, rest, e) ↦
        let (status, text) = curl.post r (https_direct first) onion.ciphertext in
        elim (Bool-cases (status == 200)) [
          | inl success ↦
              (some text, rw (e, success) refl, small r (https_direct first) onion.ciphertext)
          | inr failure ↦ (none, rw (e, failure) refl, tt)
        ]
  ]

  module _ (laws : Laws l) (decoding : DecodeLaws l.oxenc) (curl : Curl) (small : IsSmall curl)
      (payload : Bytes) (printed : l.json.dump (request_json l) ≡ some payload) where
    open laws use {crypto}

    responded-Defined :
        (onion : OnionPayload) (r : ℕ) (response : Option Bytes)
        → Decrypts xchacha20 (onion, r)
        → IsShort response
        → ◌≢◌ {A = Result ℕ}
            (elim response [ some body ↦ make_decrypter onion (handler l) body | none ↦ ok 1 ])
            undefined
    unfolding make_decrypter
    responded-Defined onion r none decrypts fits = λ p. cc
    responded-Defined onion r (some body) (d, key, e) fits =
        let (maybe, answered, read) =
          decrypt_response-Answered l xchacha20 d key crypto.evp_laws.sizes crypto.sodium_laws.aead
            decoding body (λ p. cc) fits in
        rw (e, answered) (handler-Defined maybe)

    -- Along a path with hops, whose identities have 32 bytes, the program's request is never undefined,
    -- whatever is answered: if the request and the control data can be printed, and no answer has
    -- 2 ^ 31 bytes, nor the payload, the control data and 1200 bytes for each hop together.
    pub request_along-Defined :
        (path : OnionPath) (control : Bytes) (r : ℕ)
        → path.hops ≢ []
        → All HasKey path.hops
        → l.json.dump (control_data l path.remote) ≡ some control
        → length payload + length control + 1200 * length path.hops < 2 ^ 31
        → request_along l curl path r ≢ undefined
    unfolding request_along
    request_along-Defined path control r some_hops keys control_printed fits =
        let (undefined_iff, made) =
          make_onion_undefined_iff l laws xchacha20 path payload control r keys control_printed
            fits in
        rw printed (
          >>=-Defined (make_onion l xchacha20 payload path r) _ (λ u. some_hops (undefined_iff.0 u))
            λ (onion, r') e.
              let (same_path, size, draws) = rw e at made in
              let decrypts = rw e at (make_onion-Decrypts xchacha20 payload path r) in
              let (response, sent, fits_response) =
                send_payload-small curl onion r' small (rw same_path some_hops) in
              rw sent (responded-Defined onion r' response decrypts fits_response))

    module _ (draw : Draw) (fair : InRange draw) (visit : Visit) (visits : VisitLaws visit) where
      send_onion-Defined :
          (selector : Selector) (remote : RemoteResource) (control : Bytes) (r : ℕ)
          → 1 ≤ length selector.snodelist
          → All (λ node. HasKey node.1) selector.snodelist
          → All HasKey selector.edges
          → l.json.dump (control_data l remote) ≡ some control
          → length payload + length control + 4800 < 2 ^ 31
          → send_onion l curl draw visit selector remote r ≢ undefined
      unfolding send_onion
      send_onion-Defined selector remote control r some_nodes keys edge_keys control_printed fits =
          let (after, edge, others, r', e, path_keys, size, edges_kept, nodes_kept) =
            maybe_select_hops_to-All draw fair visit visits HasKey selector remote r some_nodes keys
              edge_keys in
          rw e (
            request_along-Defined (record { hops = edge ∷ others; remote = remote }) control r'
              (λ p. cc) path_keys control_printed (omega (arith, size)))

      -- Once the nodes are fetched, with identities of 32 bytes, the program is never undefined, whatever
      -- is answered to its request: if no node was fetched, or the arguments name a remote, or name
      -- none and the remote is the node that the map visits first. The request and the control data
      -- can be printed; no answer has 2 ^ 31 bytes, nor the request, the control data and 4800 bytes
      -- together. The numbers drawn are in range, and a container is visited in some order of its
      -- elements.
      pub main-Defined :
          (q : Omq) (raw : ℕ → Bytes × Bytes) (args : Option (Bytes × Bytes)) (r r₁ : ℕ)
          (nodes : Nodes) (fetcher : Fetcher q) (target : RemoteResource) (control : Bytes)
          → fetch_all l q draw (λ seeds. seeds) raw (create_node_fetcher q (seed ∷ [])) r
            ≡ ok ((nodes, fetcher), r₁)
          → All (λ node. HasKey node.1) nodes
          → ((found : Bytes × SnodeInfo) (others : Nodes)
              → visit.nodes nodes ≡ found ∷ others
              → remote_of l args (snode found.1) ≡ ok (some target))
          → l.json.dump (control_data l target) ≡ some control
          → length payload + length control + 4800 < 2 ^ 31
          → main l q curl draw visit raw args r ≢ undefined
      unfolding main got_nodes store_node_list create_path_selector
      main-Defined q raw args r r₁ [] fetcher target control fetched keys named control_printed
            fits =
          rw fetched (λ p. cc)
      main-Defined q raw args r r₁ (node ∷ nodes) fetcher target control fetched keys named
            control_printed fits =
          elim (List-cases (visit.nodes (node ∷ nodes))) [
            | inl none_visited ↦ absurd (
                subst (Holds node) none_visited
                  (Holds-Permᴰ (Permᴰ.symm (visits.nodes_perm (node ∷ nodes))) node (inl refl)))
            | inr (found, others, visited) ↦
                rw
                  (
                    fetched,
                    visited,
                    pick_random_first draw fair found others r₁,
                    named found others visited,
                  )
                  (send_onion-Defined (record { snodelist = node ∷ nodes; edges = [] }) target
                    control (r₁ + suc (length others)) (omega arith) keys tt control_printed fits)
          ]
