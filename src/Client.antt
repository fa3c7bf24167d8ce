-- ===== src/Client.antt =====
-- tests/onionrequest.cpp: the client program, which fetches the nodes, chooses a path, sends one
-- request along it over HTTPS, and ends with an exit code.
pub mod Answer
pub mod Codes
pub mod Selected
pub mod Program
pub mod Exit
pub mod Defined
use libonionrequests.Common.{
  ℕ, suc, ◌+◌, ◌*◌, Bool, true, false, not, List, [], ◌∷◌, Bytes, codes, length, drop, Option, none,
  some, Result, ok, requires, or_throw, ◌>>=◌, ◌>>◌, Random, library_error, if◌then◌else◌, ◌==◌,
}
use libonionrequests.Libs.{Libs}
use libonionrequests.Libs.Omq.{Omq}
use libonionrequests.Libs.Curl.{Curl}
use libonionrequests.Node.{SnodeInfo, https_direct}
use libonionrequests.Sogs.{SogsInfo, https}
use libonionrequests.Onion.{
  RemoteResource, snode, sogs, OnionPath, OnionPayload, edge, make_decrypter,
}
use libonionrequests.Channel.EncType.{xchacha20}
use libonionrequests.Maker.{make_onion}
use libonionrequests.Random.{Draw, pick_random}
use libonionrequests.Paths.{
  Selector, Visit, store_node_list, create_path_selector, maybe_select_hops_to,
}
use libonionrequests.Fetcher.{Nodes, Fetcher, create_node_fetcher, fetch_all}
use libonionrequests.Keys.{null_bytes, write_out}

-- `Transport_CURL::SendPayload`: what the response handler is called with.
unfoldable pub send_payload : Curl → OnionPayload → ℕ → Result (Option Bytes)
send_payload curl payload r = do
  first ← edge payload.path
  let (status, text) = curl.post r (https_direct first) payload.ciphertext
  ok (if status == 200 then some text else none)

-- The callback of `refreshNodeList`: the remote that is picked, and the selector with its nodes.
unfoldable pub got_nodes :
    Draw → (Nodes → Nodes) → Nodes → Selector → Random (Option RemoteResource × Selector)
got_nodes draw visit [] selector r = ok ((none, selector), r)
got_nodes draw visit (n ∷ nodes) selector r = do
  (found, r') ← pick_random draw (visit (n ∷ nodes)) r
  ok ((some (snode found.1), store_node_list (n ∷ nodes) selector), r')

-- The seed node.
abbrev pub seed : Bytes
seed =
    codes
      "curve://public.loki.foundation:22027/3c157ed3c675f56280dc5d8b2f00b327b5865c127bf2c6c42becc3ca73d9132b"

module _ (l : Libs) where
  -- With two arguments the remote is an open group server. Its key is made of zeros before it is
  -- written to; the text is not tested to be hex.
  unfoldable pub remote_of :
      Option (Bytes × Bytes) → RemoteResource → Result (Option RemoteResource)
  remote_of none found = ok (some found)
  remote_of (some (hostname, hex)) found =
      if not (length hex == 64)
      then ok none
      else (requires (l.oxenc.is_hex hex) >>= λ _.
          write_out (l.oxenc.from_hex hex) (null_bytes 32) >>= λ key.
          ok (
            some
              (sogs (record { protocol = https; hostname = hostname; port = 443; onion = key }))))

  -- `handler`: the exit code, after the reply has been printed.
  unfoldable pub handler : Option Bytes → Result ℕ
  handler none = ok 1
  handler (some plaintext) = do
    json ← or_throw (l.json.parse plaintext) library_error
    elim (l.json.find json (codes "body")) [
      | none ↦ ok 0
      | some body ↦
          (or_throw (l.json.get_string body) library_error >>= λ text.
          or_throw (l.json.parse text) library_error >>= λ inner.
          or_throw (l.json.dump inner) library_error >>= λ printed. ok 0)
    ]

  -- The request that is sent.
  unfoldable pub request_json : l.json.Value
  request_json =
      let user_pubkey =
        codes "05fedcba9876543210fedcba9876543210fedcba9876543210fedcba9876543210" in
      l.json.object (
        (codes "method", l.json.string (codes "get_snodes_for_pubkey"))
        ∷ (codes "ephemeral_key", l.json.string (drop 2 user_pubkey))
        ∷ (codes "params", l.json.object ((codes "pubkey", l.json.string user_pubkey) ∷ []))
        ∷ [])

  -- `sendOnion` from the choice of the path on: the exit code.
  unfoldable pub request_along : Curl → OnionPath → ℕ → Result ℕ
  request_along curl path r = do
    payload ← or_throw (l.json.dump request_json) library_error
    (onion, r') ← make_onion l xchacha20 payload path r
    response ← send_payload curl onion r'
    elim response [ some body ↦ make_decrypter onion handler body | none ↦ ok 1 ]

  unfoldable pub send_onion : Curl → Draw → Visit → Selector → RemoteResource → ℕ → Result ℕ
  send_onion curl draw visit selector remote r = do
    ((selector', maybe), r') ← maybe_select_hops_to draw visit selector remote r
    elim maybe [ some path ↦ request_along curl path r' | none ↦ ok 1 ]

  -- `main`, from the fetcher's making on: the exit code. `raw` is the memory of the keys of the nodes
  -- that are read.
  unfoldable pub main :
      (q : Omq) → Curl → Draw → Visit → (ℕ → Bytes × Bytes) → Option (Bytes × Bytes) → ℕ → Result ℕ
  main q curl draw visit raw args r = do
    ((nodes, fetcher), r₁) ←
        fetch_all l q draw (λ seeds. seeds) raw (create_node_fetcher q (seed ∷ [])) r
    ((found, selector), r₂) ← got_nodes draw visit.nodes nodes create_path_selector r₁
    elim found [
      | none ↦ ok 1
      | some picked ↦
          (remote_of args picked >>= λ remote. elim remote [
            | some target ↦ send_onion curl draw visit selector target r₂
            | none ↦ ok 1
          ])
    ]
