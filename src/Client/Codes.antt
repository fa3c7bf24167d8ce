-- ===== src/Client/Codes.antt =====
-- The exit codes of the client program.
use libonionrequests.Common.{
  ℕ, ◌≡◌, ◌⊎◌, inl, inr, refl, ap, List, ◌∷◌, List-cases, Bytes, codes, Option, some, none,
  Option-cases, ok, or_throw, library_error, When, When-map, >>=-When, Bool-cases, ◌==◌, ==→eq,
  subst,
}
use libonionrequests.Libs.{Libs}
use libonionrequests.Libs.Curl.{Curl}
use libonionrequests.Node.{SnodeInfo, https_direct}
use libonionrequests.Onion.{OnionPath, OnionPayload, edge, first_of_hops, make_decrypter}
use libonionrequests.Channel.EncType.{xchacha20}
use libonionrequests.Maker.{make_onion}
use libonionrequests.Client.{send_payload, handler, request_json, request_along}

module _ (l : Libs) (curl : Curl) where
  -- A response is the body of a post to the first hop that was answered with the status 200.
  abbrev pub Posted : OnionPayload → ℕ → Bytes → Type 0
  Posted onion r body =
      (first : SnodeInfo) × (rest : List SnodeInfo) × (onion.path.hops ≡ first ∷ rest)
      × (curl.post r (https_direct first) onion.ciphertext ≡ (200, body))

  abbrev IsResponse : OnionPayload → ℕ → Option Bytes → Type 0
  IsResponse onion r none = Unit {0}
  IsResponse onion r (some body) = Posted onion r body

  send_payload-IsResponse :
      (onion : OnionPayload) (r : ℕ) → When (IsResponse onion r) (send_payload curl onion r)
  unfolding send_payload edge first_of_hops
  send_payload-IsResponse onion r = elim (List-cases onion.path.hops) [
    | inl e ↦ rw (e, first_of_hops) tt
    | inr (first, rest, e) ↦
        let answer = curl.post r (https_direct first) onion.ciphertext in
        elim (Bool-cases (answer.0 == 200)) [
          | inl success ↦
              rw (e, first_of_hops, success)
                (first, rest, refl, ap (λ (n : ℕ). (n, answer.1)) (==→eq answer.0 200 success))
          | inr failure ↦ rw (e, first_of_hops, failure) tt
        ]
  ]

  -- Why the program ends with a code: with 0 only after a reply that was decrypted.
  abbrev pub Ended : OnionPath → ℕ → ℕ → Type 0
  Ended path r code =
      (code ≡ 1)
      ⊎ ((code ≡ 0)
          × ((payload : Bytes) × (onion : OnionPayload) × (r' : ℕ) × (body text : Bytes)
              × (make_onion l xchacha20 payload path r ≡ ok (onion, r'))
              × Posted onion r' body
              × (onion.maybe_decrypt_response body ≡ ok (some text))))

  printed_zero : (text : Bytes) → When (λ code. code ≡ 0) (handler l (some text))
  unfolding handler
  printed_zero text =
      >>=-When (λ code. code ≡ 0) (or_throw (l.json.parse text) library_error) _
        λ json e. elim (Option-cases (l.json.find json (codes "body"))) [
          | inl none_found ↦ rw none_found refl
          | inr (body, found) ↦ rw found (
              >>=-When (λ code. code ≡ 0) (or_throw (l.json.get_string body) library_error) _
                λ inner_text f.
                  >>=-When (λ code. code ≡ 0) (or_throw (l.json.parse inner_text) library_error) _
                    λ inner g.
                      >>=-When (λ code. code ≡ 0) (or_throw (l.json.dump inner) library_error) _
                        λ printed h. refl)
        ]

  failed_one : handler l none ≡ ok 1
  unfolding handler
  failed_one = refl

  handled :
      (path : OnionPath) (r : ℕ) (payload : Bytes) (onion : OnionPayload) (r' : ℕ) (body : Bytes)
      (maybe : Option Bytes)
      → make_onion l xchacha20 payload path r ≡ ok (onion, r')
      → Posted onion r' body
      → onion.maybe_decrypt_response body ≡ ok maybe
      → When (Ended path r) (handler l maybe)
  handled path r payload onion r' body none made posted e = rw failed_one (inl refl)
  handled path r payload onion r' body (some text) made posted e =
      When-map (λ code. code ≡ 0) (Ended path r) (handler l (some text))
        (λ code zero_code. inr (zero_code, (payload, onion, r', body, text, made, posted, e)))
        (printed_zero text)

  responded :
      (path : OnionPath) (r : ℕ) (payload : Bytes) (onion : OnionPayload) (r' : ℕ)
      (response : Option Bytes)
      → make_onion l xchacha20 payload path r ≡ ok (onion, r')
      → IsResponse onion r' response
      → When
          (Ended path r)
          (elim response [ some body ↦ make_decrypter onion (handler l) body | none ↦ ok 1 ])
  unfolding make_decrypter
  responded path r payload onion r' none made h = inl refl
  responded path r payload onion r' (some body) made h =
      >>=-When (Ended path r) (onion.maybe_decrypt_response body) _
        λ maybe e. handled path r payload onion r' body maybe made h e

  -- Where the program returns from a request along a path, its exit code is 0 or 1, and it is 0 only if
  -- the post to the first hop was answered with the status 200 and a body that was decrypted.
  pub request_along-Ended :
      (path : OnionPath) (r : ℕ) → When (Ended path r) (request_along l curl path r)
  unfolding request_along
  request_along-Ended path r =
      >>=-When (Ended path r) (or_throw (l.json.dump (request_json l)) library_error) _ λ payload e.
        >>=-When (Ended path r) (make_onion l xchacha20 payload path r) _ λ (onion, r') made.
          >>=-When (Ended path r) (send_payload curl onion r') _ λ response g.
            responded path r payload onion r' response made
              (subst (When (IsResponse onion r')) g (send_payload-IsResponse onion r'))
