-- ===== src/Maker/Bounds.antt =====
-- How long an onion can be, and that `MakeOnion` makes one or throws.
use libonionrequests.Common.{
  ℕ, suc, ◌+◌, ◌*◌, ◌≤◌, ◌<◌, ◌^◌, ◌≡◌, ◌↔◌, refl, ap, ap₂, ◌∙◌, List, [], ◌∷◌, List-cases, inl,
  inr, Bytes, ◌++◌, length, length-append, length-zero, length-reverse_aux, All, All-reverse_aux,
  some, undefined, When, Ensures, >>=-Ensures, Ensures-Defined, Ensures-When, arith,
}
use libonionrequests.Libs.{Libs}
use libonionrequests.Libs.Oxenc.{IsKey32}
use libonionrequests.Node.{SnodeInfo}
use libonionrequests.Channel.{encrypt}
use libonionrequests.Channel.EncType.{EncryptType}
use libonionrequests.Channel.Sizes.{Within, encrypt-Ensures}
use libonionrequests.Junk.Envelope.{Laws, length-encode_size}
use libonionrequests.Maker.{
  encode_size, client, entry_fields, routing_fields, envelope, wrap, make_layers, make_onion,
}
use libonionrequests.Maker.Header.{IsHeader, fresh-IsKey32, entry-IsHeader, routing-IsHeader}
use libonionrequests.Maker.Peel.{envelope_lem}
use libonionrequests.Onion.{OnionPath, OnionPayload, control_data}
use mathlib.Core.List.{reverse}

-- Keys are arrays of 32 bytes.
abbrev pub HasKey : SnodeInfo → Type 0
HasKey node = IsKey32 node.identity

module _ (l : Libs) (laws : Laws l) (t : EncryptType) where
  open laws use {crypto}

  envelope-Ensures :
      (fields : List (Bytes × Bytes)) (key blob : Bytes)
      → IsHeader l t key fields
      → Ensures (λ text. length text ≤ length blob + 1104) (envelope l t blob fields)
  envelope-Ensures fields key blob head =
      let (text, written, parsed, small) = envelope_lem l laws t fields key blob head in
      rw written (
        omega (
          arith,
          length-append (encode_size l.oxenc (length blob)) (blob ++ text),
          length-encode_size l laws (length blob),
          length-append blob text,
        ))

  sealed-Ensures :
      (secret public text pubkey : Bytes) (r : ℕ)
      → length text < 2 ^ 31
      → Ensures (Within (length text + 40) r) (encrypt l (client secret public) t text pubkey r)
  sealed-Ensures secret public =
      encrypt-Ensures l crypto.evp_laws.sizes crypto.sodium_laws.sizes crypto.sodium_laws.aead
        (client secret public) t

  -- The key and the blob that the loop leaves, and the draws made until then.
  abbrev Wrapped : ℕ → ℕ → (Bytes × Bytes) × ℕ → Type 0
  Wrapped n d ((key, blob), r) = IsKey32 key × (length blob ≤ n) × (r ≡ d)

  wrap-Ensures :
      (hops : List SnodeInfo) (prev : SnodeInfo) (key blob : Bytes) (r n d : ℕ)
      → All HasKey hops
      → HasKey prev
      → IsKey32 key
      → length blob + 1200 * length hops ≤ n
      → n < 2 ^ 31
      → d ≡ r + 2 * length hops
      → Ensures (Wrapped n d) (wrap l t prev key blob hops r)
  unfolding wrap
  wrap-Ensures [] prev key blob r n d hs hp hk small limit draws = (hk, omega arith, omega arith)
  wrap-Ensures (hop ∷ hops) prev key blob r n d hs hp hk small limit draws =
      let (public, secret) = l.sodium.box_keypair r in
      >>=-Ensures (λ text. length text ≤ length blob + 1104) (Wrapped n d)
        (envelope l t blob (routing_fields l t prev key)) _
        (envelope-Ensures (routing_fields l t prev key) key blob
          (routing-IsHeader l laws t prev key hp hk))
        λ routed fits.
          >>=-Ensures (Within (length routed + 40) (suc r)) (Wrapped n d)
            (encrypt l (client secret public) t routed hop.onion (suc r)) _
            (sealed-Ensures secret public routed hop.onion (suc r) (omega arith))
            λ (sealed, r') grown.
              wrap-Ensures hops hop public sealed r' n d hs.1 hs.0 (fresh-IsKey32 l laws t r)
                (omega (arith, grown.0)) limit (omega (arith, grown.1))

  -- An onion for the path, of at most `n` bytes, and the draws made until then.
  abbrev pub Made : OnionPath → ℕ → ℕ → OnionPayload × ℕ → Type 0
  Made path n d (onion, r) = (onion.path ≡ path) × (length onion.ciphertext ≤ n) × (r ≡ d)

  make_layers-Ensures :
      (path : OnionPath) (payload control : Bytes) (last : SnodeInfo) (others : List SnodeInfo)
      (r n d : ℕ)
      → HasKey last
      → All HasKey others
      → length payload + length control + 1200 * length others + 1200 ≤ n
      → n < 2 ^ 31
      → d ≡ r + 2 * suc (length others)
      → Ensures (Made path n d) (make_layers l t path payload control (last ∷ others) r)
  unfolding make_layers
  make_layers-Ensures path payload control last others r n d hl hs small limit draws =
      let (public, secret) = l.sodium.box_keypair r in
      let text = encode_size l.oxenc (length payload) ++ (payload ++ control) in
      let size : length text ≡ 4 + (length payload + length control) =
        length-append (encode_size l.oxenc (length payload)) (payload ++ control)
        ∙ ap₂ (λ a b. a + b) (length-encode_size l laws (length payload))
            (length-append payload control) in
      >>=-Ensures (Within (length text + 40) (suc r)) (Made path n d)
        (encrypt l (client secret public) t text last.onion (suc r)) _
        (sealed-Ensures secret public text last.onion (suc r) (omega arith))
        λ (sealed, r₁) grown.
          let m = length sealed + 1200 * length others in
          >>=-Ensures (Wrapped m d) (Made path n d) (wrap l t last public sealed others r₁) _
            (wrap-Ensures others last public sealed r₁ m d hs hl (fresh-IsKey32 l laws t r)
              (omega arith) (omega (arith, grown.0)) (omega (arith, grown.1)))
            λ ((key, blob), r₂) (hk, fits, drawn).
              >>=-Ensures (λ c. length c ≤ length blob + 1104) (Made path n d)
                (envelope l t blob (entry_fields l t key)) _
                (envelope-Ensures (entry_fields l t key) key blob (entry-IsHeader l laws t key hk))
                λ ciphertext fits'. (refl, omega arith, drawn)

  -- If the identities of the hops have 32 bytes, the control data can be printed, and the payload, the
  -- control data and 1200 bytes for each hop are less than 2 ^ 31, then `MakeOnion` is undefined exactly
  -- on a path without hops. On any other it throws, or returns an onion for the path whose ciphertext has
  -- at most that many bytes, after two draws for each hop.
  pub make_onion_undefined_iff :
      (path : OnionPath) (payload control : Bytes) (r : ℕ)
      → All HasKey path.hops
      → l.json.dump (control_data l path.remote) ≡ some control
      → length payload + length control + 1200 * length path.hops < 2 ^ 31
      → ((make_onion l t payload path r ≡ undefined) ↔ (path.hops ≡ []))
        × When
            (Made path
              (length payload + length control + 1200 * length path.hops)
              (r + 2 * length path.hops))
            (make_onion l t payload path r)
  unfolding make_onion make_layers
  make_onion_undefined_iff path payload control r keys printed small =
      let size = length-reverse_aux path.hops [] in
      let all_keys : All HasKey (reverse path.hops) = All-reverse_aux HasKey path.hops [] keys tt in
      elim (List-cases (reverse path.hops)) [
        | inl none_left ↦
            let no_hops = length-zero path.hops (omega (arith, size, ap length none_left)) in
            rw (printed, none_left) ((λ u. no_hops, λ e. refl), tt)
        | inr (last, others, e) ↦
            let (last_key, other_keys) = rw e at all_keys in
            let n = length payload + length control + 1200 * length path.hops in
            let d = r + 2 * length path.hops in
            let count = ap length e in
            let made =
              make_layers-Ensures path payload control last others r n d last_key other_keys
                (omega arith) small (omega arith) in
            rw (printed, e)
              (
                (
                  λ u. absurd (
                      Ensures-Defined (Made path n d)
                        (make_layers l t path payload control (last ∷ others) r) made u),
                  λ no_hops. absurd (omega (arith, ap length no_hops)),
                ),
                Ensures-When (Made path n d)
                    (make_layers l t path payload control (last ∷ others) r) made,
              )
      ]
