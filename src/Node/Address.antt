-- ===== src/Node/Address.antt =====
-- What the addresses of nodes tell apart.
use libonionrequests.Common.{
  ℕ, ◌<◌, ◌^◌, ◌≡◌, ◌≢◌, ◌↔◌, refl, sym, ap, ◌∙◌, [], ◌∷◌, Bytes, codes, ◌++◌, append_assoc, length,
  drop, All, arith, to_decimal, to_decimal_injective, to_decimal-All, IsDigit, cut_at_end,
  cut_at_last,
}
use libonionrequests.Libs.Oxenc.{Oxenc, IsKey32, HexLaws, Base32Laws}
use libonionrequests.Node.{SnodeInfo, direct_addr, snode_addr, https_direct, https_snode}

abbrev colon : ℕ
colon = b':'

-- Digits and an end without a colon have none.
no_colon :
    (digits : Bytes) (s : Bytes)
    → All IsDigit digits
    → All (λ x. x ≢ colon) s
    → All (λ x. x ≢ colon) (digits ++ s)
no_colon [] s h k = k
no_colon (d ∷ digits) s h k = ((λ e. omega (arith, h.0.1)), no_colon digits s h.1 k)

-- A text, a colon, a port, a separator and an end of known length are told apart again.
port_split :
    (p q s t : Bytes) (c n m : ℕ)
    → c ≢ colon
    → length s ≡ length t
    → n < 2 ^ 16
    → m < 2 ^ 16
    → p ++ colon ∷ (to_decimal n ++ c ∷ s) ≡ q ++ colon ∷ (to_decimal m ++ c ∷ t)
    → (p ≡ q) × (n ≡ m) × (s ≡ t)
port_split p q s t c n m sep size hn hm e =
    let grouped : (a : Bytes) (k : ℕ) (u : Bytes)
        → a ++ colon ∷ (to_decimal k ++ c ∷ u) ≡ (a ++ colon ∷ (to_decimal k ++ c ∷ [])) ++ u =
      λ a k u.
        ap (λ rest. a ++ colon ∷ rest) (sym (append_assoc (to_decimal k) (c ∷ []) u))
        ∙ sym (append_assoc a (colon ∷ (to_decimal k ++ c ∷ [])) u) in
    let (front, back) =
      cut_at_end (p ++ colon ∷ (to_decimal n ++ c ∷ [])) (q ++ colon ∷ (to_decimal m ++ c ∷ [])) s t
        size (sym (grouped p n s) ∙ e ∙ grouped q m t) in
    let (start, ports) =
      cut_at_last colon p q (to_decimal n ++ c ∷ []) (to_decimal m ++ c ∷ [])
        (no_colon (to_decimal n) (c ∷ []) (to_decimal-All n) (sep, tt))
        (no_colon (to_decimal m) (c ∷ []) (to_decimal-All m) (sep, tt)) front in
    let (digits, rest) = cut_at_end (to_decimal n) (to_decimal m) (c ∷ []) (c ∷ []) refl ports in
    (start, to_decimal_injective n m (omega arith) (omega arith) digits, back)

abbrev slash : ℕ
slash = b'/'

-- The ports of a node fit a `uint16_t`, and its keys are arrays of 32 bytes.
pub record IsPublished (node : SnodeInfo) : Type 0 where
  pub zmq_small : node.zmq_port < 2 ^ 16
  pub https_small : node.https_port < 2 ^ 16
  pub identity_key : IsKey32 node.identity
  pub onion_key : IsKey32 node.onion

module _ (o : Oxenc) (hex : HexLaws o) (a b : SnodeInfo) (ha : IsPublished a)
    (hb : IsPublished b) where
  to_hex_size : length (o.to_hex a.onion) ≡ length (o.to_hex b.onion)
  to_hex_size =
      omega (
        arith,
        hex.length-to_hex a.onion,
        hex.length-to_hex b.onion,
        ha.onion_key.0,
        hb.onion_key.0,
      )

  to_hex_injective : o.to_hex a.onion ≡ o.to_hex b.onion → a.onion ≡ b.onion
  to_hex_injective e =
      sym (hex.from_hex-to_hex a.onion ha.onion_key.1)
      ∙ ap o.from_hex e
      ∙ hex.from_hex-to_hex b.onion hb.onion_key.1

  direct_addr_injective :
      direct_addr o a ≡ direct_addr o b
      → (a.public_ip ≡ b.public_ip) × (a.zmq_port ≡ b.zmq_port) × (a.onion ≡ b.onion)
  unfolding direct_addr
  direct_addr_injective e =
      let (ip, port, key) =
        port_split a.public_ip b.public_ip (o.to_hex a.onion) (o.to_hex b.onion) slash a.zmq_port
          b.zmq_port (λ p. cc) to_hex_size ha.zmq_small hb.zmq_small (ap (drop 8) e) in
      (ip, port, to_hex_injective key)

  https_direct_injective :
      https_direct a ≡ https_direct b → (a.public_ip ≡ b.public_ip) × (a.https_port ≡ b.https_port)
  unfolding https_direct
  https_direct_injective e =
      let (ip, port, rest) =
        port_split a.public_ip b.public_ip (codes "onion_req/v2") (codes "onion_req/v2") slash
          a.https_port b.https_port (λ p. cc) refl ha.https_small hb.https_small (ap (drop 8) e) in
      (ip, port)

  module _ (base32 : Base32Laws o) where
    to_base32z_injective :
        o.to_base32z a.identity ≡ o.to_base32z b.identity → a.identity ≡ b.identity
    to_base32z_injective e =
        sym (base32.from_base32z-to_base32z a.identity ha.identity_key.1)
        ∙ ap o.from_base32z e
        ∙ base32.from_base32z-to_base32z b.identity hb.identity_key.1

    snode_addr_injective :
        snode_addr o a ≡ snode_addr o b
        → (a.identity ≡ b.identity) × (a.zmq_port ≡ b.zmq_port) × (a.onion ≡ b.onion)
    unfolding snode_addr
    snode_addr_injective e =
        let grouped : (k t : Bytes)
            → k ++ (codes ".snode" ++ colon ∷ t) ≡ (k ++ codes ".snode") ++ colon ∷ t =
          λ k t. sym (append_assoc k (codes ".snode") (colon ∷ t)) in
        let (name, port, key) =
          port_split (o.to_base32z a.identity ++ codes ".snode")
            (o.to_base32z b.identity ++ codes ".snode") (o.to_hex a.onion) (o.to_hex b.onion) slash
            a.zmq_port b.zmq_port (λ p. cc) to_hex_size ha.zmq_small hb.zmq_small
            (sym (grouped _ _) ∙ ap (drop 8) e ∙ grouped _ _) in
        let (printed, suffix) =
          cut_at_end (o.to_base32z a.identity) (o.to_base32z b.identity) (codes ".snode")
            (codes ".snode") refl name in
        (to_base32z_injective printed, port, to_hex_injective key)

    https_snode_injective :
        https_snode o a ≡ https_snode o b
        → (a.identity ≡ b.identity) × (a.https_port ≡ b.https_port)
    unfolding https_snode
    https_snode_injective e =
        let (printed, port, rest) =
          port_split (o.to_base32z a.identity) (o.to_base32z b.identity) (codes "onion_req/v2")
            (codes "onion_req/v2") slash a.https_port b.https_port (λ p. cc) refl ha.https_small
            hb.https_small (ap (drop 8) e) in
        (to_base32z_injective printed, port)

    -- Two nodes whose ports fit 16 bits and whose keys have 32 bytes have one direct address exactly if
    -- they have one public ip, one port and one onion key; one direct address over HTTPS exactly if they
    -- have one public ip and one port there; one address over lokinet exactly if they have one identity,
    -- one port and one onion key; and one address over lokinet and HTTPS exactly if they have one identity
    -- and one port there. The texts of the ips are whatever they are.
    pub addresses_iff :
        ((direct_addr o a ≡ direct_addr o b)
          ↔ ((a.public_ip ≡ b.public_ip) × (a.zmq_port ≡ b.zmq_port) × (a.onion ≡ b.onion)))
        × ((https_direct a ≡ https_direct b)
            ↔ ((a.public_ip ≡ b.public_ip) × (a.https_port ≡ b.https_port)))
        × ((snode_addr o a ≡ snode_addr o b)
            ↔ ((a.identity ≡ b.identity) × (a.zmq_port ≡ b.zmq_port) × (a.onion ≡ b.onion)))
        × ((https_snode o a ≡ https_snode o b)
            ↔ ((a.identity ≡ b.identity) × (a.https_port ≡ b.https_port)))
    unfolding direct_addr https_direct snode_addr https_snode
    addresses_iff = (
      (direct_addr_injective, λ (ip, port, key). rw (ip, port, key) refl),
      (https_direct_injective, λ (ip, port). rw (ip, port) refl),
      (snode_addr_injective, λ (name, port, key). rw (name, port, key) refl),
      (https_snode_injective, λ (name, port). rw (name, port) refl),
    )
