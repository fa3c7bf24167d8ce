-- ===== src/Signature/Base64.antt =====
-- Reading signatures: `signature::from_base64`.
use libonionrequests.Common.{
  take-drop, ◌≡◌, ◌≢◌, ◌⊎◌, false, refl, length-drop, bytes_eq, Bool-cases, sym, ap, ◌∙◌, true,
  ◌==◌, ◌++◌, Bytes, codes, bytes_eq→eq, length, length-take, take, drop, ||-cases, &&-both, ==→eq,
  inl, inr, ok, err, runtime_error, arith,
}
use libonionrequests.Libs.Oxenc.{Oxenc, Base64Laws}
use libonionrequests.Keys.Parse.{write_out_full}
use libonionrequests.Signature.{Signature, has_signature_size, from_base64}

signature_size :
    (s : Bytes)
    → has_signature_size s ≡ true
    → (length s ≡ 86) ⊎ ((length s ≡ 88) × (drop 86 s ≡ codes "=="))
unfolding has_signature_size
signature_size s h = elim (||-cases (length s == 86) _ h) [
  | inl e ↦ inl (==→eq (length s) 86 e)
  | inr e ↦
      let (size, ending) = &&-both (length s == 88) _ e in
      inr (==→eq (length s) 88 size, bytes_eq→eq (drop 86 s) (codes "==") ending)
]

other_size :
    (s : Bytes)
    → has_signature_size s ≡ false
    → (length s ≢ 86) × ¬ ((length s ≡ 88) × (drop 86 s ≡ codes "=="))
unfolding has_signature_size
other_size s h =
    (λ e. ground arith, λ (e, p). let padded = ap (λ t. bytes_eq t (codes "==")) p in ground arith)

module _ (o : Oxenc) (laws : Base64Laws o) where
  decoded_unpadded :
      (s : Bytes) → o.is_base64 s ≡ true → length s ≡ 86 → length (o.from_base64 s) ≡ 64
  decoded_unpadded s b e = omega (arith, laws.from_base64_unpadded s b (λ p. omega arith))

  decoded_padded :
      (s : Bytes)
      → o.is_base64 s ≡ true
      → length s ≡ 88
      → drop 86 s ≡ codes "=="
      → length (o.from_base64 s) ≡ 64
  decoded_padded s b e p =
      let cut : take 86 s ++ codes "==" ≡ s =
        ap (λ (t : Bytes). take 86 s ++ t) (sym p) ∙ take-drop 86 s in
      let accepted : o.is_base64 (take 86 s ++ codes "==") ≡ true = ap o.is_base64 cut ∙ b in
      omega (
        arith,
        ap (λ (t : Bytes). length (o.from_base64 t)) cut,
        laws.from_base64_two_padded (take 86 s) accepted,
        length-take 86 s,
      )

  decoded_size :
      (s : Bytes)
      → o.is_base64 s ≡ true
      → has_signature_size s ≡ true
      → length (o.from_base64 s) ≡ 64
  decoded_size s b h = elim (signature_size s h) [
    | inl e ↦ decoded_unpadded s b e
    | inr (size, ending) ↦ decoded_padded s b size ending
  ]

  -- `signature::from_base64` reads base64 text of 86 characters, or of 88 of which the last two are
  -- padding, as a signature of twice 32 bytes that together are what the text decodes to, whatever the
  -- memory held; on any other text it throws a `runtime_error`.
  pub from_base64_cases :
      (raw text : Bytes)
      → length raw ≡ 64
      → ((o.is_base64 text ≡ true)
          × ((length text ≡ 86) ⊎ ((length text ≡ 88) × (drop 86 text ≡ codes "==")))
          × ((sig : Signature) × (from_base64 o raw text ≡ ok sig)
              × (sig.c ++ sig.r ≡ o.from_base64 text)
              × (length sig.c ≡ 32)
              × (length sig.r ≡ 32)))
        ⊎ (((o.is_base64 text ≡ false)
              ⊎ ((length text ≢ 86) × ¬ ((length text ≡ 88) × (drop 86 text ≡ codes "=="))))
            × (from_base64 o raw text ≡ err runtime_error))
  unfolding from_base64
  from_base64_cases raw text h = elim (Bool-cases (o.is_base64 text)) [
    | inr e ↦ inr (inl e, rw e refl)
    | inl e ↦ elim (Bool-cases (has_signature_size text)) [
      | inr f ↦ inr (inr (other_size text f), rw (e, f) refl)
      | inl f ↦
          let size = decoded_size text e f in
          inl (
            e,
            signature_size text f,
            (
              record { c = take 32 (o.from_base64 text); r = drop 32 (o.from_base64 text) },
              rw (e, f, write_out_full (o.from_base64 text) raw (size ∙ sym h)) refl,
              take-drop 32 (o.from_base64 text),
              omega (arith, length-take 32 (o.from_base64 text), size),
              omega (arith, length-drop 32 (o.from_base64 text), size),
            ),
          )
    ]
  ]
