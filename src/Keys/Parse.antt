-- ===== src/Keys/Parse.antt =====
-- Reading keys: the loaders of key_types.cpp on every input.
use libonionrequests.Common.{
  All, ℕ, zero, suc, ◌*◌, ◌≤◌, ◌≡◌, refl, ap, true, ◌||◌, none, some, Bytes, ◌++◌, length, drop,
  length-append, length-drop, append-nil, arith, ◌==◌, Result, ok, eq→==, le→leb, if◌then◌else◌,
  if-elim, ◌&&◌, [], ◌∷◌, ◌∙◌,
}
use libonionrequests.Libs.Oxenc.{Oxenc, IsKey32, IsByte, HexLaws, DecodeLaws, Base32Laws}
use libonionrequests.Keys.{
  null_bytes, write_out, load_from_bytes, load_from_hex, to_hex, from_hex, maybe_from_hex,
  parse_pubkey, back_is,
}

drop_all : (b : Bytes) (n : ℕ) → length b ≤ n → drop n b ≡ []
drop_all [] zero h = refl
drop_all [] (suc n) h = refl
drop_all (x ∷ b) zero h = absurd (omega arith)
drop_all (x ∷ b) (suc n) h = drop_all b n (omega arith)

pub write_out_full :
    (text memory : Bytes) → length text ≡ length memory → write_out text memory ≡ ok text
unfolding write_out
write_out_full text memory h =
    rw
      (
        le→leb (length text) (length memory) (omega arith),
        drop_all memory (length text) (omega arith),
      )
      (ap ok (append-nil text))

length-write_out :
    (text memory : Bytes)
    → length text ≤ length memory
    → (b : Bytes) × (write_out text memory ≡ ok b) × (length b ≡ length memory)
unfolding write_out
length-write_out text memory h = (
  text ++ drop (length text) memory,
  ground arith,
  length-append text _ ∙ omega (arith, length-drop (length text) memory),
)

back_is_last : (c : ℕ) (s : Bytes) → back_is c s ≡ true → (t : Bytes) × (s ≡ t ++ c ∷ [])
unfolding back_is
back_is_last c [] h = cc
back_is_last c (x ∷ []) h = ([], ground arith)
back_is_last c (x ∷ y ∷ s) h = let (t, e) = back_is_last c (y ∷ s) h in (x ∷ t, ap (◌∷◌ x) e)

padded_fits :
    (o : Oxenc) (d : DecodeLaws o) (s : Bytes)
    → back_is b'=' s ≡ true
    → length s ≡ 44
    → o.is_base64 s ≡ true
    → length (o.from_base64 s) ≤ 32
padded_fits o d s h e b =
    let (t, p) = back_is_last b'=' s h in
    rw p (
      omega (
        arith,
        d.length-from_base64_padded t (rw p at b),
        ap length p,
        length-append t (b'=' ∷ []),
      ))

-- The call returns 32 bytes.
abbrev pub IsKey : Result Bytes → Type 0
IsKey r = (pk : Bytes) × (r ≡ ok pk) × (length pk ≡ 32)

null-IsKey : IsKey (ok (null_bytes 32))
unfolding null_bytes
null-IsKey = (null_bytes 32, refl, refl)

write_out-IsKey : (text : Bytes) → length text ≤ 32 → IsKey (write_out text (null_bytes 32))
unfolding null_bytes
write_out-IsKey text h = length-write_out text (null_bytes 32) h

raw-IsKey : (s : Bytes) → length s ≡ 32 → IsKey (load_from_bytes (null_bytes 32) 32 s)
unfolding load_from_bytes
raw-IsKey s h = rw (eq→== (length s) 32 h) (write_out-IsKey s (omega arith))

module _ (o : Oxenc) where
  -- Loading what `hex` prints gives the key back, whatever the memory held.
  pub from_hex-to_hex :
      HexLaws o
      → (raw key : Bytes) → length key ≡ length raw
      → All IsByte key
      → from_hex o raw (to_hex o key) ≡ ok key
  unfolding from_hex to_hex load_from_hex
  from_hex-to_hex h raw key e bytes =
      rw
        (
          h.is_hex-to_hex key bytes,
          eq→== (length (o.to_hex key)) (2 * length raw) (omega (arith, h.length-to_hex key)),
          h.from_hex-to_hex key bytes,
        )
        (write_out_full key raw e)

  -- `maybe_from_hex` never throws and writes nothing outside the key: it answers the decoded key
  -- exactly on hex text of twice the key's length, and `nullopt` on any other.
  pub maybe_from_hex_cases :
      DecodeLaws o
      → (raw hex : Bytes)
      → maybe_from_hex o raw hex
        ≡ ok (if o.is_hex hex && length hex == 2 * length raw then some (o.from_hex hex) else none)
  unfolding maybe_from_hex from_hex load_from_hex
  maybe_from_hex_cases d raw hex =
      ground (arith, d.length-from_hex hex, write_out_full (o.from_hex hex) raw)

  -- `parse_pubkey` never throws, never writes past the key, and always gives 32 bytes.
  pub parse_pubkey_total : DecodeLaws o → (s : Bytes) → IsKey (parse_pubkey o s)
  unfolding parse_pubkey
  parse_pubkey_total d s =
      if-elim IsKey _ _ _ (λ e. raw-IsKey s (ground arith))
        λ _.
          if-elim IsKey _ _ _ (λ e. write_out-IsKey _ (hex_fits e))
            λ _.
              if-elim IsKey _ _ _ (λ e. write_out-IsKey _ (base64_fits e))
                λ _. if-elim IsKey _ _ _ (λ e. write_out-IsKey _ (base32z_fits e)) (λ _. null-IsKey)
    where
      hex_fits : (length s == 64 && o.is_hex s) ≡ true → length (o.from_hex s) ≤ 32
      hex_fits e = ground (arith, d.length-from_hex s)

      base64_fits :
          ((length s == 43 || (length s == 44 && back_is b'=' s)) && o.is_base64 s) ≡ true
          → length (o.from_base64 s) ≤ 32
      base64_fits e = ground (arith, d.length-from_base64 s, padded_fits o d s)

      base32z_fits : (length s == 52 && o.is_base32z s) ≡ true → length (o.from_base32z s) ≤ 32
      base32z_fits e = ground (arith, d.length-from_base32z s)

  pub parse_pubkey-to_hex :
      HexLaws o → (key : Bytes) → IsKey32 key → parse_pubkey o (to_hex o key) ≡ ok key
  unfolding parse_pubkey to_hex null_bytes
  parse_pubkey-to_hex h key (e, bytes) = ground (
    arith,
    h.is_hex-to_hex key bytes,
    h.from_hex-to_hex key bytes,
    h.length-to_hex key,
    write_out_full key (null_bytes 32),
  )

  -- A key of 32 bytes is read back from its raw bytes, from its hex text and from its base32z text.
  pub parse_pubkey_round_trip :
      HexLaws o
      → Base32Laws o
      → (key : Bytes) → IsKey32 key
      → (parse_pubkey o key ≡ ok key)
        × (parse_pubkey o (to_hex o key) ≡ ok key)
        × (parse_pubkey o (o.to_base32z key) ≡ ok key)
  unfolding parse_pubkey load_from_bytes null_bytes
  parse_pubkey_round_trip h b key (e, bytes) = (
    ground (arith, write_out_full key (null_bytes 32)),
    parse_pubkey-to_hex h key (e, bytes),
    ground (
      arith,
      b.is_base32z-to_base32z key bytes,
      b.from_base32z-to_base32z key bytes,
      b.length-to_base32z key,
      write_out_full key (null_bytes 32),
    ),
  )
