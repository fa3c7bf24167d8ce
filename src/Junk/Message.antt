-- ===== src/Junk/Message.antt =====
-- The messages that a service node accepts.
use libonionrequests.Common.{
  ◌≤◌, ◌≡◌, ◌↔◌, ◌⊎◌, inl, inr, none, codes, Option-cases, refl, sym, ap, ◌∙◌, Bytes, ◌++◌, length,
  length-append, length-take, take, drop, take-drop, take-append, drop-append, leb, leb→le, le→leb,
  some, ok, guard, or_throw, or_throw-ok, guard-ok, When, >>=-When, library_error, invalid_argument,
  subst, arith,
}
use libonionrequests.Libs.{Libs}
use libonionrequests.Libs.Oxenc.{Oxenc}
use libonionrequests.Channel.{encrypt, decrypt}
use libonionrequests.Keys.{parse_pubkey}
use libonionrequests.Channel.EncType.{EncryptType, aes_gcm, to_string, alias, parse_enc_type_iff}
use libonionrequests.Junk.Envelope.{server}
use libonionrequests.Junk.{
  Junk, Keypair, decode_size, metadata_enc_type, metadata_remote_pk, parse_junk,
}

-- The mode that the metadata name, by its name or by another that is accepted, or aes-gcm where they name
-- none.
abbrev pub NamesMode : (l : Libs) → l.json.Value → EncryptType → Type 0
NamesMode l metadata keytype =
    ((l.json.find metadata (codes "enc_type") ≡ none) × (keytype ≡ aes_gcm))
    ⊎ ((value : l.json.Value) × (name : Bytes) × (l.json.find metadata (codes "enc_type")
          ≡ some value)
        × (l.json.get_string value ≡ some name)
        × ((name ≡ to_string keytype) ⊎ (name ≡ alias keytype)))

-- The key that the metadata name, as `parse_pubkey` reads it.
abbrev pub NamesKey : (l : Libs) → l.json.Value → Bytes → Type 0
NamesKey l metadata remote_pk =
    (value : l.json.Value) × (key_text : Bytes) × (l.json.find metadata (codes "ephemeral_key")
      ≡ some value)
    × (l.json.get_string value ≡ some key_text)
    × (parse_pubkey l.oxenc key_text ≡ ok remote_pk)

module _ (l : Libs) (metadata : l.json.Value) where
  metadata_enc_type_iff :
      (keytype : EncryptType)
      → (metadata_enc_type l metadata ≡ ok keytype) ↔ NamesMode l metadata keytype
  unfolding metadata_enc_type
  metadata_enc_type_iff keytype = (
    λ h. elim (Option-cases (l.json.find metadata (codes "enc_type"))) [
      | inl e ↦ inl (e, let gcm : ok aes_gcm ≡ ok keytype = rw (metadata_enc_type, e) at h in cc)
      | inr (value, e) ↦ elim (Option-cases (l.json.get_string value)) [
        | inl f ↦ absurd (let thrown = rw (metadata_enc_type, e, f) at h in cc)
        | inr (name, f) ↦ inr (
          value,
          name,
          e,
          f,
          (parse_enc_type_iff name keytype).0 (rw (metadata_enc_type, e, f) at h),
        )
      ]
    ],
    λ h. elim h [
      | inl (e, same) ↦ rw (metadata_enc_type, e, same) refl
      | inr (value, name, e, f, named) ↦
          rw (metadata_enc_type, e, f) ((parse_enc_type_iff name keytype).1 named)
    ],
  )

  metadata_remote_pk_iff :
      (remote_pk : Bytes)
      → (metadata_remote_pk l metadata ≡ ok remote_pk) ↔ NamesKey l metadata remote_pk
  unfolding metadata_remote_pk
  metadata_remote_pk_iff remote_pk = (
    λ h. elim (Option-cases (l.json.find metadata (codes "ephemeral_key"))) [
      | inl e ↦ absurd (let thrown = rw (metadata_remote_pk, e) at h in cc)
      | inr (value, e) ↦ elim (Option-cases (l.json.get_string value)) [
        | inl f ↦ absurd (let thrown = rw (metadata_remote_pk, e, f) at h in cc)
        | inr (key_text, f) ↦ (value, key_text, e, f, rw (metadata_remote_pk, e, f) at h)
      ]
    ],
    λ (value, key_text, e, f, read). rw (metadata_remote_pk, e, f) read,
  )

-- A message: the size of a ciphertext in four bytes, the ciphertext, and metadata in JSON, which names a
-- mode and a key under which the ciphertext decrypts. `junk` is its plaintext, and a reply is encrypted in
-- the same mode under the same key.
pub record IsMessage (l : Libs) (keys : Keypair) (text : Bytes) (junk : Junk) : Type 0 where
  pub header : Bytes
  pub ciphertext : Bytes
  pub tail : Bytes
  pub metadata : l.json.Value
  pub keytype : EncryptType
  pub remote_pk : Bytes
  pub parts : text ≡ header ++ (ciphertext ++ tail)
  pub header_size : length header ≡ 4
  pub size : l.oxenc.load_little32 header ≡ length ciphertext
  pub parsed : l.json.parse tail ≡ some metadata
  pub mode : NamesMode l metadata keytype
  pub key : NamesKey l metadata remote_pk
  pub opened : decrypt l (server keys) keytype ciphertext remote_pk ≡ ok junk.payload
  pub reply :
      junk.transform_reply ≡ (λ plaintext. encrypt l (server keys) keytype plaintext remote_pk)

decode_size_lem :
    (o : Oxenc) (text : Bytes)
    → When (λ sz. (4 ≤ length text) × (o.load_little32 (take 4 text) ≡ sz)) (decode_size o text)
unfolding decode_size
decode_size_lem o text =
    >>=-When (λ sz. (4 ≤ length text) × (o.load_little32 (take 4 text) ≡ sz))
      (guard (leb 4 (length text)) invalid_argument) _
      λ u long.
        (leb→le 4 (length text) (guard-ok (leb 4 (length text)) invalid_argument u long), refl)

module _ (l : Libs) (keys : Keypair) where
  parse_junk-IsMessage : (text : Bytes) → When (IsMessage l keys text) (parse_junk l keys text)
  unfolding parse_junk
  parse_junk-IsMessage text =
      let M = IsMessage l keys text in
      let header = take 4 text in
      let rest = drop 4 text in
      >>=-When M (decode_size l.oxenc text) _ λ sz decoded.
        let (long, loaded) = rw decoded at (decode_size_lem l.oxenc text) in
        >>=-When M (guard (leb sz (length rest)) invalid_argument) _ λ v fits.
          >>=-When M (or_throw (l.json.parse (drop sz rest)) library_error) _ λ metadata parsed.
            >>=-When M (metadata_enc_type l metadata) _ λ keytype mode.
              >>=-When M (metadata_remote_pk l metadata) _ λ remote_pk key.
                >>=-When M (decrypt l (server keys) keytype (take sz rest) remote_pk) _
                  λ payload opened. record {
                    header = header;
                    ciphertext = take sz rest;
                    tail = drop sz rest;
                    metadata = metadata;
                    keytype = keytype;
                    remote_pk = remote_pk;
                    parts = sym (ap (λ s. header ++ s) (take-drop sz rest) ∙ take-drop 4 text);
                    header_size = omega (arith, length-take 4 text, long);
                    size =
                        loaded
                        ∙ omega (
                          arith,
                          length-take sz rest,
                          leb→le sz (length rest)
                              (guard-ok (leb sz (length rest)) invalid_argument v fits),
                        );
                    parsed =
                        or_throw-ok (l.json.parse (drop sz rest)) library_error metadata parsed;
                    mode = (metadata_enc_type_iff l metadata keytype).0 mode;
                    key = (metadata_remote_pk_iff l metadata remote_pk).0 key;
                    opened = opened;
                    reply = refl;
                  }

  IsMessage-parse_junk :
      (text : Bytes) (junk : Junk) → IsMessage l keys text junk → parse_junk l keys text ≡ ok junk
  unfolding parse_junk decode_size
  IsMessage-parse_junk text junk m =
      let behind = m.ciphertext ++ m.tail in
      let n = length m.ciphertext in
      rw
        (
          m.parts,
          le→leb 4 (length (m.header ++ behind))
              (omega (arith, length-append m.header behind, m.header_size)),
          take-append 4 m.header behind m.header_size,
          drop-append 4 m.header behind m.header_size,
          m.size,
          le→leb n (length behind) (omega (arith, length-append m.ciphertext m.tail)),
          drop-append n m.ciphertext m.tail refl,
          take-append n m.ciphertext m.tail refl,
          m.parsed,
          (metadata_enc_type_iff l m.metadata m.keytype).1 m.mode,
          (metadata_remote_pk_iff l m.metadata m.remote_pk).1 m.key,
          m.opened,
        )
        (ap (λ f. ok (record { payload = junk.payload; transform_reply = f })) (sym m.reply))

  -- `ParseJunk` returns exactly on a message: the size of a ciphertext in four bytes, the ciphertext, and
  -- metadata in JSON that name a mode by one of its two names, or none, which stands for aes-gcm, and a
  -- key that `parse_pubkey` reads, under which the ciphertext decrypts. What it returns is the plaintext,
  -- and replies are encrypted in that mode under that key.
  pub parse_junk_iff :
      (text : Bytes) (junk : Junk) → (parse_junk l keys text ≡ ok junk) ↔ IsMessage l keys text junk
  parse_junk_iff text junk = (
    λ e. subst (When (IsMessage l keys text)) e (parse_junk-IsMessage text),
    IsMessage-parse_junk text junk,
  )
