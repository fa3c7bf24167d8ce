-- ===== src/Maker/Response.antt =====
-- What `maybeDecryptResponse` makes of a body that comes back.
use libonionrequests.Common.{
  ◌<◌, ◌^◌, ◌≡◌, ◌≢◌, ◌⊎◌, inl, inr, refl, true, false, Bool-cases, Bytes, length, Option, none,
  some, Error, ok, err, Result-cases, arith,
}
use libonionrequests.Libs.{Libs}
use libonionrequests.Libs.Oxenc.{DecodeLaws}
use libonionrequests.Libs.Sodium.{AeadLaws}
use libonionrequests.Libs.Evp.{EvpSizes}
use libonionrequests.Channel.{ChannelEncryption, decrypt}
use libonionrequests.Channel.EncType.{EncryptType, aes_cbc}
use libonionrequests.Channel.Safety.{decrypt-Defined}
use libonionrequests.Maker.{decrypt_response}

module _ (l : Libs) (t : EncryptType) (d : ChannelEncryption) (key : Bytes) where
  -- Which of the two attempts the answer comes from.
  pub data Read (body : Bytes) : Option Bytes → Type 0 where
    raw : (text : Bytes) → decrypt l d t body key ≡ ok text → Read body (some text)
    decoded :
        (e : Error) (text : Bytes)
        → decrypt l d t body key ≡ err e
        → l.oxenc.is_base64 body ≡ true
        → decrypt l d t (l.oxenc.from_base64 body) key ≡ ok text
        → Read body (some text)
    unreadable :
        (e : Error)
        → decrypt l d t body key ≡ err e
        → (l.oxenc.is_base64 body ≡ false)
          ⊎ ((e' : Error) × (decrypt l d t (l.oxenc.from_base64 body) key ≡ err e'))
        → Read body none

  -- An answer, and where it comes from.
  abbrev pub Answered : Bytes → Type 0
  Answered body =
      (maybe : Option Bytes) × (decrypt_response l t d key body ≡ ok maybe) × Read body maybe

  module _ (sizes : EvpSizes l.evp) (aead : AeadLaws l.sodium) (decoding : DecodeLaws l.oxenc) where
    failed-Answered :
        (body : Bytes) (e : Error)
        → t ≢ aes_cbc
        → length body < 2 ^ 31
        → decrypt l d t body key ≡ err e
        → Answered body
    unfolding decrypt_response
    failed-Answered body e mode small failed = elim (Bool-cases (l.oxenc.is_base64 body)) [
      | inr other ↦ (none, rw (failed, other) refl, Read.unreadable e failed (inl other))
      | inl coded ↦
          let inner = l.oxenc.from_base64 body in
          let inner_small : length inner < 2 ^ 31 =
            omega (arith, decoding.length-from_base64 body coded) in
          elim (Result-cases (decrypt l d t inner key)) [
            | inl (text, f) ↦
                (some text, rw (failed, coded, f) refl, Read.decoded e text failed coded f)
            | inr (inl (e', f)) ↦
                (none, rw (failed, coded, f) refl, Read.unreadable e failed (inr (e', f)))
            | inr (inr f) ↦
                absurd (decrypt-Defined l sizes aead d t inner key inner_small (inl mode) f)
          ]
    ]

    -- In the modes aes-gcm and xchacha20 `maybeDecryptResponse` answers every body of less than 2 ^ 31
    -- bytes, and never throws: with the text that the body decrypts to, or else with the text that the
    -- bytes decrypt to that it stands for in base64, or else with none.
    pub decrypt_response-Answered :
        (body : Bytes) → t ≢ aes_cbc → length body < 2 ^ 31 → Answered body
    unfolding decrypt_response
    decrypt_response-Answered body mode small = elim (Result-cases (decrypt l d t body key)) [
      | inl (text, e) ↦ (some text, rw e refl, Read.raw text e)
      | inr (inl (e, failed)) ↦ failed-Answered body e mode small failed
      | inr (inr u) ↦ absurd (decrypt-Defined l sizes aead d t body key small (inl mode) u)
    ]
