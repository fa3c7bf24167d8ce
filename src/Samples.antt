-- ===== src/Samples.antt =====
-- Concrete stand-ins for the libraries, at which the hypotheses on them hold. They are made to be
-- short, not to be secure; the theorems are instantiated with them.
pub mod Oxenc
pub mod Json
pub mod Sodium
pub mod Evp
pub mod Tests
pub mod Network
pub mod Signing
pub mod Xed
pub mod Base64
pub mod Threads
pub mod Session
pub mod Exchange
pub mod Python
pub mod Selection
pub mod Program
pub mod Consensus
use libonionrequests.Libs.{Libs}
use libonionrequests.Channel.Exchange.{SodiumLaws}
use libonionrequests.Channel.RoundTrip.{CryptoLaws}
use libonionrequests.Junk.Envelope.{Laws}
use Oxenc.{sample_oxenc, sample_hex, sample_little}
use Json.{sample_json, sample_objects}
use Sodium.{sample_sodium, sample_exchange, sample_sizes, sample_aead}
use Evp.{sample_evp, sample_cipher}

abbrev pub sample : Libs
sample = record {
  oxenc = sample_oxenc;
  json = sample_json;
  sodium = sample_sodium;
  evp = sample_evp;
}

pub sample_crypto : CryptoLaws sample
sample_crypto = record {
  sodium_laws = record { exchange = sample_exchange; sizes = sample_sizes; aead = sample_aead };
  evp_laws = sample_cipher;
}

pub sample-Laws : Laws sample
sample-Laws = record {
  crypto = sample_crypto;
  hex = sample_hex;
  little = sample_little;
  objects = sample_objects;
}
