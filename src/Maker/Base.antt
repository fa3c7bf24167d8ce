-- ===== src/Maker/Base.antt =====
-- The interface `OnionMaker_Base` of onionreq/onion_maker.hpp, and the two functions `OnionMaker` of
-- onion_maker.cpp.
use libonionrequests.Common.{Bytes, Random}
use libonionrequests.Libs.{Libs}
use libonionrequests.Onion.{OnionPath, OnionPayload}
use libonionrequests.Channel.EncType.{xchacha20, aes_gcm}
use libonionrequests.Maker.{make_onion}

pub record OnionMakerBase : Type 0 where
  pub make_onion : Bytes → OnionPath → Random OnionPayload

-- An empty struct for each mode.
pub data HopsType : Type 0 where
  all_aesgcm_hops all_xchacha20_hops : HopsType

unfoldable pub onion_maker : Libs → HopsType → OnionMakerBase
onion_maker l HopsType.all_aesgcm_hops = record { make_onion = make_onion l aes_gcm }
onion_maker l HopsType.all_xchacha20_hops = record { make_onion = make_onion l xchacha20 }
