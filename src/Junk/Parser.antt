-- ===== src/Junk/Parser.antt =====
-- The interface `JunkParser_Base` of onionreq/junk.hpp, and the two functions `JunkParser` of junk.cpp.
use libonionrequests.Common.{Bytes, Option, none, some, Result}
use libonionrequests.Libs.{Libs}
use libonionrequests.Node.{SnodeInfo}
use libonionrequests.Channel.EncType.{EncryptType}
use libonionrequests.Junk.{Junk, Keypair, parse_junk}

pub record JunkParserBase : Type 0 where
  pub parse_junk : Bytes → Result Junk

-- A `JunkDecrypter` of the keys.
unfoldable pub junk_parser : Libs → Keypair → Option JunkParserBase
junk_parser l keys = some (record { parse_junk = parse_junk l keys })

-- The one for a node gives a null pointer.
unfoldable pub junk_parser_of_node : SnodeInfo → EncryptType → Option JunkParserBase
junk_parser_of_node info keytype = none
