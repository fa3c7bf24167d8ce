-- ===== src/Lib.antt =====
-- A model of libonionrequests: the C++ library under onionreq/ that builds onion requests, reads
-- them on the nodes of a path, and chooses the paths.
--
-- A client asks a path selector (onionreq/consensus.cpp) for hops, has an onion maker
-- (onionreq/onion_maker.cpp) encrypt a payload for them in layers, and sends the result to the
-- first hop. Each node opens its layer with a junk parser (onionreq/junk.cpp). Both encrypt with
-- `ChannelEncryption` (onionreq/channel_encryption.cpp) over the keys of onionreq/key_types.cpp.
--
-- Common: byte strings are lists of numbers; `Result` is a returned value, an exception (`err`), or
-- undefined behaviour (`undefined`); `Random` counts the draws of the random source.
-- Libs: what is not in the repository, as parameters with their documented behaviour as records of
-- laws. oxenc (hex, base64, base32z, little endian), nlohmann::json, libsodium, OpenSSL's EVP,
-- oxenmq, cpr.
-- Keys: onionreq/key_types. `load_from_hex`, `from_hex`, `parse_pubkey` and the rest keep their
-- names; a key is the list of its bytes. Keys/Parse has their properties.
-- Channel: onionreq/channel_encryption. EncType the modes and their names, Openssl the AES modes
-- with the output string as a Buffer of bounded size, Chacha the third mode. Defined and Safety say
-- where no byte is read or written out of bounds, RoundTrip what the other end decrypts, Authentic
-- what stands behind a text that is decrypted.
-- Node, Sogs, Onion: onionreq/snode_info, sogs_info and onion.hpp. The memory that a constructor
-- leaves uninitialised is an argument.
-- Junk: onionreq/junk.cpp. `parse_junk` is `JunkDecrypter::ParseJunk`; Junk/Safety says on which
-- messages it is defined, Junk/Message what an accepted message is. Junk/Parser has the interface
-- `JunkParser_Base` with the functions `JunkParser`, Maker/Base the one of the onion maker,
-- `OnionMaker_Base`, with the functions `OnionMaker`.
-- Maker: onionreq/onion_maker.cpp. `make_onion` is `MakeOnion`, `wrap` its loop over the hops.
-- Maker/Route says what it is for a ciphertext to travel along a path, Maker/Delivery relates
-- `make_onion` to it, Maker/Response what is made of a body that comes back. Maker/Bounds is about
-- the size of an onion (over Channel/Sizes, the size of a ciphertext), Maker/Reflection about a
-- request that is sent back, and Maker/Follow runs the relays of a path.
-- Random: onionreq/random.hpp over the selection sampling that std::sample does on forward
-- iterators. The numbers drawn are a parameter within the documented range.
-- Paths: `PathSelection_Base` and `PathSelection_Default` of onionreq/consensus. The order in which
-- a hash container visits its elements is a parameter, a permutation. Paths/Origin says where the
-- hops of a path come from, Paths/Lifetime what a selector keeps over any sequence of calls.
-- Node/Memory says when the uninitialised memory does not matter, Node/Uninitialised when it does,
-- Node/Hash what the hashes tell apart. Node/Address is about the texts of addresses, over
-- Common/Digits, the decimal digits. Keys/Types is about the six types of keys, Junk/Size about the
-- size in front of a message, Random/Prng about the generator.
-- Transport: onionreq/transport.cpp. The locked sections of `ObtainConnectionTo` are definitions of
-- their own; Transport/Interleaving runs them on any number of threads as a step relation.
-- Fetcher: `OxenMQ_NodeFetcher_JSON` and the consensus classes of onionreq/consensus. A request's
-- callback is a function of the reply (`on_reply`). Transport/WriteOnce states an abstract map as
-- the specification of the sections. The wait for a connection is a call that comes back: that one
-- is never answered cannot be expressed. Transport/Base is the interface `Transport_Base` with what
-- is asked of a transport; Transport/Answer and Client/Answer are about the one over oxenmq and the
-- client's one, and a request from `MakeOnion` to the handler of the reply. Fetcher/Lifetime is
-- about calls of `FetchAll` in a row, Fetcher/Seeded about where the connection goes,
-- Fetcher/Requested about the fields that are asked for and those that are read.
-- Consensus: the interfaces `NodeListFetcher_Base`, `PathSelection_Base` and `Consensus_Base` of
-- onionreq/consensus.hpp, with what is asked of each and the calls that a client makes on them;
-- Consensus/Direct is `Consensus_Direct` with what it creates, as one of them.
-- Signature: onionreq/signature.cpp. A call of the scheme returns or the process aborts (`Ended`);
-- the hash is an argument, which `cn_fast_hash` is in the program. That one aborts, so what follows
-- the hash never runs there. Signature/Base64 is about `from_base64`.
-- Xed25519: onionreq/signal-xed25519. Xor has the laws of bits that the conditional assignment
-- needs, Laws what libsodium promises, Scheme what is signed and verified.
-- Client: tests/onionrequest.cpp, from the fetching of the nodes to the exit code. Codes is about
-- the exit codes, Selected the choice of the relays, Program the whole of `main`, Exit the promise
-- that signals set too, Defined where nothing undefined happens.
-- Bindings: what the functions of the Python module (pybind/) test and set up before they pass on.
-- Bindings/SeedSet is about sets made from lists, Bindings/Seeds about the seeds of a consensus,
-- Bindings/RoundTrip is about a maker and a parser.
-- Samples: concrete libraries that satisfy the laws, and the theorems at concrete inputs.
--
-- All loops are structural recursion on lists, except the printing of a number in decimal
-- (`to_decimal`), which runs on fuel 20: no number of 64 bits has more digits. Sizes are natural
-- numbers; where the code hands a size over as an `int` or a `uint32_t` the model reduces it (`% 2
-- ^ 32`), and the theorems assume sizes below 2 ^ 31, the range of `int`.
--
-- Not modelled: the registration of classes with pybind11 and the interpreter's lock, the empty
-- nodejs/, log messages, the umbrella headers, what the constructors and factory functions
-- allocate, and the lifetime of captured objects.
pub mod Common
pub mod Libs
pub mod Keys
pub mod Channel
pub mod Node
pub mod Sogs
pub mod Onion
pub mod Junk
pub mod Maker
pub mod Samples
pub mod Random
pub mod Paths
pub mod Transport
pub mod Fetcher
pub mod Consensus
pub mod Signature
pub mod Xed25519
pub mod Client
pub mod Bindings
