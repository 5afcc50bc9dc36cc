-- ===== src/Lib.antt =====
-- pjson: a C++ library for JSON documents (class ByteDance::pjson, pjsonlib/). A document is a tree
-- of tagged nodes; the parser builds it from bytes, JSON Pointer walks it, JSON Patch edits a copy of
-- it and publishes the copy, and the serializer writes it. This library models these parts as
-- functions over explicit state.
--
-- Common: byte strings (std::string), native integers and Boolean tests.
-- Value: the node of pjsonlib/src/pjson_internal.h and the operations of pjson.cpp. Value/ArrayStorage
--   and Value/ObjectStorage are the child containers, Value/Access the lookups and conversions,
--   Value/Number is _compareNumbers, Value/Equality is operator==,
--   Value/Mutation is resetTo, clear, erase, pushBack, insertOrAssign and operator [].
-- Text: _utf8Len and appendUtf8 (Text/Utf8), hex4 and writeUnicodeEscape (Text/Hex), _writeEscapedTo
--   of pjson_serialize.cpp (Text/Escape), std::to_string (Text/Decimal).
-- Parser: the DOM parser of pjson_parser.cpp. Parser/StringBody is decodeStringBody, Parser/Number is
--   scanJsonNumber, parseDouble and convertNumberToken, Parser/Tokens the token routines and the node
--   budget, Parser/Document is parseValue, parseArray, parseObject and parseTop, Parser/Position the
--   line and column of an error and the class of a message.
-- Pointer: pjson_pointer.cpp. Pointer/Tokens decodes and escapes, Pointer/Index reads array indices,
--   Pointer/Resolve walks the tree.
-- Patch: applyPatch of pjson_patch.cpp. A state of budget and error is passed along; Patch/Measure is
--   measureClone, Patch/Compare is patchEqual, Patch/Edit the edits at a pointer, Patch/Apply the
--   operations and the driver; Patch/Merge is applyMergePatchTo and applyMergePatch, where a pointer into
--   the scratch document is the path of keys to the node. It uses Pointer to decode and to index, and
--   Value for the tree.
-- Serializer: the tree walk of pjson_serialize.cpp. Serializer/Number is _formatDouble and the text of
--   integers, Serializer/Write is writeIndent, _writeEscapedTo on a sink, _openOrEmit and _writeValueTo
--   with its stack of frames, over a sink that is given by its calls; Serializer/Sink is CountingSink
--   and StringSink, Serializer/Output is toString into a caller's string. Serializer/Print prints by
--   recursion and is the specification of the walk. It uses Text for the escapes.
-- RoundTrip: the text of Serializer read by Parser. RoundTrip/Leaf, Scalar and Start are about single
--   tokens, RoundTrip/Rounds about single rounds of the parser's loops, RoundTrip/Children, Arrays and
--   Objects about containers, RoundTrip/Double about _formatDouble and parseDouble.
-- Examples: the theorems on concrete documents.
--
-- Correspondence. A std::string is the list of its byte values; the cursor of the parser is the list
-- of bytes that are left. An object is a list of entries in one order in which the hash map may
-- iterate. A binary64 is nan, an infinity or an integral multiple of 2^-1074. Ownership is by value: a
-- clone is the value, and a detached node is taken out of its parent.
--
-- Bounds and fuel. The worklists of operator==, measureClone and patchEqual get a round for each node
-- of the left tree; decodeStringBody and _writeEscapedTo a round for each byte and one more;
-- parseValue two rounds for each byte and one more; _writeValueTo two rounds for each
-- node; applyMergePatchTo one for each node of the patch. Running out of rounds is a result of its own.
--
-- Parameters. What `std::istringstream >> double` makes of a text is an argument of the parser; the text
-- that Ryu's d2s_buffered_n makes of a double is an argument of the serializer,
-- and so is std::string's max_size. The round trip assumes of Ryu and the stream what they document: Ryu
-- spells a double in scientific form, and the stream reads that double from each numeral of the value.
--
-- Not modelled: StreamSink and the ostream overloads of write, the SAX and stream parsers, the
-- schema validator, the copies, moves and vector overloads of pjson, allocators and allocation
-- failure, and the vendored Ryu and SRELL.
pub mod Common
pub mod Value
pub mod Text
pub mod Parser
pub mod Serializer
pub mod RoundTrip
pub mod Pointer
pub mod Patch
pub mod Examples
