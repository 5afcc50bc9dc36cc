-- ===== src/RoundTrip.antt =====
-- The serializer's text read by the parser: pjsonlib/src/pjson_serialize.cpp against
-- pjson_parser.cpp.
pub mod Text
pub mod Leaf
pub mod Rounds
pub mod Start
pub mod Scalar
pub mod Readable
pub mod Gaps
pub mod Children
pub mod Document
pub mod Values
pub mod Arrays
pub mod Objects
pub mod Double
