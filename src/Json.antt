-- ===== src/Json.antt =====
-- The JSON reader of server/freebsd_ref/main.cpp: `JsonValue`, `append_utf8_codepoint` and the
-- `parse_*` functions. `size_t& i` into the input is the unread rest of the input; it only grows.
-- An out parameter with a `bool` is a result. The calls between values, objects and arrays go
-- down by fuel, of which `parse_json_root_object` gives three for each byte and three more.
pub mod Value
pub mod Strings
pub mod Parser
pub mod RoundTrip
pub mod Shrinks
pub mod Total
