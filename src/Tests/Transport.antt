-- ===== src/Tests/Transport.antt =====
-- Requests read in pieces, and an answer written in pieces.
use sctp_conformance.Base.{
  ◌≡◌, ◌≤◌, ◌↔◌, refl, [], ◌∷◌, ◌++◌, map, Bytes, codes, leb, if◌then◌else◌, length, take, decimal,
  arith,
}
use sctp_conformance.Text.{is_space, trim_start, trim_end, trim, get_lines}
use sctp_conformance.Http.{HttpRequest}
use sctp_conformance.Options.{strtoul, digits_value}
use sctp_conformance.Server.State.{find, assign}
use sctp_conformance.Server.Transport.{
  bytes, ReadResult, read_ok, read_failed, reading, read_body, read_rest, read_http_request,
  content_length, find_header_end, find_text, drop_cr, to_lower, split_at, next_word, request_line,
  header_lines, wrote, interrupted, written, write_all,
}
use sctp_conformance.Server.Framing.{
  in_digits, read_body-flatten, read_http_request-length, write_all_written_iff,
}
use sctp_conformance.Tests.Data.{platform}

read_body-flatten_example :
    read_body platform 4 [] (map bytes (codes "ab" ∷ codes "cde" ∷ []))
    ≡ (if leb 4 (length (codes "abcde")) then read_ok (take 4 (codes "abcde")) else reading)
read_body-flatten_example = read_body-flatten platform 4 [] (codes "ab" ∷ codes "cde" ∷ [])

abbrev head : Bytes
head = codes "POST / HTTP/1.1\nContent-Length: 8\n\n"

abbrev body : Bytes
body = codes "ab\r\n\r\ncd"

abbrev body_of : ReadResult HttpRequest → Bytes
body_of (read_ok r) = r.body
body_of (read_failed e) = e
body_of reading = codes "reading"

-- Lines may end in a single newline; the body is there.
cut_behind_head : body_of (read_http_request platform [] (bytes head ∷ bytes body ∷ [])) ≡ body
unfolding read_http_request read_rest read_body find_header_end find_text drop_cr to_lower split_at
    next_word request_line header_lines content_length get_lines trim trim_start trim_end is_space
    find assign strtoul digits_value
cut_behind_head = refl

-- The same bytes at once: the end of the head is sought in the body, and the read waits.
at_once : body_of (read_http_request platform [] (bytes (head ++ body) ∷ [])) ≡ codes "reading"
unfolding read_http_request read_rest read_body find_header_end find_text drop_cr to_lower split_at
    next_word request_line header_lines content_length get_lines trim trim_start trim_end is_space
    find assign strtoul digits_value
at_once = refl

abbrev request_of : ReadResult HttpRequest → HttpRequest
request_of (read_ok r) = r
request_of _ = record { method = []; path = []; body = []; headers = [] }

abbrev result : ReadResult HttpRequest
result = read_http_request platform [] (bytes head ∷ bytes body ∷ [])

read_http_request-length_example : length ((request_of result).body) ≡ length body
unfolding read_http_request read_rest read_body find_header_end find_text drop_cr to_lower split_at
    next_word request_line header_lines content_length get_lines trim trim_start trim_end is_space
    find assign strtoul digits_value decimal
read_http_request-length_example =
    read_http_request-length platform (bytes head ∷ bytes body ∷ []) [] (request_of result)
      (length body) refl (in_digits (length body) (omega arith))

write_all_written_iff_example :
    (write_all (codes "abc") (wrote 2 ∷ interrupted ∷ wrote 1 ∷ []) ≡ written) ↔ (3 ≤ 3)
write_all_written_iff_example =
    write_all_written_iff (wrote 2 ∷ interrupted ∷ wrote 1 ∷ []) (codes "abc")
