-- ===== src/Http.antt =====
-- `HttpRequest`, `HttpResponse` and `http_status_text` of server/freebsd_ref/main.cpp.
use sctp_conformance.Base.{ℕ, List, [], Bytes, codes, ◌==◌, if◌then◌else◌}
use sctp_conformance.Text.{json_error}

pub record HttpRequest : Type 0 where
  pub method : Bytes
  pub path : Bytes
  pub body : Bytes
  pub headers : List (Bytes × Bytes)

pub record HttpResponse : Type 0 where
  pub status : ℕ
  pub body : Bytes
  pub content_type : Bytes
  pub headers : List (Bytes × Bytes)

-- `{status, body}`, with the defaults of the other fields.
abbrev pub response : ℕ → Bytes → HttpResponse
response status body = record {
  status = status;
  body = body;
  content_type = codes "application/json";
  headers = [];
}

-- `{status, json_error(message)}`
abbrev pub refusal : ℕ → Bytes → HttpResponse
refusal status message = response status (json_error message)

unfoldable pub http_status_text : ℕ → Bytes
http_status_text status =
    if status == 200
    then codes "OK"
    else if status == 201
    then codes "Created"
    else if status == 400
    then codes "Bad Request"
    else if status == 404
    then codes "Not Found"
    else if status == 409
    then codes "Conflict"
    else if status == 500
    then codes "Internal Server Error"
    else codes "Status"
