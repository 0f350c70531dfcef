-- ===== src/KeyValue.antt =====
-- The tables of src/keyvalue.c and the functions that look things up in them. The keys are the
-- numbers of the enumerations in src/keyvalue.h; the entry with the value NULL is the end of a list.
pub mod Lookup
use lighttpd_autothumb.Base.{
  ℕ, Option, none, some, List, [], ◌∷◌, ◌==◌, if◌then◌else◌, Bytes, codes, equal,
}

unfoldable pub http_versions : List (ℕ × Bytes)
http_versions = (1, codes "HTTP/1.1") ∷ (0, codes "HTTP/1.0") ∷ []

unfoldable pub http_methods : List (ℕ × Bytes)
http_methods =
    (0, codes "GET")
    ∷ (1, codes "POST")
    ∷ (2, codes "HEAD")
    ∷ (4, codes "PROPFIND")
    ∷ (10, codes "PROPPATCH")
    ∷ (11, codes "REPORT")
    ∷ (3, codes "OPTIONS")
    ∷ (5, codes "MKCOL")
    ∷ (6, codes "PUT")
    ∷ (7, codes "DELETE")
    ∷ (8, codes "COPY")
    ∷ (9, codes "MOVE")
    ∷ (20, codes "LABEL")
    ∷ (12, codes "CHECKOUT")
    ∷ (13, codes "CHECKIN")
    ∷ (17, codes "MERGE")
    ∷ (18, codes "LOCK")
    ∷ (19, codes "UNLOCK")
    ∷ (16, codes "MKACTIVITY")
    ∷ (15, codes "UNCHECKOUT")
    ∷ (14, codes "VERSION-CONTROL")
    ∷ (21, codes "CONNECT")
    ∷ []

unfoldable pub http_status : List (ℕ × Bytes)
http_status =
    (100, codes "Continue")
    ∷ (101, codes "Switching Protocols")
    ∷ (102, codes "Processing")
    ∷ (200, codes "OK")
    ∷ (201, codes "Created")
    ∷ (202, codes "Accepted")
    ∷ (203, codes "Non-Authoritative Information")
    ∷ (204, codes "No Content")
    ∷ (205, codes "Reset Content")
    ∷ (206, codes "Partial Content")
    ∷ (207, codes "Multi-status")
    ∷ (300, codes "Multiple Choices")
    ∷ (301, codes "Moved Permanently")
    ∷ (302, codes "Found")
    ∷ (303, codes "See Other")
    ∷ (304, codes "Not Modified")
    ∷ (305, codes "Use Proxy")
    ∷ (306, codes "(Unused)")
    ∷ (307, codes "Temporary Redirect")
    ∷ (400, codes "Bad Request")
    ∷ (401, codes "Unauthorized")
    ∷ (402, codes "Payment Required")
    ∷ (403, codes "Forbidden")
    ∷ (404, codes "Not Found")
    ∷ (405, codes "Method Not Allowed")
    ∷ (406, codes "Not Acceptable")
    ∷ (407, codes "Proxy Authentication Required")
    ∷ (408, codes "Request Timeout")
    ∷ (409, codes "Conflict")
    ∷ (410, codes "Gone")
    ∷ (411, codes "Length Required")
    ∷ (412, codes "Precondition Failed")
    ∷ (413, codes "Request Entity Too Large")
    ∷ (414, codes "Request-URI Too Long")
    ∷ (415, codes "Unsupported Media Type")
    ∷ (416, codes "Requested Range Not Satisfiable")
    ∷ (417, codes "Expectation Failed")
    ∷ (422, codes "Unprocessable Entity")
    ∷ (423, codes "Locked")
    ∷ (424, codes "Failed Dependency")
    ∷ (426, codes "Upgrade Required")
    ∷ (500, codes "Internal Server Error")
    ∷ (501, codes "Not Implemented")
    ∷ (502, codes "Bad Gateway")
    ∷ (503, codes "Service Not Available")
    ∷ (504, codes "Gateway Timeout")
    ∷ (505, codes "HTTP Version Not Supported")
    ∷ (507, codes "Insufficient Storage")
    ∷ []

unfoldable pub http_status_body : List (ℕ × Bytes)
http_status_body =
    (400, codes "400.html")
    ∷ (401, codes "401.html")
    ∷ (403, codes "403.html")
    ∷ (404, codes "404.html")
    ∷ (411, codes "411.html")
    ∷ (416, codes "416.html")
    ∷ (500, codes "500.html")
    ∷ (501, codes "501.html")
    ∷ (503, codes "503.html")
    ∷ (505, codes "505.html")
    ∷ []

-- `keyvalue_get_value` and `keyvalue_get_key`; NULL and -1 are `none`.
unfoldable pub get_value : List (ℕ × Bytes) → ℕ → Option Bytes
get_value [] k = none
get_value ((key, value) ∷ kv) k = if key == k then some value else get_value kv k

unfoldable pub get_key : List (ℕ × Bytes) → Bytes → Option ℕ
get_key [] s = none
get_key ((key, value) ∷ kv) s = if equal value s then some key else get_key kv s

unfoldable pub get_http_version_name : ℕ → Option Bytes
get_http_version_name i = get_value http_versions i

unfoldable pub get_http_status_name : ℕ → Option Bytes
get_http_status_name i = get_value http_status i

unfoldable pub get_http_method_name : ℕ → Option Bytes
get_http_method_name i = get_value http_methods i

unfoldable pub get_http_status_body_name : ℕ → Option Bytes
get_http_status_body_name i = get_value http_status_body i

unfoldable pub get_http_version_key : Bytes → Option ℕ
get_http_version_key s = get_key http_versions s

unfoldable pub get_http_method_key : Bytes → Option ℕ
get_http_method_key s = get_key http_methods s
