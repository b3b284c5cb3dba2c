-- ===== src/HttpResponse/Fields.antt =====
-- What the setters of a response do to its headers and to its body.
use pine_http.Prelude.{Option, [], ◌∷◌, ◌≡◌, refl, arith, length, if◌then◌else◌, none, some}
use pine_http.Text.{Bytes, equal, to_decimal}
use pine_http.OrderedMap.{lookup, IsSorted}
use pine_http.OrderedMap.Laws.{
  lookup-insert_or_assign, lookup-erase, insert_or_assign-IsSorted, erase-IsSorted,
}
use pine_http.HttpResponse.{
  HttpResponse, get_header, content_length, length_header, set_body, set_header,
}

-- The entry Content-Length that belongs to a body.
abbrev pub size_entry : Bytes → Option Bytes
size_entry [] = none
size_entry (c ∷ cs) = some (to_decimal (length (c ∷ cs)))

lookup-length_header :
    (name value : Bytes) (r : HttpResponse)
    → lookup name (length_header value r.headers)
      ≡ (if equal name content_length then size_entry value else lookup name r.headers)
unfolding length_header
lookup-length_header name [] r = lookup-erase name content_length r.headers
lookup-length_header name (c ∷ cs) r =
    lookup-insert_or_assign name content_length (to_decimal (length (c ∷ cs))) r.headers

length_header-IsSorted :
    (value : Bytes) (r : HttpResponse)
    → IsSorted r.headers
    → IsSorted (length_header value r.headers)
unfolding length_header
length_header-IsSorted [] r = erase-IsSorted content_length r.headers
length_header-IsSorted (c ∷ cs) r =
    insert_or_assign-IsSorted content_length (to_decimal (length (c ∷ cs))) r.headers

-- Of headers whose keys ascend: after `set_body(value)` the body is the value; the header
-- Content-Length is the size of the value in decimal, or absent if the value is empty; every other
-- header is as before; and the keys of the headers still ascend.
response-set_body :
    (r : HttpResponse) (value : Bytes)
    → IsSorted r.headers
    → ((set_body r value).body ≡ value)
      × ((name : Bytes)
          → lookup name (set_body r value).headers
            ≡ (if equal name content_length then size_entry value else lookup name r.headers))
      × IsSorted (set_body r value).headers
unfolding set_body
response-set_body r value s =
    (refl, λ name. lookup-length_header name value r, length_header-IsSorted value r s)

-- Of headers whose keys ascend: after `set_header(name, value)`, `get_header` gives the value for
-- that name and what it gave before for every other; and the keys of the headers still ascend.
response-set_header :
    (r : HttpResponse) (name value : Bytes)
    → IsSorted r.headers
    → ((other : Bytes)
        → get_header (set_header r name value) other
          ≡ (if equal other name then value else get_header r other))
      × IsSorted (set_header r name value).headers
unfolding set_header get_header
response-set_header r name value s = (
  λ other. ground (arith, lookup-insert_or_assign other name value r.headers),
  insert_or_assign-IsSorted name value r.headers s,
)
