-- ===== src/HttpRequest/Fields.antt =====
-- What the setters of a request do to its headers and to its body.
use pine_http.Prelude.{
  Option, [], ◌∷◌, ◌≡◌, ◌≢◌, ◌^◌, ◌<◌, ap, ◌∙◌, refl, arith, length, if◌then◌else◌, none, some,
}
use pine_http.Text.{Bytes, equal, to_decimal}
use pine_http.OrderedMap.{insert_or_assign, lookup, IsSorted}
use pine_http.Text.Decimal.{read_decimal, read_decimal-to_decimal}
use pine_http.OrderedMap.Order.{equal_refl}
use pine_http.OrderedMap.Laws.{
  lookup-insert_or_assign, lookup-erase, insert_or_assign-IsSorted, erase-IsSorted,
}
use pine_http.HttpRequest.{
  HttpRequest, get_header, content_length, length_header, set_body, set_header,
}

-- The entry Content-Length that belongs to a body.
abbrev pub size_entry : Bytes → Option Bytes
size_entry [] = none
size_entry (c ∷ cs) = some (to_decimal (length (c ∷ cs)))

lookup-length_header :
    (name value : Bytes) (r : HttpRequest)
    → lookup name (length_header value r.headers)
      ≡ (if equal name content_length then size_entry value else lookup name r.headers)
unfolding length_header
lookup-length_header name [] r = lookup-erase name content_length r.headers
lookup-length_header name (c ∷ cs) r =
    lookup-insert_or_assign name content_length (to_decimal (length (c ∷ cs))) r.headers

length_header-IsSorted :
    (value : Bytes) (r : HttpRequest)
    → IsSorted r.headers
    → IsSorted (length_header value r.headers)
unfolding length_header
length_header-IsSorted [] r = erase-IsSorted content_length r.headers
length_header-IsSorted (c ∷ cs) r =
    insert_or_assign-IsSorted content_length (to_decimal (length (c ∷ cs))) r.headers

-- Of headers whose keys ascend: after `set_body(value)` the body is the value; the header
-- Content-Length is the size of the value in decimal, or absent if the value is empty; every other
-- header is as before; and the keys of the headers still ascend.
pub request-set_body :
    (r : HttpRequest) (value : Bytes)
    → IsSorted r.headers
    → ((set_body r value).body ≡ value)
      × ((name : Bytes)
          → lookup name (set_body r value).headers
            ≡ (if equal name content_length then size_entry value else lookup name r.headers))
      × IsSorted (set_body r value).headers
unfolding set_body
request-set_body r value s =
    (refl, λ name. lookup-length_header name value r, length_header-IsSorted value r s)

-- Of headers whose keys ascend: after `set_header(name, value)`, `get_header` gives the value for
-- that name and what it gave before for every other; and the keys of the headers still ascend.
request-set_header :
    (r : HttpRequest) (name value : Bytes)
    → IsSorted r.headers
    → ((other : Bytes)
        → get_header (set_header r name value) other
          ≡ (if equal other name then value else get_header r other))
      × IsSorted (set_header r name value).headers
unfolding set_header get_header
request-set_header r name value s = (
  λ other. ground (arith, lookup-insert_or_assign other name value r.headers),
  insert_or_assign-IsSorted name value r.headers s,
)

-- Of a body that is set, not empty and below 2 ^ 64 bytes, the header Content-Length holds the size:
-- read as a decimal number, what `get_header` gives for it is the length of the body.
pub request-content_length :
    (r : HttpRequest) (value : Bytes)
    → value ≢ []
    → length value < 2 ^ 64
    → read_decimal (get_header (set_body r value) content_length) ≡ length (set_body r value).body
unfolding set_body get_header
request-content_length r [] some' fits = absurd (some' refl)
request-content_length r (c ∷ cs) some' fits =
    ap (λ (entry : Option Bytes). read_decimal (elim entry [ none ↦ [] | some digits ↦ digits ]))
      (entered (to_decimal (length (c ∷ cs))))
    ∙ read_decimal-to_decimal (length (c ∷ cs)) fits
  where
    entered :
        (digits : Bytes)
        → lookup content_length (insert_or_assign content_length digits r.headers) ≡ some digits
    entered digits =
        lookup-insert_or_assign content_length content_length digits r.headers
        ∙ ap (λ b. if b then some digits else lookup content_length r.headers)
            (equal_refl content_length)
