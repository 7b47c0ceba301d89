-- ===== src/Transaction/Key.antt =====
-- lib/sippet/transactions/client/key.ex and server/key.ex, and `to_response` of lib/sippet/message.ex, which
-- makes the responses whose keys they are.
pub mod Related
use elixir_sippet.Base.Int.{ℤ, eqb_ℤ}
use elixir_sippet.Base.{
  ℕ, Bool, false, ◌&&◌, ltb, [], ◌∷◌, Option, none, some, Bytes, codes, equal, if◌then◌else◌,
}
use elixir_sippet.Transaction.Message.{
  Request, Response, HeaderMap, header_value, set_header, has_header, copy_header, copy_if_there,
  via_name, to_name, from_name, call_id_name, cseq_name, record_route_name, tag,
}
use elixir_sippet.Value.{Name, same_name, Value, one, many, via, contact, cseq, map_get, map_put}

-- `Client.Key` and `Server.Key`: the branch, the method, and for a server the sent-by of the topmost Via.
pub data Key : Type 0 where
  client_key : Bytes → Name → Key
  server_key : Bytes → Name → Bytes × ℤ → Key

-- `==` of two keys
unfoldable pub same_key : Key → Key → Bool
unfolding same_name
same_key (client_key b m) (client_key c n) = equal b c && same_name m n
same_key (server_key b m (h, p)) (server_key c n (i, q)) =
    equal b c && same_name m n && equal h i && eqb_ℤ p q
same_key (client_key b m) (server_key c n sent_by) = false
same_key (server_key b m sent_by) (client_key c n) = false

-- `{_version, _protocol, sentby, %{"branch" => branch}} = hd(headers.via)`; `none` is an exception.
unfoldable pub via_branch : Option Value → Option (Bytes × Bytes × ℤ)
unfolding map_get
via_branch (some (many (via version protocol host port params ∷ rest))) =
    elim (map_get (codes "branch") params) [ none ↦ none | some branch ↦ some (branch, host, port) ]
via_branch value = none

-- `{_sequence, method} = headers.cseq`; `none` is an exception.
unfoldable pub cseq_method : Option Value → Option Name
cseq_method (some (one (cseq sequence method))) = some method
cseq_method value = none

abbrev pub client_of : Option (Bytes × Bytes × ℤ) → Option Name → Option Key
client_of (some (branch, host, port)) (some method) = some (client_key branch method)
client_of (some (branch, host, port)) none = none
client_of none method = none

abbrev pub server_of : Option (Bytes × Bytes × ℤ) → Option Name → Option Key
server_of (some (branch, host, port)) (some method) = some (server_key branch method (host, port))
server_of (some (branch, host, port)) none = none
server_of none method = none

-- `Client.Key.new` of an outgoing request
unfoldable pub client_key_of_request : Request → Option Key
unfolding via_branch header_value
client_key_of_request request =
    client_of (via_branch (header_value via_name request.headers)) (some request.method)

-- `Client.Key.new` of an incoming response
unfoldable pub client_key_of_response : Response → Option Key
unfolding via_branch cseq_method header_value
client_key_of_response response =
    client_of (via_branch (header_value via_name response.headers))
      (cseq_method (header_value cseq_name response.headers))

-- `Server.Key.new` of an incoming request
unfoldable pub server_key_of_request : Request → Option Key
unfolding via_branch header_value
server_key_of_request request =
    server_of (via_branch (header_value via_name request.headers)) (some request.method)

-- `Server.Key.new` of an outgoing response
unfoldable pub server_key_of_response : Response → Option Key
unfolding via_branch cseq_method header_value
server_key_of_response response =
    server_of (via_branch (header_value via_name response.headers))
      (cseq_method (header_value cseq_name response.headers))

-- The headers of `to_response` up to the tag
abbrev pub copied_headers : Request → HeaderMap
copied_headers request = copy_header cseq_name request.headers (
    copy_header call_id_name request.headers (
      copy_header to_name request.headers
        (copy_header from_name request.headers (copy_header via_name request.headers []))))

-- The tag that `to_response` puts on a To that has none; `none` is an exception.
unfoldable pub tag_response : Bytes → Option Value → HeaderMap → Option HeaderMap
unfolding map_get map_put set_header
tag_response new_tag (some (one (contact display_name uri params))) headers =
    elim (map_get tag params) [
      | some there ↦ some headers
      | none ↦ some (
          set_header to_name (some (one (contact display_name uri (map_put tag new_tag params))))
            headers)
    ]
tag_response new_tag value headers = none

-- `to_response` with a status line of this code; `new_tag` is what `create_tag` gives.
unfoldable pub to_response : Bytes → ℕ → Request → Option Response
unfolding tag_response header_value has_header set_header
to_response new_tag status_code request =
    let copied = copied_headers request in
    let tagged =
      if ltb 100 status_code
      then tag_response new_tag (header_value to_name request.headers) copied
      else some copied in
    elim tagged [
      | none ↦ none
      | some headers ↦ some (record {
        status_code = status_code;
        headers = copy_if_there record_route_name request.headers headers;
        target = none;
        source_peer = none;
      })
    ]
