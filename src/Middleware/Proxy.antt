-- ===== src/Middleware/Proxy.antt =====
-- routers/proxy.py: what the gateway sends to a service. `lower` is Python's `str.lower`.
use mathlib.Core.Option
use g_io_t_edge_gateway.Prelude.{
  ==_eq, All, Bool-cases, List, Option, String, [], ap, arith, contains, false, if◌then◌else◌, inl,
  inr, nat_eq, none, refl, some, string_eq, subst, sym, ◌==◌, ◌∙◌, ◌∷◌, ◌≡◌, ◌≢◌,
}
use Prim.Native.String.{◌++◌ as str_append}
use g_io_t_edge_gateway.Dict.{Dict, get_or, insert, lookup}
use g_io_t_edge_gateway.Dict.Laws.{get_or-lookup, lookup-insert}

abbrev pub hop_by_hop_headers : List String
hop_by_hop_headers =
    "host" ∷ "connection" ∷ "keep-alive" ∷ "proxy-authenticate" ∷ "proxy-authorization" ∷ "te"
    ∷ "trailers" ∷ "transfer-encoding" ∷ "upgrade" ∷ []

abbrev pub excluded_response_headers : List String
excluded_response_headers = "content-encoding" ∷ "content-length" ∷ "transfer-encoding" ∷ []

module _ (lower : String → String) where
  -- The dict comprehension over the items of the headers: a later header of one name overwrites.
  unfoldable pub without :
      List String → List (String × String) → Dict String String → Dict String String
  without names [] d = d
  without names ((k, v) ∷ hs) d =
      without names hs (if contains (lower k) names then d else insert k v d)

  abbrev pub with_correlation : Option String → Dict String String → Dict String String
  with_correlation none d = d
  with_correlation (some id) d = if id == "" then d else insert "X-Correlation-ID" id d

  abbrev pub forwarded_for : String → String → String
  forwarded_for existing client_host =
      if existing == "" then client_host else str_append existing (str_append ", " client_host)

  abbrev pub with_forwarded : String → Dict String String → Dict String String
  with_forwarded client_host d =
      insert "X-Forwarded-For" (forwarded_for (get_or "X-Forwarded-For" "" d) client_host) d

  pub record ProxyRequest : Type 0 where
    pub method : String
    pub base : String
    pub path : String
    pub query : String
    pub headers : List (String × String)
    pub correlation_id : Option String
    pub client : Option String
    pub body : String

  pub record Upstream : Type 0 where
    pub method : String
    pub url : String
    pub headers : Dict String String
    pub content : Option String

  abbrev pub client_host : Option String → String
  client_host none = "unknown"
  client_host (some host) = host

  abbrev pub target_url : ProxyRequest → String
  target_url r =
      let url = str_append r.base (str_append "/api/v1/" r.path) in
      if r.query == "" then url else str_append url (str_append "?" r.query)

  -- The request that goes out.
  unfoldable pub proxy : ProxyRequest → Upstream
  proxy r = record {
    method = r.method;
    url = target_url r;
    headers =
        with_forwarded (client_host r.client)
          (with_correlation r.correlation_id (without hop_by_hop_headers r.headers []));
    content = if r.body == "" then none else some r.body;
  }

  -- The headers of the answer.
  unfoldable pub response_headers : List (String × String) → Dict String String
  response_headers hs = without excluded_response_headers hs []

  -- The value of the last header of the name.
  abbrev pub last_value : String → List (String × String) → Option String
  last_value k [] = none
  last_value k ((j, v) ∷ hs) = elim (last_value k hs) [
    | some later ↦ some later
    | none ↦ if j == k then some v else none
  ]

  abbrev or_else : Option String → Option String → Option String
  or_else (some x) o = some x
  or_else none o = o

  lookup-without :
      (names : List String) (k : String) (hs : List (String × String)) (d : Dict String String)
      → lookup k (without names hs d)
        ≡ (if contains (lower k) names then lookup k d else or_else (last_value k hs) (lookup k d))
  unfolding without
  lookup-without names k [] d = ground arith
  lookup-without names k ((j, v) ∷ hs) d = elim (Bool-cases (contains (lower j) names)) [
    | inl out ↦
        rw (out, without) (ground (arith, out, lookup-without names k hs d, string_eq.beq_iff j k))
    | inr kept ↦
        rw (kept, without)
          (ground (
            arith,
            kept,
            lookup-without names k hs (insert j v d),
            lookup-insert j k v d,
            string_eq.beq_iff j k,
          ))
  ]

  lookup-with_correlation :
      (k : String) (o : Option String) (d : Dict String String)
      → k ≢ "X-Correlation-ID"
      → lookup k (with_correlation o d) ≡ lookup k d
  lookup-with_correlation k none d h = refl
  lookup-with_correlation k (some id) d h =
      ground
        (arith, h, lookup-insert "X-Correlation-ID" k id d, string_eq.beq_iff "X-Correlation-ID" k)

  -- Apart from the two headers that the gateway sets, a header goes out with the last value that
  -- the client gave it, unless it is hop-by-hop: those never go out.
  pub proxy-headers :
      (r : ProxyRequest) (k : String)
      → k ≢ "X-Correlation-ID"
      → k ≢ "X-Forwarded-For"
      → lookup k (proxy r).headers
        ≡ (if contains (lower k) hop_by_hop_headers then none else last_value k r.headers)
  unfolding proxy lookup
  proxy-headers r k other other' =
      let sent : Dict String String = without hop_by_hop_headers r.headers [] in
      let marked : Dict String String = with_correlation r.correlation_id sent in
      let host : String = client_host r.client in
      ground (
        arith,
        other',
        lookup-insert "X-Forwarded-For" k (forwarded_for (get_or "X-Forwarded-For" "" marked) host)
            marked,
        string_eq.beq_iff "X-Forwarded-For" k,
        lookup-with_correlation k r.correlation_id sent other,
        lookup-without hop_by_hop_headers k r.headers [],
      )

  last_value-missing :
      (k : String) (hs : List (String × String))
      → lower k ≢ k
      → All (λ h. lower h.0 ≡ h.0) hs
      → last_value k hs ≡ none
  last_value-missing k [] differs lowercase = refl
  last_value-missing k ((j, v) ∷ hs) differs (same, lowercase) = elim (Bool-cases (j == k)) [
    | inl e ↦ absurd (differs (subst (λ x. lower x ≡ x) (==_eq j k e) same))
    | inr e ↦ ground (arith, e, last_value-missing k hs differs lowercase)
  ]

  differ : (a b : String) → (a == b) ≡ false → a ≢ b
  differ a b h e = ground (arith, h, string_eq.beq_iff a b, e)

  sent_headers :
      (r : ProxyRequest) (k : String)
      → k ≢ "X-Correlation-ID"
      → lookup k (with_correlation r.correlation_id (without hop_by_hop_headers r.headers []))
        ≡ (if contains (lower k) hop_by_hop_headers then none else last_value k r.headers)
  unfolding lookup
  sent_headers r k other =
      let sent : Dict String String = without hop_by_hop_headers r.headers [] in
      ground (
        arith,
        lookup-with_correlation k r.correlation_id sent other,
        lookup-without hop_by_hop_headers k r.headers [],
      )

  -- A server hands header names over in lower case. Then no client's header is found under
  -- "X-Forwarded-For": the gateway sends its own client there alone, and beside it, under the
  -- lower-case name, the last value that the client gave this header.
  pub forwarded_chain_lost :
      (r : ProxyRequest)
      → All (λ h. lower h.0 ≡ h.0) r.headers
      → lower "X-Forwarded-For" ≡ "x-forwarded-for"
      → lower "x-forwarded-for" ≡ "x-forwarded-for"
      → (lookup "X-Forwarded-For" (proxy r).headers ≡ some (client_host r.client))
        × (lookup "x-forwarded-for" (proxy r).headers ≡ last_value "x-forwarded-for" r.headers)
  unfolding proxy contains
  forwarded_chain_lost r lowercase upper_name lower_name =
      let marked : Dict String String =
        with_correlation r.correlation_id (without hop_by_hop_headers r.headers []) in
      let name : String = "X-Forwarded-For" in
      let chain : String = "x-forwarded-for" in
      let unlike : lower name ≢ name = λ e. differ chain name refl (sym upper_name ∙ e) in
      let missing : lookup name marked ≡ none =
        sent_headers r name (differ name "X-Correlation-ID" refl)
        ∙ rw upper_name (last_value-missing name r.headers unlike lowercase) in
      let nothing : get_or name "" marked ≡ "" =
        get_or-lookup name "" marked ∙ ap (λ o. Option.get_or o "") missing in
      let value : String = forwarded_for (get_or name "" marked) (client_host r.client) in
      (
        lookup-insert name name value marked
            ∙ ap (λ x. some (forwarded_for x (client_host r.client))) nothing,
        lookup-insert name chain value marked
            ∙ sent_headers r chain (differ chain "X-Correlation-ID" refl)
            ∙ rw lower_name refl,
      )
