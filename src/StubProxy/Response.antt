-- ===== src/StubProxy/Response.antt =====
-- How pkg/stubproxy/stubproxy.go writes a response: the headers that it passes on, the status of a
-- gRPC call, and the body of a scenario's response. The template engine of pkg/simtemplate and the
-- Protobuf registry of pkg/grpcsim are parameters; a rendering gets the request and its body.
use inferno_sim.Prelude.{
  ℕ, String, Bool, true, false, not, ◌&&◌, ◌||◌, Option, none, some, List, [], ◌∷◌, ◌++◌, ◌==◌,
  if◌then◌else◌,
}
use inferno_sim.Prelude.Lists.{any, is_empty}
use inferno_sim.Prelude.Result.{Result, ok, err, ◌>>=◌, ◌>>◌, reject_if}
use inferno_sim.Prelude.Text.{equal_fold, trim_space, is_empty_text}
use inferno_sim.Prelude.Dict.{lookup, put, member}
use inferno_sim.Prelude.Text.{codes, folded}
use inferno_sim.Matcher.Externals.{Library, Values}
use inferno_sim.Matcher.Comparing.{first_value}
use inferno_sim.Matcher.Rules.{Request}
use inferno_sim.Scenario.{Response}

pub record Backend : Type 0 where
  pub render : String → Request → String → Option String
  pub encode_message : String → List String → Option (List String)
  pub encode_response : String → List String → Option (List String)
  pub has_registry : Bool
  pub delay : String → ℕ

pub record Reply : Type 0 where
  pub status : ℕ
  pub headers : Values
  pub trailers : Values
  pub chunks : List String
  pub delay : ℕ

pub data Error : Type 0 where
  header_template trailer_template invalid_body : Error

abbrev pub same_prefix : List ℕ → List ℕ → Bool
same_prefix [] cs = true
same_prefix (p ∷ ps) [] = false
same_prefix (p ∷ ps) (c ∷ cs) = p == c && same_prefix ps cs

-- strings.HasPrefix
abbrev pub has_prefix : String → List ℕ → Bool
has_prefix p cs = same_prefix (codes p) cs

-- `isGRPCRequest`
unfoldable pub is_grpc_request : Request → Bool
unfolding folded first_value
is_grpc_request req =
    has_prefix "application/grpc" (folded (first_value "Content-Type" req.headers))

abbrev pub status_names : List (String × String)
status_names =
    ("", "0")
    ∷ ("OK", "0")
    ∷ ("CANCELLED", "1")
    ∷ ("UNKNOWN", "2")
    ∷ ("INVALID_ARGUMENT", "3")
    ∷ ("DEADLINE_EXCEEDED", "4")
    ∷ ("NOT_FOUND", "5")
    ∷ ("ALREADY_EXISTS", "6")
    ∷ ("PERMISSION_DENIED", "7")
    ∷ ("RESOURCE_EXHAUSTED", "8")
    ∷ ("FAILED_PRECONDITION", "9")
    ∷ ("ABORTED", "10")
    ∷ ("OUT_OF_RANGE", "11")
    ∷ ("UNIMPLEMENTED", "12")
    ∷ ("INTERNAL", "13")
    ∷ ("UNAVAILABLE", "14")
    ∷ ("DATA_LOSS", "15")
    ∷ ("UNAUTHENTICATED", "16")
    ∷ []

unfoldable pub code_of : String → List (String × String) → Option String
unfolding equal_fold
code_of s [] = none
code_of s ((name, number) ∷ names) = if equal_fold s name then some number else code_of s names

-- `normalizeGRPCStatus`. Upper case is compared by folding.
unfoldable pub normalize_grpc_status : String → String
unfolding code_of trim_space
normalize_grpc_status value = elim (code_of (trim_space value) status_names) [
  | none ↦ value
  | some number ↦ number
]

abbrev pub hop_by_hop_headers : List String
hop_by_hop_headers =
    "Connection" ∷ "Proxy-Connection" ∷ "Keep-Alive" ∷ "Proxy-Authenticate" ∷ "Proxy-Authorization"
    ∷ "Te" ∷ "Trailer" ∷ "Transfer-Encoding" ∷ "Upgrade" ∷ []

-- `Header.Add`
abbrev pub add_value : String → String → Values → Values
add_value k v headers = elim (lookup k headers) [
  | none ↦ put k (v ∷ []) headers
  | some vs ↦ put k (vs ++ (v ∷ [])) headers
]

unfoldable pub add_values : String → List String → Values → Values
add_values k [] headers = headers
add_values k (v ∷ vs) headers = add_values k vs (add_value k v headers)

-- `copyHeaders`, for canonical names
unfoldable pub copy_headers : Values → Values → Values
unfolding add_values
copy_headers dst [] = dst
copy_headers dst ((k, vs) ∷ src) =
    copy_headers (if member k hop_by_hop_headers then dst else add_values k vs dst) src

-- The trailers of `writeStubResponseChunks`, with the status of the gRPC call.
unfoldable pub with_grpc_status : String → Values → Values
with_grpc_status grpc_status trailers =
    if not (is_empty_text grpc_status) && is_empty_text (first_value "Grpc-Status" trailers)
    then put "Grpc-Status" (grpc_status ∷ []) trailers
    else trailers

unfoldable pub announce : Values → Values → Values
announce [] headers = headers
announce ((name, _) ∷ trailers) headers = announce trailers (add_value "Trailer" name headers)

-- `writeStubResponseChunks`, as the response that the client gets
unfoldable pub write_chunks : ℕ → Values → Values → String → List String → ℕ → Reply
unfolding copy_headers with_grpc_status announce
write_chunks status headers trailers grpc_status chunks delay =
    let values = with_grpc_status grpc_status trailers in
    record {
      status = status;
      headers = announce values (copy_headers [] headers);
      trailers = values;
      chunks = chunks;
      delay = delay;
    }

abbrev pub need_body {ℓ} : {A : Type ℓ} → Option A → Result Error A
need_body none = err invalid_body
need_body (some a) = ok a

module _ (lib : Library) (b : Backend) where
  unfoldable pub render_values :
      Error → String → List String → Request → String → Values → Result Error Values
  render_values e name [] req body out = ok out
  render_values e name (v ∷ vs) req body out = do
    text ← elim (b.render v req body) [ none ↦ err e | some t ↦ ok t ]
    reject_if (any (λ c. c == 10 || c == 13) (codes text)) e
    render_values e name vs req body (add_value name text out)

  -- `RenderHeader` of pkg/simtemplate/template.go
  unfoldable pub render_header : Error → Values → Request → String → Values → Result Error Values
  unfolding render_values
  render_header e [] req body out = ok out
  render_header e ((name, vs) ∷ values) req body out = do
    next ← render_values e name vs req body out
    render_header e values req body next

  unfoldable pub render_all : List String → Request → String → Result Error (List String)
  render_all [] req body = ok []
  render_all (d ∷ ds) req body = do
    t ← need_body (b.render d req body)
    ts ← render_all ds req body
    ok (t ∷ ts)

  -- `Response.Bytes`
  unfoldable pub response_bytes : Response → Option String
  response_bytes r = if not (is_empty_text r.body_b64) then lib.decode r.body_b64 else some r.body

  abbrev pub documents : Response → List String
  documents r =
      if not (is_empty_text r.protobuf_json) then r.protobuf_json ∷ [] else r.protobuf_stream

  -- `renderScenarioBody`
  unfoldable pub render_scenario_body : Response → Request → String → Result Error (List String)
  unfolding render_all response_bytes
  render_scenario_body r req body =
      if not (is_empty_text r.body_template)
      then (do t ← need_body (b.render r.body_template req body); ok (t ∷ []))
      else if not (is_empty (documents r))
      then (do
        reject_if (not b.has_registry) invalid_body
        ts ← render_all (documents r) req body
        need_body (
            if not (is_empty_text r.protobuf_type)
            then b.encode_message r.protobuf_type ts
            else b.encode_response req.url.path ts))
      else (do bytes ← need_body (response_bytes r); ok (bytes ∷ []))
