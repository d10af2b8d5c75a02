-- ===== src/Matcher/Compilation.antt =====
-- pkg/matcher/matcher.go: `New`, which compiles the rules of a configuration.
use inferno_sim.Prelude.{
  String, Bool, true, false, not, ◌&&◌, ◌||◌, Option, none, some, List, [], ◌∷◌, ◌++◌,
}
use inferno_sim.Prelude.Lists.{is_empty}
use inferno_sim.Prelude.Result.{Result, ok, ◌>>=◌, ◌>>◌, reject_if}
use inferno_sim.Prelude.Text.{is_empty_text}
use inferno_sim.Prelude.Dict.{Dict, put}
use inferno_sim.Matcher.Externals.{Library, Registry}
use inferno_sim.Matcher.Rules.{
  CompiledRule, Config, ConfigError, Matcher, Rule, bad_path, bad_regex, needs_schemas,
  unknown_method,
}
use inferno_sim.Matcher.Comparing.{all_paths, keys_of}

abbrev no_registry : Option Registry → Bool
no_registry none = true
no_registry (some r) = false

abbrev lacks_method : Option Registry → String → Bool
lacks_method none method = false
lacks_method (some r) method = not (r.has_method method)

module _ (lib : Library) where
  -- Every pattern of a map compiles.
  unfoldable pub all_compile : Dict String → Bool
  all_compile [] = true
  all_compile ((name, pattern) ∷ m) = lib.compiles pattern && all_compile m

  -- `cr.headers[http.CanonicalHeaderKey(name)] = re`
  unfoldable pub compile_headers : Dict String → Dict String → Dict String
  compile_headers out [] = out
  compile_headers out ((name, pattern) ∷ m) =
      compile_headers (put (lib.canonical name) pattern out) m

  abbrev bad_optional : String → Bool
  bad_optional pattern = not (is_empty_text pattern) && not (lib.compiles pattern)

  -- A round of the loop of `NewWithRegistry`.
  unfoldable pub compile_rule : Config → Option Registry → Rule → Result ConfigError CompiledRule
  unfolding all_compile all_paths compile_headers
  compile_rule cfg grpc rule = do
    reject_if (bad_optional rule.host_regex) bad_regex
    reject_if (bad_optional rule.path_regex) bad_regex
    reject_if (not (all_compile rule.header_regex)) bad_regex
    reject_if (not (all_compile rule.query_regex)) bad_regex
    reject_if (not (all_paths (keys_of rule.json_path_regex))) bad_path
    reject_if (not (all_compile rule.json_path_regex)) bad_regex
    reject_if
        ((not (is_empty_text rule.grpc_method)
            || not (is_empty rule.protobuf_field_regex)
            || rule.compare_protobuf)
          && no_registry grpc)
        needs_schemas
    reject_if (not (is_empty_text rule.grpc_method) && lacks_method grpc rule.grpc_method)
        unknown_method
    reject_if (not (all_paths (keys_of rule.protobuf_field_regex))) bad_path
    reject_if (not (all_compile rule.protobuf_field_regex)) bad_regex
    reject_if (not (all_paths rule.ignored_protobuf_fields)) bad_path
    reject_if (not (all_paths (cfg.ignored_json_paths ++ rule.ignored_json_paths))) bad_path
    ok (record { rule = rule; headers = compile_headers [] rule.header_regex })

  unfoldable pub compile_rules :
      Config → Option Registry → List Rule → Result ConfigError (List CompiledRule)
  unfolding compile_rule
  compile_rules cfg grpc [] = ok []
  compile_rules cfg grpc (r ∷ rs) = do
    cr ← compile_rule cfg grpc r
    crs ← compile_rules cfg grpc rs
    ok (cr ∷ crs)

  -- `NewWithRegistry`, with the registry that the configuration loads or the caller passes
  unfoldable pub new : Config → Option Registry → Result ConfigError Matcher
  unfolding compile_rules
  new cfg grpc = do
    rules ← compile_rules cfg grpc cfg.rules
    ok (record { config = cfg; rules = rules; grpc = grpc })
