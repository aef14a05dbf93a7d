-- ===== src/Config/Fixup/Regexes.antt =====
-- Which CORS patterns are compiled when the configuration is loaded.
use mathlib.Core.List.{append-nil, append_assoc}
use configcat_proxy.Base.{
  Bool-cases, Result, ok, >>=-eq-ok, String, ◌≡◌, refl, ◌∙◌, ◌⊎◌, inl, inr, true, false, List, [],
  ◌∷◌, ◌++◌, arith,
}
use configcat_proxy.Config.Types.{Regexp, CorsConfig, Config}
use configcat_proxy.Config.Fixup.{compile_patterns, compile_regexes, compile_origin_regexes}

-- Each pattern compiled, in order.
abbrev pub Compiled : (String → Result String Regexp) → List String → List Regexp → Type 0
Compiled compile [] [] = Unit
Compiled compile [] (r ∷ rs) = ⊥
Compiled compile (p ∷ ps) [] = ⊥
Compiled compile (p ∷ ps) (r ∷ rs) = (compile p ≡ ok r) × Compiled compile ps rs

abbrev pub with_regexes : CorsConfig → List Regexp → CorsConfig
with_regexes c rs = record c {
  allowed_origins_regex = record c.allowed_origins_regex { regexes = rs };
}

-- `d` is `c`, with all its patterns compiled if it is enabled.
abbrev pub HasRegexes : (String → Result String Regexp) → CorsConfig → CorsConfig → Type 0
HasRegexes compile c d =
    ((c.enabled ≡ false) × (d ≡ c))
    ⊎ ((c.enabled ≡ true)
        × ((rs : List Regexp) × (d ≡ with_regexes c (c.allowed_origins_regex.regexes ++ rs))
            × Compiled compile c.allowed_origins_regex.patterns rs))

module _ (compile : String → Result String Regexp) where
  compile_patterns_lem :
      (acc : List Regexp) (ps : List String) (out : List Regexp)
      → compile_patterns compile acc ps ≡ ok out
      → (rs : List Regexp) × (out ≡ acc ++ rs) × Compiled compile ps rs
  unfolding compile_patterns
  compile_patterns_lem acc [] out h = ([], ground (arith, append-nil acc), tt)
  compile_patterns_lem acc (p ∷ ps) out h =
      let (r, e, rest) = >>=-eq-ok (compile p) _ h in
      let (rs, same, c) = compile_patterns_lem (acc ++ r ∷ []) ps out rest in
      (r ∷ rs, same ∙ append_assoc acc (r ∷ []) rs, (e, c))

  compile_regexes_enabled :
      (c d : CorsConfig)
      → c.enabled ≡ true
      → compile_regexes compile c ≡ ok d
      → (rs : List Regexp) × (d ≡ with_regexes c (c.allowed_origins_regex.regexes ++ rs))
        × Compiled compile c.allowed_origins_regex.patterns rs
  unfolding compile_regexes
  compile_regexes_enabled c d on h =
      let (out, e, same) =
        >>=-eq-ok
          (compile_patterns compile c.allowed_origins_regex.regexes
            c.allowed_origins_regex.patterns)
          (λ rs. ok (with_regexes c rs)) {b = d} (ground arith) in
      let (rs, split, compiled) =
        compile_patterns_lem c.allowed_origins_regex.regexes c.allowed_origins_regex.patterns out
          e in
      (rs, ground arith, compiled)

  compile_regexes-HasRegexes :
      (c d : CorsConfig) → compile_regexes compile c ≡ ok d → HasRegexes compile c d
  unfolding compile_regexes
  compile_regexes-HasRegexes c d h = elim (Bool-cases c.enabled) [
    | inl on ↦ inr (on, compile_regexes_enabled c d on h)
    | inr off ↦ inl (off, ground arith)
  ]

  -- The parts that a successful compilation changes.
  pub compile_origin_regexes_inv :
      (c d : Config)
      → compile_origin_regexes compile c ≡ ok d
      → (api : CorsConfig) × (cdn_proxy : CorsConfig) × (sse : CorsConfig) × (compile_regexes
            compile c.http.api.cors
          ≡ ok api)
        × (compile_regexes compile c.http.cdn_proxy.cors ≡ ok cdn_proxy)
        × (compile_regexes compile c.http.sse.cors ≡ ok sse)
        × (d ≡ record c {
          http = record c.http {
            api = record c.http.api { cors = api };
            cdn_proxy = record c.http.cdn_proxy { cors = cdn_proxy };
            sse = record c.http.sse { cors = sse };
          };
        })
  unfolding compile_origin_regexes
  compile_origin_regexes_inv c d h =
      let (api, e, rest) = >>=-eq-ok (compile_regexes compile c.http.api.cors) _ h in
      let (cdn_proxy, e', rest') =
        >>=-eq-ok (compile_regexes compile c.http.cdn_proxy.cors) _ rest in
      let (sse, e'', last) = >>=-eq-ok (compile_regexes compile c.http.sse.cors) _ rest' in
      (api, cdn_proxy, sse, e, e', e'', cc)

-- A load that succeeds leaves `d` for `c`.
pub record HasOriginRegexes (compile : String → Result String Regexp) (c d : Config) : Type 0 where
  pub api : HasRegexes compile c.http.api.cors d.http.api.cors
  pub cdn_proxy : HasRegexes compile c.http.cdn_proxy.cors d.http.cdn_proxy.cors
  pub sse : HasRegexes compile c.http.sse.cors d.http.sse.cors
  pub ofrep : d.http.ofrep ≡ c.http.ofrep

-- After `compileOriginRegexes` succeeds, the API, the CDN proxy and the SSE sections have each
-- pattern compiled in order behind the regexes that they had, if they are enabled, and are
-- unchanged if not; the OFREP section is unchanged in both cases, so its patterns are not compiled.
pub compile_origin_regexes-HasOriginRegexes :
    (compile : String → Result String Regexp) (c d : Config)
    → compile_origin_regexes compile c ≡ ok d
    → HasOriginRegexes compile c d
compile_origin_regexes-HasOriginRegexes compile c d h =
    let (api, cdn_proxy, sse, e, e', e'', same) = compile_origin_regexes_inv compile c d h in
    rw same (record {
      api = compile_regexes-HasRegexes compile _ _ e;
      cdn_proxy = compile_regexes-HasRegexes compile _ _ e';
      sse = compile_regexes-HasRegexes compile _ _ e'';
      ofrep = refl;
    })
