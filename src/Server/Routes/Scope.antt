-- ===== src/Server/Routes/Scope.antt =====
-- Which requests the rate limiter stands before.
use mathlib.Core.Bool.{false≢true}
use speedtest_go.Base.{
  ◌∙◌, if_both, ℕ, ◌≡◌, ◌↔◌, inl, inr, refl, sym, ap, true, false, Option, none, some, List, [],
  ◌∷◌, Str, str, str_eq, Bool-cases, Bool, ◌&&◌, not, ◌==◌, ==_iff, drop, arith,
}
use speedtest_go.Golang.Escape.{escape_at, unescape, unescape-cons}
use speedtest_go.Handler.Http.{Request, Reply, Failure}
use speedtest_go.Handler.ClientIp.{client_ip}
use speedtest_go.Handler.RateLimit.{Rate, RateLimiter, is_scoped, allow, rate_limit}
use speedtest_go.Handler.RateLimit.Outcome.{rate_limit-passed, rate_limit-exempt}
use speedtest_go.Server.Routes.{
  Route, static_file, favicon, sw_js, api_config, api_ip, healthz, metrics, results_export, results,
  redirect, patterns, matches, lookup, is_clean, route, routed, answer_of, serve, is_test,
}

and_true : (a b : Bool) → (a && b) ≡ true → (a ≡ true) × (b ≡ true)
and_true a b h = ground arith

-- A path that matches a pattern is the pattern once it is decoded.
matches-unescape : (pattern s : Str) → matches pattern s ≡ true → unescape s ≡ pattern
unfolding matches unescape
matches-unescape [] [] h = refl
matches-unescape [] (c ∷ s) h = absurd (false≢true h)
matches-unescape (p ∷ pattern) [] h = absurd (false≢true h)
matches-unescape (p ∷ pattern) (c ∷ s) h =
    unescape-cons c s
    ∙ by_escape (λ k. matches-unescape pattern s k) (λ k. matches-unescape pattern (drop 2 s) k)
        (escape_at (c ∷ s)) h
  where
    by_escape :
        (matches pattern s ≡ true → unescape s ≡ pattern)
        → (matches pattern (drop 2 s) ≡ true → unescape (drop 2 s) ≡ pattern)
        → (o : Option ℕ)
        → (elim o [
          | none ↦ c == p && matches pattern s
          | some v ↦ not (v == b'/') && (v == p && matches pattern (drop 2 s))
        ])
          ≡ true
        → elim o [ none ↦ c ∷ unescape s | some v ↦ v ∷ unescape (drop 2 s) ] ≡ p ∷ pattern
    by_escape plain coded none e =
        let (same, more) = and_true (c == p) (matches pattern s) e in
        λ i. (==_iff c p).0 same i ∷ plain more i
    by_escape plain coded (some v) e =
        let (slash, rest) = and_true (not (v == b'/')) _ e in
        let (same, more) = and_true (v == p) (matches pattern (drop 2 s)) rest in
        λ i. (==_iff v p).0 same i ∷ coded more i

-- What holds of each route at its pattern, and of the files, holds of the route that is found.
abbrev AtPatterns : (Route → Type 0) → Str → List (Str × Route) → Type 0
AtPatterns P path [] = Unit {0}
AtPatterns P path ((pattern, r) ∷ rest) =
    (matches pattern path ≡ true → P r) × AtPatterns P path rest

lookup_lem :
    (P : Route → Type 0) (path : Str) (ps : List (Str × Route))
    → P static_file
    → AtPatterns P path ps
    → P (lookup ps path)
unfolding lookup
lookup_lem P path [] files h = files
lookup_lem P path ((pattern, r) ∷ rest) files (h, hs) = elim (Bool-cases (matches pattern path)) [
  | inl hit ↦ rw hit (h hit)
  | inr miss ↦ rw miss (lookup_lem P path rest files hs)
]

abbrev ScopedIf : Str → Route → Type 0
ScopedIf path r = is_test r ≡ true → is_scoped (unescape path) ≡ true

untested : (path : Str) (r : Route) → is_test r ≡ false → ScopedIf path r
untested path r other hit = absurd (false≢true (sym other ∙ hit))

scoped_at :
    (pattern path : Str)
    → is_scoped pattern ≡ true
    → matches pattern path ≡ true
    → is_scoped (unescape path) ≡ true
scoped_at pattern path h e = ap is_scoped (matches-unescape pattern path e) ∙ h

lookup-ScopedIf : (path : Str) → ScopedIf path (lookup patterns path)
unfolding is_scoped str_eq
lookup-ScopedIf path =
    let skip = λ (r : Route) (e : is_test r ≡ false). untested path r e in
    lookup_lem (ScopedIf path) path patterns (skip static_file refl) (
      λ e. skip favicon refl,
      (
        λ e. skip sw_js refl,
        (
          λ e. skip api_config refl,
          (
            λ e. skip api_ip refl,
            (
              λ e t. scoped_at (str "/api/ping") path refl e,
              (
                λ e t. scoped_at (str "/api/download") path refl e,
                (
                  λ e t. scoped_at (str "/api/upload") path refl e,
                  (
                    λ e. skip healthz refl,
                    (
                      λ e. skip metrics refl,
                      (λ e. skip results_export refl, (λ e. skip results refl, tt)),
                    ),
                  ),
                ),
              ),
            ),
          ),
        ),
      ),
    )

route-ScopedIf : (path : Str) → ScopedIf path (route path)
unfolding route
route-ScopedIf path =
    if_both (ScopedIf path) (is_clean path) _ _ (lookup-ScopedIf path) (untested path redirect refl)

answer_of-routed :
    (o : Option (Reply Failure)) (r : Route) → (answer_of o r ≡ routed r) ↔ (o ≡ none)
answer_of-routed none r = (λ h. refl, λ h. refl)
answer_of-routed (some reply) r = (λ h. cc, λ h. cc)

-- Every spelling of a path that the mux routes to a speed-test endpoint is one that the limiter looks
-- at. A request whose decoded path is one of theirs reaches its route exactly when the bucket of its
-- client address gives it a token at once; a request with any other path reaches its route and leaves
-- the limiter as it was. Without a limiter, every request reaches its route. The path is what net/url
-- decodes from the escaped path.
pub serve_lem :
    (rate : Rate) (rl : RateLimiter rate) (r : Request) (now : ℕ)
    → r.path ≡ unescape r.escaped_path
    → ((is_test (route r.escaped_path) ≡ true) → is_scoped r.path ≡ true)
      × ((is_scoped r.path ≡ true)
          → ((serve rate (some rl) r now).0 ≡ routed (route r.escaped_path))
            ↔ ((allow rate rl (client_ip r) now).0 ≡ none))
      × ((is_scoped r.path ≡ false)
          → serve rate (some rl) r now ≡ (routed (route r.escaped_path), some rl))
      × (serve rate none r now ≡ (routed (route r.escaped_path), none))
unfolding serve
serve_lem rate rl r now decoded = (
  λ t. ap is_scoped decoded ∙ route-ScopedIf r.escaped_path t,
  λ scoped.
      let passed = rate_limit-passed rate rl r now scoped in
      let answered = answer_of-routed (rate_limit rate (some rl) r now).0 (route r.escaped_path) in
      (λ h. passed.0 (answered.0 h), λ h. answered.1 (passed.1 h)),
  λ f. rw (rate_limit-exempt rate rl r now f) refl,
  refl,
)
