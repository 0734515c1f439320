-- ===== src/Config/Stacks.antt =====
-- Each kind of setting through the three layers, as the code lays them over the default.
use speedtest_go.Base.{
  ◌≡◌, refl, sym, ◌∙◌, inl, inr, ◌&&◌, not, Option, none, some, List, [], ◌∷◌, Str, is_empty,
  if◌then◌else◌, arith, Bool-cases, Option-cases,
}
use speedtest_go.Base.Int.{ℤ}
use speedtest_go.Golang.Strconv.{atoi}
use speedtest_go.Config.{Mode, clamp, parse_mode, set_mode, set_port, set_duration}
use speedtest_go.Config.Cli.{Given, cli_str_over, cli_int_over}
use speedtest_go.Config.Json.{json_str_over, json_int_over}
use speedtest_go.Config.Env.{env_str_over, env_int_over, env_duration_over}
use speedtest_go.Config.Settings.{
  first_of, offer, given_text, given_int, nonempty, in_range, positive_seconds, numeric,
}

int_layer :
    (o : Option ℤ) (low high old : ℤ) (layers : List (Option ℤ)) (def : ℤ)
    → old ≡ first_of layers def
    → (elim o [ none ↦ old | some n ↦ clamp n low high old ])
      ≡ first_of (offer (in_range low high) o ∷ layers) def
unfolding clamp
int_layer none low high old layers def h = h
int_layer (some n) low high old layers def h = ground arith

env_int :
    (v : Str) (low high old : ℤ)
    → env_int_over v low high old ≡ (elim (atoi v) [ none ↦ old | some n ↦ clamp n low high old ])
unfolding env_int_over atoi
env_int [] low high old = refl
env_int (b ∷ v) low high old = refl

cli_int :
    (g : Given ℤ) (low high old : ℤ)
    → cli_int_over g low high old
      ≡ (elim (given_int g) [ none ↦ old | some n ↦ clamp n low high old ])
unfolding cli_int_over
cli_int g low high old = ground arith

-- The three layers of a number over its default.
pub int_stack :
    (g : Given ℤ) (v : Str) (o : Option ℤ) (low high def : ℤ)
    → cli_int_over g low high (env_int_over v low high (json_int_over o low high def))
      ≡ first_of
          (offer (in_range low high) (given_int g)
            ∷ offer (in_range low high) (atoi v)
            ∷ offer (in_range low high) o
            ∷ [])
          def
unfolding json_int_over
int_stack g v o low high def =
    cli_int g low high _
    ∙ int_layer (given_int g) low high _ _ def (
        env_int v low high _
        ∙ int_layer (atoi v) low high _ _ def (int_layer o low high def [] def refl))

pub days_stack :
    (v : Str) (o : Option ℤ) (low high def : ℤ)
    → env_int_over v low high (json_int_over o low high def)
      ≡ first_of (offer (in_range low high) (atoi v) ∷ offer (in_range low high) o ∷ []) def
unfolding json_int_over
days_stack v o low high def =
    env_int v low high _
    ∙ int_layer (atoi v) low high _ _ def (int_layer o low high def [] def refl)

pub text_stack :
    (g : Given Str) (v : Str) (o : Option Str) (def : Str)
    → cli_str_over g (env_str_over v (json_str_over o def))
      ≡ first_of (given_text g ∷ nonempty v ∷ o ∷ []) def
unfolding cli_str_over env_str_over json_str_over
text_stack g v o def = ground arith

-- A port or a mode: `valid` is what the code tests, and `set` replaces by a valid text only.
module _ {A : Type 0} (valid : Str → Option A) (set : Str → A → A) where
  set_layer :
      ((v : Str) (old : A) → set v old ≡ (elim (valid v) [ none ↦ old | some a ↦ a ]))
      → (o : Option Str) (old : A) (layers : List (Option A)) (def : A) → old ≡ first_of layers def
      → (elim o [ none ↦ old | some v ↦ set v old ]) ≡ first_of (offer valid o ∷ layers) def
  set_layer step none old layers def h = h
  set_layer step (some v) old layers def h = elim (Option-cases (valid v)) [
    | inl e ↦ step v old ∙ rw e h
    | inr (a, e) ↦ step v old ∙ rw e
  ]

given_elim {ℓ} :
    {A : Type ℓ} (g : Given Str) (f : Str → A) (old : A)
    → (if g.given then f g.value else old) ≡ (elim (given_text g) [ none ↦ old | some v ↦ f v ])
given_elim g f old = elim (Bool-cases g.given) [ inl e ↦ rw e | inr e ↦ rw e ]

guard_empty {ℓ} :
    {A : Type ℓ} (set : Str → A → A) (v : Str) (old : A)
    → set [] old ≡ old
    → (if is_empty v then old else set v old) ≡ set v old
guard_empty set [] old h = sym h
guard_empty set (b ∷ v) old h = refl

port_step : (v old : Str) → set_port v old ≡ (elim (numeric v) [ none ↦ old | some a ↦ a ])
unfolding set_port
port_step v old = ground arith

pub port_stack :
    (g : Given Str) (v : Str) (o : Option Str) (def : Str)
    → (let filed : Str = elim o [ none ↦ def | some w ↦ set_port w def ] in
        let env : Str = if is_empty v then filed else set_port v filed in
        if g.given then set_port g.value env else env)
      ≡ first_of (offer numeric (given_text g) ∷ numeric v ∷ offer numeric o ∷ []) def
unfolding set_port atoi
port_stack g v o def =
    given_elim g (λ w. set_port w _) _
    ∙ set_layer numeric set_port port_step (given_text g) _ _ def (
        guard_empty set_port v _ refl
        ∙ set_layer numeric set_port port_step (some v) _ _ def
            (set_layer numeric set_port port_step o def [] def refl))

pub mode_stack :
    (g : Given Str) (v : Str) (o : Option Str) (def : Mode)
    → (let filed : Mode = elim o [ none ↦ def | some w ↦ set_mode w def ] in
        let env : Mode = if is_empty v then filed else set_mode v filed in
        if g.given then set_mode g.value env else env)
      ≡ first_of (offer parse_mode (given_text g) ∷ parse_mode v ∷ offer parse_mode o ∷ []) def
unfolding set_mode parse_mode
mode_stack g v o def =
    given_elim g (λ w. set_mode w _) _
    ∙ set_layer parse_mode set_mode (λ w old. refl) (given_text g) _ _ def
        (guard_empty set_mode v _ refl
          ∙ set_layer parse_mode set_mode (λ w old. refl) (some v) _ _ def
              (set_layer parse_mode set_mode (λ w old. refl) o def [] def refl))

duration_layer :
    (o : Option ℤ) (old : ℤ) (layers : List (Option ℤ)) (def : ℤ)
    → old ≡ first_of layers def
    → (elim o [ none ↦ old | some n ↦ set_duration n old ])
      ≡ first_of (offer positive_seconds o ∷ layers) def
unfolding set_duration
duration_layer none old layers def h = h
duration_layer (some n) old layers def h = ground arith

env_duration :
    (v : Str) (old : ℤ)
    → env_duration_over v old ≡ (elim (atoi v) [ none ↦ old | some n ↦ set_duration n old ])
unfolding env_duration_over atoi
env_duration [] old = refl
env_duration (b ∷ v) old = refl

pub duration_stack :
    (g : Given ℤ) (v : Str) (o : Option ℤ) (def : ℤ)
    → (let env : ℤ = env_duration_over v (elim o [ none ↦ def | some n ↦ set_duration n def ]) in
        if g.given then set_duration g.value env else env)
      ≡ first_of
          (offer positive_seconds (given_int g)
            ∷ offer positive_seconds (atoi v)
            ∷ offer positive_seconds o
            ∷ [])
          def
duration_stack g v o def =
    given_duration g _
    ∙ duration_layer (given_int g) _ _ def
        (env_duration v _ ∙ duration_layer (atoi v) _ _ def (duration_layer o def [] def refl))
  where
    given_duration :
        (g : Given ℤ) (old : ℤ)
        → (if g.given then set_duration g.value old else old)
          ≡ (elim (given_int g) [ none ↦ old | some n ↦ set_duration n old ])
    given_duration g old = elim (Bool-cases g.given) [ inl e ↦ rw e | inr e ↦ rw e ]

pub edition_stack :
    (g : Given Str) (v : Str) (o : Option Str) (def : Str)
    → (let filed : Str = elim o [ none ↦ def | some w ↦ if is_empty w then def else w ] in
        let env = env_str_over v filed in
        if g.given && not (is_empty g.value) then g.value else env)
      ≡ first_of (offer nonempty (given_text g) ∷ nonempty v ∷ offer nonempty o ∷ []) def
unfolding env_str_over
edition_stack g v o def = ground arith
