-- ===== src/Config/Addr.antt =====
-- `Addr`, the text that the server listens on, against `net.SplitHostPort`, which reads it.
use speedtest_go.Base.{
  ◌≡◌, refl, ap, ◌∙◌, ◌≢◌, Bool, true, false, ◌&&◌, not, none, some, [], ◌∷◌, ◌++◌, Str,
  if◌then◌else◌, ◌==◌, arith, Bool-cases, inl, inr, append_assoc,
}
use speedtest_go.Golang.Strconv.{atoi, atoi-contains}
use speedtest_go.Golang.HostPort.{
  contains, split_host_port, NoBracket, split_host_port_bracketed, split_host_port_plain,
}
use speedtest_go.Config.{Config}

-- `strings.HasPrefix(s, "[")`
abbrev starts_with_bracket : Str → Bool
starts_with_bracket [] = false
starts_with_bracket (c ∷ s) = c == b'['

unfoldable pub addr : Config → Str
unfolding contains
addr c =
    let host =
      if contains b':' c.host && not (starts_with_bracket c.host)
      then (b'[' ∷ c.host) ++ b']' ∷ []
      else c.host in
    host ++ b':' ∷ c.port

no_bracket_head : (s : Str) → contains b'[' s ≡ false → starts_with_bracket s ≡ false
unfolding contains
no_bracket_head [] h = refl
no_bracket_head (c ∷ s) h = ground arith

port_lem : (port : Str) → atoi port ≢ none → NoBracket port × (contains b':' port ≡ false)
port_lem port p = (
  (atoi-contains b'[' port p refl, atoi-contains b']' port p refl),
  atoi-contains b':' port p refl,
)

addr_six :
    (c : Config)
    → contains b':' c.host ≡ true
    → starts_with_bracket c.host ≡ false
    → addr c ≡ b'[' ∷ (c.host ++ b']' ∷ b':' ∷ c.port)
unfolding addr
addr_six c six bare =
    rw (six, bare) (ap (◌∷◌ b'[') (append_assoc c.host (b']' ∷ []) (b':' ∷ c.port)))

addr_plain : (c : Config) → contains b':' c.host ≡ false → addr c ≡ c.host ++ b':' ∷ c.port
unfolding addr
addr_plain c four = rw four

-- The address of any host without brackets and of any port that reads as a number splits into that
-- host and that port, for IPv6 hosts too.
pub split_host_port-addr :
    (c : Config)
    → NoBracket c.host
    → atoi c.port ≢ none
    → split_host_port (addr c) ≡ some (c.host, c.port)
split_host_port-addr c h p =
    let (brackets, colon) = port_lem c.port p in
    elim (Bool-cases (contains b':' c.host)) [
      | inl six ↦
          ap split_host_port (addr_six c six (no_bracket_head c.host h.0))
          ∙ split_host_port_bracketed c.host c.port h brackets colon
      | inr four ↦
          ap split_host_port (addr_plain c four)
          ∙ split_host_port_plain c.host c.port h brackets four colon
    ]
