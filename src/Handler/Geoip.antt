-- ===== src/Handler/Geoip.antt =====
-- internal/handler/handler.go: the optional geo lookup, which an updater may swap at any time.
pub mod Lifetime
use speedtest_go.Base.{
  ℕ, Bool, true, false, not, ◌&&◌, Option, none, some, List, [], ◌∷◌, Str, if◌then◌else◌, ◌==◌,
}

-- A handle is an open lookup. The slot holds the current handle, if any, the shutdown flag, and the
-- `Close` calls made so far, the latest first. The lock makes each operation one step.
pub record Slot : Type 0 where
  pub current : Option ℕ
  pub closed : Bool
  pub closes : List ℕ

unfoldable pub empty_slot : Slot
empty_slot = record { current = none; closed = false; closes = [] }

unfoldable pub geoip_enabled : Slot → Bool
geoip_enabled s = elim s.current [ none ↦ false | some _ ↦ true ]

-- `LocateIP`, over what the lookup of a handle says of an address.
unfoldable pub locate_ip {ℓ} : {Ip : Type ℓ} → (ℕ → Ip → Str) → Slot → Ip → Str
locate_ip locate s ip = elim s.current [ none ↦ [] | some h ↦ locate h ip ]

close_call : Option ℕ → List ℕ → List ℕ
close_call none closes = closes
close_call (some h) closes = h ∷ closes

-- `if old != nil && old != l { old.Close() }`
close_replaced : Option ℕ → Option ℕ → List ℕ → List ℕ
close_replaced none l closes = closes
close_replaced (some old) none closes = old ∷ closes
close_replaced (some old) (some h) closes = if old == h then closes else old ∷ closes

unfoldable pub set_geoip : Option ℕ → Slot → Slot
unfolding close_call close_replaced
set_geoip l s =
    if s.closed
    then record s { closes = close_call l s.closes }
    else record s { current = l; closes = close_replaced s.current l s.closes }

unfoldable pub close_geoip : Slot → Slot
unfolding close_call
close_geoip s = record { current = none; closed = true; closes = close_call s.current s.closes }

pub data Op : Type 0 where
  set_op : Option ℕ → Op
  close_op : Op

unfoldable pub run : Slot → List Op → Slot
unfolding set_geoip close_geoip
run s [] = s
run s (set_op l ∷ ops) = run (set_geoip l s) ops
run s (close_op ∷ ops) = run (close_geoip s) ops
