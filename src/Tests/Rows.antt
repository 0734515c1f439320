-- ===== src/Tests/Rows.antt =====
-- The theorems on the sanitising of rows and on the geo lookup at concrete inputs.
use speedtest_go.Base.{◌≡◌, ◌↔◌, refl, none, some, List, [], ◌∷◌, ◌++◌, Str}
use speedtest_go.Base.Int.{pos}
use speedtest_go.Handler.Sanitise.{sanitise_result, truncate}
use speedtest_go.Handler.Sanitise.Ranges.{IsSane, sanitise_result_lem}
use speedtest_go.Handler.Sanitise.Utf8.{Utf8, end, char, truncate-Utf8}
use speedtest_go.Handler.Geoip.{empty_slot, set_geoip, Op, set_op, close_op, run}
use speedtest_go.Handler.Geoip.Lifetime.{count, handed, run-current, run-closes}
use speedtest_go.Tests.Fixtures.{measured}

sanitise_result_lem_example :
    IsSane (sanitise_result (measured (pos 7) (pos 9)))
    × (IsSane (measured (pos 7) (pos 9))
        ↔ (sanitise_result (measured (pos 7) (pos 9)) ≡ measured (pos 7) (pos 9)))
sanitise_result_lem_example = sanitise_result_lem (measured (pos 7) (pos 9))

-- An e with an acute accent, then a plain letter.
abbrev accented : Str
accented = 0xc3 ∷ 0xa9 ∷ 0x61 ∷ []

accented-Utf8 : Utf8 accented
accented-Utf8 =
    char 0xc3 (0xa9 ∷ []) (0x61 ∷ []) (0xa9 ∷ 0x61 ∷ []) refl refl (refl, tt) refl
      (char 0x61 [] [] [] refl refl tt refl end)

truncate-Utf8_example : Utf8 (truncate accented 1)
truncate-Utf8_example = truncate-Utf8 accented 1 accented-Utf8

abbrev swaps : List Op
swaps = set_op (some 4) ∷ set_op (some 5) ∷ []

run-current_example : count 5 (run empty_slot swaps).closes ≡ 0
unfolding run empty_slot set_geoip
run-current_example = run-current swaps 5 (refl, (refl, tt)) refl

run-closes_example :
    (count 6 (run empty_slot (swaps ++ close_op ∷ set_op (some 6) ∷ [])).closes
      ≡ count 6 (handed (swaps ++ close_op ∷ set_op (some 6) ∷ [])))
    × ((run empty_slot (swaps ++ close_op ∷ set_op (some 6) ∷ [])).current ≡ none)
run-closes_example = run-closes swaps (set_op (some 6) ∷ []) 6 (refl, (refl, (refl, tt)))
