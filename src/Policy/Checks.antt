-- ===== src/Policy/Checks.antt =====
-- The chain of deny rules, as the list of its checks.
use local_book.Base.{
  Bool, List, [], any, arith, false, if◌then◌else◌, refl, ◌∷◌, ◌≡◌, nat_eq, string_eq, option_eq,
  list_eq,
}
use local_book.Policy.{Check, PolicyResult, deny, deny_if, run_checks}

abbrev pub fires : Check → Bool
fires c = c.fires

decision-deny_if :
    (r : PolicyResult) (c : Check) → (deny_if r c).decision ≡ (if c.fires then deny else r.decision)
unfolding deny_if
decision-deny_if r c = ground arith

pub decision-run_checks :
    (cs : List Check) (r : PolicyResult)
    → (run_checks cs r).decision ≡ (if any fires cs then deny else r.decision)
unfolding run_checks
decision-run_checks [] r = refl
decision-run_checks (c ∷ rest) r =
    ground (arith, decision-run_checks rest (deny_if r c), decision-deny_if r c)

deny_if_quiet : (r : PolicyResult) (c : Check) → c.fires ≡ false → deny_if r c ≡ r
unfolding deny_if
deny_if_quiet r c h = ground arith

pub run_checks_quiet :
    (cs : List Check) (r : PolicyResult) → any fires cs ≡ false → run_checks cs r ≡ r
unfolding run_checks
run_checks_quiet [] r h = refl
run_checks_quiet (c ∷ rest) r h =
    rw (deny_if_quiet r c (ground arith)) (run_checks_quiet rest r (ground arith))
