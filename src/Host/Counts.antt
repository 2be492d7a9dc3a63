-- ===== src/Host/Counts.antt =====
-- The counters of the report against its findings.
use klab.Prelude.{
  sym, ◌∙◌, ◌≡◌, ◌≢◌, refl, ℕ, Bool, true, false, List, [], ◌∷◌, ◌++◌, ◌+◌, arith, if◌then◌else◌,
  ◌↔◌, All,
}
use klab.Text.{Text}
use klab.Host.{
  Facts, Report, Finding, Level, pass, warn, fail, exit_code, add, add_pass, add_warn, add_fail,
  eval_chip, eval_mac_os, eval_memory, eval_disk, eval_tool, eval_kvm, eval_lima_instance,
  eval_darwin, eval_linux, evaluate, empty_report,
}

-- 1 for the level, 0 for the others.
unfoldable pub one_if : Level → Level → ℕ
one_if pass pass = 1
one_if warn warn = 1
one_if fail fail = 1
one_if _ _ = 0

-- The number of findings of a level.
unfoldable pub tally : Level → List Finding → ℕ
unfolding one_if
tally l [] = 0
tally l (c ∷ cs) = one_if l c.level + tally l cs

-- The counters are the numbers of failures and warnings among the findings.
pub record IsCounted (r : Report) : Type 0 where
  pub fails_counted : r.fails ≡ tally fail r.checks
  pub warns_counted : r.warns ≡ tally warn r.checks

tally-append : (l : Level) (cs ds : List Finding) → tally l (cs ++ ds) ≡ tally l cs + tally l ds
unfolding tally
tally-append l [] ds = omega arith
tally-append l (c ∷ cs) ds = omega (arith, tally-append l cs ds)

-- A report with one more finding, which counters that rise by its share count.
append-IsCounted :
    (c : Finding) (r s : Report)
    → IsCounted r
    → s.checks ≡ r.checks ++ c ∷ []
    → s.fails ≡ r.fails + one_if fail c.level
    → s.warns ≡ r.warns + one_if warn c.level
    → IsCounted s
append-IsCounted c r s h e hf hw =
    let f = tally-append fail r.checks (c ∷ []) in
    let w = tally-append warn r.checks (c ∷ []) in
    record {
      fails_counted = rw (e) (unfold tally in omega (arith, f, h.fails_counted));
      warns_counted = rw (e) (unfold tally in omega (arith, w, h.warns_counted));
    }

add-IsCounted :
    (l : Level) (msg note : Text) (r : Report) → IsCounted r → IsCounted (add l msg note r)
add-IsCounted pass msg note r h =
    unfold add one_if in append-IsCounted _ r _ h refl (omega arith) (omega arith)
add-IsCounted warn msg note r h =
    unfold add one_if in append-IsCounted _ r _ h refl (omega arith) (omega arith)
add-IsCounted fail msg note r h =
    unfold add one_if in append-IsCounted _ r _ h refl (omega arith) (omega arith)

add_pass-IsCounted : (msg : Text) (r : Report) → IsCounted r → IsCounted (add_pass msg r)
unfolding add_pass
add_pass-IsCounted msg r h = add-IsCounted pass msg [] r h

add_warn-IsCounted : (msg : Text) (r : Report) → IsCounted r → IsCounted (add_warn msg r)
unfolding add_warn
add_warn-IsCounted msg r h = add-IsCounted warn msg [] r h

add_fail-IsCounted : (msg note : Text) (r : Report) → IsCounted r → IsCounted (add_fail msg note r)
unfolding add_fail
add_fail-IsCounted msg note r h = add-IsCounted fail msg note r h

if-IsCounted :
    (b : Bool) (x y : Report) → IsCounted x → IsCounted y → IsCounted (if b then x else y)
if-IsCounted true x y h k = h
if-IsCounted false x y h k = k

ruleset counting = (if-IsCounted, add_pass-IsCounted, add_warn-IsCounted, add_fail-IsCounted)

eval_chip-IsCounted : (f : Facts) (r : Report) → IsCounted r → IsCounted (eval_chip f r)
unfolding eval_chip
eval_chip-IsCounted f r h = search counting

eval_mac_os-IsCounted : (f : Facts) (r : Report) → IsCounted r → IsCounted (eval_mac_os f r)
unfolding eval_mac_os
eval_mac_os-IsCounted f r h = search counting

eval_memory-IsCounted : (f : Facts) (r : Report) → IsCounted r → IsCounted (eval_memory f r)
unfolding eval_memory
eval_memory-IsCounted f r h = search counting

eval_disk-IsCounted : (f : Facts) (r : Report) → IsCounted r → IsCounted (eval_disk f r)
unfolding eval_disk
eval_disk-IsCounted f r h = search counting

eval_tool-IsCounted :
    (has : Bool) (name missing note : Text) (r : Report)
    → IsCounted r
    → IsCounted (eval_tool has name missing note r)
unfolding eval_tool
eval_tool-IsCounted has name missing note r h = search counting

eval_kvm-IsCounted :
    (f : Facts) (present usable unsure missing note : Text) (r : Report)
    → IsCounted r
    → IsCounted (eval_kvm f present usable unsure missing note r)
unfolding eval_kvm
eval_kvm-IsCounted f present usable unsure missing note r h = search counting

eval_lima_instance-IsCounted :
    (quote : Text → Text) (f : Facts) (r : Report)
    → IsCounted r
    → IsCounted (eval_lima_instance quote f r)
unfolding eval_lima_instance
eval_lima_instance-IsCounted quote f r h = search (counting, eval_kvm-IsCounted)

empty_report-IsCounted : IsCounted empty_report
unfolding empty_report tally
empty_report-IsCounted = record { fails_counted = refl; warns_counted = refl }

ruleset counted_blocks = (
  counting, eval_chip-IsCounted, eval_mac_os-IsCounted, eval_memory-IsCounted, eval_disk-IsCounted,
  eval_tool-IsCounted, eval_kvm-IsCounted, eval_lima_instance-IsCounted, empty_report-IsCounted,
)

-- In the report of `Evaluate` the counters are the numbers of its failures and its warnings.
pub evaluate-IsCounted : (quote : Text → Text) (f : Facts) → IsCounted (evaluate quote f)
unfolding evaluate eval_darwin eval_linux
evaluate-IsCounted quote f = search counted_blocks depth 14

is_fail : (l : Level) → one_if fail l ≡ 0 → l ≢ fail
unfolding one_if
is_fail pass h = λ e. cc
is_fail warn h = λ e. cc
is_fail fail h = λ e. ground arith

other_level : (l : Level) → l ≢ fail → one_if fail l ≡ 0
unfolding one_if
other_level pass h = refl
other_level warn h = refl
other_level fail h = absurd (h refl)

no_fails : (cs : List Finding) → tally fail cs ≡ 0 → All (λ c. c.level ≢ fail) cs
unfolding tally
no_fails [] h = tt
no_fails (c ∷ cs) h = (is_fail c.level (omega arith), no_fails cs (omega arith))

fails_none : (cs : List Finding) → All (λ c. c.level ≢ fail) cs → tally fail cs ≡ 0
unfolding tally
fails_none [] h = refl
fails_none (c ∷ cs) (hc, h) = omega (arith, other_level c.level hc, fails_none cs h)

exit_code_zero : (r : Report) → exit_code r ≡ 0 → r.fails ≡ 0
unfolding exit_code
exit_code_zero r h = ground arith

no_exit_code : (r : Report) → r.fails ≡ 0 → exit_code r ≡ 0
unfolding exit_code
no_exit_code r h = ground arith

-- `klab doctor` exits with 0 exactly if none of the findings that it prints is a failure.
pub exit_code-evaluate :
    (quote : Text → Text) (f : Facts)
    → (exit_code (evaluate quote f) ≡ 0) ↔ All (λ c. c.level ≢ fail) (evaluate quote f).checks
exit_code-evaluate quote f =
    let c = (evaluate-IsCounted quote f).fails_counted in
    (λ h. no_fails _ (sym c ∙ exit_code_zero _ h), λ h. no_exit_code _ (c ∙ fails_none _ h))
