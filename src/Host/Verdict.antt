-- ===== src/Host/Verdict.antt =====
-- The verdict of `Evaluate` against the requirements of the two platforms.
use klab.Prelude.{
  ◌≡◌, refl, Bool, true, false, [], ◌∷◌, ◌&&◌, ◌||◌, not, arith, if◌then◌else◌, inl, inr,
  Bool-cases,
}
use klab.Prelude.Int.{ℤ}
use klab.Text.{Text, str, text_eq, is_empty}
use klab.Host.{
  Facts, Report, ready, add, add_pass, add_warn, add_fail, at_least, eval_chip, eval_mac_os,
  eval_memory, eval_disk, eval_tool, eval_kvm, eval_lima_instance, eval_darwin, eval_linux,
  evaluate, empty_report,
}

ready-add_pass : (msg : Text) (r : Report) → ready (add_pass msg r) ≡ ready r
unfolding ready add_pass add
ready-add_pass msg r = refl

ready-add_warn : (msg : Text) (r : Report) → ready (add_warn msg r) ≡ ready r
unfolding ready add_warn add
ready-add_warn msg r = refl

ready-add_fail : (msg note : Text) (r : Report) → ready (add_fail msg note r) ≡ false
unfolding ready add_fail add
ready-add_fail msg note r = ground arith

-- The projection through a conditional, and the conditionals on truth values.
ready_if : (b : Bool) (x y : Report) → ready (if b then x else y) ≡ (if b then ready x else ready y)
ready_if true x y = refl
ready_if false x y = refl

if_same : (b x : Bool) → (if b then x else x) ≡ x
if_same true x = refl
if_same false x = refl

if_false : (b x : Bool) → (if b then x else false) ≡ b && x
if_false true x = refl
if_false false x = refl

ruleset verdicts = (ready_if, if_same, if_false, ready-add_pass, ready-add_warn, ready-add_fail)

ready-eval_chip : (f : Facts) (r : Report) → ready (eval_chip f r) ≡ ready r
unfolding eval_chip
ready-eval_chip f r = simp verdicts

ready-eval_mac_os :
    (f : Facts) (r : Report) → ready (eval_mac_os f r) ≡ at_least 15 f.mac_os_major && ready r
unfolding eval_mac_os
ready-eval_mac_os f r = simp verdicts

at_least_weaken : (z : ℤ) → at_least 16 z ≡ true → at_least 8 z ≡ true
at_least_weaken z h = ground arith

ready-eval_memory :
    (f : Facts) (r : Report) → ready (eval_memory f r) ≡ at_least 8 f.mem_gib && ready r
unfolding eval_memory
ready-eval_memory f r = elim (Bool-cases (at_least 16 f.mem_gib)) [
  | inl h ↦ rw (h, at_least_weaken f.mem_gib h, ready-add_pass)
  | inr h ↦ rw (h) simp verdicts
]

ready-eval_disk : (f : Facts) (r : Report) → ready (eval_disk f r) ≡ ready r
unfolding eval_disk
ready-eval_disk f r = simp verdicts

ready-eval_tool :
    (has : Bool) (name missing note : Text) (r : Report)
    → ready (eval_tool has name missing note r) ≡ has && ready r
unfolding eval_tool
ready-eval_tool has name missing note r = simp verdicts

ready-eval_kvm :
    (f : Facts) (present usable unsure missing note : Text) (r : Report)
    → ready (eval_kvm f present usable unsure missing note r) ≡ f.kvm_present && ready r
unfolding eval_kvm
ready-eval_kvm f present usable unsure missing note r = simp verdicts

empty_not_running : (t : Text) → is_empty t ≡ true → text_eq t (str "Running") ≡ false
unfolding is_empty text_eq str
empty_not_running [] h = refl
empty_not_running (c ∷ t) h = ground arith

or_not : (b c : Bool) → b ≡ true → (not b || c) ≡ c
or_not b c h = rw (h)

ready-eval_lima_instance :
    (quote : Text → Text) (f : Facts) (r : Report)
    → ready (eval_lima_instance quote f r)
      ≡ ((not (text_eq f.lima_status (str "Running")) || f.kvm_present) && ready r)
unfolding eval_lima_instance
ready-eval_lima_instance quote f r = elim (Bool-cases (is_empty f.lima_status)) [
  | inl e ↦ rw (e, empty_not_running f.lima_status e, ready-add_warn)
  | inr e ↦ elim (Bool-cases (text_eq f.lima_status (str "Running"))) [
    | inl h ↦ rw (e, h, ready-eval_kvm, ready-add_pass)
    | inr h ↦ rw (e, h, ready-add_warn)
  ]
]

-- What each platform requires.
unfoldable pub darwin_ready : Facts → Bool
darwin_ready f =
    at_least 15 f.mac_os_major
    && at_least 8 f.mem_gib
    && f.has_brew
    && f.has_limactl
    && f.has_go
    && (not (text_eq f.lima_status (str "Running")) || f.kvm_present)

unfoldable pub linux_ready : Facts → Bool
linux_ready f = f.kvm_present && f.has_go && f.has_qemu && f.has_clang

ruleset verdict_blocks = (
  ready_if, ready-eval_chip, ready-eval_mac_os, ready-eval_memory, ready-eval_disk, ready-eval_tool,
  ready-eval_kvm, ready-eval_lima_instance,
)

ready-empty_report : ready empty_report ≡ true
unfolding ready empty_report
ready-empty_report = refl

and_chain :
    (a b c d e l : Bool)
    → (if d
        then l && (e && (d && (c && (b && (a && true)))))
        else (e && (d && (c && (b && (a && true))))))
      ≡ (a && b && c && d && e && l)
and_chain a b c d e l = ground arith

and_reverse : (a b c d : Bool) → (d && (c && (b && (a && true)))) ≡ (a && b && c && d)
and_reverse a b c d = ground arith

ready-eval_darwin :
    (quote : Text → Text) (f : Facts) → ready (eval_darwin quote f empty_report) ≡ darwin_ready f
unfolding eval_darwin darwin_ready
ready-eval_darwin quote f =
    simp (verdict_blocks, ready-empty_report)
      (and_chain (at_least 15 f.mac_os_major) (at_least 8 f.mem_gib) f.has_brew f.has_limactl
        f.has_go (not (text_eq f.lima_status (str "Running")) || f.kvm_present))

ready-eval_linux :
    (quote : Text → Text) (f : Facts) → ready (eval_linux quote f empty_report) ≡ linux_ready f
unfolding eval_linux linux_ready
ready-eval_linux quote f =
    simp (verdict_blocks, ready-empty_report)
      (and_reverse f.kvm_present f.has_go f.has_qemu f.has_clang)

-- `Evaluate` finds a machine ready exactly if it meets the requirements of its platform: on
-- darwin macOS 15, 8 GiB, the three tools and, where the lima instance runs, /dev/kvm in it; on
-- linux /dev/kvm and the three tools. On any other system it is not ready.
pub evaluate-ready :
    (quote : Text → Text) (f : Facts)
    → ready (evaluate quote f) ≡ (
        if text_eq f.os (str "darwin")
        then darwin_ready f
        else if text_eq f.os (str "linux")
        then linux_ready f
        else false)
unfolding evaluate
evaluate-ready quote f = simp (ready_if, ready-add_fail, ready-eval_darwin, ready-eval_linux)
