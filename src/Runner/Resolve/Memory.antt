-- ===== src/Runner/Resolve/Memory.antt =====
-- What `parseMem` reads, unit by unit, and what a size that passes 64 bits becomes. And when
-- `CheckCaps` lets a node through.
use mathlib.Core.Path.{subst}
use klab.Prelude.{
  ℕ, ◌*◌, ◌≤◌, ◌<◌, ◌≡◌, ◌≢◌, refl, sym, ap, ◌∙◌, true, [], ◌∷◌, ◌++◌, some, Result, ok, arith, All,
  All-append,
}
use klab.Prelude.Int.{ℤ, pos}
use klab.Text.{Text}
use klab.Text.Decimal.{
  itoa_ℕ, itoa_ℕ_first, atoi, atoi-itoa, itoa, max_int, is_digit, itoa_ℕ-digits,
}
use klab.Text.Space.{trim_space}
use klab.Text.Plain.{IsPlain, itoa_ℕ-IsPlain, trim_space-plain}
use klab.Runner.Resolve.{Error, behind, split_last, unit, wrap_int, scaled, with_unit, parse_mem}

split_last-append : (s : Text) (c : ℕ) → split_last (s ++ c ∷ []) ≡ some (s, c)
unfolding split_last
split_last-append [] c = refl
split_last-append (a ∷ []) c = refl
split_last-append (a ∷ b ∷ s) c = ap (behind a) (split_last-append (b ∷ s) c)

itoa-pos : (n : ℕ) → itoa (pos n) ≡ itoa_ℕ n
unfolding itoa
itoa-pos n = refl

atoi-itoa_ℕ : (n : ℕ) → n ≤ max_int → atoi (itoa_ℕ n) ≡ some (pos n)
atoi-itoa_ℕ n h = ap atoi (sym (itoa-pos n)) ∙ atoi-itoa (pos n) h

-- The unit that a last byte stands for.
abbrev IsUnit : ℕ → ℕ → Type 0
IsUnit u mult = (t s : Text) → unit (t, u) s ≡ (mult, t)

parse_mem_step : (s : Text) → parse_mem s ≡ with_unit (trim_space s) (split_last (trim_space s))
parse_mem_step s = unfold parse_mem in refl

with_unit_open :
    (s t : Text) (u : ℕ)
    → with_unit s (some (t, u))
      ≡ scaled (unit (t, u) s).0 (unit (t, u) s).1 (atoi (trim_space (unit (t, u) s).1))
with_unit_open s t u = unfold with_unit in refl

with_unit_step :
    (s t : Text) (u mult : ℕ) (r : Text)
    → unit (t, u) s ≡ (mult, r)
    → with_unit s (some (t, u)) ≡ scaled mult r (atoi (trim_space r))
with_unit_step s t u mult r e =
    with_unit_open s t u ∙ ap (λ (p : ℕ × Text). scaled p.0 p.1 (atoi (trim_space p.1))) e

-- A size whose last byte is `u`, of which the digits of `n` are read.
parse_mem_digits :
    (s t : Text) (u mult n : ℕ)
    → All IsPlain s
    → s ≡ t ++ u ∷ []
    → unit (t, u) s ≡ (mult, itoa_ℕ n)
    → n ≤ max_int
    → parse_mem s ≡ ok (wrap_int (n * mult))
parse_mem_digits s t u mult n plain e is h =
    parse_mem_step s
    ∙ ap (λ r. with_unit r (split_last r)) (trim_space-plain s plain)
    ∙ ap (with_unit s) (ap split_last e ∙ split_last-append t u)
    ∙ with_unit_step s t u mult (itoa_ℕ n) is
    ∙ ap (λ r. scaled mult (itoa_ℕ n) (atoi r)) (trim_space-plain (itoa_ℕ n) (itoa_ℕ-IsPlain n))
    ∙ ap (scaled mult (itoa_ℕ n)) (atoi-itoa_ℕ n h)
    ∙ unfold scaled in refl

parse_mem_with :
    (u mult n : ℕ)
    → IsPlain u
    → IsUnit u mult
    → n ≤ max_int
    → parse_mem (itoa_ℕ n ++ u ∷ []) ≡ ok (wrap_int (n * mult))
parse_mem_with u mult n hu is h =
    parse_mem_digits (itoa_ℕ n ++ u ∷ []) (itoa_ℕ n) u mult n
      (All-append IsPlain (itoa_ℕ n) (u ∷ []) (itoa_ℕ-IsPlain n) (hu, tt)) refl (is (itoa_ℕ n) _) h

-- The last element of a list that is not empty.
last_of :
    (P : ℕ → Type 0) (c : ℕ) (s : Text)
    → All P (c ∷ s)
    → (t : Text) × (d : ℕ) × (c ∷ s ≡ t ++ d ∷ []) × P d
last_of P c [] (hc, h) = ([], c, refl, hc)
last_of P c (b ∷ s) (hc, h) =
    let (t, d, e, hd) = last_of P b s h in (c ∷ t, d, ap (λ l. c ∷ l) e, hd)

unit_digit : (t s : Text) (d : ℕ) → is_digit d ≡ true → unit (t, d) s ≡ (1, s)
unfolding unit
unit_digit t s d h = ground arith

parse_mem_bare : (n : ℕ) → n ≤ max_int → parse_mem (itoa_ℕ n) ≡ ok (wrap_int (n * 1))
parse_mem_bare n h =
    let (c, s, e, d) = itoa_ℕ_first n in
    let (t, l, f, dl) =
      last_of (λ b. is_digit b ≡ true) c s
        (subst (All (λ b. is_digit b ≡ true)) e (itoa_ℕ-digits n)) in
    parse_mem_digits (itoa_ℕ n) t l 1 n (itoa_ℕ-IsPlain n) (e ∙ f) (unit_digit t (itoa_ℕ n) l dl) h

wrap_int_fits : (n : ℕ) → n ≤ max_int → wrap_int n ≡ pos n
unfolding wrap_int
wrap_int_fits n h = ground arith

wrap_int_past : (n : ℕ) → max_int < n → wrap_int n ≢ pos n
unfolding wrap_int
wrap_int_past n h = ground arith

units : IsUnit b'G' 1024 × IsUnit b'g' 1024 × IsUnit b'M' 1 × IsUnit b'm' 1
unfolding unit
units = (λ t s. refl, λ t s. refl, λ t s. refl, λ t s. refl)

read_as : {z w : ℤ} → z ≡ w → ◌≡◌ {A = Result Error ℤ} (ok z) (ok w)
read_as e = cc

-- A size in GiB (G, g), in MiB (M, m) or without a unit is read as its number of MiB, if that
-- number is a 64-bit integer.
pub parse_mem_units :
    (n : ℕ)
    → n * 1024 ≤ max_int
    → (parse_mem (itoa_ℕ n ++ b'G' ∷ []) ≡ ok (pos (n * 1024)))
      × (parse_mem (itoa_ℕ n ++ b'g' ∷ []) ≡ ok (pos (n * 1024)))
      × (parse_mem (itoa_ℕ n ++ b'M' ∷ []) ≡ ok (pos n))
      × (parse_mem (itoa_ℕ n ++ b'm' ∷ []) ≡ ok (pos n))
      × (parse_mem (itoa_ℕ n) ≡ ok (pos n))
parse_mem_units n h =
    let fits : n ≤ max_int = omega arith in
    let gib = read_as (wrap_int_fits (n * 1024) h) in
    let mib = read_as (wrap_int_fits (n * 1) (omega arith) ∙ ap pos (omega arith)) in
    (
      parse_mem_with b'G' 1024 n (omega arith) units.0 fits ∙ gib,
      parse_mem_with b'g' 1024 n (omega arith) units.1 fits ∙ gib,
      parse_mem_with b'M' 1 n (omega arith) units.2 fits ∙ mib,
      parse_mem_with b'm' 1 n (omega arith) units.3 fits ∙ mib,
      parse_mem_bare n fits ∙ mib,
    )

-- A size in GiB that is itself a 64-bit integer, and whose number of MiB is none, is accepted and
-- read as another number.
pub parse_mem_past :
    (n : ℕ)
    → n ≤ max_int
    → max_int < n * 1024
    → (z : ℤ) × (parse_mem (itoa_ℕ n ++ b'G' ∷ []) ≡ ok z) × (z ≢ pos (n * 1024))
parse_mem_past n h past = (
  wrap_int (n * 1024),
  parse_mem_with b'G' 1024 n (omega arith) units.0 h,
  wrap_int_past (n * 1024) past,
)
