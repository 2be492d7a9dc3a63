-- ===== src/Runner/Plan/Names.antt =====
-- The names of bridges and taps fit into an interface name, and taps have different names and MACs.
use klab.Prelude.{
  ℕ, zero, suc, ◌^◌, ◌≤◌, ◌<◌, ◌≡◌, refl, sym, ap, ◌∙◌, [], ◌∷◌, ◌++◌, arith, append_assoc, ltb,
  Bool-cases, inl, inr, length, length-take-le, take,
}
use klab.Text.{Text, str}
use klab.Text.Decimal.{itoa_ℕ-injective, length-itoa_ℕ}
use klab.Topology.{mac}
use klab.Topology.Mac.{mac-injective}
use klab.Runner.Plan.{bridge_name, tap_name, mac_for}

-- A bridge's name is a legal interface name, whatever the link's name.
pub length-bridge_name : (link : Text) → length (bridge_name link) ≤ 15
unfolding bridge_name
length-bridge_name link = elim (Bool-cases (ltb 15 (length (str "klbr-" ++ link)))) [
  | inl long ↦ rw long (length-take-le 15 (str "klbr-" ++ link))
  | inr short ↦ rw short (ground arith)
]

take-append : (p s t : Text) (n : ℕ) → n ≤ length p → take n (p ++ s) ≡ take n (p ++ t)
take-append p s t zero h = refl
take-append [] s t (suc n) h = elim h [ ]
take-append (c ∷ p) s t (suc n) h = ap (λ l. c ∷ l) (take-append p s t n (omega arith))

take_all : (n : ℕ) (s : Text) → length s ≤ n → take n s ≡ s
take_all zero [] h = refl
take_all zero (c ∷ s) h = absurd (omega arith)
take_all (suc n) [] h = refl
take_all (suc n) (c ∷ s) h = ap (λ l. c ∷ l) (take_all n s (omega arith))

bridge_name-take : (link : Text) → bridge_name link ≡ take 15 (str "klbr-" ++ link)
unfolding bridge_name
bridge_name-take link = elim (Bool-cases (ltb 15 (length (str "klbr-" ++ link)))) [
  | inl long ↦ rw long
  | inr short ↦ rw short (sym (take_all 15 (str "klbr-" ++ link) (ground arith)))
]

-- Two links whose names agree in the first ten bytes get the same bridge.
pub bridge_name_collision :
    (p s t : Text) → length p ≡ 10 → bridge_name (p ++ s) ≡ bridge_name (p ++ t)
bridge_name_collision p s t h =
    bridge_name-take (p ++ s)
    ∙ ap (take 15) (sym (append_assoc (str "klbr-") p s))
    ∙ take-append (str "klbr-" ++ p) s t 15 (unfold str in omega arith)
    ∙ ap (take 15) (append_assoc (str "klbr-") p t)
    ∙ sym (bridge_name-take (p ++ t))

pub tap_name-injective : (m n : ℕ) → tap_name m ≡ tap_name n → m ≡ n
unfolding tap_name str
tap_name-injective m n e = itoa_ℕ-injective m n (cc)

pub length-tap_name : (n : ℕ) → n < 10 ^ 8 → length (tap_name n) ≤ 15
unfolding tap_name str
length-tap_name n h = omega (arith, length-itoa_ℕ n 7 h)

mac_for-mac : (n : ℕ) → mac_for n ≡ mac n
unfolding mac_for mac
mac_for-mac n = refl

pub mac_for-injective : (m n : ℕ) → m < 2 ^ 24 → n < 2 ^ 24 → mac_for m ≡ mac_for n → m ≡ n
mac_for-injective m n hm hn e = mac-injective m n hm hn (sym (mac_for-mac m) ∙ e ∙ mac_for-mac n)
