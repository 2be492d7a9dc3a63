-- ===== src/Runner/Plan/Words.antt =====
-- The names of the devices of a plan are words of the shell, where the names of the links are.
use klab.Prelude.{
  ℕ, suc, ◌+◌, ◌≡◌, refl, Bool, true, List, [], ◌∷◌, ◌++◌, Option, arith, leb, ltb, ◌==◌, ◌||◌,
  ◌&&◌, length, take, All, All-append, All-imp, Bool-cases, inl, inr,
}
use klab.Text.{Text, str}
use klab.Text.Decimal.{itoa_ℕ, itoa_ℕ-digits, is_digit}
use klab.Net.Cidr.{Cidr}
use klab.Topology.{Link, Topology, Instance, expand}
use klab.Runner.Plan.{Bridge, Tap, NetPlan, bridge_name, tap_name, member_names}
use klab.Runner.Plan.Numbering.{link_taps, wanted_bridges, wanted_taps, wanted_plan}

-- A letter, a digit, `-`, `.` or `_`: no byte that the shell splits at or expands.
abbrev pub is_word_byte : ℕ → Bool
is_word_byte c =
    (leb b'a' c && leb c b'z')
    || (leb b'A' c && leb c b'Z')
    || (leb b'0' c && leb c b'9')
    || c == b'-'
    || c == b'.'
    || c == b'_'

abbrev pub IsWord : Text → Type 0
IsWord = All (λ c. is_word_byte c ≡ true)

take-All : (n : ℕ) (s : Text) → IsWord s → IsWord (take n s)
take-All ℕ.zero s h = tt
take-All (suc n) [] h = tt
take-All (suc n) (c ∷ s) (hc, h) = (hc, take-All n s h)

IsWord-digit : (c : ℕ) → is_digit c ≡ true → is_word_byte c ≡ true
IsWord-digit c h = ground arith

bridge_name-IsWord : (link : Text) → IsWord link → IsWord (bridge_name link)
unfolding bridge_name str
bridge_name-IsWord link h = elim (Bool-cases (ltb 15 (length (str "klbr-" ++ link)))) [
  | inl long ↦ rw long (take-All 15 (str "klbr-" ++ link) prefixed)
  | inr short ↦ rw short prefixed
]
  where
    prefixed : IsWord (str "klbr-" ++ link)
    prefixed = All-append _ (str "klbr-") link (refl, (refl, (refl, (refl, (refl, tt))))) h

tap_name-IsWord : (seq : ℕ) → IsWord (tap_name seq)
unfolding tap_name str
tap_name-IsWord seq = (
  refl,
  (
    refl,
    (refl, (refl, (refl, (refl, (refl, All-imp (itoa_ℕ seq) IsWord-digit (itoa_ℕ-digits seq)))))),
  ),
)

-- The bridges and the taps of a plan are named by words, also the bridge of each tap.
pub record Worded (np : NetPlan) : Type 0 where
  pub bridges_worded : All (λ (b : Bridge). IsWord b.name) np.bridges
  pub taps_worded : All (λ (t : Tap). IsWord t.name × IsWord t.bridge) np.taps

wanted_bridges-IsWord :
    (ls : List Link)
    → All (λ (l : Link). IsWord l.name) ls
    → All (λ (b : Bridge). IsWord b.name) (wanted_bridges ls)
wanted_bridges-IsWord [] h = tt
wanted_bridges-IsWord (l ∷ ls) (hl, h) = (bridge_name-IsWord l.name hl, wanted_bridges-IsWord ls h)

link_taps-IsWord :
    (br : Text) (net : Option Cidr) (i seq : ℕ) (names : List Text)
    → IsWord br
    → All (λ (t : Tap). IsWord t.name × IsWord t.bridge) (link_taps br net i seq names)
link_taps-IsWord br net i seq [] h = tt
link_taps-IsWord br net i seq (name ∷ names) h =
    ((tap_name-IsWord (suc seq), h), link_taps-IsWord br net (suc i) (suc seq) names h)

wanted_taps-IsWord :
    (is : List Instance) (seq : ℕ) (ls : List Link)
    → All (λ (l : Link). IsWord l.name) ls
    → All (λ (t : Tap). IsWord t.name × IsWord t.bridge) (wanted_taps is seq ls)
wanted_taps-IsWord is seq [] h = tt
wanted_taps-IsWord is seq (l ∷ ls) (hl, h) =
    All-append _ (link_taps _ _ 0 seq _) _
      (link_taps-IsWord _ _ 0 seq _ (bridge_name-IsWord l.name hl))
      (wanted_taps-IsWord is (seq + length (member_names is l.members)) ls h)

pub wanted_plan-Worded :
    (t : Topology) → All (λ (l : Link). IsWord l.name) t.links → Worded (wanted_plan t)
wanted_plan-Worded t h = record {
  bridges_worded = wanted_bridges-IsWord t.links h;
  taps_worded = wanted_taps-IsWord (expand t) 0 t.links h;
}
