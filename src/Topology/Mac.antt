-- ===== src/Topology/Mac.antt =====
-- The MAC addresses of instances: two instances have different ones, up to the 2^24 - 1 that the
-- prefix leaves room for.
use klab.Prelude.{
  ℕ, suc, ◌+◌, ◌/◌, ◌%◌, ◌^◌, ◌≤◌, ◌<◌, ◌≡◌, ◌≢◌, refl, ap, List, [], ◌∷◌, ◌++◌, arith, length, All,
  Distinct,
}
use klab.Text.{Text, str}
use klab.Text.Hex.{hex_byte, hex_byte-injective}
use klab.Topology.{Topology, Instance, mac, node_at, keys, expand}
use klab.Topology.Expand.{Wanted, numbered, wanted_all, expand_lem}
use klab.Text.Order.{sort}

-- The three bytes of a number below 2^24 tell it.
three_bytes :
    (m n : ℕ)
    → m < 2 ^ 24
    → n < 2 ^ 24
    → m / 65536 % 256 ≡ n / 65536 % 256
    → m / 256 % 256 ≡ n / 256 % 256
    → m % 256 ≡ n % 256
    → m ≡ n
three_bytes m n hm hn a b c = omega arith

same_pairs :
    (a b c a' b' c' : ℕ)
    → str "52:54:00:" ++ (hex_byte a ++ b':' ∷ (hex_byte b ++ b':' ∷ hex_byte c))
      ≡ str "52:54:00:" ++ (hex_byte a' ++ b':' ∷ (hex_byte b' ++ b':' ∷ hex_byte c'))
    → (hex_byte a ≡ hex_byte a') × (hex_byte b ≡ hex_byte b') × (hex_byte c ≡ hex_byte c')
unfolding str hex_byte
same_pairs a b c a' b' c' e = (cc, cc, cc)

pub mac-injective : (m n : ℕ) → m < 2 ^ 24 → n < 2 ^ 24 → mac m ≡ mac n → m ≡ n
unfolding mac
mac-injective m n hm hn e =
    let (a, b, c) = same_pairs _ _ _ _ _ _ e in
    three_bytes m n hm hn (hex_byte-injective _ _ (omega arith) (omega arith) a)
      (hex_byte-injective _ _ (omega arith) (omega arith) b)
      (hex_byte-injective _ _ (omega arith) (omega arith) c)

abbrev pub macs : List Instance → List Text
macs [] = []
macs (i ∷ is) = i.mac ∷ macs is

numbered-apart :
    (n seq : ℕ) (ws : List Wanted)
    → n ≤ seq
    → 0 < n
    → seq + length ws < 2 ^ 24
    → All (λ m. mac n ≢ m) (macs (numbered seq ws))
numbered-apart n seq [] h p b = tt
numbered-apart n seq (w ∷ ws) h p b = (
  λ e. absurd (omega (arith, mac-injective n (suc seq) (omega arith) (omega arith) e)),
  numbered-apart n (suc seq) ws (omega arith) p (omega arith),
)

numbered-Distinct :
    (seq : ℕ) (ws : List Wanted) → seq + length ws < 2 ^ 24 → Distinct (macs (numbered seq ws))
numbered-Distinct seq [] b = tt
numbered-Distinct seq (w ∷ ws) b = (
  numbered-apart (suc seq) (suc seq) ws (omega arith) (omega arith) (omega arith),
  numbered-Distinct (suc seq) ws (omega arith),
)

length-numbered : (seq : ℕ) (ws : List Wanted) → length (numbered seq ws) ≡ length ws
length-numbered seq [] = refl
length-numbered seq (w ∷ ws) = ap suc (length-numbered (suc seq) ws)

-- The instances of a topology have different MAC addresses, if there are fewer than 2^24.
pub expand-macs-Distinct : (t : Topology) → length (expand t) < 2 ^ 24 → Distinct (macs (expand t))
expand-macs-Distinct t h =
    let ws = wanted_all (node_at t.nodes) (sort (keys t.nodes)) in
    rw expand_lem (numbered-Distinct 0 ws (omega (arith, length-numbered 0 ws, rw expand_lem at h)))
