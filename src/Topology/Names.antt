-- ===== src/Topology/Names.antt =====
-- The names of the instances: where they are different, and so are the run directories.
use klab.Prelude.{
  ℕ, zero, suc, ◌<◌, ◌≡◌, ◌≢◌, ◌⊎◌, inl, inr, refl, sym, ap, ◌∙◌, true, List, [], ◌∷◌, ◌++◌, arith,
  All, All-imp, All-append, All-append_right, Distinct,
}
use mathlib.Core.Path.{subst}
use klab.Prelude.Int.{ℤ, pos, negsuc, below_one}
use klab.Text.{Text}
use klab.Text.Decimal.{itoa_ℕ, itoa_ℕ-injective, itoa_ℕ-lacks}
use klab.Text.Order.{sort, sort-All, sort-Distinct}
use klab.Text.Split.{Lacks}
use klab.Topology.{Node, Topology, Instance, numbered_name, node_at, keys, expand}
use klab.Topology.Expand.{
  Wanted, names_from, instance_names, all_wanted, wanted, wanted_all, numbered, expand_lem,
}

abbrev pub names_of : List Instance → List Text
names_of [] = []
names_of (i ∷ is) = i.name ∷ names_of is

abbrev labels : List Wanted → List Text
labels [] = []
labels (w ∷ ws) = w.name ∷ labels ws

names_of-numbered : (seq : ℕ) (ws : List Wanted) → names_of (numbered seq ws) ≡ labels ws
names_of-numbered seq [] = refl
names_of-numbered seq (w ∷ ws) = ap (λ l. w.name ∷ l) (names_of-numbered (suc seq) ws)

labels-append : (us ws : List Wanted) → labels (us ++ ws) ≡ labels us ++ labels ws
labels-append [] ws = refl
labels-append (u ∷ us) ws = ap (λ l. u.name ∷ l) (labels-append us ws)

tail_or : Text → Text
tail_or [] = []
tail_or (c ∷ s) = s

head_or : Text → ℕ
head_or [] = 0
head_or (c ∷ s) = c

-- A text is cut at its last separator in one way.
behind_last :
    (c : ℕ) (a a' b b' : Text)
    → Lacks c b
    → Lacks c b'
    → a ++ c ∷ b ≡ a' ++ c ∷ b'
    → (a ≡ a') × (b ≡ b')
unfolding tail_or head_or
behind_last c [] [] b b' h h' e = (refl, ap tail_or e)
behind_last c [] (x ∷ a') b b' h h' e =
    let (n, rest) = All-append_right _ a' (c ∷ b') (subst (Lacks c) (ap tail_or e) h) in
    absurd (n refl)
behind_last c (x ∷ a) [] b b' h h' e =
    let (n, rest) = All-append_right _ a (c ∷ b) (subst (Lacks c) (sym (ap tail_or e)) h') in
    absurd (n refl)
behind_last c (x ∷ a) (y ∷ a') b b' h h' e =
    let (p, q) = behind_last c a a' b b' h h' (ap tail_or e) in
    (ap (λ s. x ∷ s) p ∙ ap (λ d. d ∷ a') (ap head_or e), q)

-- A numbered name has one base and one number.
numbered_name-injective :
    (a b : Text) (i j : ℕ) → numbered_name a i ≡ numbered_name b j → (a ≡ b) × (i ≡ j)
unfolding numbered_name
numbered_name-injective a b i j e =
    let (p, q) =
      behind_last b'-' a b (itoa_ℕ i) (itoa_ℕ j) (itoa_ℕ-lacks _ i refl) (itoa_ℕ-lacks _ j refl)
        e in
    (p, itoa_ℕ-injective i j q)

Distinct-append :
    (xs ys : List Text)
    → Distinct xs
    → Distinct ys
    → All (λ x. All (λ y. x ≢ y) ys) xs
    → Distinct (xs ++ ys)
Distinct-append [] ys dx dy h = dy
Distinct-append (x ∷ xs) ys (nx, dx) dy (hx, h) =
    (All-append _ xs ys nx hx, Distinct-append xs ys dx dy h)

-- The name of an instance of a node: its key, if it asks for no count, or its key and a number.
Names : (Text → Node) → Text → Text → Type 0
Names at k x = ((x ≡ k) × (below_one (at k).count ≡ true)) ⊎ ((i : ℕ) × (x ≡ numbered_name k i))

-- A node without a count is not named as a copy of a node is.
abbrev pub IsApart : (Text → Node) → Text → Type 0
IsApart at k = below_one (at k).count ≡ true → (j : Text) (i : ℕ) → k ≢ numbered_name j i

Names-apart :
    (at : Text → Node) (k j x y : Text)
    → k ≢ j
    → IsApart at k
    → IsApart at j
    → Names at k x
    → Names at j y
    → x ≢ y
unfolding Names
Names-apart at k j x y ne ak aj (inl (p, bare)) (inl (q, bare')) e = ne (sym p ∙ e ∙ q)
Names-apart at k j x y ne ak aj (inl (p, bare)) (inr (i, q)) e = ak bare j i (sym p ∙ e ∙ q)
Names-apart at k j x y ne ak aj (inr (i, p)) (inl (q, bare)) e = aj bare k i (sym q ∙ sym e ∙ p)
Names-apart at k j x y ne ak aj (inr (i, p)) (inr (i', q)) e =
    ne (numbered_name-injective k j i i' (sym p ∙ e ∙ q)).0

-- `r` copies of a node, numbered from `i`.
abbrev copies : ℕ → ℕ → Text → Node → List Wanted
copies r i k n = all_wanted (names_from i r k) k n

copies-Names :
    (at : Text → Node) (r i : ℕ) (k : Text) (n : Node) → All (Names at k) (labels (copies r i k n))
unfolding Names
copies-Names at zero i k n = tt
copies-Names at (suc r) i k n = (inr (i, refl), copies-Names at r (suc i) k n)

block-Names :
    (at : Text → Node) (k : Text) (c : ℤ)
    → (at k).count ≡ c
    → All (Names at k) (labels (all_wanted (instance_names c k) k (at k)))
unfolding Names
block-Names at k (negsuc m) e = (inl (refl, ap below_one e), tt)
block-Names at k (pos zero) e = (inl (refl, ap below_one e), tt)
block-Names at k (pos (suc r)) e = copies-Names at (suc r) 0 k (at k)

wanted-Names : (at : Text → Node) (k : Text) → All (Names at k) (labels (wanted k (at k)))
wanted-Names at k = block-Names at k _ refl

copies-apart :
    (r i j : ℕ) (k : Text) (n : Node)
    → i < j
    → All (λ y. numbered_name k i ≢ y) (labels (copies r j k n))
copies-apart zero i j k n h = tt
copies-apart (suc r) i j k n h = (
  λ e. absurd (omega (arith, (numbered_name-injective k k i j e).1)),
  copies-apart r i (suc j) k n (omega arith),
)

copies-Distinct : (r i : ℕ) (k : Text) (n : Node) → Distinct (labels (copies r i k n))
copies-Distinct zero i k n = tt
copies-Distinct (suc r) i k n =
    (copies-apart r i (suc i) k n (omega arith), copies-Distinct r (suc i) k n)

block-Distinct :
    (c : ℤ) (k : Text) (n : Node) → Distinct (labels (all_wanted (instance_names c k) k n))
block-Distinct (negsuc m) k n = (tt, tt)
block-Distinct (pos zero) k n = (tt, tt)
block-Distinct (pos (suc r)) k n = copies-Distinct (suc r) 0 k n

wanted-Distinct : (k : Text) (n : Node) → Distinct (labels (wanted k n))
wanted-Distinct k n = block-Distinct n.count k n

-- A name of a node, and the names of other nodes.
wanted_all-apart :
    (at : Text → Node) (k x : Text) (ks : List Text)
    → IsApart at k
    → All (IsApart at) ks
    → All (λ j. k ≢ j) ks
    → Names at k x
    → All (λ y. x ≢ y) (labels (wanted_all at ks))
wanted_all-apart at k x [] ak aks ne nx = tt
wanted_all-apart at k x (j ∷ ks) ak (aj, aks) (nj, ne) nx =
    subst (All (λ y. x ≢ y)) (sym (labels-append (wanted j (at j)) (wanted_all at ks))) (
      All-append _ (labels (wanted j (at j))) (labels (wanted_all at ks))
        (All-imp (labels (wanted j (at j))) (λ y ny. Names-apart at k j x y nj ak aj nx ny)
          (wanted-Names at j))
        (wanted_all-apart at k x ks ak aks ne nx))

wanted_all-Distinct :
    (at : Text → Node) (ks : List Text)
    → All (IsApart at) ks
    → Distinct ks
    → Distinct (labels (wanted_all at ks))
wanted_all-Distinct at [] aks d = tt
wanted_all-Distinct at (k ∷ ks) (ak, aks) (ne, d) =
    subst Distinct (sym (labels-append (wanted k (at k)) (wanted_all at ks))) (
      Distinct-append (labels (wanted k (at k))) (labels (wanted_all at ks))
        (wanted-Distinct k (at k)) (wanted_all-Distinct at ks aks d)
        (All-imp (labels (wanted k (at k))) (λ x nx. wanted_all-apart at k x ks ak aks ne nx)
          (wanted-Names at k)))

-- If the keys of the nodes are different, and no node without a count has the name of a copy, a name
-- with a dash and a number behind it, then the instances have different names.
pub expand-names_of-Distinct :
    (t : Topology)
    → Distinct (keys t.nodes)
    → All (IsApart (node_at t.nodes)) (keys t.nodes)
    → Distinct (names_of (expand t))
expand-names_of-Distinct t d apart =
    let ks = sort (keys t.nodes) in
    subst Distinct
      (sym (ap names_of (expand_lem t) ∙ names_of-numbered 0 (wanted_all (node_at t.nodes) ks)))
      (wanted_all-Distinct (node_at t.nodes) ks (sort-All _ (keys t.nodes) apart)
        (sort-Distinct (keys t.nodes) d))

labels-All :
    (at : Text → Node) (P : Text → Type 0)
    → ((k x : Text) → P k → Names at k x → P x)
    → (ks : List Text) → All P ks
    → All P (labels (wanted_all at ks))
labels-All at P f [] h = tt
labels-All at P f (k ∷ ks) (hk, h) =
    subst (All P) (sym (labels-append (wanted k (at k)) (wanted_all at ks))) (
      All-append P (labels (wanted k (at k))) (labels (wanted_all at ks))
        (All-imp (labels (wanted k (at k))) (λ x nx. f k x hk nx) (wanted-Names at k))
        (labels-All at P f ks h))

-- What holds of the keys, and of a name with a number if it holds of the name, holds of all names.
pub expand-names_of-All :
    (t : Topology) (P : Text → Type 0)
    → ((k : Text) (i : ℕ) → P k → P (numbered_name k i))
    → All P (keys t.nodes)
    → All P (names_of (expand t))
unfolding Names
expand-names_of-All t P f h =
    let ks = sort (keys t.nodes) in
    subst (All P)
      (sym (ap names_of (expand_lem t) ∙ names_of-numbered 0 (wanted_all (node_at t.nodes) ks)))
      (labels-All (node_at t.nodes) P
        (λ k x hk nx. elim nx [
          | inl (e, bare) ↦ subst P (sym e) hk
          | inr (i, e) ↦ subst P (sym e) (f k i hk)
        ])
        ks (sort-All P (keys t.nodes) h))
