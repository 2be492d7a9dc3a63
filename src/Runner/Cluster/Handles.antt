-- ===== src/Runner/Cluster/Handles.antt =====
-- The run directories, by which the cluster and the driver know the machines.
use klab.Prelude.{
  ℕ, ◌≡◌, ◌≢◌, false, refl, sym, ap, ◌∙◌, List, [], ◌∷◌, ◌++◌, map, arith, All, All-append,
  Distinct,
}
use klab.Text.{Text, str, is_empty, text_eq}
use klab.Text.Decimal.{itoa_ℕ, itoa_ℕ-lacks}
use klab.Text.Path.{path_join}
use klab.Text.Path.Join.{path_join-path_join}
use klab.Text.Path.Last.{IsName, parts, path_join-parts}
use klab.Topology.{Topology, numbered_name, node_at, keys, expand}
use klab.Topology.Names.{names_of, IsApart, expand-names_of-Distinct, expand-names_of-All}
use klab.Runner.Cluster.{Lab, run_dir}

dash_dot : (k s : Text) → text_eq (k ++ b'-' ∷ s) (str ".") ≡ false
unfolding text_eq str
dash_dot [] s = refl
dash_dot (c ∷ []) s = ground arith
dash_dot (c ∷ d ∷ k) s = ground arith

dash_up : (k s : Text) → text_eq (k ++ b'-' ∷ s) (str "..") ≡ false
unfolding text_eq str
dash_up [] s = refl
dash_up (c ∷ []) s = ground arith
dash_up (c ∷ d ∷ []) s = ground arith
dash_up (c ∷ d ∷ e ∷ k) s = ground arith

full-append : (k s : Text) → is_empty (k ++ b'-' ∷ s) ≡ false
unfolding is_empty
full-append [] s = refl
full-append (c ∷ k) s = refl

numbered_name-IsName : (k : Text) (i : ℕ) → IsName k → IsName (numbered_name k i)
unfolding numbered_name
numbered_name-IsName k i h = record {
  full = full-append k (itoa_ℕ i);
  lacks = All-append _ k (b'-' ∷ itoa_ℕ i) h.lacks ((λ e. ground arith), itoa_ℕ-lacks b'/' i refl);
  not_dot = dash_dot k (itoa_ℕ i);
  not_up = dash_up k (itoa_ℕ i);
}

module _ {World : Type 0} (lab : Lab World) where
  run_dir-injective : (x y : Text) → IsName x → IsName y → run_dir lab x ≡ run_dir lab y → x ≡ y
  unfolding run_dir
  run_dir-injective x y hx hy e =
      let base = lab.home ∷ str ".cache/klab/run" ∷ [] in
      (path_join-parts (path_join base) (path_join base) x y hx hy (
        ap parts
          (path_join-path_join base x hx.full ∙ e ∙ sym (path_join-path_join base y hy.full)))).0

  map-apart :
      (x : Text) (ys : List Text)
      → IsName x
      → All IsName ys
      → All (λ y. x ≢ y) ys
      → All (λ d. run_dir lab x ≢ d) (map (run_dir lab) ys)
  map-apart x [] hx hys ne = tt
  map-apart x (y ∷ ys) hx (hy, hys) (n, ne) =
      ((λ e. n (run_dir-injective x y hx hy e)), map-apart x ys hx hys ne)

  map-Distinct : (xs : List Text) → All IsName xs → Distinct xs → Distinct (map (run_dir lab) xs)
  map-Distinct [] h d = tt
  map-Distinct (x ∷ xs) (hx, h) (ne, d) = (map-apart x xs hx h ne, map-Distinct xs h d)

  -- If the keys of the nodes are different, each is a name of a file, and no node without a count
  -- has the name of a copy, a name with a dash and a number behind it, then each instance has a run
  -- directory of its own.
  pub expand-run_dir-Distinct :
      (t : Topology)
      → Distinct (keys t.nodes)
      → All IsName (keys t.nodes)
      → All (IsApart (node_at t.nodes)) (keys t.nodes)
      → Distinct (map (run_dir lab) (names_of (expand t)))
  expand-run_dir-Distinct t d h apart =
      map-Distinct (names_of (expand t)) (expand-names_of-All t IsName numbered_name-IsName h)
        (expand-names_of-Distinct t d apart)
