-- ===== src/Topology/Accepts.antt =====
-- What `Validate` accepts: exactly the well-formed topologies.
use klab.Prelude.{
  ◌≡◌, ◌≢◌, ◌↔◌, inl, inr, refl, sym, ◌∙◌, List, [], ◌∷◌, ok, ◌>>◌, reject_if, >>-ok, ok->>,
  reject_if-ok, ok-reject_if, All, All-at, Any, Distinct,
}
use klab.Text.{Text, is_empty}
use klab.Topology.{
  Link, Topology, name_required, no_nodes, no_entries, check_nodes, check_links, validate,
}
use klab.Topology.Validate.{
  link_names, IsValid, is_empty_iff, no_entries-ne, ne-no_entries, check_nodes-ok, ok-check_nodes,
  check_links-ok, ok-check_links, Fresh,
}

Fresh-All :
    (x : Text) (seen : List Text) (ls : List Link)
    → Any (λ y. y ≡ x) seen
    → Fresh seen ls
    → All (λ y. x ≢ y) (link_names ls)
Fresh-All x seen [] m f = tt
Fresh-All x seen (l ∷ ls) m (fresh, f) =
    (All-at (λ y. y ≢ l.name) x seen m fresh, Fresh-All x (l.name ∷ seen) ls (inr m) f)

Fresh-Distinct : (seen : List Text) (ls : List Link) → Fresh seen ls → Distinct (link_names ls)
Fresh-Distinct seen [] f = tt
Fresh-Distinct seen (l ∷ ls) (fresh, f) =
    (Fresh-All l.name (l.name ∷ seen) ls (inl refl) f, Fresh-Distinct (l.name ∷ seen) ls f)

-- No name in the list is one of those seen.
abbrev Apart : List Text → List Text → Type 0
Apart seen = All (λ x. All (λ y. y ≢ x) seen)

Apart-cons :
    (x : Text) (seen xs : List Text) → All (λ y. x ≢ y) xs → Apart seen xs → Apart (x ∷ seen) xs
Apart-cons x seen [] h k = tt
Apart-cons x seen (y ∷ xs) (hy, h) (ky, k) = ((hy, ky), Apart-cons x seen xs h k)

Distinct-Fresh :
    (seen : List Text) (ls : List Link)
    → Distinct (link_names ls)
    → Apart seen (link_names ls)
    → Fresh seen ls
Distinct-Fresh seen [] d a = tt
Distinct-Fresh seen (l ∷ ls) (dl, d) (al, a) =
    (al, Distinct-Fresh (l.name ∷ seen) ls d (Apart-cons l.name seen (link_names ls) dl a))

Apart-nil : (xs : List Text) → Apart [] xs
Apart-nil [] = tt
Apart-nil (x ∷ xs) = (tt, Apart-nil xs)

validate_steps :
    (t : Topology)
    → validate t ≡ (
        reject_if (is_empty t.name) name_required
        >> (reject_if (no_entries t.nodes) no_nodes
            >> (check_nodes t.nodes >> check_links t.nodes [] t.links)))
validate_steps t = unfold validate in refl

validate-ok : (t : Topology) → validate t ≡ ok tt → IsValid t
validate-ok t h =
    let (named, h1) = >>-ok _ _ (sym (validate_steps t) ∙ h) in
    let (inhabited, h2) = >>-ok _ _ h1 in
    let (nodes, links) = >>-ok _ _ h2 in
    let (valid, fresh) = check_links-ok t.nodes [] t.links links in
    record {
      named = (is_empty_iff t.name).0 (reject_if-ok _ _ named);
      inhabited = no_entries-ne t.nodes (reject_if-ok _ _ inhabited);
      nodes_valid = check_nodes-ok t.nodes nodes;
      links_valid = valid;
      links_distinct = Fresh-Distinct [] t.links fresh;
    }

ok-validate : (t : Topology) → IsValid t → validate t ≡ ok tt
ok-validate t v =
    validate_steps t
    ∙ ok->> _ _ (ok-reject_if _ _ ((is_empty_iff t.name).1 v.named)) (
        ok->> _ _ (ok-reject_if _ _ (ne-no_entries t.nodes v.inhabited)) (
          ok->> _ _ (ok-check_nodes t.nodes v.nodes_valid) (
            ok-check_links t.nodes [] t.links v.links_valid
              (Distinct-Fresh [] t.links v.links_distinct (Apart-nil (link_names t.links))))))

-- `Validate` returns no error exactly on the topologies that are well formed: the topology is
-- named and has a node; each node names a driver and an architecture and its count is not
-- negative; each link is named, has members, which are all nodes, and has no subnet or one that
-- parses as a CIDR; and no two links share a name.
pub validate_iff : (t : Topology) → (validate t ≡ ok tt) ↔ IsValid t
validate_iff t = (validate-ok t, ok-validate t)
