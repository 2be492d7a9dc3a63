-- ===== src/Text/Path/Parent.antt =====
-- The parent of a path that was joined and extended by hand, as the run directory of a node is.
use klab.Prelude.{◌≡◌, refl, sym, ap, ◌∙◌, false, [], ◌∷◌, ◌++◌, Bool-cases, inl, inr, arith}
use klab.Text.Defs.{Text, is_empty}
use klab.Text.Split.{split, Lacks}
use klab.Text.Path.{keep_component, clean, not_empty, path_join, through_slash, path_dir}
use klab.Text.Path.Kept.{kept_of}
use klab.Text.Path.Join.{
  IsFull, clean_lem, clean-append, Renders-append, join-IsFull, joined, path_join_lem,
}

through_slash-Lacks : (m : Text) → Lacks b'/' m → through_slash m ≡ []
unfolding through_slash is_empty
through_slash-Lacks [] h = refl
through_slash-Lacks (c ∷ m) (hc, h) = rw (through_slash-Lacks m h) (ground arith)

full-append : (a m : Text) → is_empty (a ++ b'/' ∷ m) ≡ false
unfolding is_empty
full-append [] m = refl
full-append (c ∷ a) m = refl

through_slash-append : (a m : Text) → Lacks b'/' m → through_slash (a ++ b'/' ∷ m) ≡ a ++ b'/' ∷ []
unfolding through_slash is_empty
through_slash-append [] m h = rw (through_slash-Lacks m h) refl
through_slash-append (c ∷ a) m h = rw (through_slash-append a m h, full-append a []) refl

clean-slash : (s : Text) → IsFull s → clean (s ++ b'/' ∷ []) ≡ clean s
unfolding split kept_of keep_component is_empty
clean-slash s full = Renders-append _ _ s [] (refl, refl, full) ∙ sym (clean_lem s)

pub path_dir-clean :
    (s m : Text) → IsFull s → Lacks b'/' m → path_dir (clean s ++ b'/' ∷ m) ≡ clean s
unfolding path_dir
path_dir-clean s m full h =
    ap clean (through_slash-append (clean s) m h) ∙ (clean-append s [] full ∙ clean-slash s full)

-- The parent of a name in a directory below a name that is not empty.
pub path_dir-path_join :
    (a b c m : Text)
    → IsFull b
    → Lacks b'/' m
    → path_dir (path_join (a ∷ b ∷ c ∷ []) ++ b'/' ∷ m) ≡ path_join (a ∷ b ∷ c ∷ [])
unfolding not_empty joined
path_dir-path_join a b c m full h =
    rw (path_join_lem (a ∷ b ∷ c ∷ [])) (elim (Bool-cases (is_empty a)) [
      | inl e ↦ rw (e, full) (path_dir-clean _ m (join-IsFull b _ full) h)
      | inr n ↦ rw (n, full) (path_dir-clean _ m (join-IsFull a _ n) h)
    ])
