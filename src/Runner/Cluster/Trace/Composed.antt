-- ===== src/Runner/Cluster/Trace/Composed.antt =====
-- What steps that follow one another ask of the machine.
use mathlib.Core.Path.{ap₂}
use klab.Prelude.{
  ◌≡◌, refl, sym, ap, ◌∙◌, List, [], ◌∷◌, ◌++◌, append_assoc, append-nil, Check, ok, err,
}
use klab.Runner.Cluster.{Lab, UpError, Outcome, and_then, each}
use klab.Runner.Cluster.Trace.{Ask, logged, for_all, Follows}

module _ {World : Type 0} (lab : Lab World) where
  -- What was asked first.
  pub prepend :
      (l : List Ask) (a : Ask) (asks : List Ask) (o : Outcome lab) (q : Outcome (logged lab))
      → Follows lab (l ++ a ∷ []) asks o q
      → Follows lab l (a ∷ asks) o q
  prepend l a asks o q f = record {
    done = a ∷ f.done;
    rest = f.rest;
    same = f.same ∙ ap (λ k. ((o.0, k), o.1)) (append_assoc l (a ∷ []) f.done);
    parts = ap (λ k. a ∷ k) f.parts;
    all_done = f.all_done;
  }

  -- Nothing more is asked.
  pub ended :
      (l asks : List Ask) (w : World) (c : Check UpError)
      → (c ≡ ok tt → asks ≡ [])
      → Follows lab l asks (w, c) ((w, l), c)
  ended l asks w c h = record {
    done = [];
    rest = asks;
    same = ap (λ k. ((w, k), c)) (sym (append-nil l));
    parts = refl;
    all_done = h;
  }

  pub no_error : {A : Type 0} (e : UpError) → ◌≡◌ {A = Check UpError} (err e) (ok tt) → A
  no_error e h = absurd cc

  pub and_then-Follows :
      (l xs ys : List Ask) (o : Outcome lab) (q : Outcome (logged lab)) (f : World → Outcome lab)
      (g : World × List Ask → Outcome (logged lab))
      → Follows lab l xs o q
      → ((w : World) (k : List Ask) → Follows lab k ys (f w) (g (w, k)))
      → Follows lab l (xs ++ ys) (and_then lab o f) (and_then (logged lab) q g)
  unfolding and_then
  and_then-Follows l xs ys (w, ok u) q f g p next =
      let n = next w (l ++ p.done) in
      record {
        done = p.done ++ n.done;
        rest = n.rest;
        same =
            ap (λ x. and_then (logged lab) x g) p.same
            ∙ (n.same ∙ ap (λ k. (((f w).0, k), (f w).1)) (append_assoc l p.done n.done));
        parts =
            ap₂ ◌++◌ (p.parts ∙ ap (λ k. p.done ++ k) (p.all_done refl) ∙ append-nil p.done) n.parts
            ∙ sym (append_assoc p.done n.done n.rest);
        all_done = n.all_done;
      }
  and_then-Follows l xs ys (w, err e) q f g p next = record {
    done = p.done;
    rest = p.rest ++ ys;
    same = ap (λ x. and_then (logged lab) x g) p.same;
    parts = ap (λ k. k ++ ys) p.parts ∙ append_assoc p.done p.rest ys;
    all_done = λ h. no_error e h;
  }

  pub each-Follows :
      {A : Type 0} (asks : A → List Ask) (f : A → World → Outcome lab)
      (g : A → World × List Ask → Outcome (logged lab))
      → ((x : A) (w : World) (l : List Ask) → Follows lab l (asks x) (f x w) (g x (w, l)))
      → (xs : List A) (w : World) (l : List Ask)
      → Follows lab l (for_all lab asks xs) (each lab f xs w) (each (logged lab) g xs (w, l))
  unfolding each
  each-Follows asks f g h [] w l = ended l [] w (ok tt) (λ e. refl)
  each-Follows asks f g h (x ∷ xs) w l =
      and_then-Follows l (asks x) (for_all lab asks xs) _ _ _ _ (h x w l)
        (λ v k. each-Follows asks f g h xs v k)
