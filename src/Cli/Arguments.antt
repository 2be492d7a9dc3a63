-- ===== src/Cli/Arguments.antt =====
-- What validate and exec make of their arguments.
use klab.Prelude.{
  ◌≡◌, ◌≢◌, ◌↔◌, refl, sym, ap, ◌∙◌, true, false, ◌||◌, List, [], ◌∷◌, ◌++◌, Option, none, some,
  All, arith, Bool-cases, inl, inr, ◌==◌, if◌then◌else◌,
}
use klab.Text.{Text, str, text_eq, text_eq_iff, text_eq_refl}
use klab.Text.Split.{first_part}

-- How the parse of a flag set without flags ends.
pub data Parsed : Type 0 where
  rest_of : List Text → Parsed
  asked_help : Parsed
  bad : Text → Parsed

-- The name of a flag, behind its dashes.
unfoldable pub flag_name : Text → Text → Parsed
flag_name arg [] = bad arg
flag_name arg (c ∷ s) =
    if c == b'-' || c == b'='
    then bad arg
    else if text_eq (first_part b'=' (c ∷ s)) (str "help")
        || text_eq (first_part b'=' (c ∷ s)) (str "h")
    then asked_help
    else bad arg

-- flag.FlagSet.Parse, of a set of which no flag is defined.
unfoldable pub parse_flags : List Text → Parsed
parse_flags [] = rest_of []
parse_flags ([] ∷ args) = rest_of ([] ∷ args)
parse_flags ((c ∷ []) ∷ args) = rest_of ((c ∷ []) ∷ args)
parse_flags ((c ∷ d ∷ s) ∷ args) =
    if c == b'-'
    then if d == b'-'
      then elim s [ [] ↦ rest_of args | e ∷ r ↦ flag_name (c ∷ d ∷ e ∷ r) (e ∷ r) ]
      else flag_name (c ∷ d ∷ s) (d ∷ s)
    else rest_of ((c ∷ d ∷ s) ∷ args)

unfoldable pub keep_before : Text → Option (List Text × List Text) → Option (List Text × List Text)
keep_before a none = none
keep_before a (some (before, behind)) = some (a ∷ before, behind)

-- What stands before and behind the first "--".
unfoldable pub cut_dashes : List Text → Option (List Text × List Text)
cut_dashes [] = none
cut_dashes (a ∷ args) =
    let rest = cut_dashes args in
    if text_eq a (str "--") then some ([], args) else keep_before a rest

-- The topology, the node and the command: `sep < 2 || sep+1 >= len(args)` is an error.
unfoldable pub command_of : Option (List Text × List Text) → Option (Text × Text × List Text)
command_of none = none
command_of (some ([], behind)) = none
command_of (some (topo ∷ [], behind)) = none
command_of (some (topo ∷ node ∷ between, [])) = none
command_of (some (topo ∷ node ∷ between, c ∷ cmd)) = some (topo, node, c ∷ cmd)

unfoldable pub exec_args : List Text → Option (Text × Text × List Text)
exec_args args = command_of (cut_dashes args)

abbrev pub IsNoDashes : Text → Type 0
IsNoDashes a = a ≢ str "--"

dashes-eq : (a : Text) → IsNoDashes a → text_eq a (str "--") ≡ false
dashes-eq a h = elim (Bool-cases (text_eq a (str "--"))) [
  | inl e ↦ absurd (h ((text_eq_iff a (str "--")).0 e))
  | inr n ↦ n
]

cut_dashes-append :
    (before behind : List Text)
    → All IsNoDashes before
    → cut_dashes (before ++ str "--" ∷ behind) ≡ some (before, behind)
unfolding cut_dashes keep_before
cut_dashes-append [] behind h = rw (text_eq_refl (str "--")) refl
cut_dashes-append (a ∷ before) behind (ha, h) =
    rw (dashes-eq a ha, cut_dashes-append before behind h) refl

keep_before-some :
    (a : Text) (o : Option (List Text × List Text)) (b h : List Text)
    → keep_before a o ≡ some (b, h)
    → (r : List Text) × (o ≡ some (r, h)) × (b ≡ a ∷ r)
unfolding keep_before
keep_before-some a none b h e = ([], cc, cc)
keep_before-some a (some (r, k)) b h e = (r, cc, cc)

-- What a cut says of the arguments.
abbrev IsCut : List Text → List Text → List Text → Type 0
IsCut args before behind = (args ≡ before ++ str "--" ∷ behind) × All IsNoDashes before

cut_here :
    (a : Text) (args : List Text)
    → text_eq a (str "--") ≡ true
    → cut_dashes (a ∷ args) ≡ some ([], args)
unfolding cut_dashes
cut_here a args d = rw d refl

cut_later :
    (a : Text) (args : List Text)
    → text_eq a (str "--") ≡ false
    → cut_dashes (a ∷ args) ≡ keep_before a (cut_dashes args)
unfolding cut_dashes
cut_later a args n = rw n refl

cut_of_nil : (b h : List Text) → cut_dashes [] ≡ some (b, h) → ⊥
unfolding cut_dashes
cut_of_nil b h e = cc

both :
    (a b c d : List Text)
    → ◌≡◌ {A = Option (List Text × List Text)} (some (a, b)) (some (c, d))
    → (c ≡ a) × (d ≡ b)
both a b c d e = (cc, cc)

dashes-false : (a : Text) → text_eq a (str "--") ≡ false → IsNoDashes a
dashes-false a n e = ground (arith, (text_eq_iff a (str "--")).1 e)

cut_dashes-inv : (args b h : List Text) → cut_dashes args ≡ some (b, h) → IsCut args b h
cut_dashes-inv [] b h e = absurd (cut_of_nil b h e)
cut_dashes-inv (a ∷ args) b h e = elim (Bool-cases (text_eq a (str "--"))) [
  | inl d ↦
      let (none_before, same) = both _ _ _ _ (sym (cut_here a args d) ∙ e) in
      rw (none_before, same, (text_eq_iff a (str "--")).0 d) (refl, tt)
  | inr n ↦
      let (r, cut_rest, same) =
        keep_before-some a (cut_dashes args) b h (sym (cut_later a args n) ∙ e) in
      let (split_rest, clean) = cut_dashes-inv args r h cut_rest in
      rw same (ap (λ x. a ∷ x) split_rest, (dashes-false a n, clean))
]

-- The forms of the arguments of exec.
abbrev pub Asks : List Text → Text → Text → List Text → Type 0
Asks args topo node cmd =
    (between : List Text) × (args ≡ (topo ∷ node ∷ between) ++ str "--" ∷ cmd)
    × All IsNoDashes (topo ∷ node ∷ between)
    × (cmd ≢ [])

all_three :
    (a b : Text) (c : List Text) (x y : Text) (z : List Text)
    → ◌≡◌ {A = Option (Text × Text × List Text)} (some (a, b, c)) (some (x, y, z))
    → (x ≡ a) × (y ≡ b) × (z ≡ c)
all_three a b c x y z e = (cc, cc, cc)

cons_ne_nil : (d : Text) (ds : List Text) → d ∷ ds ≢ []
cons_ne_nil d ds e = cc

command_of-append :
    (topo node : Text) (between cmd : List Text)
    → cmd ≢ []
    → command_of (some (topo ∷ node ∷ between, cmd)) ≡ some (topo, node, cmd)
unfolding command_of
command_of-append topo node between [] h = absurd (h refl)
command_of-append topo node between (d ∷ ds) h = refl

command_of-some :
    (args : List Text) (o : Option (List Text × List Text)) (topo node : Text) (cmd : List Text)
    → cut_dashes args ≡ o
    → command_of o ≡ some (topo, node, cmd)
    → Asks args topo node cmd
unfolding command_of
command_of-some args none topo node cmd c e = cc
command_of-some args (some ([], behind)) topo node cmd c e = cc
command_of-some args (some (t ∷ [], behind)) topo node cmd c e = cc
command_of-some args (some (t ∷ n ∷ between, [])) topo node cmd c e = cc
command_of-some args (some (t ∷ n ∷ between, d ∷ ds)) topo node cmd c e =
    let (args_are, clean) = cut_dashes-inv args _ _ c in
    let (e1, e2, e3) = all_three _ _ _ _ _ _ e in
    rw (e1, e2, e3) (between, args_are, clean, cons_ne_nil d ds)

-- What exec takes for its arguments: at least two, the topology and the node, none of them "--",
-- before the first "--", and the command, at least one argument, behind it. Whatever else stands
-- before the "--" is passed over.
pub exec_args_iff :
    (args : List Text) (topo node : Text) (cmd : List Text)
    → (exec_args args ≡ some (topo, node, cmd)) ↔ Asks args topo node cmd
unfolding exec_args
exec_args_iff args topo node cmd = (
  command_of-some args _ topo node cmd refl,
  λ (between, args_are, clean, asked).
      ap (λ a. command_of (cut_dashes a)) args_are
      ∙ (ap command_of (cut_dashes-append (topo ∷ node ∷ between) cmd clean)
          ∙ command_of-append topo node between cmd asked),
)
