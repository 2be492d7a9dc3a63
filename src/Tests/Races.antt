-- ===== src/Tests/Races.antt =====
-- Calls of `Store.Get` that race for one entry, and the theorems on them.
use klab.Prelude.{
  err, ℕ, zero, suc, ◌≡◌, ◌≢◌, ◌⊎◌, refl, false, List, [], ◌∷◌, ◌++◌, Option, none, some, ok, Bool,
  true, Bool-cases, inl, inr, sym, ap, ◌∙◌,
}
use mathlib.Core.List.{foldl}
use klab.Text.{Text, str, text_eq, text_eq_sound, is_empty}
use klab.Kernel.Store.{
  Contents, found, not_exist, unreadable, writing_metadata, corrupt_metadata, looked_up, dir_made,
  config_written, built, encoded, meta_written, decoded, Machine, meta_of, config_of, dir_of,
  key_of, get,
}
use klab.Kernel.Store.Steps.{
  At, at_marker, returned, step, after_lookup, after_call, after_build, after_marshal, stamped,
}
use klab.Kernel.Store.Shared.{
  IsOrderly, Calls, Torn, Turn, Reach, IsSound, Fits, Broke, IsSafe, Holds, LeavesPart,
}
use klab.Kernel.Store.Shared.Safety.{Reach-Holds, get-IsSound}
use klab.Tests.Stores.{
  decode, read_first, Files, File, plain, marker, machine, machine-IsFaithful, read_file, spec,
  cached, built_image,
}

abbrev cache : Text
cache = str "/cache"

abbrev clang : Text
clang = str "clang"

abbrev config_a : Text
config_a = str "CONFIG_A=y\n"

differs : (p q : Text) → p ≢ q → text_eq p q ≡ false
differs p q h = elim (Bool-cases (text_eq p q)) [
  | inl e ↦ absurd (h (text_eq_sound p q e))
  | inr n ↦ n
]

machine-IsOrderly : IsOrderly machine cache clang
unfolding read_file is_empty
machine-IsOrderly = record {
  faithful = machine-IsFaithful;
  read-write_apart = λ p q d w h. rw (differs p q h) refl;
  read-mkdir_all = λ dir path d w h. h;
  read-build = λ s t c e d w h. h;
  sum_full = λ s. refl;
}

record Run : Type 0 where
  pub files : Files
  pub calls : Calls machine cache clang
  pub reach : Reach machine cache clang [] files calls

record Turned (w : Files) (cs : Calls machine cache clang) : Type 0 where
  pub files : Files
  pub calls : Calls machine cache clang
  pub turned : Turn machine cache clang w cs files calls

-- The nth call takes a step, if there is one.
abbrev turned_at : ℕ → (w : Files) (cs : Calls machine cache clang) → Option (Turned w cs)
turned_at n w [] = none
turned_at zero w (c ∷ cs) = some (record { files = _; calls = _; turned = Turn.now c cs w })
turned_at (suc n) w (c ∷ cs) = elim (turned_at n w cs) [
  | none ↦ none
  | some t ↦ some (record { files = _; calls = _; turned = Turn.later c t.turned })
]

abbrev next : Run → ℕ → Run
next r n = elim (turned_at n r.files r.calls) [
  | none ↦ r
  | some t ↦ record { files = _; calls = _; reach = Reach.turn r.reach t.turned }
]

abbrev two_calls : Run
two_calls = record {
  files = _;
  calls = _;
  reach = Reach.begin spec config_a (Reach.begin spec config_a Reach.start);
}

-- Both find no marker; one is over, and the other is killed before it writes the marker.
abbrev race : Run
race = foldl next two_calls (0 ∷ 1 ∷ 0 ∷ 1 ∷ 1 ∷ 0 ∷ 0 ∷ 0 ∷ 1 ∷ 0 ∷ 1 ∷ [])

none-IsSound : IsSound machine cache clang []
unfolding read_file
none-IsSound s c d h = cc

none-IsSafe : IsSafe machine cache clang []
unfolding read_file
none-IsSafe s c d h = cc

-- The machine writes all or nothing by itself; what is there in part is a turn of its own.
machine-LeavesPart : LeavesPart machine cache clang
machine-LeavesPart a d e path w v encoded h r = absurd cc

-- The call that is left has begun to write the marker.
abbrev torn_files : Files
torn_files = (meta_of machine cache clang spec config_a, plain []) ∷ race.files

opened : Contents File → File
opened (found f) = f
opened not_exist = plain []
opened unreadable = plain []

half_there : Torn machine cache clang spec config_a race.files torn_files
unfolding decode opened read_file
half_there = record {
  broken = λ d h.
      ap (λ x. decode (opened x))
        (sym h ∙ read_first (meta_of machine cache clang spec config_a) (plain []) race.files);
  others = λ path ne. rw (differs _ path ne) refl;
}

torn_race : Reach machine cache clang [] torn_files race.calls
unfolding step read_file after_lookup after_call after_build after_marshal stamped
torn_race =
    Reach.turn race.reach
      (Turn.later _ (Turn.torn _ [] built_image (marker built_image) _ _ refl half_there))

Reach-Holds_example : Holds machine cache clang torn_files race.calls
Reach-Holds_example =
    Reach-Holds machine cache clang machine-IsOrderly machine-LeavesPart none-IsSafe torn_race

abbrev points : Calls machine cache clang → List (At machine cache clang)
points [] = []
points (c ∷ cs) = c.at ∷ points cs

race_result :
    (points race.calls
      ≡ returned (ok (built_image, false)) ∷ at_marker built_image (marker built_image) ∷ [])
    × (race.files ≡ cached ++ (config_of machine cache clang spec config_a, plain config_a) ∷ [])
unfolding step read_file after_lookup after_call after_build after_marshal stamped
race_result = (refl, refl)

get-IsSound_example :
    Broke machine cache clang (returned (get machine cache clang spec config_a []).1)
    ⊎ (IsSound machine cache clang (get machine cache clang spec config_a []).0
        × Fits machine cache clang spec config_a
            (returned (get machine cache clang spec config_a []).1))
get-IsSound_example =
    get-IsSound machine cache clang machine-IsOrderly spec config_a [] none-IsSound

-- A machine that can write half of a marker only.
half_written : Text → File → Files → Files × Bool
half_written path (plain s) fs = ((path, plain s) ∷ fs, true)
half_written path (marker a) fs = ((path, plain []) ∷ fs, false)

abbrev full_disk : Machine Files File (Unit {0})
full_disk = record machine { write_file = half_written }

abbrev half_marker : Text × File
half_marker = (meta_of machine cache clang spec config_a, plain [])

marker_broken : get full_disk cache clang spec config_a [] ≡ (
  half_marker ∷ (config_of full_disk cache clang spec config_a, plain config_a) ∷ [],
  err (writing_metadata (meta_of full_disk cache clang spec config_a)),
)
unfolding get looked_up dir_made config_written built encoded meta_written read_file half_written
    meta_of dir_of key_of
marker_broken = refl

-- The entry is not built again, with as much room as one likes.
marker_stays_broken :
    (fs : Files)
    → get machine cache clang spec config_a (half_marker ∷ fs)
      ≡ (half_marker ∷ fs, err (corrupt_metadata (meta_of machine cache clang spec config_a)))
unfolding get looked_up decoded decode
marker_stays_broken fs =
    rw (read_first (meta_of machine cache clang spec config_a) (plain []) fs) refl
