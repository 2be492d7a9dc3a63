-- ===== src/Kernel/Builder/Heredoc.antt =====
-- The document that the build script hands to the shell, for the merged config.
use klab.Prelude.{
  ℕ, ◌≡◌, ◌≢◌, refl, sym, ap, ◌∙◌, List, [], ◌∷◌, ◌++◌, All, All-imp, All-append, inl, inr, arith,
  Bool-cases, if◌then◌else◌,
}
use klab.Text.{Text, str, text_eq, text_eq_iff, text_eq_refl}
use klab.Text.Split.{split, split-append, split-append_any, Lacks}
use klab.Kernel.{merge_config}
use klab.Kernel.Flat.{lacks-Lacks}
use klab.Kernel.Lines.{IsDirective, split-merge_config}
use klab.Kernel.Store.{Spec}
use klab.Kernel.Builder.{
  MakeBuilder, ArchParams, fragment_end, script_before, script_after, build_script,
}

-- What the shell reads of a document whose delimiter is quoted: the lines up to the first that is
-- the delimiter.
unfoldable pub document : Text → List Text → List Text
document delimiter [] = []
document delimiter (l ∷ ls) =
    let rest = document delimiter ls in if text_eq l delimiter then [] else l ∷ rest

document-append :
    (d : Text) (ls rest : List Text) → All (λ l. l ≢ d) ls → document d (ls ++ d ∷ rest) ≡ ls
unfolding document
document-append d [] rest h = rw (text_eq_refl d) refl
document-append d (l ∷ ls) rest (hl, h) = elim (Bool-cases (text_eq l d)) [
  | inl e ↦ absurd (hl ((text_eq_iff l d).0 e))
  | inr n ↦ rw (n, document-append d ls rest h) refl
]

first_byte : Text → ℕ
first_byte [] = 0
first_byte (c ∷ s) = c

directive_no_end : (l : Text) → IsDirective l → l ≢ fragment_end
unfolding str first_byte
directive_no_end l (t, inl e) h =
    let q : ◌≡◌ {A = ℕ} b'C' b'K' = ap first_byte (sym e ∙ h) in omega (arith, q)
directive_no_end l (t, inr e) h =
    let q : ◌≡◌ {A = ℕ} b'#' b'K' = ap first_byte (sym e ∙ h) in omega (arith, q)

one_line_end : Lacks 10 fragment_end
unfolding str
one_line_end = lacks-Lacks 10 fragment_end refl

nil_no_end : [] ≢ fragment_end
unfolding str first_byte
nil_no_end h = let q : ◌≡◌ {A = ℕ} 0 b'K' = ap first_byte h in omega (arith, q)

-- Behind the delimiter stands the end of its line.
after_line :
    (b : MakeBuilder) (p : ArchParams) (out_dir : Text)
    → (s : Text) × (script_after b p out_dir ≡ 10 ∷ s)
unfolding script_after str
after_line b p out_dir = (_, refl)

document_of :
    (config after : Text)
    → All (λ l. l ≢ fragment_end) (split 10 config)
    → document fragment_end (split 10 (config ++ 10 ∷ (fragment_end ++ 10 ∷ after)))
      ≡ split 10 config
document_of config after h =
    ap (document fragment_end) (
      split-append_any 10 config (fragment_end ++ 10 ∷ after)
      ∙ ap (λ ls. split 10 config ++ ls) (split-append 10 fragment_end after one_line_end))
    ∙ document-append fragment_end (split 10 config) (split 10 after) h

merged_no_end :
    (base : Text) (fs : List Text) → All (λ l. l ≢ fragment_end) (split 10 (merge_config base fs))
merged_no_end base fs =
    let (ls, e, h) = split-merge_config base fs in
    rw e (
      All-append (λ l. l ≢ fragment_end) ls ([] ∷ []) (All-imp ls directive_no_end h)
        (nil_no_end, tt))

-- The fragment that the build script writes is the merged config: the shell reads the document
-- behind the first part of the script up to the first line that is the delimiter, and whatever the
-- base config and the fragments hold, no line of the merged config is one, so that it reads the
-- lines of the merged config, all of them and no other.
pub document-merge_config :
    (b : MakeBuilder) (spec : Spec) (p : ArchParams) (base : Text) (fs : List Text) (out_dir : Text)
    → (rest : Text) × (build_script b spec p (merge_config base fs) out_dir
        ≡ script_before b spec p ++ rest)
      × (document fragment_end (split 10 rest) ≡ split 10 (merge_config base fs))
unfolding build_script
document-merge_config b spec p base fs out_dir =
    let (after, e) = after_line b p out_dir in
    (
      _,
      refl,
      ap (λ t. document fragment_end (split 10 (merge_config base fs ++ 10 ∷ (fragment_end ++ t))))
            e
          ∙ document_of (merge_config base fs) after (merged_no_end base fs),
    )
