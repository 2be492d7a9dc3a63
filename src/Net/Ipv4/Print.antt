-- ===== src/Net/Ipv4/Print.antt =====
-- Printed IPv4 addresses, in front of a prefix length, tell the address.
use klab.Prelude.{ℕ, ◌≡◌, refl, sym, ap, ◌∙◌, [], ◌∷◌, ◌++◌, append_assoc}
use klab.Text.{Text}
use klab.Text.Decimal.{itoa_ℕ, itoa_ℕ-injective, itoa_ℕ-lacks}
use klab.Text.Split.{cut-injective}
use klab.Net.Ipv4.{ipv4_text}

-- The text of an address and what follows it, bracketed to the right.
spelled :
    (a b c d : ℕ) (rest : Text)
    → ipv4_text (a ∷ b ∷ c ∷ d ∷ []) ++ b'/' ∷ rest
      ≡ itoa_ℕ a ++ b'.' ∷ (itoa_ℕ b ++ b'.' ∷ (itoa_ℕ c ++ b'.' ∷ (itoa_ℕ d ++ b'/' ∷ rest)))
unfolding ipv4_text
spelled a b c d rest =
    append_assoc (itoa_ℕ a) _ _
    ∙ ap (λ t. itoa_ℕ a ++ b'.' ∷ t)
        (append_assoc (itoa_ℕ b) _ _ ∙ ap (λ t. itoa_ℕ b ++ b'.' ∷ t) (append_assoc (itoa_ℕ c) _ _))

pub ipv4_text-injective :
    (a b c d a' b' c' d' : ℕ) (rest rest' : Text)
    → ipv4_text (a ∷ b ∷ c ∷ d ∷ []) ++ b'/' ∷ rest
      ≡ ipv4_text (a' ∷ b' ∷ c' ∷ d' ∷ []) ++ b'/' ∷ rest'
    → (a ≡ a') × (b ≡ b') × (c ≡ c') × (d ≡ d')
ipv4_text-injective a b c d a' b' c' d' rest rest' e =
    let dot = λ (n : ℕ). itoa_ℕ-lacks b'.' n refl in
    let (ea, e1) =
      cut-injective b'.' _ _ _ _ (dot a) (dot a')
        (sym (spelled a b c d rest) ∙ e ∙ spelled a' b' c' d' rest') in
    let (eb, e2) = cut-injective b'.' _ _ _ _ (dot b) (dot b') e1 in
    let (ec, e3) = cut-injective b'.' _ _ _ _ (dot c) (dot c') e2 in
    let (ed, e4) =
      cut-injective b'/' _ _ _ _ (itoa_ℕ-lacks b'/' d refl) (itoa_ℕ-lacks b'/' d' refl) e3 in
    (
      itoa_ℕ-injective a a' ea,
      itoa_ℕ-injective b b' eb,
      itoa_ℕ-injective c c' ec,
      itoa_ℕ-injective d d' ed,
    )
