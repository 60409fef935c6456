-- ===== src/Models/Synthetic/Ids.antt =====
-- An account identifier gives its tenant and its serial number back.
use text.Mathlib.TextLemmas.{nil-append, cons-append, append_assoc}
use axiler_fin.Base.{
  ℕ, String, ◌≡◌, refl, ap, ◌∙◌, false, Option, none, some, ◌+ˢ◌, has_code, cut, cut-append,
}
use axiler_fin.Base.Decimal.{padded, value_from, value_from-padded}
use axiler_fin.Models.Synthetic.{account_id}

abbrev number : Option String → ℕ
number none = 0
number (some digits) = value_from 0 digits

abbrev after_acc : Option String → String × ℕ
after_acc none = ("", 0)
after_acc (some rest) = ((cut b'_' rest).0, number (cut b'_' rest).1)

-- The two parts of an identifier: what stands between its two underscores, and the number after them.
abbrev pub id_parts : String → String × ℕ
id_parts id = after_acc (cut b'_' id).1

score : (s : String) → "_" +ˢ s ≡ String.◌∷◌ "_" s
score s = cons-append _ "" s ∙ ap (String.◌∷◌ _) (nil-append s)

account_id-eq :
    (tenant : String) (serial : ℕ)
    → account_id tenant serial ≡ "acc" +ˢ String.◌∷◌ "_" (tenant +ˢ String.◌∷◌ "_" (padded serial))
unfolding account_id
account_id-eq tenant serial =
    append_assoc "acc" "_" (tenant +ˢ ("_" +ˢ padded serial))
    ∙ ap (λ s. "acc" +ˢ s) (score (tenant +ˢ ("_" +ˢ padded serial)))
    ∙ ap (λ s. "acc" +ˢ String.◌∷◌ "_" (tenant +ˢ s)) (score (padded serial))

acc_plain : has_code b'_' "acc" ≡ false
unfolding has_code
acc_plain = refl

pub id_parts-account_id :
    (tenant : String) (serial : ℕ)
    → has_code b'_' tenant ≡ false
    → id_parts (account_id tenant serial) ≡ (tenant, serial)
id_parts-account_id tenant serial h =
    ap id_parts (account_id-eq tenant serial)
    ∙ ap (λ c. after_acc c.1)
        (cut-append b'_' "acc" (tenant +ˢ String.◌∷◌ "_" (padded serial)) "_" acc_plain refl)
    ∙ ap (λ c. (c.0, number c.1)) (cut-append b'_' tenant (padded serial) "_" h refl)
    ∙ ap (λ n. (tenant, n)) (value_from-padded serial)
