-- ===== src/Ingestion/Keys.antt =====
-- AtamuraOKK/ingestion/mapping.py: which rows `client_key` gives to one client.
use Prim.Native.Char.{Char}
use Prim.Native.String.{◌++◌, count, ◌∷◌}
use Prim.Native.String.compare
use text.Mathlib.Text.{is_eq}
use atamura_okk.Base.{
  arith, ◌≡◌, refl, sym, ap, ◌∙◌, String, Bool, true, false, Option, none, some, ◌==◌,
  if◌then◌else◌, ◌&&◌, str_eq, eq_iff,
}
use atamura_okk.Ingestion.Mapping.{
  Row, Parsers, with_prefix, digits_of, normalize_phone, client_key, present, by_entity, by_phone,
  phone_key,
}

with_prefix-eight : (s : String) → count ("8" ∷ s) ≡ 11 → with_prefix ("8" ∷ s) ≡ "7" ∷ s
with_prefix-eight s e = ap (λ n. if n == 11 && true then "7" ∷ s else "8" ∷ s) e

if-never : {A : Type 0} → (a b : A) → (t : Bool) → (if t && false then a else b) ≡ b
if-never a b true = refl
if-never a b false = refl

with_prefix-seven : (s : String) → with_prefix ("7" ∷ s) ≡ "7" ∷ s
with_prefix-seven s = if-never _ _ (count ("7" ∷ s) == 11)

str_eq-nonempty : (c : Char) → (s : String) → str_eq (c ∷ s) "" ≡ false
str_eq-nonempty c s = ap is_eq (compare.cons-nil c s)

-- A phone that holds a digit is a text that counts as true.
digits-present :
    (x : Parsers) → (c : Char) → (p s : String) → digits_of x p ≡ c ∷ s → present (some p) ≡ some p
unfolding digits_of
digits-present x c String.[] s e = ground (arith, eq_iff (c ∷ s) "", sym e, str_eq-nonempty c s)
digits-present x c (d ∷ p) s e = ap (λ t. if t then none else some (d ∷ p)) (str_eq-nonempty d p)

-- A row without an entity is of the client of its phone.
by_entity-none : (o kind : Option String) → by_entity o kind none ≡ o
by_entity-none o none = refl
by_entity-none o (some k) = refl

client_key-normalized :
    (x : Parsers)
    → (r : Row) → (c : Char) → (p s w : String) → present r.crm_entity_id ≡ none
    → r.phone_number ≡ some p
    → digits_of x p ≡ c ∷ s
    → with_prefix (c ∷ s) ≡ "7" ∷ w
    → client_key x r ≡ some ("PHONE:" ++ ("7" ∷ w))
unfolding client_key normalize_phone
client_key-normalized x r c p s w er pr dp dw =
    ap (λ i. by_entity (by_phone x (present r.phone_number)) (present r.crm_entity_type) i) er
    ∙ by_entity-none _ (present r.crm_entity_type)
    ∙ ap (λ o. by_phone x (present o)) pr
    ∙ ap (by_phone x) (digits-present x c p s dp)
    ∙ ap phone_key (ap with_prefix dp ∙ dw)
    ∙ ap (λ t. if t then none else some ("PHONE:" ++ ("7" ∷ w))) (str_eq-nonempty _ w)

-- Where neither of two rows has the id of a CRM entity, the digits of one's phone are 8 and ten more and
-- those of the other's are 7 and the same ten, both rows have the same client key: "PHONE:", 7 and the ten digits.
pub client_key-prefix :
    (x : Parsers)
    → (r t : Row) → (p q s : String) → present r.crm_entity_id ≡ none
    → present t.crm_entity_id ≡ none
    → r.phone_number ≡ some p
    → t.phone_number ≡ some q
    → digits_of x p ≡ "8" ∷ s
    → digits_of x q ≡ "7" ∷ s
    → count ("8" ∷ s) ≡ 11
    → client_key x r ≡ some ("PHONE:" ++ ("7" ∷ s)) × client_key x t ≡ some ("PHONE:" ++ ("7" ∷ s))
client_key-prefix x r t p q s er et pr pt dp dq e = (
  client_key-normalized x r _ p s s er pr dp (with_prefix-eight s e),
  client_key-normalized x t _ q s s et pt dq (with_prefix-seven s),
)
