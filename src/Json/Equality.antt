-- ===== src/Json/Equality.antt =====
-- Equality of JSON values and of stored texts as a Boolean test.
use policyengine_api.Base.{
  ◌≡◌, refl, Bool, true, false, ◌&&◌, ◌==◌, str_eq, eq_iff, eq_refl, arith, ◌↔◌, &&-eq_true,
}
use policyengine_api.Json.{
  Json, null, bool, num, lit, str, arr, obj, Items, nil, cons, Fields, end, field, CacheText, doc,
  plain,
}

abbrev bool_eq : Bool → Bool → Bool
bool_eq true true = true
bool_eq false false = true
bool_eq _ _ = false

unfoldable mutual
  pub json_eq : Json → Json → Bool
  json_eq null null = true
  json_eq (bool a) (bool b) = bool_eq a b
  json_eq (num a) (num b) = a == b
  json_eq (lit a) (lit b) = str_eq a b
  json_eq (str a) (str b) = str_eq a b
  json_eq (arr a) (arr b) = items_eq a b
  json_eq (obj a) (obj b) = fields_eq a b
  json_eq _ _ = false

  pub items_eq : Items → Items → Bool
  items_eq nil nil = true
  items_eq (cons a as') (cons b bs) = json_eq a b && items_eq as' bs
  items_eq _ _ = false

  pub fields_eq : Fields → Fields → Bool
  fields_eq end end = true
  fields_eq (field j a r) (field k b s) = str_eq j k && (json_eq a b && fields_eq r s)
  fields_eq _ _ = false

unfoldable pub text_eq : CacheText → CacheText → Bool
text_eq (doc a) (doc b) = json_eq a b
text_eq (plain a) (plain b) = str_eq a b
text_eq _ _ = false

mutual
  unfolding json_eq items_eq fields_eq

  json_eq_self : (a : Json) → json_eq a a ≡ true
  json_eq_self null = refl
  json_eq_self (bool true) = refl
  json_eq_self (bool false) = refl
  json_eq_self (num a) = ground arith
  json_eq_self (lit a) = eq_refl a
  json_eq_self (str a) = eq_refl a
  json_eq_self (arr a) = items_eq_self a
  json_eq_self (obj a) = fields_eq_self a

  items_eq_self : (a : Items) → items_eq a a ≡ true
  items_eq_self nil = refl
  items_eq_self (cons a r) = ground (arith, json_eq_self a, items_eq_self r)

  fields_eq_self : (a : Fields) → fields_eq a a ≡ true
  fields_eq_self end = refl
  fields_eq_self (field k a r) = ground (arith, eq_refl k, json_eq_self a, fields_eq_self r)

mutual
  unfolding json_eq items_eq fields_eq

  json_eq_sound : (a b : Json) → json_eq a b ≡ true → a ≡ b
  json_eq_sound null null h = refl
  json_eq_sound (bool a) (bool b) h = ground arith
  json_eq_sound (num a) (num b) h = ground arith
  json_eq_sound (lit a) (lit b) h = ground (arith, eq_iff a b)
  json_eq_sound (str a) (str b) h = ground (arith, eq_iff a b)
  json_eq_sound (arr a) (arr b) h = ground (arith, items_eq_sound a b)
  json_eq_sound (obj a) (obj b) h = ground (arith, fields_eq_sound a b)
  json_eq_sound _ _ h = cc

  items_eq_sound : (a b : Items) → items_eq a b ≡ true → a ≡ b
  items_eq_sound nil nil h = refl
  items_eq_sound (cons a r) (cons b s) h = ground (arith, json_eq_sound a b, items_eq_sound r s)
  items_eq_sound _ _ h = cc

  fields_eq_sound : (a b : Fields) → fields_eq a b ≡ true → a ≡ b
  fields_eq_sound end end h = refl
  fields_eq_sound (field j a r) (field k b s) h =
      let (key, rest) = &&-eq_true (str_eq j k) (json_eq a b && fields_eq r s) h in
      let (value, others) = &&-eq_true (json_eq a b) (fields_eq r s) rest in
      cc ((eq_iff j k).0 key, json_eq_sound a b value, fields_eq_sound r s others)
  fields_eq_sound _ _ h = cc

pub json_eq_iff : (a b : Json) → (json_eq a b ≡ true) ↔ (a ≡ b)
json_eq_iff a b = (json_eq_sound a b, λ e. rw e (json_eq_self b))

pub text_eq_self : (a : CacheText) → text_eq a a ≡ true
unfolding text_eq
text_eq_self (doc a) = json_eq_self a
text_eq_self (plain a) = eq_refl a

pub text_eq_iff : (a b : CacheText) → (text_eq a b ≡ true) ↔ (a ≡ b)
unfolding text_eq
text_eq_iff (doc a) (doc b) = ground (arith, json_eq_sound a b, json_eq_self a)
text_eq_iff (plain a) (plain b) = ground (arith, eq_iff a b)
text_eq_iff _ _ = ground arith
