-- ===== src/Audit/Masker/Clean.antt =====
-- What `mask_dict` guarantees of a payload, and where it does not look.
use pay_shield.Prelude.{
  String, ◌≡◌, refl, Bool, true, false, List, [], ◌∷◌, ap, Bool-cases, inl, inr, if◌then◌else◌,
}
use pay_shield.Audit.Masker.{
  Value, null, flag, num, text, dict, list, Fields, end, field, Items, nil, cons, Regex, mask,
  is_sensitive, mask_sensitive, mask_nested, mask_dict, mask_items, mask_item,
}

-- A text or number under a sensitive key is a text that the masker has been over.
abbrev pub IsMasked : Regex → Value → Type 0
IsMasked re null = Unit
IsMasked re (flag b) = ⊥
IsMasked re (num s) = ⊥
IsMasked re (text t) = (s : String) × (t ≡ mask re s)
IsMasked re (dict fs) = Unit
IsMasked re (list xs) = Unit

-- Every sensitive key of a dict, of the dicts below it, and of the dicts in its lists is masked.
mutual
  pub IsClean : Regex → Value → Type 0
  IsClean re null = Unit
  IsClean re (flag b) = Unit
  IsClean re (num s) = Unit
  IsClean re (text t) = Unit
  IsClean re (dict fs) = IsCleanDict re fs
  IsClean re (list xs) = IsCleanList re xs

  pub IsCleanDict : Regex → Fields → Type 0
  IsCleanDict re end = Unit
  IsCleanDict re (field k v rest) =
      (is_sensitive re k ≡ true → IsMasked re v) × IsClean re v × IsCleanDict re rest

  pub IsCleanList : Regex → Items → Type 0
  IsCleanList re nil = Unit
  IsCleanList re (cons v rest) = IsCleanItem re v × IsCleanList re rest

  pub IsCleanItem : Regex → Value → Type 0
  IsCleanItem re (dict fs) = IsCleanDict re fs
  IsCleanItem re null = Unit
  IsCleanItem re (flag b) = Unit
  IsCleanItem re (num s) = Unit
  IsCleanItem re (text t) = Unit
  IsCleanItem re (list xs) = Unit

module _ (re : Regex) where
  mask_sensitive-IsMasked : (v : Value) → IsMasked re (mask_sensitive re v (mask_nested re v))
  unfolding mask_nested
  mask_sensitive-IsMasked null = tt
  mask_sensitive-IsMasked (flag true) = ("True", refl)
  mask_sensitive-IsMasked (flag false) = ("False", refl)
  mask_sensitive-IsMasked (num s) = (s, refl)
  mask_sensitive-IsMasked (text s) = (s, refl)
  mask_sensitive-IsMasked (dict fs) = tt
  mask_sensitive-IsMasked (list xs) = tt

  mask_sensitive-IsClean :
      (v : Value)
      → IsClean re (mask_nested re v)
      → IsClean re (mask_sensitive re v (mask_nested re v))
  unfolding IsClean
  mask_sensitive-IsClean (flag true) h = tt
  mask_sensitive-IsClean (flag false) h = tt
  mask_sensitive-IsClean null h = h
  mask_sensitive-IsClean (num s) h = tt
  mask_sensitive-IsClean (text s) h = tt
  mask_sensitive-IsClean (dict fs) h = h
  mask_sensitive-IsClean (list xs) h = h

  entry-IsClean :
      (b : Bool) (v : Value)
      → IsClean re (mask_nested re v)
      → let w = (if b then mask_sensitive re v (mask_nested re v) else mask_nested re v) in
        (b ≡ true → IsMasked re w) × IsClean re w
  entry-IsClean true v h = (λ _. mask_sensitive-IsMasked v, mask_sensitive-IsClean v h)
  entry-IsClean false v h = (λ e. absurd (cc e), h)

mutual
  unfolding mask_nested IsClean

  nested-IsClean : (re : Regex) (v : Value) → IsClean re (mask_nested re v)
  nested-IsClean re null = tt
  nested-IsClean re (flag b) = tt
  nested-IsClean re (num s) = tt
  nested-IsClean re (text s) = tt
  nested-IsClean re (dict fs) = dict-IsClean re fs
  nested-IsClean re (list xs) = list-IsClean re xs

  dict-IsClean : (re : Regex) (fs : Fields) → IsCleanDict re (mask_dict re fs)
  dict-IsClean re end = tt
  dict-IsClean re (field k v rest) =
      let h = entry-IsClean re (is_sensitive re k) v (nested-IsClean re v) in
      (h.0, h.1, dict-IsClean re rest)

  list-IsClean : (re : Regex) (xs : Items) → IsCleanList re (mask_items re xs)
  list-IsClean re nil = tt
  list-IsClean re (cons v rest) = (item-IsClean re v, list-IsClean re rest)

  item-IsClean : (re : Regex) (v : Value) → IsCleanItem re (mask_item re v)
  item-IsClean re (dict fs) = dict-IsClean re fs
  item-IsClean re null = tt
  item-IsClean re (flag b) = tt
  item-IsClean re (num s) = tt
  item-IsClean re (text s) = tt
  item-IsClean re (list xs) = tt

abbrev pub keys : Fields → List String
keys end = []
keys (field k v rest) = k ∷ keys rest

keys-mask_dict : (re : Regex) (fs : Fields) → keys (mask_dict re fs) ≡ keys fs
unfolding mask_dict
keys-mask_dict re end = refl
keys-mask_dict re (field k v rest) = ap (λ ks. k ∷ ks) (keys-mask_dict re rest)

-- For every payload, `mask_dict` keeps the keys in their order, and leaves under no sensitive key,
-- at any depth of dicts and of dicts in lists, a number, a Boolean, or a text that is not a masker's
-- output.
pub mask_dict-IsCleanDict :
    (re : Regex) (fs : Fields)
    → (keys (mask_dict re fs) ≡ keys fs) × IsCleanDict re (mask_dict re fs)
mask_dict-IsCleanDict re fs = (keys-mask_dict re fs, dict-IsClean re fs)

-- Items of a list that are not dicts.
abbrev pub texts : List String → Items
texts [] = nil
texts (s ∷ ss) = cons (text s) (texts ss)

texts-mask_items : (re : Regex) (ss : List String) → mask_items re (texts ss) ≡ texts ss
unfolding mask_items
texts-mask_items re [] = refl
texts-mask_items re (s ∷ ss) = ap (λ xs. cons (text s) xs) (texts-mask_items re ss)

-- A list of texts is written as it came, whatever its key is and whatever the patterns match: the
-- masker never looks at it.
pub mask_dict_keeps_texts :
    (re : Regex) (k : String) (ss : List String)
    → mask_dict re (field k (list (texts ss)) end) ≡ field k (list (texts ss)) end
unfolding mask_dict
mask_dict_keeps_texts re k ss = elim (Bool-cases (is_sensitive re k)) [
  | inl e ↦ rw (e, texts-mask_items re ss)
  | inr e ↦ rw (e, texts-mask_items re ss)
]
