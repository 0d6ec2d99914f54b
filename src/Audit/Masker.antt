-- ===== src/Audit/Masker.antt =====
-- store/audit_log.py, `PIIMasker`: the patterns and the walk over a payload. `substitute` stands for
-- the substitution that Python's `re` makes for one pattern, and `lower` for `str.lower`.
pub mod Clean
use pay_shield.Prelude.{String, Bool, true, false, List, [], ◌∷◌, str_eq, any, if◌then◌else◌}

-- a JSON value; a number is the text that `str` gives for it
mutual
  pub data Value : Type 0 where
    null : Value
    flag : Bool → Value
    num : String → Value
    text : String → Value
    dict : Fields → Value
    list : Items → Value

  pub data Fields : Type 0 where
    end : Fields
    field : String → Value → Fields → Fields

  pub data Items : Type 0 where
    nil : Items
    cons : Value → Items → Items

pub data Pattern : Type 0 where
  pan_16 pan_named pan_grouped upi device : Pattern

abbrev pub sensitive_keys : List String
sensitive_keys =
    "pan" ∷ "upi" ∷ "upi_id" ∷ "card_number" ∷ "card_no" ∷ "account_number" ∷ "device_fingerprint"
    ∷ "device_id" ∷ "phone" ∷ "phone_number" ∷ "mobile" ∷ []

pub record Regex : Type 0 where
  pub substitute : Pattern → String → String
  pub lower : String → String

-- `PIIMasker.mask`: the card patterns, then UPI handles, then devices
unfoldable pub mask : Regex → String → String
mask re s = re.substitute device (
    re.substitute upi
      (re.substitute pan_grouped (re.substitute pan_named (re.substitute pan_16 s))))

unfoldable pub is_sensitive : Regex → String → Bool
is_sensitive re k = any (str_eq (re.lower k)) sensitive_keys

-- `isinstance(v, (str, int, float))`, where a Boolean is an int, and its text
abbrev masked_scalar : Regex → Bool → Value
masked_scalar re true = text (mask re "True")
masked_scalar re false = text (mask re "False")

-- the value under a key that is in `SENSITIVE_KEYS`, and `fallback` for a container or null
abbrev mask_sensitive : Regex → Value → Value → Value
mask_sensitive re (text s) fallback = text (mask re s)
mask_sensitive re (num s) fallback = text (mask re s)
mask_sensitive re (flag b) fallback = masked_scalar re b
mask_sensitive re _ fallback = fallback

unfoldable mutual
  -- the branches for a dict and for a list; anything else is kept
  pub mask_nested : Regex → Value → Value
  mask_nested re null = null
  mask_nested re (flag b) = flag b
  mask_nested re (num s) = num s
  mask_nested re (text s) = text s
  mask_nested re (dict fs) = dict (mask_dict re fs)
  mask_nested re (list xs) = list (mask_items re xs)

  pub mask_dict : Regex → Fields → Fields
  mask_dict re end = end
  mask_dict re (field k v rest) =
      let nested = mask_nested re v in
      field k (if is_sensitive re k then mask_sensitive re v nested else nested) (mask_dict re rest)

  -- `mask_dict(i) if isinstance(i, dict) else i`
  pub mask_items : Regex → Items → Items
  mask_items re nil = nil
  mask_items re (cons v rest) = cons (mask_item re v) (mask_items re rest)

  pub mask_item : Regex → Value → Value
  mask_item re (dict fs) = dict (mask_dict re fs)
  mask_item re null = null
  mask_item re (flag b) = flag b
  mask_item re (num s) = num s
  mask_item re (text s) = text s
  mask_item re (list xs) = list xs
