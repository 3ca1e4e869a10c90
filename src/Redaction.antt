-- ===== src/Redaction.antt =====
-- Field-name redaction (redaction.py, re-exported by control/redaction.py).
-- A word is the list of its code points. A character that is not ASCII counts as one that splits
-- words, but for the two whose lower case holds an ASCII letter.
pub mod Words
pub mod Masking
pub mod Slots
pub mod Journals
pub mod Rows
mod Examples
use Prim.Native.Char.{Char, code}
use satay_runtime.Prelude.{
  ℕ, zero, suc, ◌+◌, ◌-◌, String, Bool, true, false, ◌&&◌, ◌||◌, Option, none, some, List, [], ◌∷◌,
  ◌++◌, map, any, length, ltb, leb, nat_eq, str_eq, if◌then◌else◌,
}
use satay_runtime.Value.{
  Value, Items, Fields, null, bool, int, float, str, iso, datetime, timedelta, enum, list, tuple,
  dict, tagged, dataclass, model, object, nil, cons, end, field, odd,
}

abbrev pub redacted_text : String
redacted_text = "***REDACTED***"

abbrev default_redaction_patterns : List String
default_redaction_patterns =
    "password" ∷ "passwd" ∷ "secret" ∷ "token" ∷ "api_key" ∷ "apikey" ∷ "access_key" ∷ "accesskey"
    ∷ "private_key" ∷ "credential" ∷ "authorization" ∷ "session_token" ∷ []

-- What stays of the character `c` in s.lower(): U+0130 is lowered to an i and a combining dot,
-- U+212A to a k.
lower : ℕ → List ℕ
lower c =
    if leb b'A' c && leb c b'Z'
    then (c + 32) ∷ []
    else if nat_eq c 0x212A
    then b'k' ∷ []
    else if nat_eq c 0x0130
    then b'i' ∷ 0x0307 ∷ []
    else c ∷ []

lower_text : String → List ℕ
unfolding lower
lower_text String.[] = []
lower_text (String.◌∷◌ c s) = lower (code c) ++ lower_text s

-- [a-z0-9]
is_word_code : ℕ → Bool
is_word_code c = leb b'a' c && leb c b'z' || leb b'0' c && leb c b'9'

-- A word is kept if it is not empty.
keep_word : List ℕ → List (List ℕ) → List (List ℕ)
keep_word [] ws = ws
keep_word w ws = w ∷ ws

-- The words of the text behind `w`, the part of a word that was read.
split_words : List ℕ → List ℕ → List (List ℕ)
unfolding is_word_code keep_word
split_words w [] = keep_word w []
split_words w (c ∷ s) =
    let longer = split_words (w ++ c ∷ []) s in
    let next = split_words [] s in if is_word_code c then longer else keep_word w next

-- tuple(w for w in _WORD_SPLIT.split(s.lower()) if w)
unfoldable pub words : String → List (List ℕ)
unfolding lower_text split_words
words s = split_words [] (lower_text s)

-- l[i:]
abbrev pub drop : ℕ → List (List ℕ) → List (List ℕ)
drop zero l = l
drop (suc i) [] = []
drop (suc i) (w ∷ l) = drop i l

-- l[:m]
abbrev pub take : ℕ → List (List ℕ) → List (List ℕ)
take zero l = []
take (suc m) [] = []
take (suc m) (w ∷ l) = w ∷ take m l

abbrev word_eq : List ℕ → List ℕ → Bool
word_eq [] [] = true
word_eq (a ∷ v) (b ∷ w) = nat_eq a b && word_eq v w
word_eq _ _ = false

abbrev pub words_eq : List (List ℕ) → List (List ℕ) → Bool
words_eq [] [] = true
words_eq (v ∷ vs) (w ∷ ws) = word_eq v w && words_eq vs ws
words_eq _ _ = false

-- l[i : i + len(p)] == p
abbrev pub slice_is : List (List ℕ) → List (List ℕ) → ℕ → Bool
slice_is l p i = words_eq (take (length p) (drop i l)) p

-- any(p(j) for j in range(i, i + n))
any_from : (ℕ → Bool) → ℕ → ℕ → Bool
any_from p i zero = false
any_from p i (suc n) = p i || any_from p (suc i) n

-- 0 < m <= n and any(words[i : i + m] == pattern for i in range(n - m + 1))
unfoldable pub has_run : List (List ℕ) → List (List ℕ) → Bool
unfolding any_from
has_run ws p =
    ltb 0 (length p)
    && leb (length p) (length ws)
    && any_from (slice_is ws p) 0 (length ws - length p + 1)

pub record Redactor : Type 0 where
  pub patterns : List (List (List ℕ))

-- Redactor(patterns)
unfoldable pub new_redactor : Option (List String) → Redactor
new_redactor none = record { patterns = map words default_redaction_patterns }
new_redactor (some source) = record { patterns = map words source }

unfoldable pub matches : Redactor → String → Bool
matches r field_name = let ws = words field_name in any (λ p. has_run ws p) r.patterns

-- A TaggedDict is a mapping, and is rebuilt as a dict; a key that is not a str matches nothing.
unfoldable mutual
  pub redact : Redactor → Value → Value
  redact r (dict d) = dict (redact_fields r d)
  redact r (tagged kind type d) = dict (redact_fields r d)
  redact r (list l) = list (redact_items r l)
  redact r (tuple l) = list (redact_items r l)
  redact r null = null
  redact r (bool b) = bool b
  redact r (int n) = int n
  redact r (float x) = float x
  redact r (str s) = str s
  redact r (iso t) = iso t
  redact r (datetime t) = datetime t
  redact r (timedelta t) = timedelta t
  redact r (enum c v) = enum c v
  redact r (dataclass c d) = dataclass c d
  redact r (model c v) = model c v
  redact r (object c) = object c

  pub redact_items : Redactor → Items → Items
  redact_items r nil = nil
  redact_items r (cons v l) = cons (redact r v) (redact_items r l)

  pub redact_fields : Redactor → Fields → Fields
  redact_fields r end = end
  redact_fields r (field k v d) =
      field k (if matches r k then str redacted_text else redact r v) (redact_fields r d)
  redact_fields r (odd k v d) = odd k (redact r v) (redact_fields r d)

-- s.endswith(p)
ends_with : String → String → Bool
ends_with String.[] p = str_eq "" p
ends_with (String.◌∷◌ c s) p = let rest = ends_with s p in str_eq (String.◌∷◌ c s) p || rest

unfoldable pub is_value_slot : String → Bool
unfolding ends_with
is_value_slot field_name = ends_with field_name "_ref"

unfoldable pub redact_slots : Redactor → Fields → Fields
redact_slots r end = end
redact_slots r (field k v d) =
    field k (if is_value_slot k then redact r v else v) (redact_slots r d)
redact_slots r (odd k v d) = odd k v (redact_slots r d)

unfoldable pub redact_value_slots : Redactor → Value → Value
redact_value_slots r (dict d) = dict (redact_slots r d)
redact_value_slots r (tagged kind type d) = dict (redact_slots r d)
redact_value_slots r v = v
