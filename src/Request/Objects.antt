-- ===== src/Request/Objects.antt =====
-- JSON objects as the requests of the SDK spell them: members with commas between them.
use thing_if_thing_sdk.Prelude.{
  Bool, true, Bytes, codes, List, [], ◌∷◌, ◌++◌, Option, none, some, ◌≡◌, refl, append_assoc,
  append-nil,
}
use thing_if_thing_sdk.Request.Members.{json_string, json_value, optional_member}

-- A member: its key, whether its value is a string, and the value.
abbrev pub Pair : Type 0
Pair = Bytes × Bool × Bytes

abbrev pub pair_text : Pair → Bytes
pair_text (key, is_string, value) = json_string key ++ (codes ":" ++ json_value is_string value)

-- Members that follow another one.
abbrev pub successors : List Pair → Bytes
successors [] = []
successors (p ∷ ps) = codes "," ++ (pair_text p ++ successors ps)

abbrev pub comma_separated : List Pair → Bytes
comma_separated [] = []
comma_separated (p ∷ ps) = pair_text p ++ successors ps

abbrev pub json_object : List Pair → Bytes
json_object ps = codes "{" ++ (comma_separated ps ++ codes "}")

-- No member for NULL.
abbrev pub option_pair : Bytes → Bool → Option Bytes → List Pair
option_pair key is_string none = []
option_pair key is_string (some value) = (key, is_string, value) ∷ []

pub successors-append : (ps qs : List Pair) → successors (ps ++ qs) ≡ successors ps ++ successors qs
successors-append [] qs = refl
successors-append (p ∷ ps) qs = simp (successors-append ps qs, append_assoc)

pub successors-option_pair :
    (key : Bytes) (is_string : Bool) (value : Option Bytes)
    → successors (option_pair key is_string value) ≡ optional_member true is_string key value
successors-option_pair key is_string none = refl
successors-option_pair key is_string (some value) = simp (append_assoc, append-nil)
