-- ===== src/Tls/Fields.antt =====
-- Options objects: reading, writing and deleting a key.
use testserver.Prelude.{
  ◌≡◌, refl, Bool, true, false, Option, none, some, [], ◌∷◌, if◌then◌else◌, arith, ◌==◌,
}
use testserver.Text.{Text, text_eq}
use testserver.Text.Laws.{text_eq_iff}
use testserver.Tls.{Value, bool, num, str, Fields}

unfoldable pub get : Text → Fields → Option Value
get key [] = none
get key ((k, v) ∷ fs) = if text_eq k key then some v else get key fs

unfoldable pub set : Text → Value → Fields → Fields
set key v [] = (key, v) ∷ []
set key v ((k, w) ∷ fs) = if text_eq k key then (k, v) ∷ fs else (k, w) ∷ set key v fs

unfoldable pub delete : Text → Fields → Fields
delete key [] = []
delete key ((k, w) ∷ fs) = if text_eq k key then delete key fs else (k, w) ∷ delete key fs

-- `a === b`: two arrays that two calls have made are never the same object.
unfoldable pub value_eq : Value → Value → Bool
value_eq (bool true) (bool b) = b
value_eq (bool false) (bool true) = false
value_eq (bool false) (bool false) = true
value_eq (num a) (num b) = a == b
value_eq (str s) (str t) = text_eq s t
value_eq _ _ = false

pub value_eq-eq : (a b : Value) → value_eq a b ≡ true → a ≡ b
unfolding value_eq
value_eq-eq (bool true) (bool b) h = ground arith
value_eq-eq (bool false) (bool true) h = ground arith
value_eq-eq (bool false) (bool false) h = refl
value_eq-eq (num a) (num b) h = ground arith
value_eq-eq (str s) (str t) h = ground (arith, text_eq_iff s t)
value_eq-eq _ _ h = ground arith

pub get-set :
    (key k : Text) (v : Value) (fs : Fields)
    → get k (set key v fs) ≡ (if text_eq key k then some v else get k fs)
unfolding get set
get-set key k v [] = refl
get-set key k v ((j, w) ∷ fs) =
    ground (arith, get-set key k v fs, text_eq_iff j key, text_eq_iff j k, text_eq_iff key k)

pub get-delete :
    (key k : Text) (fs : Fields)
    → get k (delete key fs) ≡ (if text_eq key k then none else get k fs)
unfolding get delete
get-delete key k [] = ground arith
get-delete key k ((j, w) ∷ fs) =
    ground (arith, get-delete key k fs, text_eq_iff j key, text_eq_iff j k, text_eq_iff key k)
