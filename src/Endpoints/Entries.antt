-- ===== src/Endpoints/Entries.antt =====
-- `entriesToMultidict` of src/httpbin-compat.ts, on the own members of an object and its prototype.
-- Members stand in the order in which they are set, where JavaScript puts those with an index as
-- their key first.
use testserver.Prelude.{
  ℕ, suc, Bool, ◌||◌, Option, none, some, List, [], ◌∷◌, ◌++◌, map, if◌then◌else◌, length, not, all,
}
use testserver.Text.{Text, codes, text_eq, mem_text}
use testserver.Text.Number.{pos, is_digit, to_decimal}
use testserver.Endpoints.{
  Json, null, str, arr, obj, Items, no_items, item, Members, no_members, member, num, texts,
}

unfoldable pub member_get : Members → Text → Option Json
member_get no_members key = none
member_get (member k v ms) key = if text_eq k key then some v else member_get ms key

unfoldable pub member_set : Members → Text → Json → Members
member_set no_members key value = member key value no_members
member_set (member k v ms) key value =
    if text_eq k key then member k value ms else member k v (member_set ms key value)

abbrev pub push_item : Items → Json → Items
push_item no_items j = item j no_items
push_item (item i is) j = item i (push_item is j)

-- The value that `result[k]` gets from its current value and `v`.
abbrev pub add_value : Option Json → Text → Json
add_value none v = str v
add_value (some (arr is)) v = arr (push_item is (str v))
add_value (some j) v = arr (item j (item (str v) no_items))

-- `Object.prototype`'s methods
abbrev object_methods : List Text
object_methods =
    codes "constructor"
    ∷ codes "hasOwnProperty"
    ∷ codes "isPrototypeOf"
    ∷ codes "propertyIsEnumerable"
    ∷ codes "toLocaleString"
    ∷ codes "toString"
    ∷ codes "valueOf"
    ∷ codes "__defineGetter__"
    ∷ codes "__defineSetter__"
    ∷ codes "__lookupGetter__"
    ∷ codes "__lookupSetter__"
    ∷ []

abbrev pub inherited : Text → Bool
inherited k = mem_text k object_methods

-- `Array.prototype`'s methods that `Object.prototype` has not
abbrev array_methods : List Text
array_methods = map codes (
    "at" ∷ "concat" ∷ "copyWithin" ∷ "entries" ∷ "every" ∷ "fill" ∷ "filter" ∷ "find" ∷ "findIndex"
    ∷ "findLast" ∷ "findLastIndex" ∷ "flat" ∷ "flatMap" ∷ "forEach" ∷ "includes" ∷ "indexOf"
    ∷ "join" ∷ "keys" ∷ "lastIndexOf" ∷ "map" ∷ "pop" ∷ "push" ∷ "reduce" ∷ "reduceRight"
    ∷ "reverse" ∷ "shift" ∷ "slice" ∷ "some" ∷ "sort" ∷ "splice" ∷ "toReversed" ∷ "toSorted"
    ∷ "toSpliced" ∷ "unshift" ∷ "values" ∷ "with" ∷ [])

abbrev pub proto : Text
proto = codes "__proto__"

-- The keys that may be found on an array: an index, the length, or a method.
abbrev pub on_array : Text → Bool
on_array k = all is_digit k || (text_eq k (codes "length") || mem_text k array_methods)

-- `result`: its own members, and its prototype, which is `Object.prototype`, or the array that
-- `result.__proto__ = …` puts there, of `Object.prototype` and the values for that key.
pub record Reduced : Type 0 where
  pub members : Members
  pub prototype : Option (List Text)

-- The items of that array. `JSON.stringify` prints `Object.prototype` as an empty object.
abbrev items_of : List Text → Items
items_of vs = item (obj no_members) (texts vs)

abbrev item_at : ℕ → Text → Items → Option Json
item_at n k no_items = none
item_at n k (item j is) = if text_eq (to_decimal n) k then some j else item_at (suc n) k is

-- What an array prototype has for a key. `JSON.stringify` prints a function in an array as `null`.
abbrev pub of_array : List Text → Text → Option Json
of_array vs k =
    if not (on_array k)
    then none
    else if mem_text k array_methods
    then some null
    else if text_eq k (codes "length")
    then some (num (pos (suc (length vs))))
    else item_at 0 k (items_of vs)

abbrev pub of_prototype : Option (List Text) → Text → Option Json
of_prototype none k = none
of_prototype (some vs) k = of_array vs k

abbrev pub or_found : Option Json → Option Json → Option Json
or_found (some j) o = some j
or_found none o = o

-- `result[k]`, for a key that is not `__proto__`
abbrev pub current_value : Reduced → Text → Option Json
current_value r k =
    or_found (member_get r.members k)
      (or_found (of_prototype r.prototype k) (if inherited k then some null else none))

-- `__proto__` is an accessor: an array that is written there becomes the prototype, and grows by the
-- values that follow; its first items are `Object.prototype`, which was read there, and the value.
abbrev pub add_proto : Text → Option (List Text) → Option (List Text)
add_proto v none = some (v ∷ [])
add_proto v (some vs) = some (vs ++ v ∷ [])

-- The body of `entriesToMultidict`'s `reduce`.
abbrev pub add_entry : Reduced → Text → Text → Reduced
add_entry r k v =
    if text_eq k proto
    then record { members = r.members; prototype = add_proto v r.prototype }
    else record {
      members = member_set r.members k (add_value (current_value r k) v);
      prototype = r.prototype;
    }

unfoldable pub add_entries : Reduced → List (Text × Text) → Reduced
add_entries r [] = r
add_entries r ((k, v) ∷ es) = add_entries (add_entry r k v) es

-- `entriesToMultidict`, as the own members that `JSON.stringify` prints
unfoldable pub entries_to_multidict : List (Text × Text) → Members
unfolding add_entries
entries_to_multidict es =
    (add_entries (record { members = no_members; prototype = none }) es).members
