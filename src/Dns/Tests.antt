-- ===== src/Dns/Tests.antt =====
-- Records of two names.
use mathlib.Core.List.{Memᴰ}
use testserver.Prelude.{◌≡◌, refl, true, none, some, List, [], ◌∷◌, ok, map, ◌==◌, if◌then◌else◌}
use testserver.Text.{Text, codes}
use testserver.Dns.{
  Records, get, add, remove, ChallengeStore, Question, set_txt_record, remove_txt_record,
  handle_query,
}
use testserver.Dns.Records.{
  set_txt_record-answered, remove_txt_record-set_txt_record, handle_query-local,
}

dns_run : Unit {0}
unfolding get add remove set_txt_record remove_txt_record handle_query
dns_run = tt

abbrev lower : Text → Text
lower = map (λ c. if c == b'A' then b'a' else c)

-- A store that has the same values for every name.
abbrev shared : ChallengeStore (List Text)
shared = record {
  set = λ name value s. value ∷ s;
  remove_from = λ name value s. s;
  get_shared = λ name s. ok s;
}

abbrev records : Records
records = (codes "a.test", codes "one" ∷ []) ∷ []

abbrev question : Question
question = record { name = codes "A.test"; is_txt = true }

abbrev challenge : Question
challenge = record { name = codes "_acme-challenge.b"; is_txt = true }

two_values :
    handle_query lower
      (some shared)
      question
      (set_txt_record lower (some shared) (codes "A.test") (codes "two") (records, []))
    ≡ record { name = codes "A.test"; data_text = codes "one" }
      ∷ record { name = codes "A.test"; data_text = codes "two" }
      ∷ []
unfolding dns_run
two_values = refl

from_the_store :
    handle_query lower (some shared) challenge (records, codes "x" ∷ codes "x" ∷ [])
    ≡ record { name = codes "_acme-challenge.b"; data_text = codes "x" } ∷ []
unfolding dns_run
from_the_store = refl

last_value_removed :
    remove_txt_record lower none (codes "a.test") (codes "one") (records, codes "x" ∷ [])
    ≡ ([], codes "x" ∷ [])
unfolding dns_run
last_value_removed = refl

set_txt_record-answered_example :
    Memᴰ
      (record { name = codes "A.test"; data_text = codes "two" })
      (handle_query lower
        (some shared)
        question
        (set_txt_record lower (some shared) (codes "a.test") (codes "two") (records, [])))
set_txt_record-answered_example =
    set_txt_record-answered lower (some shared) (codes "a.test") (codes "two") question records []
      refl refl

remove_txt_record-set_txt_record_example :
    (remove_txt_record lower
      (some shared)
      (codes "a.test")
      (codes "two")
      (set_txt_record lower (some shared) (codes "a.test") (codes "two") (records, []))).0
    ≡ records
unfolding dns_run
remove_txt_record-set_txt_record_example =
    remove_txt_record-set_txt_record lower (some shared) (codes "a.test") (codes "two") records []
      refl (λ e. cc)

handle_query-local_example :
    handle_query lower (some shared) question (records, [])
    ≡ handle_query lower (some shared) question (records, codes "x" ∷ [])
handle_query-local_example =
    handle_query-local lower (some shared) question records [] (codes "x" ∷ []) refl
