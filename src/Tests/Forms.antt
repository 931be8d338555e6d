-- ===== src/Tests/Forms.antt =====
-- Forms, server/modules/common/PostData.hpp.
use Prim.{tt}
use zhttpd.Base.{
  ℕ, Bool, Bytes, codes, eq_bytes, leb, ◌&&◌, [], ◌∷◌, ◌++◌, none, some, ◌≡◌, refl, inl, inr, arith,
  List, true,
}
use zhttpd.Request.{release}
use zhttpd.Parser.{release_all}
use zhttpd.ProcessingModule.Collected.{Before, data_comes, idle, run_to_end, run_to_end-form}
use zhttpd.Tests.Requests.{reading}
use zhttpd.PostData.{Fields, read_text, read_fields, prepare, at_start, ends_value}
use mathlib.Core.List.{flatten}
use zhttpd.PostData.Forms.{Sent, values, sent_values}
use zhttpd.PostData.{push_field}
use zhttpd.PostData.Decoding.{escape, read_text-escape, read_fields-no_value}

two_fields :
    prepare 5 at_start (codes "a=1&b=%41+c&a=2" ∷ [])
    ≡ some ((codes "a", codes "1" ∷ codes "2" ∷ []) ∷ (codes "b", codes "A c" ∷ []) ∷ [])
unfolding prepare eq_bytes
two_fields = refl

abbrev is_letter : ℕ → Bool
is_letter c = leb b'a' c && leb c b'z'

read_text-escape_example :
    read_text ends_value [] (escape is_letter (codes "a&b") ++ codes "&c=")
    ≡ (codes "a&b", codes "&c=")
read_text-escape_example =
    read_text-escape ends_value is_letter [] (codes "a&b") (codes "&c=") refl
      (
        (omega arith, inr (refl, refl, refl, refl)),
        ((omega arith, inl refl), ((omega arith, inr (refl, refl, refl, refl)), tt)),
      )
      refl

read_fields-no_value_test : read_fields 100 at_start (codes "a&b") ≡ none
unfolding read_text
read_fields-no_value_test =
    read_fields-no_value 100 at_start b'a' (codes "&b") (codes "a") (codes "b") refl refl

-- What comes before the end of a request with a form.
abbrev coming : List Before
coming = data_comes (record { id = 4; bytes = codes "a=1&b=2" }) ∷ idle ∷ []

abbrev sent : List Sent
sent = ((codes "a", codes "1") ∷ (codes "b", codes "2") ∷ []) ∷ []

abbrev fields : Fields
fields = (codes "a", codes "1" ∷ []) ∷ (codes "b", codes "2" ∷ []) ∷ []

run_to_end-form_example :
    (run_to_end 5 (λ fields r. some (true, r)) coming none reading
      ≡ some (
        true,
        some (record { fields = fields; post_data = [] }),
        release (record { id = 4; bytes = codes "a=1&b=2" }) reading,
      ))
    × ((key : Bytes) → values key fields ≡ sent_values key (flatten sent))
unfolding release_all eq_bytes push_field flatten
run_to_end-form_example =
    run_to_end-form 5 (λ fields r. some (true, r)) (λ c. true) sent coming reading
      (release (record { id = 4; bytes = codes "a=1&b=2" }) reading) true refl
      (
        (
          (
            (
              refl,
              ((omega arith, inr (refl, refl, refl, refl)), tt),
              ((omega arith, inr (refl, refl, refl, refl)), tt),
            ),
            (
              (
                refl,
                ((omega arith, inr (refl, refl, refl, refl)), tt),
                ((omega arith, inr (refl, refl, refl, refl)), tt),
              ),
              tt,
            ),
          ),
          omega arith,
        ),
        tt,
      )
      refl
