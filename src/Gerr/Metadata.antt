-- ===== src/Gerr/Metadata.antt =====
-- gerr/error.go: the metadata of an error.
use quickgo.Prelude.{
  ◌≡◌, refl, ap, ◌∙◌, Bool, true, false, Option, none, some, List, [], ◌∷◌, String, if◌then◌else◌,
}
use quickgo.Prelude.Dict.{◌is◌, lookup, insert, lookup-insert}
use quickgo.Gerr.Chains.{GErr}
use quickgo.Gerr.{get_metadata_value, metadata_value, metadata_with, with_metadata, value_or_empty}

-- What is read after writes, the latest first.
unfoldable pub last_write : String → List (String × String) → String → String
last_write key [] old = old
last_write key ((k, v) ∷ writes) old =
    let rest = last_write key writes old in if k is key then v else rest

unfoldable pub with_all : List (String × String) → GErr → GErr
unfolding with_metadata
with_all [] e = e
with_all ((k, v) ∷ writes) e = with_metadata k v (with_all writes e)

value_or_empty-if :
    (b : Bool) (v : String) (o : Option String)
    → value_or_empty (if b then some v else o) ≡ (if b then v else value_or_empty o)
unfolding value_or_empty
value_or_empty-if true v o = refl
value_or_empty-if false v o = refl

value-insert :
    (k key v : String) (metadata : List (String × String))
    → value_or_empty (lookup key (insert k v metadata))
      ≡ (if k is key then v else value_or_empty (lookup key metadata))
value-insert k key v metadata =
    ap value_or_empty (lookup-insert k key v metadata)
    ∙ value_or_empty-if (k is key) v (lookup key metadata)

metadata_value-with :
    (k key v : String) (metadata : Option (List (String × String)))
    → metadata_value key (some (metadata_with k v metadata))
      ≡ (if k is key then v else metadata_value key metadata)
unfolding metadata_value metadata_with value_or_empty lookup
metadata_value-with k key v none = value-insert k key v []
metadata_value-with k key v (some metadata) = value-insert k key v metadata

-- `GetMetadataValue` reads, after any chain of `WithMetadata`, what the latest of them for its key wrote,
-- and without such a one what the error had.
pub get_metadata_value-with_all :
    (key : String) (writes : List (String × String)) (e : GErr)
    → get_metadata_value (with_all writes e) key ≡ last_write key writes (get_metadata_value e key)
unfolding get_metadata_value with_all last_write
get_metadata_value-with_all key [] e = refl
get_metadata_value-with_all key ((k, v) ∷ writes) e =
    metadata_value-with k key v (with_all writes e).metadata
    ∙ ap (λ x. if k is key then v else x) (get_metadata_value-with_all key writes e)
