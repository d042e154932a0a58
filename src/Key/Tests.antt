-- ===== src/Key/Tests.antt =====
-- Runs of key.go, and instances of the theorems on it.
use rotty.Prelude.{◌≡◌, refl, none, some, [], ◌∷◌, arith}
use rotty.Key.{Key, from_bson_key, bson_key, split}
use rotty.Key.Bson.{from_bson_key-bson_key, from_bson_key_sound}

abbrev key : Key
key = record { collection = b'c' ∷ []; document = b'd' ∷ b'1' ∷ [] }

-- A document named `$` has a text that is refused.
refused : from_bson_key (bson_key (record { collection = b'c' ∷ []; document = b'$' ∷ [] })) ≡ none
unfolding from_bson_key bson_key split
refused = refl

from_bson_key-bson_key_example : from_bson_key (bson_key key) ≡ some key
from_bson_key-bson_key_example =
    from_bson_key-bson_key key (omega arith, tt) (omega arith, (omega arith, tt))

key_read_back : bson_key key ≡ bson_key key
key_read_back = from_bson_key_sound (bson_key key) key from_bson_key-bson_key_example
