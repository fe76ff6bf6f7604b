-- ===== src/Request/Values/Text.antt =====
-- JSON values and their compact text.
use phala_inference_guard.Base.{ℕ, zero, suc, ◌≤◌, List, ◌∷◌}
use phala_inference_guard.Request.Bytes.{quote}
use phala_inference_guard.Request.Values.NumberText.{Number, number_text, IsNumber}
use phala_inference_guard.Request.Values.StringText.{Piece, string_text, ArePieces}

-- `Items` and `Fields` are what stands in an array and in an object that are not empty.
mutual
  pub data Json : Type 0 where
    null_json true_json false_json : Json
    number_json : Number → Json
    string_json : List Piece → Json
    empty_array empty_object : Json
    array_json : Items → Json
    object_json : Fields → Json

  pub data Items : Type 0 where
    last_item : Json → Items
    item : Json → Items → Items

  pub data Fields : Type 0 where
    last_field : List Piece → Json → Fields
    field : List Piece → Json → Fields → Fields

-- The text of a value, before what follows it.
unfoldable mutual
  pub text : Json → List ℕ → List ℕ
  text null_json tail = 110 ∷ 117 ∷ 108 ∷ 108 ∷ tail
  text true_json tail = 116 ∷ 114 ∷ 117 ∷ 101 ∷ tail
  text false_json tail = 102 ∷ 97 ∷ 108 ∷ 115 ∷ 101 ∷ tail
  text (number_json n) tail = number_text n tail
  text (string_json s) tail = quote ∷ string_text s tail
  text empty_array tail = 91 ∷ 93 ∷ tail
  text empty_object tail = 123 ∷ 125 ∷ tail
  text (array_json is) tail = 91 ∷ items_text is tail
  text (object_json fs) tail = 123 ∷ fields_text fs tail

  pub items_text : Items → List ℕ → List ℕ
  items_text (last_item v) tail = text v (93 ∷ tail)
  items_text (item v is) tail = text v (44 ∷ items_text is tail)

  pub fields_text : Fields → List ℕ → List ℕ
  fields_text (last_field k v) tail = quote ∷ string_text k (58 ∷ text v (125 ∷ tail))
  fields_text (field k v fs) tail = quote ∷ string_text k (58 ∷ text v (44 ∷ fields_text fs tail))

-- Values whose numbers and strings are spelled as JSON has it, nested to at most a given depth.
unfoldable mutual
  pub Nests : ℕ → Json → Type 0
  Nests n (number_json m) = IsNumber m
  Nests n (string_json s) = ArePieces s
  Nests n empty_array = 1 ≤ n
  Nests n empty_object = 1 ≤ n
  Nests zero (array_json is) = ⊥
  Nests (suc n) (array_json is) = NestsItems n is
  Nests zero (object_json fs) = ⊥
  Nests (suc n) (object_json fs) = NestsFields n fs
  Nests n _ = Unit

  pub NestsItems : ℕ → Items → Type 0
  NestsItems n (last_item v) = Nests n v
  NestsItems n (item v is) = Nests n v × NestsItems n is

  pub NestsFields : ℕ → Fields → Type 0
  NestsFields n (last_field k v) = ArePieces k × Nests n v
  NestsFields n (field k v fs) = ArePieces k × Nests n v × NestsFields n fs
