-- ===== src/Params/Sample.antt =====
-- Messages that hold what was written last, for the tests.
use vanguard_go.Fields.Sample.{book, column_message, library}
use vanguard_go.Number.{ℤ}
use vanguard_go.Params.Interface.{
  Codecs, IsLawful, Messages, Value, of_bool, of_int32, of_int64, of_enum, of_uint32, of_uint64,
  of_float32, of_float64, of_string, of_bytes, of_message, string_kind, message_kind,
}
use vanguard_go.Prelude.{Bool, Bytes, List, [], ap₂, err, false, none, refl, some, ℕ, ◌∷◌, ◌≡◌}

-- A message is blank, or holds a value, a child or a list; floats are left out.
mutual
  pub data Card : Type 0 where
    blank : Card
    holds : Cell → Card
    holds_child : Card → Card
    holds_list : Cells → Card

  pub data Cells : Type 0 where
    nil : Cells
    more : Cell → Cells → Cells

  pub data Cell : Type 0 where
    cell_bool : Bool → Cell
    cell_int32 : ℤ → Cell
    cell_int64 : ℤ → Cell
    cell_enum : ℤ → Cell
    cell_uint32 : ℕ → Cell
    cell_uint64 : ℕ → Cell
    cell_float32 : ℕ → Cell
    cell_float64 : ℕ → Cell
    cell_string : Bytes → Cell
    cell_bytes : Bytes → Cell
    cell_card : Card → Cell

abbrev pub to_cell : Value Card ℕ → Cell
to_cell (of_bool x) = cell_bool x
to_cell (of_int32 x) = cell_int32 x
to_cell (of_int64 x) = cell_int64 x
to_cell (of_enum x) = cell_enum x
to_cell (of_uint32 x) = cell_uint32 x
to_cell (of_uint64 x) = cell_uint64 x
to_cell (of_float32 x) = cell_float32 x
to_cell (of_float64 x) = cell_float64 x
to_cell (of_string x) = cell_string x
to_cell (of_bytes x) = cell_bytes x
to_cell (of_message m) = cell_card m

abbrev pub of_cell : Cell → Value Card ℕ
of_cell (cell_bool x) = of_bool x
of_cell (cell_int32 x) = of_int32 x
of_cell (cell_int64 x) = of_int64 x
of_cell (cell_enum x) = of_enum x
of_cell (cell_uint32 x) = of_uint32 x
of_cell (cell_uint64 x) = of_uint64 x
of_cell (cell_float32 x) = of_float32 x
of_cell (cell_float64 x) = of_float64 x
of_cell (cell_string x) = of_string x
of_cell (cell_bytes x) = of_bytes x
of_cell (cell_card m) = of_message m

of_cell-to_cell : (v : Value Card ℕ) → of_cell (to_cell v) ≡ v
of_cell-to_cell (of_bool x) = refl
of_cell-to_cell (of_int32 x) = refl
of_cell-to_cell (of_int64 x) = refl
of_cell-to_cell (of_enum x) = refl
of_cell-to_cell (of_uint32 x) = refl
of_cell-to_cell (of_uint64 x) = refl
of_cell-to_cell (of_float32 x) = refl
of_cell-to_cell (of_float64 x) = refl
of_cell-to_cell (of_string x) = refl
of_cell-to_cell (of_bytes x) = refl
of_cell-to_cell (of_message m) = refl

abbrev pub to_cells : List (Value Card ℕ) → Cells
to_cells [] = nil
to_cells (v ∷ vs) = more (to_cell v) (to_cells vs)

abbrev pub of_cells : Cells → List (Value Card ℕ)
of_cells nil = []
of_cells (more c cs) = of_cell c ∷ of_cells cs

of_cells-to_cells : (vs : List (Value Card ℕ)) → of_cells (to_cells vs) ≡ vs
of_cells-to_cells [] = refl
of_cells-to_cells (v ∷ vs) = ap₂ (λ x xs. x ∷ xs) (of_cell-to_cell v) (of_cells-to_cells vs)

abbrev pub held : Card → Value Card ℕ
held (holds c) = of_cell c
held _ = of_bool false

abbrev pub child_of : Card → Card
child_of (holds_child c) = c
child_of _ = blank

abbrev pub list_of : Card → List (Value Card ℕ)
list_of (holds_list cs) = of_cells cs
list_of _ = []

abbrev pub cards : Messages library
cards = record {
  Msg = Card;
  Float = ℕ;
  kind = λ c. elim (column_message c) [ none ↦ string_kind | some _ ↦ message_kind ];
  short_name = λ s. [];
  descriptor = λ m. book;
  get = λ m f. held m;
  set = λ m f v. holds (to_cell v);
  elements = λ m f. list_of m;
  with_elements = λ m f vs. holds_list (to_cells vs);
  child = λ m f. child_of m;
  with_child = λ m f c. holds_child c;
  new_child = λ m f. blank;
  enum_name = λ f. none;
  enum_by_name = λ f name. none;
  enum_by_number = λ f z. none;
}

pub cards-IsLawful : IsLawful library cards
cards-IsLawful = record {
  get-set = λ m f v. of_cell-to_cell v;
  child-with_child = λ m f c. refl;
  elements-with_elements = λ m f vs. of_cells-to_cells vs;
}

abbrev pub no_codecs : Codecs Card ℕ ℕ
no_codecs = record {
  json_bool = λ s. err 0;
  json_int = λ bits s. err 0;
  json_uint = λ bits s. err 0;
  json_float = λ bits s. err 0;
  parse_float = λ bits s. none;
  print_float = λ bits x. err 0;
  nan = 0;
  infinity = 1;
  minus_infinity = 2;
  is_nan = λ x. false;
  is_infinity = λ x. false;
  is_minus_infinity = λ x. false;
  decode_base64 = λ url padded s. err 0;
  encode_base64_url = λ s. s;
  is_valid_json = λ s. false;
  quote_text = λ s. s;
  unquote_text = λ s. err 0;
  proto_unmarshal = λ s m. err 0;
  proto_marshal = λ m. err 0;
}
