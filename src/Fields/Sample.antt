-- ===== src/Fields/Sample.antt =====
-- A small schema, for tests: a book with a title and an author, who has a name and pen names.
use vanguard_go.Fields.Descriptors.{Reflection}
use vanguard_go.Prelude.{
  Bool, Bytes, Option, arith, bytes_eq, bytes_eq→eq, codes, false, if◌then◌else◌, none, some, true,
  ◌≡◌,
}

pub data Schema : Type 0 where
  book author : Schema

pub data Column : Type 0 where
  title written_by full_name pen_names : Column

abbrev pub column_name : Column → Bytes
column_name title = codes "title"
column_name written_by = codes "written_by"
column_name full_name = codes "full_name"
column_name pen_names = codes "pen_names"

abbrev pub column_json : Column → Bytes
column_json title = codes "title"
column_json written_by = codes "writtenBy"
column_json full_name = codes "fullName"
column_json pen_names = codes "penNames"

abbrev pub pick_column : (Column → Bytes) → Bytes → Column → Option Column → Option Column
pick_column label part c later = if bytes_eq (label c) part then some c else later

abbrev pub column_of : (Column → Bytes) → Schema → Bytes → Option Column
column_of label book part = pick_column label part title (pick_column label part written_by none)
column_of label author part =
    pick_column label part full_name (pick_column label part pen_names none)

pub column_of-label :
    (label : Column → Bytes) (s : Schema) (part : Bytes) (c : Column)
    → column_of label s part ≡ some c
    → label c ≡ part
column_of-label label book part c h =
    ground (arith, bytes_eq→eq (label title) part, bytes_eq→eq (label written_by) part)
column_of-label label author part c h =
    ground (arith, bytes_eq→eq (label full_name) part, bytes_eq→eq (label pen_names) part)

abbrev pub column_repeated : Column → Bool
column_repeated pen_names = true
column_repeated _ = false

abbrev pub column_message : Column → Option Schema
column_message written_by = some author
column_message _ = none

abbrev pub library : Reflection
library = record {
  Message = Schema;
  Field = Column;
  by_name = column_of column_name;
  by_json_name = column_of column_json;
  name = column_name;
  json_name = column_json;
  is_repeated = column_repeated;
  is_list = column_repeated;
  is_map = λ c. false;
  message_of = column_message;
  full_name = λ s. elim s [ book ↦ codes "library.Book" | author ↦ codes "library.Author" ];
  by_name-name = column_of-label column_name;
  by_json_name-json_name = column_of-label column_json;
}
