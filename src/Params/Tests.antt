-- ===== src/Params/Tests.antt =====
-- Parameters of messages that hold what was written last.
use vanguard_go.Fields.Sample.{full_name, library, title, written_by}
use vanguard_go.Params.{out_of_range}
use vanguard_go.Params.Interface.{of_string}
use vanguard_go.Params.Sample.{Card, blank, cards, cards-IsLawful, no_codecs}
use vanguard_go.Params.Marshal.{
  get_parameter, marshal_field_value, marshal_kind, marshal_string, marshal_within, set_parameter,
}
use vanguard_go.Params.RoundTrip.{a_string, get_parameter-set_parameter, unmarshal-marshal}
use vanguard_go.Params.{unmarshal_field_value}
use vanguard_go.Prelude.{[], codes, ok, refl, ◌++◌, ◌∷◌, ◌≡◌}

unmarshal-marshal_example :
    unmarshal_field_value library cards no_codecs blank title (codes "Dune")
    ≡ ok (of_string (codes "Dune"))
unmarshal-marshal_example =
    unmarshal-marshal library cards no_codecs out_of_range title (of_string (codes "Dune")) blank
      (codes "Dune") (a_string (codes "Dune") refl)
      (unfold marshal_field_value marshal_within marshal_kind marshal_string in refl)

get_parameter-set_parameter_example :
    (changed : Card) × (set_parameter library cards no_codecs out_of_range blank
        ((written_by ∷ []) ++ (full_name ∷ []))
        (codes "Frank")
      ≡ ok changed)
    × (get_parameter library cards no_codecs out_of_range changed
          ((written_by ∷ []) ++ (full_name ∷ []))
          0
        ≡ ok (codes "Frank"))
get_parameter-set_parameter_example =
    get_parameter-set_parameter library cards no_codecs out_of_range cards-IsLawful
      (written_by ∷ []) full_name (of_string (codes "Frank")) blank (codes "Frank") 0 refl
      (a_string (codes "Frank") refl)
      (unfold marshal_field_value marshal_within marshal_kind marshal_string in refl)
